-- ===== src/Buckets/Keys.antt =====
-- michael_hash_map.rs: an operation works for one key.
use smr_benchmark.Prelude.{ℕ, ◌≢◌, refl}
use smr_benchmark.Harris.{
  Harris, Event, inserts, removes, finds, silent, key_of, Pc, idle, trying, finding, cleaning,
  stepping, skipping, walking, decided, linking, detaching, popping, marking, Move, get_start,
  insert_start, remove_start, find_head, find_end, find_marked, find_less, find_equal, find_greater,
  adjacent, clean, clean_lost, step_head, step_end, step_marked, skip, skip_lost, step_less,
  step_equal, step_greater, walk_head, walk_less, walk_found, walk_end, walk_greater, walk_removed,
  get_done, insert_refused, insert_prepare, insert_link, insert_lost, remove_missed, remove_mark,
  remove_lost, detach, detach_lost, pop_start, pop_empty, pop_load, pop_mark, pop_lost,
}

-- What holds of the key that a thread works for; no operation of the hash map pops.
abbrev pub For : (ℕ → Type 0) → Pc → Type 0
For P idle = Unit
For P (trying op) = P (key_of op)
For P (finding op _ _ _) = P (key_of op)
For P (cleaning op _ _ _ _) = P (key_of op)
For P (stepping op _ _) = P (key_of op)
For P (skipping op _ _ _) = P (key_of op)
For P (walking k _) = P k
For P (decided op _ _ _) = P (key_of op)
For P (linking k _ _ _) = P k
For P (detaching _ _ _) = Unit
For P popping = ⊥
For P (marking _ _) = ⊥

module _ {ℓ} {V : Type ℓ} where
  abbrev pub Of : (ℕ → Type 0) → Event V → Type 0
  Of P (inserts k v) = P k
  Of P (removes k v) = P k
  Of P (finds k v) = P k
  Of P silent = Unit

  -- A step of an operation works for its key.
  pub Move-For :
      (P : ℕ → Type 0) {m : Harris V} {p : Pc} {e : Event V} {m' : Harris V} {p' : Pc}
      → Move m p e m' p'
      → p ≢ idle
      → For P p
      → For P p' × Of P e
  Move-For P (get_start k) ne h = absurd (ne refl)
  Move-For P (insert_start k v) ne h = absurd (ne refl)
  Move-For P (remove_start k) ne h = absurd (ne refl)
  Move-For P pop_start ne h = absurd (ne refl)
  Move-For P find_head ne h = (h, tt)
  Move-For P (find_end a) ne h = (h, tt)
  Move-For P (find_marked a b c) ne h = (h, tt)
  Move-For P (find_less a b c d) ne h = (h, tt)
  Move-For P (find_greater a b c d) ne h = (h, tt)
  Move-For P (adjacent a) ne h = (h, tt)
  Move-For P (clean a) ne h = (h, tt)
  Move-For P (clean_lost a) ne h = (h, tt)
  Move-For P step_head ne h = (h, tt)
  Move-For P (step_end a) ne h = (h, tt)
  Move-For P (step_marked a b c) ne h = (h, tt)
  Move-For P (skip a) ne h = (h, tt)
  Move-For P (skip_lost a) ne h = (h, tt)
  Move-For P (step_less a b c d) ne h = (h, tt)
  Move-For P (step_greater a b c d) ne h = (h, tt)
  Move-For P walk_head ne h = (h, tt)
  Move-For P (walk_less a b c) ne h = (h, tt)
  Move-For P insert_prepare ne h = (h, tt)
  Move-For P (insert_lost a) ne h = (h, tt)
  Move-For P (remove_lost a b c) ne h = (h, tt)
  Move-For P (find_equal a b c d) ne h = (h, h)
  Move-For P (step_equal a b c d) ne h = (h, h)
  Move-For P (walk_found a b c d) ne h = (tt, h)
  Move-For P (insert_link a) ne h = (tt, h)
  Move-For P (remove_mark a b c) ne h = (tt, h)
  Move-For P (walk_end a) ne h = (tt, tt)
  Move-For P (walk_greater a b c) ne h = (tt, tt)
  Move-For P (walk_removed a b c d) ne h = (tt, tt)
  Move-For P get_done ne h = (tt, tt)
  Move-For P insert_refused ne h = (tt, tt)
  Move-For P remove_missed ne h = (tt, tt)
  Move-For P (detach a) ne h = (tt, tt)
  Move-For P (detach_lost a) ne h = (tt, tt)
  Move-For P (pop_empty a) ne h = absurd h
  Move-For P (pop_load a b) ne h = absurd h
  Move-For P (pop_mark a) ne h = absurd h
  Move-For P (pop_lost a) ne h = absurd h
