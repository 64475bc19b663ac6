-- ===== src/Harris/Hindsight.antt =====
-- list.rs: what a search that has not found its key knows, while others change the list.
use smr_benchmark.Prelude.{
  ℕ, ◌<◌, ◌≡◌, refl, true, false, Option, none, some, arith, ◌∙◌, sym, ap, subst, ◌⊎◌, inl, inr,
  ℕ_discrete,
}
use smr_benchmark.Harris.{
  Shared, Harris, Event, key_of, Pc, finding, cleaning, stepping, skipping, walking, decided, Move,
  get_start, insert_start, remove_start, find_head, find_end, find_marked, find_less, find_equal,
  find_greater, adjacent, clean, clean_lost, step_head, step_end, step_marked, skip, skip_lost,
  step_less, step_equal, step_greater, walk_head, walk_less, walk_found, walk_end, walk_greater,
  walk_removed, get_done, insert_refused, insert_prepare, insert_link, insert_lost, remove_missed,
  remove_mark, remove_lost, detach, detach_lost, pop_start, pop_empty, pop_load, pop_mark, pop_lost,
  null,
}
use smr_benchmark.Harris.Paths.{Way, Run}
use smr_benchmark.Harris.Invariant.{Linked}
use smr_benchmark.Harris.Entries.{Inv}
use smr_benchmark.Harris.Changes.{linking-Ready, insert-Inv}
use smr_benchmark.Harris.Known.{known, Stopped-Linked}
use smr_benchmark.Harris.Ahead.{
  Ahead, gone, nowhere, not_below, past, past_other, unlink-Ahead, mark-Ahead, prepare-Ahead,
  alloc-Ahead, insert-Ahead,
}

-- The key of the find that a thread is in, from its load of the head on, if it has not found it
abbrev pub sought : Pc → Option ℕ
sought (finding op _ _ _) = some (key_of op)
sought (cleaning op false _ _ _) = some (key_of op)
sought (stepping op _ _) = some (key_of op)
sought (skipping op _ _ _) = some (key_of op)
sought (walking k _) = some k
sought (decided op false _ _) = some (key_of op)
sought _ = none

-- Where a search goes on, if it does
abbrev pub rest : Pc → Option (Option ℕ)
rest (finding op _ _ c) = some c.target
rest (stepping op _ c) = some c.target
rest (skipping op _ _ n) = some n.target
rest (walking k c) = some c.target
rest _ = none

module _ {ℓ} {V : Type ℓ} where
  -- A search that has not found its key has missed it, or everything of its key is ahead.
  abbrev pub Hindsight : (ℕ → Type ℓ) → Harris V → Option ℕ → Option (Option ℕ) → Type ℓ
  Hindsight P m none x = Unit
  Hindsight P m (some k) none = P k
  Hindsight P m (some k) (some x) = P k ⊎ Ahead m k x

  module _ {m : Harris V} {th : ℕ → Pc} {map : ℕ → Option V} (v : Inv m th map) (i : ℕ) where
    -- What is ahead of a search stays ahead, unless its key is inserted now.
    pub Move-Ahead :
        {p p' : Pc} {e : Event V} {m' : Harris V}
        → Move m p e m' p'
        → th i ≡ p
        → (k : ℕ) (x : Option ℕ) → Linked v.linked x
        → Ahead m k x
        → Ahead m' k x ⊎ (map k ≡ none)
    Move-Ahead (insert_start j d) t k x h a =
        inl (alloc-Ahead m v.shape k (record { next = null; key = j; value = d }) x h a)
    Move-Ahead (clean {op} {found} {prev} {prev_next} {curr} e) t k x h a =
        let (q, b, nm, cm, st, r) = known v i t in
        let link = ap (λ (y : Shared). y.marked) e ∙ nm in
        inl (
          unlink-Ahead m v.shape k prev curr b.0 link cm
            (Stopped-Linked m v.linked (key_of op) found curr.target st)
            (subst (λ (y : Shared). Run m.node v.linked y.target curr.target) (sym e) r) x h a)
    Move-Ahead (skip {op} {prev} {curr} {next} e) t k x h a =
        let (q, b, cm, nm, ln, r) = known v i t in
        inl (
          unlink-Ahead m v.shape k prev next b.0 (ap (λ (y : Shared). y.marked) e ∙ cm) nm ln
            (subst (λ (y : Shared). Run m.node v.linked y.target next.target) (sym e) r) x h a)
    Move-Ahead (detach {prev} {curr} {next} e) t k x h a =
        let (lp, cm, nm, ln, r) = known v i t in
        inl (
          unlink-Ahead m v.shape k prev next lp (ap (λ (y : Shared). y.marked) e ∙ cm) nm ln
            (subst (λ (y : Shared). Run m.node v.linked y.target next.target) (sym e) r) x h a)
    Move-Ahead (insert_prepare {k = j} {new} {prev} {curr}) t k x h a =
        let ((lt, fresh, key), b, c, st) = known v i t in
        inl (prepare-Ahead m v.shape k new curr fresh x h a)
    Move-Ahead (insert_link {k = j} {new} {prev} {curr} e) t k x h a = elim (ℕ_discrete j k) [
      | yes q ↦ inr (subst (λ c. map c ≡ none) q (insert-Inv v i j new prev curr t e).1)
      | no ne ↦ inl (
          insert-Ahead m v.shape k j new prev curr (linking-Ready v i j new prev curr t e) ne x h a)
    ]
    Move-Ahead (remove_mark a e um) t k x h q = inl (mark-Ahead m v.shape k a um x h q)
    Move-Ahead (pop_mark {a} um) t k x h q = inl (mark-Ahead m v.shape k a um x h q)
    Move-Ahead (get_start j) t k x h a = inl a
    Move-Ahead (remove_start j) t k x h a = inl a
    Move-Ahead find_head t k x h a = inl a
    Move-Ahead (find_end e) t k x h a = inl a
    Move-Ahead (find_marked b e q) t k x h a = inl a
    Move-Ahead (find_less b e q l) t k x h a = inl a
    Move-Ahead (find_equal b e q l) t k x h a = inl a
    Move-Ahead (find_greater b e q l) t k x h a = inl a
    Move-Ahead (adjacent e) t k x h a = inl a
    Move-Ahead (clean_lost e) t k x h a = inl a
    Move-Ahead step_head t k x h a = inl a
    Move-Ahead (step_end e) t k x h a = inl a
    Move-Ahead (step_marked b e q) t k x h a = inl a
    Move-Ahead (skip_lost e) t k x h a = inl a
    Move-Ahead (step_less b e q l) t k x h a = inl a
    Move-Ahead (step_equal b e q l) t k x h a = inl a
    Move-Ahead (step_greater b e q l) t k x h a = inl a
    Move-Ahead walk_head t k x h a = inl a
    Move-Ahead (walk_less b e q) t k x h a = inl a
    Move-Ahead (walk_found b e q l) t k x h a = inl a
    Move-Ahead (walk_end e) t k x h a = inl a
    Move-Ahead (walk_greater b e l) t k x h a = inl a
    Move-Ahead (walk_removed b e q l) t k x h a = inl a
    Move-Ahead get_done t k x h a = inl a
    Move-Ahead insert_refused t k x h a = inl a
    Move-Ahead (insert_lost e) t k x h a = inl a
    Move-Ahead remove_missed t k x h a = inl a
    Move-Ahead (remove_lost b e q) t k x h a = inl a
    Move-Ahead (detach_lost e) t k x h a = inl a
    Move-Ahead pop_start t k x h a = inl a
    Move-Ahead (pop_empty e) t k x h a = inl a
    Move-Ahead (pop_load b e) t k x h a = inl a
    Move-Ahead (pop_lost e) t k x h a = inl a

    -- The search is over: nothing of its key is ahead.
    pub conclude :
        (P : ℕ → Type ℓ) (k : ℕ) (x : Option ℕ)
        → (map k ≡ none → P k)
        → P k ⊎ Ahead m k x
        → ((b : ℕ) → (m.node b).key ≡ k → (m.node b).next.marked ≡ false → Way m.node x b → ⊥)
        → P k
    conclude P k x note (inl h) f = h
    conclude P k x note (inr a) f =
        note (gone v.shape v.represents k (λ b key um w. f b key um (a b key um w)))

    skip_marked :
        (P : ℕ → Type ℓ) {k a : ℕ} {x : Option ℕ}
        → x ≡ some a
        → (m.node a).next.marked ≡ true
        → P k ⊎ Ahead m k x
        → P k ⊎ Ahead m k (m.node a).next.target
    skip_marked P e mk (inl h) = inl h
    skip_marked P {a} e mk (inr f) = inr (λ b key um w.
        past_other (subst (λ y. Way m.node y b) e (f b key um w))
          (λ q. ground (arith, subst (λ c. (m.node c).next.marked ≡ true) q mk, um)))

    skip_less :
        (P : ℕ → Type ℓ) {k a : ℕ} {x : Option ℕ}
        → x ≡ some a
        → (m.node a).key < k
        → P k ⊎ Ahead m k x
        → P k ⊎ Ahead m k (m.node a).next.target
    skip_less P e lt (inl h) = inl h
    skip_less P {a} e lt (inr f) =
        inr (λ b key um w.
          past (subst (λ y. Way m.node y b) e (f b key um w)) (omega (arith, lt, key)))

    pub too_far :
        {k a : ℕ} {x : Option ℕ}
        → x ≡ some a
        → k < (m.node a).key
        → (b : ℕ) → (m.node b).key ≡ k
        → (m.node b).next.marked ≡ false
        → Way m.node x b
        → ⊥
    too_far e lt b key um w =
        let le = not_below (subst (λ y. Way m.node y b) e w) in omega (arith, lt, key, le)

    -- Each step of a search keeps what it knows.
    pub Move-Hindsight :
        {p p' : Pc} {e : Event V} {m' : Harris V}
        → Move m p e m' p'
        → th i ≡ p
        → (P : ℕ → Type ℓ) → ((k : ℕ) → sought p ≡ some k → map k ≡ none → P k)
        → Hindsight P m (sought p) (rest p)
        → Hindsight P m' (sought p') (rest p')
    Move-Hindsight find_head t P note h = inr (λ b key um w. w)
    Move-Hindsight (find_end {op} {prev} {prev_next} {curr} e) t P note h =
        conclude P (key_of op) curr.target (note (key_of op) refl) h (λ b key um w. nowhere w e)
    Move-Hindsight (find_marked a e mk) t P note h = skip_marked P e mk h
    Move-Hindsight (find_less a e um lt) t P note h = skip_less P e lt h
    Move-Hindsight (find_equal a e um key) t P note h = tt
    Move-Hindsight (find_greater {op} {prev} {prev_next} {curr} a e um lt) t P note h =
        conclude P (key_of op) curr.target (note (key_of op) refl) h (too_far e lt)
    Move-Hindsight (adjacent {op} {found = false} e) t P note h = h
    Move-Hindsight (adjacent {op} {found = true} e) t P note h = tt
    Move-Hindsight (clean {op} {found = false} e) t P note h = h
    Move-Hindsight (clean {op} {found = true} e) t P note h = tt
    Move-Hindsight step_head t P note h = inr (λ b key um w. w)
    Move-Hindsight (step_end {op} {prev} {curr} e) t P note h =
        conclude P (key_of op) curr.target (note (key_of op) refl) h (λ b key um w. nowhere w e)
    Move-Hindsight (step_marked a e mk) t P note h = skip_marked P e mk h
    Move-Hindsight (skip {op} {prev} {curr} {next} e) t P note (inl h) = inl h
    Move-Hindsight (skip {op} {prev} {curr} {next} e) t P note (inr a) =
        elim (Move-Ahead (skip e) t (key_of op) next.target (known v i t).4 a) [
          | inl ahead ↦ inr ahead
          | inr gap ↦ inl (note (key_of op) refl gap)
        ]
    Move-Hindsight (step_less a e um lt) t P note h = skip_less P e lt h
    Move-Hindsight (step_equal a e um key) t P note h = tt
    Move-Hindsight (step_greater {op} {prev} {curr} a e um lt) t P note h =
        conclude P (key_of op) curr.target (note (key_of op) refl) h (too_far e lt)
    Move-Hindsight walk_head t P note h = inr (λ b key um w. w)
    Move-Hindsight (walk_less a e lt) t P note h = skip_less P e lt h
    Move-Hindsight (get_start j) t P note h = tt
    Move-Hindsight (insert_start j d) t P note h = tt
    Move-Hindsight (remove_start j) t P note h = tt
    Move-Hindsight (clean_lost e) t P note h = tt
    Move-Hindsight (skip_lost e) t P note h = tt
    Move-Hindsight (walk_found b e q l) t P note h = tt
    Move-Hindsight (walk_end e) t P note h = tt
    Move-Hindsight (walk_greater b e l) t P note h = tt
    Move-Hindsight (walk_removed b e q l) t P note h = tt
    Move-Hindsight get_done t P note h = tt
    Move-Hindsight insert_refused t P note h = tt
    Move-Hindsight insert_prepare t P note h = tt
    Move-Hindsight (insert_link e) t P note h = tt
    Move-Hindsight (insert_lost e) t P note h = tt
    Move-Hindsight remove_missed t P note h = tt
    Move-Hindsight (remove_mark b e q) t P note h = tt
    Move-Hindsight (remove_lost b e q) t P note h = tt
    Move-Hindsight (detach e) t P note h = tt
    Move-Hindsight (detach_lost e) t P note h = tt
    Move-Hindsight pop_start t P note h = tt
    Move-Hindsight (pop_empty e) t P note h = tt
    Move-Hindsight (pop_load b e) t P note h = tt
    Move-Hindsight (pop_mark e) t P note h = tt
    Move-Hindsight (pop_lost e) t P note h = tt
