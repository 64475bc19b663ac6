-- ===== src/Bonsai/Map/Linear.antt =====
-- bonsai_tree.rs: `insert` and `remove` among other operations, and the exchange of the root.
use smr_benchmark.Prelude.{
  ℕ, zero, suc, ◌≡◌, refl, Bool, true, List, Option, none, some, arith, sym,
}
use smr_benchmark.Bonsai.Order.{Ord}
use smr_benchmark.Bonsai.Entries.{IsSorted, find_entry, insert_entry, erase_entry}
use smr_benchmark.Bonsai.Node.{Shared, ptr_eq, entries, IsGood}
use smr_benchmark.Bonsai.State.{State, M, ◌>>=◌, Ensures}
use smr_benchmark.Bonsai.Balance.Laws.{Built}
use smr_benchmark.Bonsai.Update.{do_insert, do_remove}
use smr_benchmark.Bonsai.Update.Insert.{Answers, is_none, do_insert-Answers}
use smr_benchmark.Bonsai.Update.Remove.{do_remove-Answers}
use smr_benchmark.Bonsai.Map.{Outcome, spinning, returned, attempt, update_loop, insert, remove}
use smr_benchmark.Bonsai.Map.Attempt.{Won, Rounded, attempt-Rounded}

module _ {ℓ κ} {K : Type ℓ} {V : Type κ} where
  -- What an operation may rely on of its shared root: every tree that it loads is good and in
  -- order, and a pointer that it meets again leads to the same tree, since a published node is
  -- neither written nor freed.
  pub record Published ⦃o : Ord K⦄ (root_at : ℕ → Shared K V) : Type (ℓ ⊔ κ) where
    pub good : (n : ℕ) → IsGood (root_at n)
    pub sorted : (n : ℕ) → IsSorted (entries (root_at n))
    pub same : (n m : ℕ) → ptr_eq (root_at n) (root_at m) ≡ true → root_at n ≡ root_at m

  -- No other operation stores to the root.
  abbrev pub Quiet : (ℕ → Shared K V) → Type 0
  Quiet root_at = (n m : ℕ) → ptr_eq (root_at n) (root_at m) ≡ true

module _ {ℓ κ μ} {K : Type ℓ} {V : Type κ} {B : Type μ} ⦃o : Ord K⦄ (root_at : ℕ → Shared K V)
    (change : List (K × V) → List (K × V)) (answer : List (K × V) → B) where
  -- The exchange of the operation is its last load of the root, number `n`. The new root is a good
  -- tree with the entries of the root at that moment, changed, and the answer is about that root.
  pub record Committed (b : B) (new : Shared K V) (t : State K V) : Type (ℓ ⊔ κ ⊔ μ) where
    pub n : ℕ
    pub last : t.loads ≡ suc n
    pub made : Built (change (entries (root_at n))) new
    pub says : b ≡ answer (entries (root_at n))
    pub clean : t.new_nodes ≡ List.[]

  abbrev pub Finished : Outcome (B × Shared K V) → State K V → Type (ℓ ⊔ κ ⊔ μ)
  Finished spinning t = Unit
  Finished (returned (b, new)) t = Committed b new t

  module _ (update : Shared K V → M K V (Shared K V × B)) (pub_roots : Published root_at)
      (ensured : (n : ℕ)
        → Ensures (root_at n) (update (root_at n)) (
            Answers root_at
              (root_at n)
              (change (entries (root_at n)))
              (answer (entries (root_at n))))) where
    commits :
        (m : ℕ) {b : B} {new : Shared K V} {t : State K V} (w : Won root_at change answer b new t)
        → w.old ≡ root_at m
        → Committed b new t
    commits m w e =
        let back : w.old ≡ root_at w.n = rw e (sym (pub_roots.same w.n m (rw e at w.found))) in
        record {
          n = w.n;
          last = w.last;
          made = rw (← back) w.made;
          says = rw (← back) w.says;
          clean = w.clean;
        }

    abbrev Runs : ℕ → State K V → Type (ℓ ⊔ κ ⊔ μ)
    Runs fuel s =
        (x : Outcome (B × Shared K V)) × (t : State K V) × (update_loop root_at fuel update s
          ≡ some (x, t))
        × Finished x t

    -- A round, and then what is left of the fuel
    one_more : (fuel : ℕ) (s : State K V) → ((t : State K V) → Runs fuel t) → Runs (suc fuel) s
    unfolding update_loop
    one_more fuel s rest =
        let (x, t, e, r) = attempt-Rounded root_at change answer update s (ensured s.loads) in
        next x t e r
      where
        next :
            (x : Option (B × Shared K V)) (t : State K V)
            → attempt root_at update s ≡ some (x, t)
            → Rounded root_at change answer (root_at s.loads) x t
            → Runs (suc fuel) s
        next none t e r = let (y, u, e', f) = rest t in (y, u, rw (e, ◌>>=◌) e', f)
        next (some (b, new)) t e r = (returned (b, new), t, rw (e, ◌>>=◌), commits s.loads r.0 r.1)

    pub update_loop-Finished : (fuel : ℕ) (s : State K V) → Runs fuel s
    unfolding update_loop
    update_loop-Finished zero s = (spinning, s, refl, tt)
    update_loop-Finished (suc fuel) s = one_more fuel s (update_loop-Finished fuel)

    pub update_loop-Quiet :
        (fuel : ℕ) (s : State K V)
        → Quiet root_at
        → (b : B) × (new : Shared K V) × (t : State K V) × (update_loop root_at (suc fuel) update s
            ≡ some (returned (b, new), t))
          × Committed b new t
    unfolding update_loop
    update_loop-Quiet fuel s quiet =
        let (x, t, e, r) = attempt-Rounded root_at change answer update s (ensured s.loads) in
        next x t e r
      where
        next :
            (x : Option (B × Shared K V)) (t : State K V)
            → attempt root_at update s ≡ some (x, t)
            → Rounded root_at change answer (root_at s.loads) x t
            → (b : B) × (new : Shared K V) × (u : State K V) × (update_loop root_at
                  (suc fuel)
                  update
                  s
                ≡ some (returned (b, new), u))
              × Committed b new u
        next none t e r = absurd (ground (arith, r.stale.1, quiet s.loads r.stale.0))
        next (some (b, new)) t e r = (b, new, t, rw (e, ◌>>=◌), commits s.loads r.0 r.1)

module _ {ℓ κ} {K : Type ℓ} {V : Type κ} ⦃o : Ord K⦄ (root_at : ℕ → Shared K V)
    (roots : Published root_at) where
  -- Whatever other operations store to the root, as long as what they publish are good trees in
  -- order under addresses that stay: `insert` faults in no case, and when it returns, its exchange
  -- has replaced the root that it found by a good tree with the entry inserted, unless the key was
  -- in that root, and it returns whether it was not.
  pub insert-Finished :
      (fuel : ℕ) (q : K) (w : V) (s : State K V)
      → (x : Outcome (Bool × Shared K V)) × (t : State K V) × (insert root_at fuel q w s
          ≡ some (x, t))
        × Finished root_at (insert_entry q w) (λ xs. is_none (find_entry q xs)) x t
  unfolding insert
  insert-Finished fuel q w s =
      update_loop-Finished root_at (insert_entry q w) (λ xs. is_none (find_entry q xs))
        (λ root. do_insert root_at root q w) roots
        (λ n. do_insert-Answers (root_at n) root_at (root_at n) q w (roots.good n) (roots.sorted n))
        fuel s

  -- The same of `remove`: it erases the entry of the key, and returns the value that was there.
  pub remove-Finished :
      (fuel : ℕ) (q : K) (s : State K V)
      → (x : Outcome (Option V × Shared K V)) × (t : State K V) × (remove root_at fuel q s
          ≡ some (x, t))
        × Finished root_at (erase_entry q) (find_entry q) x t
  unfolding remove
  remove-Finished fuel q s =
      update_loop-Finished root_at (erase_entry q) (find_entry q) (λ root. do_remove root_at root q)
        roots
        (λ n. do_remove-Answers (root_at n) root_at (root_at n) q (roots.good n) (roots.sorted n))
        fuel s

  -- If no other operation stores to the root, the first round of `insert` returns, and has
  -- inserted the entry.
  pub insert-Quiet :
      (fuel : ℕ) (q : K) (w : V) (s : State K V)
      → Quiet root_at
      → (b : Bool) × (new : Shared K V) × (t : State K V) × (insert root_at (suc fuel) q w s
          ≡ some (returned (b, new), t))
        × Committed root_at (insert_entry q w) (λ xs. is_none (find_entry q xs)) b new t
  unfolding insert
  insert-Quiet fuel q w s quiet =
      update_loop-Quiet root_at (insert_entry q w) (λ xs. is_none (find_entry q xs))
        (λ root. do_insert root_at root q w) roots
        (λ n. do_insert-Answers (root_at n) root_at (root_at n) q w (roots.good n) (roots.sorted n))
        fuel s quiet

  -- If no other operation stores to the root, the first round of `remove` returns, and has erased
  -- the entry.
  pub remove-Quiet :
      (fuel : ℕ) (q : K) (s : State K V)
      → Quiet root_at
      → (b : Option V) × (new : Shared K V) × (t : State K V) × (remove root_at (suc fuel) q s
          ≡ some (returned (b, new), t))
        × Committed root_at (erase_entry q) (find_entry q) b new t
  unfolding remove
  remove-Quiet fuel q s quiet =
      update_loop-Quiet root_at (erase_entry q) (find_entry q) (λ root. do_remove root_at root q)
        roots
        (λ n. do_remove-Answers (root_at n) root_at (root_at n) q (roots.good n) (roots.sorted n))
        fuel s quiet
