-- ===== src/Bonsai/Map/Attempt.antt =====
-- bonsai_tree.rs: one round of the loop of `insert` and `remove`.
use smr_benchmark.Prelude.{
  ℕ, suc, ◌≡◌, refl, true, false, List, Option, none, some, inl, inr, Bool-cases,
}
use smr_benchmark.Bonsai.Node.{
  Shared, ptr_eq, entries, is_retired-IsGood, retired_node-is_retired, ptr_eq_comm,
}
use smr_benchmark.Bonsai.State.{
  State, M, ◌>>=◌, abort, commit, load_link, load_root, Ensures, Stale,
}
use smr_benchmark.Bonsai.Balance.Laws.{Built}
use smr_benchmark.Bonsai.Update.Insert.{Answers}
use smr_benchmark.Bonsai.Map.{attempt, curr_root, compare_exchange}

module _ {ℓ κ μ} {K : Type ℓ} {V : Type κ} {B : Type μ} (root_at : ℕ → Shared K V)
    (change : List (K × V) → List (K × V)) (answer : List (K × V) → B) where
  pub record Lost (old : Shared K V) : Type (ℓ ⊔ κ ⊔ μ) where
    pub stale : Stale root_at old

  -- The root that was loaded as number `n` has been changed into `new`, with this answer: the
  -- exchange found the root `old` at load `n`, the last of the operation.
  pub record Won (b : B) (new : Shared K V) (t : State K V) : Type (ℓ ⊔ κ ⊔ μ) where
    pub n : ℕ
    pub old : Shared K V
    pub last : t.loads ≡ suc n
    pub found : ptr_eq (root_at n) old ≡ true
    pub made : Built (change (entries old)) new
    pub says : b ≡ answer (entries old)
    pub clean : t.new_nodes ≡ List.[]

  -- A round that loses does so because some load of the root differs from the first.
  abbrev pub Rounded : Shared K V → Option (B × Shared K V) → State K V → Type (ℓ ⊔ κ ⊔ μ)
  Rounded old none t = Lost old
  Rounded old (some (b, new)) t = (w : Won b new t) × (w.old ≡ old)

  compared : (old : Shared K V) → (n : ℕ) → ptr_eq (root_at n) old ≡ false → Stale root_at old
  compared old n e = (n, rw (ptr_eq_comm old (root_at n)) e)

  -- On what `do_insert` and `do_remove` ensure, a round faults in no case; it wins and has made the
  -- change on the root that it has loaded, or loses because the root has changed.
  pub attempt-Rounded :
      (update : Shared K V → M K V (Shared K V × B)) (s : State K V)
      → Ensures (root_at s.loads) (update (root_at s.loads)) (
          Answers root_at
            (root_at s.loads)
            (change (entries (root_at s.loads)))
            (answer (entries (root_at s.loads))))
      → (x : Option (B × Shared K V)) × (t : State K V) × (attempt root_at update s ≡ some (x, t))
        × Rounded (root_at s.loads) x t
  unfolding attempt load_root curr_root compare_exchange load_link abort commit
  attempt-Rounded update s h =
      let old = root_at s.loads in
      let (r, t, e, j, ans) = h (record s { curr_root = old; loads = suc s.loads }) refl in
      elim ans [
        | inl lost ↦ (
          none,
          record t { new_nodes = List.[] },
          rw (e, ◌>>=◌, retired_node-is_retired r.0 lost.1),
          record { stale = lost.0 },
        )
        | inr made ↦ elim (Bool-cases (ptr_eq (root_at t.loads) old)) [
          | inl won ↦ (
            some (r.1, r.0),
            record t { loads = suc t.loads; new_nodes = List.[] },
            rw (e, ◌>>=◌, is_retired-IsGood r.0 made.0.0, won),
            (
              record {
                n = t.loads;
                old = old;
                last = refl;
                found = won;
                made = made.0;
                says = made.1;
                clean = refl;
              },
              refl,
            ),
          )
          | inr not_won ↦ (
            none,
            record t { loads = suc t.loads; new_nodes = List.[] },
            rw (e, ◌>>=◌, is_retired-IsGood r.0 made.0.0, not_won),
            record { stale = compared old t.loads not_won },
          )
        ]
      ]
