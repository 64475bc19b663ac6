-- ===== src/Bonsai/Map/RoundTrip.antt =====
-- bonsai_tree.rs: `get` before and after `insert` and `remove`, with no other operation between.
use smr_benchmark.Prelude.{ℕ, suc, ◌≡◌, ◌≢◌, Bool, List, Option, none, some, sym, ◌∙◌, ap, subst}
use smr_benchmark.Bonsai.Order.{Ord}
use smr_benchmark.Bonsai.Entries.{IsSorted, find_entry, insert_entry, erase_entry}
use smr_benchmark.Bonsai.Entries.Laws.{insert_entry_map, erase_entry_map, or_else}
use smr_benchmark.Bonsai.Node.{Shared, entries}
use smr_benchmark.Bonsai.State.{State}
use smr_benchmark.Bonsai.Update.Insert.{is_none}
use smr_benchmark.Bonsai.Map.{returned, get, insert, remove}
use smr_benchmark.Bonsai.Map.Get.{get_lem}
use smr_benchmark.Bonsai.Map.Linear.{Published, Quiet, Committed, insert-Quiet, remove-Quiet}

module _ {ℓ κ} {K : Type ℓ} {V : Type κ} ⦃o : Ord K⦄ where
  -- One round of `get` returns this.
  abbrev pub Gets : (ℕ → Shared K V) → K → State K V → Option V → Type (ℓ ⊔ κ)
  Gets root_at q s x = get root_at 1 q s ≡ some (returned x, record s { loads = suc s.loads })

  -- A root that nobody else changes now
  abbrev pub stays : Shared K V → ℕ → Shared K V
  stays p _ = p

  module _ (root_at : ℕ → Shared K V) (roots : Published root_at) (quiet : Quiet root_at) where
    same_root : (n m : ℕ) → root_at n ≡ root_at m
    same_root n m = roots.same n m (quiet n m)

    module _ {μ} {B : Type μ} (change : List (K × V) → List (K × V)) (answer : List (K × V) → B)
        (p q : K) (s u : State K V) {b : B} {new : Shared K V} {t : State K V}
        (c : Committed root_at change answer b new t) where
      abbrev old : List (K × V)
      old = entries (root_at s.loads)

      content : entries new ≡ change old
      content = c.made.1 ∙ ap (λ r. change (entries r)) (same_root c.n s.loads)

      says_old : b ≡ answer old
      says_old = c.says ∙ ap (λ r. answer (entries r)) (same_root c.n s.loads)

      Gets-old : (j : K) → Gets root_at j s (find_entry j old)
      Gets-old j = get_lem root_at 0 j s (roots.good s.loads) (roots.sorted s.loads)

      Gets-new :
          (j : K) (x : Option V)
          → IsSorted (change old)
          → find_entry j (change old) ≡ x
          → Gets (stays new) j u x
      Gets-new j x srt e =
          subst (Gets (stays new) j u) (ap (find_entry j) content ∙ e)
            (get_lem (stays new) 0 j u c.made.0 (subst IsSorted (sym content) srt))

    -- With no other operation on the map between, of two different keys: `get` of the key finds
    -- some `x` and of the other key some `y`, the first round of `insert` returns, with whether `x` was
    -- nothing, and under the new root `get` of the key finds what was there, or else the new value,
    -- and of the other key `y` again.
    pub insert-get :
        (p q : K) (w : V) (fuel : ℕ) (s u : State K V)
        → p ≢ q
        → (x y : Option V) × (new : Shared K V) × (t : State K V) × Gets root_at q s x
          × Gets root_at p s y
          × (insert root_at (suc fuel) q w s ≡ some (returned (is_none x, new), t))
          × Gets (stays new) q u (some (or_else x w))
          × Gets (stays new) p u y
    insert-get p q w fuel s u n =
        let (b, new, t, run, c) = insert-Quiet root_at roots fuel q w s quiet in
        let xs = entries (root_at s.loads) in
        let change = insert_entry q w in
        let answer : List (K × V) → Bool = λ ys. is_none (find_entry q ys) in
        let (srt, here, there) = insert_entry_map p q w xs (roots.sorted s.loads) n in
        (
          find_entry q xs,
          find_entry p xs,
          new,
          t,
          Gets-old change answer p q s u c q,
          Gets-old change answer p q s u c p,
          rw (← says_old change answer p q s u c) run,
          Gets-new change answer p q s u c q _ srt here,
          Gets-new change answer p q s u c p _ srt there,
        )

    -- With no other operation on the map between, of two different keys: `get` of the key finds
    -- some `x` and of the other key some `y`, the first round of `remove` returns, with `x`, and under the
    -- new root `get` of the key finds nothing, and of the other key `y` again.
    pub remove-get :
        (p q : K) (fuel : ℕ) (s u : State K V)
        → p ≢ q
        → (x y : Option V) × (new : Shared K V) × (t : State K V) × Gets root_at q s x
          × Gets root_at p s y
          × (remove root_at (suc fuel) q s ≡ some (returned (x, new), t))
          × Gets (stays new) q u none
          × Gets (stays new) p u y
    remove-get p q fuel s u n =
        let (b, new, t, run, c) = remove-Quiet root_at roots fuel q s quiet in
        let xs = entries (root_at s.loads) in
        let change = erase_entry q in
        let answer : List (K × V) → Option V = find_entry q in
        let (srt, here, there) = erase_entry_map p q xs (roots.sorted s.loads) n in
        (
          find_entry q xs,
          find_entry p xs,
          new,
          t,
          Gets-old change answer p q s u c q,
          Gets-old change answer p q s u c p,
          rw (← says_old change answer p q s u c) run,
          Gets-new change answer p q s u c q _ srt here,
          Gets-new change answer p q s u c p _ srt there,
        )
