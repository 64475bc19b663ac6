-- ===== src/Hazard/Invariant.antt =====
-- Hazard pointers: which objects are retired, and what a reclaiming thread has yet to find.
use smr_benchmark.Prelude.{
  ℕ, ◌≤◌, ◌≡◌, Bool, true, false, ◌⊎◌, List, [], ◌∷◌, ◌++◌, ◌||◌, refl, arith,
}
use smr_benchmark.Prelude.Counting.{contains}
use smr_benchmark.Hazard.{
  Memory, Hazard, unused, loaded, stored, protected, Phase, working, scanning, sweeping, Thread,
  concat,
}

pub contains-concat :
    (xs ys : List ℕ) (o : ℕ) → contains (xs ++ ys) o ≡ (contains xs o || contains ys o)
contains-concat [] ys o = refl
contains-concat (x ∷ xs) ys o = ground (arith, contains-concat xs ys o)

-- The slot holds what the hazard pointer has stored.
abbrev pub Fits : ℕ → Hazard → Type 0
Fits slot unused = Unit
Fits slot (loaded _ _) = Unit
Fits slot (stored _ p) = slot ≡ p
Fits slot (protected p) = slot ≡ p

-- The retired objects that the thread has in hand
abbrev pub holds : Thread → ℕ → Bool
holds t o = contains t.retired o || (elim t.phase [
  | working ↦ false
  | scanning batch _ _ ↦ contains batch o
  | sweeping rest _ not_freed ↦ contains rest o || contains not_freed o
])

-- While hazard pointer `i` protects `p`, a thread that has `p` in its batch has not yet read the
-- slot, or knows that `p` is protected.
abbrev pub Spares : ℕ → ℕ → Phase → Type 0
Spares i p working = Unit
Spares i p (scanning batch seen guarded) =
    contains batch p ≡ true → (seen i ≡ false) ⊎ (guarded p ≡ true)
Spares i p (sweeping rest guarded _) = contains rest p ≡ true → guarded p ≡ true

pub record Inv (n : ℕ) (m : Memory) (hz : ℕ → Hazard) (th : ℕ → Thread) : Type 0 where
  pub null_stays : m.gone 0 ≡ false
  pub linked : (l : ℕ) → m.gone (m.link l) ≡ false
  pub in_hand : (r o : ℕ) → holds (th r) o ≡ true → m.gone o ≡ true
  pub pooled : (o : ℕ) → contains (concat m.retireds) o ≡ true → m.gone o ≡ true
  pub freed_gone : (o : ℕ) → m.freed o ≡ true → m.gone o ≡ true
  pub fits : (i : ℕ) → Fits (m.slot i) (hz i)
  pub absent : (i : ℕ) → n ≤ i → hz i ≡ unused
  pub spares : (i r p : ℕ) → hz i ≡ protected p → Spares i p (th r).phase
  pub safe : (i p : ℕ) → hz i ≡ protected p → m.freed p ≡ false
