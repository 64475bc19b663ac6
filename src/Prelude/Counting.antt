-- ===== src/Prelude/Counting.antt =====
-- How often a number is in a list, and sums over the first members of a family.
use smr_benchmark.Prelude.{
  ℕ, zero, suc, ◌+◌, ◌≤◌, ◌<◌, ◌≡◌, refl, Bool, true, false, ◌||◌, List, [], ◌∷◌, ◌++◌, ◌⊎◌, ◌==◌,
  if◌then◌else◌, arith, dec_lt,
}
use smr_benchmark.Prelude.Family.{update}

abbrev pub contains : List ℕ → ℕ → Bool
contains [] o = false
contains (x ∷ xs) o = x == o || contains xs o

pub contains-append :
    (xs : List ℕ) (o p : ℕ) → contains (xs ++ o ∷ []) p ≡ true → (contains xs p ≡ true) ⊎ (o ≡ p)
contains-append [] o p h = ground arith
contains-append (x ∷ xs) o p h = ground (arith, contains-append xs o p)

abbrev pub bit : Bool → ℕ
bit b = if b then 1 else 0

abbrev pub count : List ℕ → ℕ → ℕ
count [] o = 0
count (x ∷ xs) o = bit (x == o) + count xs o

pub count-append : (xs : List ℕ) (y o : ℕ) → count (xs ++ y ∷ []) o ≡ count xs o + bit (y == o)
count-append [] y o = omega arith
count-append (x ∷ xs) y o = omega (arith, count-append xs y o)

pub count-concat : (xs ys : List ℕ) (o : ℕ) → count (xs ++ ys) o ≡ count xs o + count ys o
count-concat [] ys o = omega arith
count-concat (x ∷ xs) ys o = omega (arith, count-concat xs ys o)

pub count_pos_iff :
    (xs : List ℕ) (o : ℕ)
    → (contains xs o ≡ true → 0 < count xs o) × (contains xs o ≡ false → count xs o ≡ 0)
count_pos_iff [] o = (λ h. ground arith, λ h. refl)
count_pos_iff (x ∷ xs) o = (ground (arith, count_pos_iff xs o), ground (arith, count_pos_iff xs o))

unfoldable pub sum_below : ℕ → (ℕ → ℕ) → ℕ
sum_below zero f = 0
sum_below (suc n) f = f n + sum_below n f

module _ {A : Type 0} (w : A → ℕ) (f : ℕ → A) (i : ℕ) (a : A) where
  sum_below-update_above :
      (n : ℕ) → n ≤ i → sum_below n (λ j. w (update f i a j)) ≡ sum_below n (λ j. w (f j))
  unfolding sum_below
  sum_below-update_above zero h = refl
  sum_below-update_above (suc n) h = ground (arith, sum_below-update_above n)

  pub sum_below-update :
      (n : ℕ)
      → i < n
      → sum_below n (λ j. w (update f i a j)) + w (f i) ≡ sum_below n (λ j. w (f j)) + w a
  unfolding sum_below
  sum_below-update zero h = absurd (omega arith)
  sum_below-update (suc n) h = elim (dec_lt i n) [
    | yes low ↦ ground (arith, sum_below-update n low)
    | no top ↦ ground (arith, sum_below-update_above n)
  ]

pub sum_below-le :
    {A : Type 0} (w : A → ℕ) (f : ℕ → A) (i n : ℕ) → i < n → w (f i) ≤ sum_below n (λ j. w (f j))
unfolding sum_below
sum_below-le w f i zero h = absurd (omega arith)
sum_below-le w f i (suc n) h = elim (dec_lt i n) [
  | yes low ↦ omega (arith, sum_below-le w f i n low)
  | no top ↦ ground arith
]

pub sum_below_zero : (n : ℕ) → sum_below n (λ _. 0) ≡ 0
unfolding sum_below
sum_below_zero zero = refl
sum_below_zero (suc n) = omega (arith, sum_below_zero n)
