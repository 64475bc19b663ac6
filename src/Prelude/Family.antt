-- ===== src/Prelude/Family.antt =====
-- Families indexed by number: threads, addresses, slots.
use smr_benchmark.Prelude.{ℕ, ◌≡◌, ◌≢◌, Option, some, arith, subst, ℕ_discrete}
use mathlib.Core.Logic.{ite}

abbrev pub update {ℓ} : {A : Type ℓ} → (ℕ → A) → ℕ → A → ℕ → A
update f i a j = ite (ℕ_discrete i j) a (f j)

-- What holds of the new member and of the old ones holds of each member after the update.
pub update-all {ℓ κ} :
    {A : Type ℓ} (P : A → Type κ) (f : ℕ → A) (i : ℕ) (a : A)
    → P a
    → ((j : ℕ) → P (f j))
    → (j : ℕ) → P (update f i a j)
update-all P f i a h g j = choose (ℕ_discrete i j)
  where
    choose : {X : Type 0} (d : Dec X) → P (ite d a (f j))
    choose (yes _) = h
    choose (no _) = g j

-- What holds of the new member, and of each old one that stays
pub update-each {ℓ κ} :
    {A : Type ℓ} (f : ℕ → A) (i : ℕ) (a : A) (P : A → Type κ)
    → P a
    → ((j : ℕ) → i ≢ j → P (f j))
    → (j : ℕ) → P (update f i a j)
update-each f i a P h g j = elim (ℕ_discrete i j) [
  | yes e ↦ subst P (ground (arith, e)) h
  | no ne ↦ subst P (ground (arith, ne)) (g j ne)
]

-- Two members still own different things if the new one owns none that another owns.
pub update-apart {ℓ} :
    {A : Type ℓ} (own : A → Option ℕ) (f : ℕ → A) (i : ℕ) (a : A)
    → ((j k x : ℕ) → own (f j) ≡ some x → own (f k) ≡ some x → j ≡ k)
    → ((j x : ℕ) → i ≢ j → own (f j) ≡ some x → own a ≢ some x)
    → (j k x : ℕ) → own (update f i a j) ≡ some x
    → own (update f i a k) ≡ some x
    → j ≡ k
update-apart own f i a old new j k x g h = elim (ℕ_discrete i j) [
  | yes e ↦ elim (ℕ_discrete i k) [
    | yes q ↦ omega (arith, e, q)
    | no ne ↦ absurd (new k x ne (ground (arith, ne, h)) (ground (arith, e, g)))
  ]
  | no ne ↦ elim (ℕ_discrete i k) [
    | yes q ↦ absurd (new j x ne (ground (arith, ne, g)) (ground (arith, q, h)))
    | no nf ↦ old j k x (ground (arith, ne, g)) (ground (arith, nf, h))
  ]
]

pub update-other {ℓ} :
    {A : Type ℓ} (f : ℕ → A) (i : ℕ) (a : A) (j : ℕ) → i ≢ j → update f i a j ≡ f j
update-other f i a j ne = ground (arith, ne)

pub update-this {ℓ} : {A : Type ℓ} (f : ℕ → A) (i : ℕ) (a : A) → update f i a i ≡ a
update-this f i a = ground arith
