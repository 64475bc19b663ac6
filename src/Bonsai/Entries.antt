-- ===== src/Bonsai/Entries.antt =====
-- What a map of bonsai_tree.rs promises, on the list of its entries in the order of the keys.
pub mod Laws
use Prim.Native.Nat.Ordering.{lt, eq, gt}
use smr_benchmark.Prelude.{
  ◌≡◌, refl, Bool, true, false, List, [], ◌∷◌, ◌++◌, Option, none, some, arith, sym,
}
use smr_benchmark.Bonsai.Order.{Ord, ◌≺◌}

module _ {ℓ κ} {K : Type ℓ} {V : Type κ} where
  -- Every key satisfies `P`.
  abbrev pub Keys {μ} : (K → Type μ) → List (K × V) → Type μ
  Keys P [] = Unit
  Keys P ((k, v) ∷ xs) = P k × Keys P xs

  pub Keys-append {μ} :
      (P : K → Type μ) (xs ys : List (K × V)) → Keys P xs → Keys P ys → Keys P (xs ++ ys)
  Keys-append P [] ys h g = g
  Keys-append P ((k, v) ∷ xs) ys h g = (h.0, Keys-append P xs ys h.1 g)

  pub Keys-split {μ} :
      (P : K → Type μ) (xs ys : List (K × V)) → Keys P (xs ++ ys) → Keys P xs × Keys P ys
  Keys-split P [] ys h = (tt, h)
  Keys-split P ((k, v) ∷ xs) ys h = let (a, b) = Keys-split P xs ys h.1 in ((h.0, a), b)

module _ {ℓ κ} {K : Type ℓ} {V : Type κ} ⦃o : Ord K⦄ where
  abbrev pub IsSorted : List (K × V) → Type 0
  IsSorted [] = Unit
  IsSorted ((k, v) ∷ xs) = Keys (λ j. k ≺ j) xs × IsSorted xs

  unfoldable pub find_entry : K → List (K × V) → Option V
  find_entry q [] = none
  find_entry q ((k, v) ∷ xs) =
      let rest = find_entry q xs in elim (o.cmp q k) [ lt ↦ none | eq ↦ some v | gt ↦ rest ]

  -- An entry with the key is left as it is.
  unfoldable pub insert_entry : K → V → List (K × V) → List (K × V)
  insert_entry q w [] = (q, w) ∷ []
  insert_entry q w ((k, v) ∷ xs) = elim (o.cmp q k) [
    | lt ↦ (q, w) ∷ (k, v) ∷ xs
    | eq ↦ (k, v) ∷ xs
    | gt ↦ (k, v) ∷ insert_entry q w xs
  ]

  unfoldable pub erase_entry : K → List (K × V) → List (K × V)
  erase_entry q [] = []
  erase_entry q ((k, v) ∷ xs) = elim (o.cmp q k) [
    | lt ↦ (k, v) ∷ xs
    | eq ↦ xs
    | gt ↦ (k, v) ∷ erase_entry q xs
  ]

  -- A list in order around an entry
  pub record Around (k : K) (xs ys : List (K × V)) : Type 0 where
    pub low : Keys (λ j. j ≺ k) xs
    pub high : Keys (λ j. k ≺ j) ys
    pub left : IsSorted xs
    pub right : IsSorted ys

  pub split :
      (xs : List (K × V)) (k : K) (v : V) (ys : List (K × V))
      → IsSorted (xs ++ (k, v) ∷ ys)
      → Around k xs ys
  split [] k v ys h = record { low = tt; high = h.0; left = tt; right = h.1 }
  split ((j, u) ∷ xs) k v ys h =
      let (before, after) = Keys-split (λ i. j ≺ i) xs ((k, v) ∷ ys) h.0 in
      let rest = split xs k v ys h.1 in
      record {
        low = (after.0, rest.low);
        high = rest.high;
        left = (before, rest.left);
        right = rest.right;
      }

  -- The operations at an entry of a list, for a key below, at and above it
  module _ (q k : K) (v : V) (ys : List (K × V)) where
    pub insert_below :
        (w : V) (xs : List (K × V))
        → q ≺ k
        → insert_entry q w (xs ++ (k, v) ∷ ys) ≡ insert_entry q w xs ++ (k, v) ∷ ys
    unfolding insert_entry
    insert_below w [] h = ground arith
    insert_below w ((j, u) ∷ xs) h = ground (arith, insert_below w xs)

    pub insert_above :
        (w : V) (xs : List (K × V))
        → k ≺ q
        → Keys (λ j. j ≺ k) xs
        → insert_entry q w (xs ++ (k, v) ∷ ys) ≡ xs ++ (k, v) ∷ insert_entry q w ys
    unfolding insert_entry
    insert_above w [] h low = ground (arith, o.cmp_reverse k q)
    insert_above w ((j, u) ∷ xs) h low =
        ground (arith, insert_above w xs, o.cmp_reverse j q, o.lt_trans j k q)

    pub insert_at :
        (w : V) (xs : List (K × V))
        → k ≡ q
        → Keys (λ j. j ≺ k) xs
        → insert_entry q w (xs ++ (k, v) ∷ ys) ≡ xs ++ (k, v) ∷ ys
    unfolding insert_entry
    insert_at w [] h low = ground (arith, o.cmp_self k)
    insert_at w ((j, u) ∷ xs) h low = ground (arith, insert_at w xs, o.cmp_reverse j q)

    pub find_below :
        (xs : List (K × V)) → q ≺ k → find_entry q (xs ++ (k, v) ∷ ys) ≡ find_entry q xs
    unfolding find_entry
    find_below [] h = ground arith
    find_below ((j, u) ∷ xs) h = ground (arith, find_below xs)

    pub find_above :
        (xs : List (K × V))
        → k ≺ q
        → Keys (λ j. j ≺ k) xs
        → find_entry q (xs ++ (k, v) ∷ ys) ≡ find_entry q ys
    unfolding find_entry
    find_above [] h low = ground (arith, o.cmp_reverse k q)
    find_above ((j, u) ∷ xs) h low =
        ground (arith, find_above xs, o.cmp_reverse j q, o.lt_trans j k q)

    pub find_at :
        (xs : List (K × V))
        → k ≡ q
        → Keys (λ j. j ≺ k) xs
        → find_entry q (xs ++ (k, v) ∷ ys) ≡ some v
    unfolding find_entry
    find_at [] h low = ground (arith, o.cmp_self k)
    find_at ((j, u) ∷ xs) h low = ground (arith, find_at xs, o.cmp_reverse j q)

    pub erase_below :
        (xs : List (K × V))
        → q ≺ k
        → erase_entry q (xs ++ (k, v) ∷ ys) ≡ erase_entry q xs ++ (k, v) ∷ ys
    unfolding erase_entry
    erase_below [] h = ground arith
    erase_below ((j, u) ∷ xs) h = ground (arith, erase_below xs)

    pub erase_above :
        (xs : List (K × V))
        → k ≺ q
        → Keys (λ j. j ≺ k) xs
        → erase_entry q (xs ++ (k, v) ∷ ys) ≡ xs ++ (k, v) ∷ erase_entry q ys
    unfolding erase_entry
    erase_above [] h low = ground (arith, o.cmp_reverse k q)
    erase_above ((j, u) ∷ xs) h low =
        ground (arith, erase_above xs, o.cmp_reverse j q, o.lt_trans j k q)

    pub erase_at :
        (xs : List (K × V))
        → k ≡ q
        → Keys (λ j. j ≺ k) xs
        → erase_entry q (xs ++ (k, v) ∷ ys) ≡ xs ++ ys
    unfolding erase_entry
    erase_at [] h low = ground (arith, o.cmp_self k)
    erase_at ((j, u) ∷ xs) h low = ground (arith, erase_at xs, o.cmp_reverse j q)
