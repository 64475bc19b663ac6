-- ===== src/Bonsai/Entries/Laws.antt =====
-- The specification of bonsai_tree.rs as a map: look-up after insertion and erasure.
use Prim.Native.Nat.Ordering.{lt}
use smr_benchmark.Prelude.{◌≡◌, ◌≢◌, refl, List, [], ◌∷◌, Option, none, some, arith}
use smr_benchmark.Bonsai.Order.{Ord, ◌≺◌}
use smr_benchmark.Bonsai.Entries.{Keys, IsSorted, find_entry, insert_entry, erase_entry}

-- The value that is there, or else the new one
abbrev pub or_else {κ} : {V : Type κ} → Option V → V → V
or_else none w = w
or_else (some v) w = v

module _ {ℓ κ} {K : Type ℓ} {V : Type κ} ⦃o : Ord K⦄ where
  Keys-imp {μ ν} :
      (P : K → Type μ) (Q : K → Type ν) (xs : List (K × V))
      → ((k : K) → P k → Q k)
      → Keys P xs
      → Keys Q xs
  Keys-imp P Q [] f h = tt
  Keys-imp P Q ((k, v) ∷ xs) f h = (f k h.0, Keys-imp P Q xs f h.1)

  Keys-insert :
      (k q : K) (w : V) (xs : List (K × V))
      → k ≺ q
      → Keys (λ j. k ≺ j) xs
      → Keys (λ j. k ≺ j) (insert_entry q w xs)
  unfolding insert_entry
  Keys-insert k q w [] h g = (h, tt)
  Keys-insert k q w ((j, v) ∷ xs) h g = ground (arith, Keys-insert k q w xs)

  Keys-erase :
      (k q : K) (xs : List (K × V)) → Keys (λ j. k ≺ j) xs → Keys (λ j. k ≺ j) (erase_entry q xs)
  unfolding erase_entry
  Keys-erase k q [] g = tt
  Keys-erase k q ((j, v) ∷ xs) g = ground (arith, Keys-erase k q xs)

  pub insert_entry-IsSorted :
      (q : K) (w : V) (xs : List (K × V)) → IsSorted xs → IsSorted (insert_entry q w xs)
  unfolding insert_entry
  insert_entry-IsSorted q w [] s = (tt, tt)
  insert_entry-IsSorted q w ((j, v) ∷ xs) s = ground (
    arith,
    insert_entry-IsSorted q w xs,
    Keys-insert j q w xs,
    o.cmp_reverse q j,
    (λ (h : o.cmp q j ≡ lt). Keys-imp (λ i. j ≺ i) (λ i. q ≺ i) xs (λ k. o.lt_trans q j k h) s.0),
  )

  pub erase_entry-IsSorted : (q : K) (xs : List (K × V)) → IsSorted xs → IsSorted (erase_entry q xs)
  unfolding erase_entry
  erase_entry-IsSorted q [] s = tt
  erase_entry-IsSorted q ((j, v) ∷ xs) s =
      ground (arith, erase_entry-IsSorted q xs, Keys-erase j q xs)

  find-insert_self :
      (q : K) (w : V) (xs : List (K × V))
      → find_entry q (insert_entry q w xs) ≡ some (or_else (find_entry q xs) w)
  unfolding insert_entry find_entry
  find-insert_self q w [] = ground (arith, o.cmp_self q)
  find-insert_self q w ((j, v) ∷ xs) = ground (arith, find-insert_self q w xs, o.cmp_self q)

  find-insert_ne :
      (p q : K) (w : V) (xs : List (K × V))
      → p ≢ q
      → find_entry p (insert_entry q w xs) ≡ find_entry p xs
  unfolding insert_entry find_entry
  find-insert_ne p q w [] n = ground (arith, o.eq_of_cmp p q)
  find-insert_ne p q w ((j, v) ∷ xs) n =
      ground (arith, find-insert_ne p q w xs, o.eq_of_cmp p q, o.lt_trans p q j)

  find_absent : (q : K) (xs : List (K × V)) → Keys (λ j. q ≺ j) xs → find_entry q xs ≡ none
  unfolding find_entry
  find_absent q [] h = refl
  find_absent q ((j, v) ∷ xs) h = ground arith

  find-erase_self :
      (q : K) (xs : List (K × V)) → IsSorted xs → find_entry q (erase_entry q xs) ≡ none
  unfolding erase_entry find_entry
  find-erase_self q [] s = refl
  find-erase_self q ((j, v) ∷ xs) s =
      ground (arith, find-erase_self q xs, find_absent j xs s.0, o.eq_of_cmp q j)

  find-erase_ne :
      (p q : K) (xs : List (K × V))
      → IsSorted xs
      → p ≢ q
      → find_entry p (erase_entry q xs) ≡ find_entry p xs
  unfolding erase_entry find_entry
  find-erase_ne p q [] s n = refl
  find-erase_ne p q ((j, v) ∷ xs) s n = ground (
    arith,
    find-erase_ne p q xs s.1 n,
    o.eq_of_cmp q j,
    o.eq_of_cmp p j,
    (λ (h : p ≺ j).
        find_absent p xs (Keys-imp (λ i. j ≺ i) (λ i. p ≺ i) xs (λ k. o.lt_trans p j k h) s.0)),
  )

  pub insert_entry_map :
      (p q : K) (w : V) (xs : List (K × V))
      → IsSorted xs
      → p ≢ q
      → IsSorted (insert_entry q w xs)
        × (find_entry q (insert_entry q w xs) ≡ some (or_else (find_entry q xs) w))
        × (find_entry p (insert_entry q w xs) ≡ find_entry p xs)
  insert_entry_map p q w xs s n =
      (insert_entry-IsSorted q w xs s, find-insert_self q w xs, find-insert_ne p q w xs n)

  pub erase_entry_map :
      (p q : K) (xs : List (K × V))
      → IsSorted xs
      → p ≢ q
      → IsSorted (erase_entry q xs)
        × (find_entry q (erase_entry q xs) ≡ none)
        × (find_entry p (erase_entry q xs) ≡ find_entry p xs)
  erase_entry_map p q xs s n =
      (erase_entry-IsSorted q xs s, find-erase_self q xs s, find-erase_ne p q xs s n)
