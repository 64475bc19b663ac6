-- ===== src/Ebr/Queue/Chain.antt =====
-- queue.rs: the values behind the head, under the stores to the queue.
use smr_benchmark.Prelude.{
  ℕ, suc, ◌≤◌, ◌<◌, ◌≡◌, ◌≢◌, refl, none, some, List, [], ◌∷◌, ◌++◌, arith, subst, ap, dec_lt,
}
use smr_benchmark.Ebr.Queue.{Node, Queue, set_next, Holds, last, link}
use smr_benchmark.Ebr.Queue.Invariant.{Shape}

module _ {ℓ} {D : Type ℓ} where
  -- A node with nothing behind it
  pub Holds-end :
      {cell : ℕ → Node D} {a : ℕ} {xs : List D} → (cell a).next ≡ none → Holds cell a xs → xs ≡ []
  Holds-end e (last f) = refl
  Holds-end e (link f g r) = absurd (ground arith)

  -- A node with a next node
  pub Holds-next :
      {cell : ℕ → Node D} {a n : ℕ} {d : D} {xs : List D}
      → (cell a).next ≡ some n
      → (cell n).data_slot ≡ some d
      → Holds cell a xs
      → (ys : List D) × (xs ≡ d ∷ ys) × Holds cell n ys
  Holds-next e f (last g) = absurd (ground arith)
  Holds-next {cell} {n} {d} e f (link {b} {d = c} {xs} g i r) =
      let same : b ≡ n = ground arith in
      let value : c ≡ d = ground arith in
      (xs, ap (λ x. x ∷ xs) value, subst (λ p. Holds cell p xs) same r)

module _ {ℓ} {D : Type ℓ} {node : ℕ → ℕ} {h t l : ℕ} {q : Queue D} (s : Shape node h t l q) where
  open s use {linked, end, distinct}

  step_on : (i b : ℕ) → i ≤ l → (q.cell (node i)).next ≡ some b → (i < l) × (node (suc i) ≡ b)
  step_on i b le e = elim (dec_lt i l) [
    | yes lt ↦ (lt, ground (arith, linked i lt))
    | no top ↦ absurd (ground (arith, end))
  ]

  -- The linked nodes are as they were.
  pub Holds-frame :
      (cell : ℕ → Node D) (i : ℕ) {a : ℕ} {xs : List D}
      → ((j : ℕ) → j ≤ l → cell (node j) ≡ q.cell (node j))
      → i ≤ l
      → node i ≡ a
      → Holds q.cell a xs
      → Holds cell a xs
  Holds-frame cell i same le e (last f) = last (ground (arith, same i))
  Holds-frame cell i same le e (link {b} f g r) =
      let (lt, n) = step_on i b le (ground arith) in
      link {b = b} (ground (arith, same i)) (ground (arith, same (suc i)))
        (Holds-frame cell (suc i) same (omega arith) n r)

  -- A node is linked behind the last.
  pub Holds-link :
      (n i : ℕ) {a : ℕ} {d : D} {xs : List D}
      → ((j : ℕ) → j ≤ l → node j ≢ n)
      → (q.cell n).next ≡ none
      → (q.cell n).data_slot ≡ some d
      → i ≤ l
      → node i ≡ a
      → Holds q.cell a xs
      → Holds (set_next q.cell (node l) n) a (xs ++ d ∷ [])
  unfolding set_next
  Holds-link n i out free value le e (last f) =
      link {b = n} (ground (arith, linked i, distinct i l)) (ground (arith, out l))
        (last (ground (arith, out l)))
  Holds-link n i out free value le e (link {b} f g r) =
      let (lt, m) = step_on i b le (ground arith) in
      link {b = b} (ground (arith, distinct i l)) (ground (arith, distinct (suc i) l))
        (Holds-link n (suc i) out free value (omega arith) m r)
