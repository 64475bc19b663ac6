-- ===== src/Bonsai/Balance/Choice.antt =====
-- bonsai_tree.rs: `mk_balanced`.
use smr_benchmark.Prelude.{
  ℕ, ◌≡◌, refl, true, false, ◌||◌, List, ◌∷◌, ◌++◌, ◌⊎◌, inl, inr, if◌then◌else◌, arith, some,
}
use smr_benchmark.Bonsai.Node.{
  Shared, null, node, retired_node, is_retired_spot, node_size, entries, IsGood,
  is_retired_spot_retired, is_retired_spot-IsGood,
}
use smr_benchmark.Bonsai.State.{
  State, deref, Ensures, Ensures-if, Ensures-imp, Ensures-return, Stale,
}
use smr_benchmark.Bonsai.Balance.{
  mk_node, mk_balanced_left, mk_balanced_right, mk_balanced, right_heavy, left_heavy,
}
use smr_benchmark.Bonsai.Balance.Laws.{
  Built, Makes, mk_node-Built, mk_balanced_left-Makes, mk_balanced_right-Makes,
}

module _ {ℓ κ} {K : Type ℓ} {V : Type κ} where
  -- The pointer leads to a node with this entry, or is retired because the root has changed.
  abbrev pub HasRoot : (ℕ → Shared K V) → Shared K V → K → V → Shared K V → Type (ℓ ⊔ κ)
  HasRoot root_at c k v (null t) =
      let p : Shared K V = null t in Stale root_at c × (p ≡ retired_node)
  HasRoot root_at c k v (node t a j u n l r) =
      (j ≡ k) × (u ≡ v) × (is_retired_spot (node t a j u n l r) ≡ false)

module _ {ℓ κ} {K : Type ℓ} {V : Type κ} (c : Shared K V) (root_at : ℕ → Shared K V) where
  choice-Makes :
      (l r : Shared K V) (k : K) (v : V)
      → IsGood l
      → IsGood r
      → Ensures c
          (if right_heavy (node_size l) (node_size r)
            then mk_balanced_left root_at l r k v
            else if left_heavy (node_size l) (node_size r)
            then mk_balanced_right root_at l r k v
            else mk_node l r k v)
          (Makes root_at c (entries l ++ (k, v) ∷ entries r))
  unfolding right_heavy left_heavy
  choice-Makes l r k v gl gr =
      Ensures-if c _ (right_heavy (node_size l) (node_size r)) _ _
        (λ e. mk_balanced_left-Makes c root_at l r k v gl gr (ground arith))
        (λ _.
          Ensures-if c _ (left_heavy (node_size l) (node_size r)) _ _
            (λ e. mk_balanced_right-Makes c root_at l r k v gl gr (ground arith))
            (λ _. Ensures-imp c _ _ _ (λ p b. inr b) (mk_node-Built c l r k v gl gr)))

  -- A retired pointer among the arguments comes from a changed root.
  spots :
      (xs ys : List (K × V)) (l r : Shared K V)
      → Makes root_at c xs l
      → Makes root_at c ys r
      → (Stale root_at c × ((is_retired_spot l || is_retired_spot r) ≡ true))
        ⊎ (((is_retired_spot l || is_retired_spot r) ≡ false) × Built xs l × Built ys r)
  spots xs ys l r (inl e) hr = inl (e.0, ground (arith, is_retired_spot_retired l e.1))
  spots xs ys l r (inr b) (inl e) = inl (e.0, ground (arith, is_retired_spot_retired r e.1))
  spots xs ys l r (inr b) (inr d) =
      inr (rw (is_retired_spot-IsGood l b.0, is_retired_spot-IsGood r d.0), b, d)

  at_node :
      (k : K) (v : V) (xs ys : List (K × V)) (l r : Shared K V)
      → Built xs l
      → Built ys r
      → Ensures c
          (if right_heavy (node_size l) (node_size r)
            then mk_balanced_left root_at l r k v
            else if left_heavy (node_size l) (node_size r)
            then mk_balanced_right root_at l r k v
            else mk_node l r k v)
          (Makes root_at c (xs ++ (k, v) ∷ ys))
  at_node k v xs ys l r bl br =
      Ensures-imp c _ _ _
        (λ p m. elim m [ inl e ↦ inl e | inr b ↦ inr (b.0, rw (b.1, bl.1, br.1)) ])
        (choice-Makes l r k v bl.0 br.0)

  pub mk_balanced-Makes :
      (cur l r : Shared K V) (k : K) (v : V) (xs ys : List (K × V))
      → HasRoot root_at c k v cur
      → Makes root_at c xs l
      → Makes root_at c ys r
      → Ensures c (mk_balanced root_at cur l r) (Makes root_at c (xs ++ (k, v) ∷ ys))
  unfolding mk_balanced deref
  mk_balanced-Makes (null t) l r k v xs ys hc hl hr =
      Ensures-if c _ (is_retired_spot (null t) || (is_retired_spot l || is_retired_spot r)) _ _
        (λ _. Ensures-return c _ retired_node (inl (hc.0, refl)))
        (λ e. absurd (ground (arith, e, is_retired_spot_retired (null t) hc.1)))
  mk_balanced-Makes (node t a j u n d e) l r k v xs ys hc hl hr =
      Ensures-if c _
        (is_retired_spot (node t a j u n d e) || (is_retired_spot l || is_retired_spot r)) _ _
        (λ h. Ensures-return c _ retired_node (elim (spots xs ys l r hl hr) [
          | inl st ↦ inl (st.0, refl)
          | inr b ↦ absurd (ground (arith, h, hc.2, b.0))
        ]))
        (λ h. elim (spots xs ys l r hl hr) [
          | inl st ↦ absurd (ground (arith, h, st.1))
          | inr b ↦ rw (← hc.0, ← hc.1) (at_node j u xs ys l r b.1 b.2)
        ])

  -- An attempt that was given up below stays given up.
  pub mk_balanced-retired :
      (cur l r : Shared K V)
      → (l ≡ retired_node) ⊎ (r ≡ retired_node)
      → Ensures c (mk_balanced root_at cur l r) (λ p. p ≡ retired_node)
  unfolding mk_balanced
  mk_balanced-retired cur l r h =
      Ensures-if c _ (is_retired_spot cur || (is_retired_spot l || is_retired_spot r)) _ _
        (λ _. Ensures-return c _ retired_node refl)
        (λ e. absurd (elim h [
          | inl q ↦ ground (arith, e, is_retired_spot_retired l q)
          | inr q ↦ ground (arith, e, is_retired_spot_retired r q)
        ]))

  -- If each of the three trees is as its part of the operation left it, retired because a load of the
  -- root differed from the current one, or a node with the given entry, and good trees with the given
  -- entries, then `mk_balanced` dereferences no null pointer and leaves the current root; it makes a
  -- good tree with the entries of the left tree, the entry, and those of the right tree, or gives up
  -- for the same reason.
  mk_balanced_lem :
      (cur l r : Shared K V) (k : K) (v : V) (xs ys : List (K × V)) (s : State K V)
      → HasRoot root_at c k v cur
      → Makes root_at c xs l
      → Makes root_at c ys r
      → s.curr_root ≡ c
      → (p : Shared K V) × (t : State K V) × (mk_balanced root_at cur l r s ≡ some (p, t))
        × (t.curr_root ≡ c)
        × Makes root_at c (xs ++ (k, v) ∷ ys) p
  mk_balanced_lem cur l r k v xs ys s hc hl hr = mk_balanced-Makes cur l r k v xs ys hc hl hr s
