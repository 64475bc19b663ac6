-- ===== src/Bonsai/Update/Remove.antt =====
-- bonsai_tree.rs: `do_remove`, against the list of entries.
use Prim.Native.Nat.Ordering.{lt}
use smr_benchmark.Prelude.{
  ℕ, suc, ◌+◌, ◌≡◌, refl, Option, true, not, ◌||◌, ◌∷◌, ◌++◌, append_assoc, inl, inr, none, some,
  ◌==◌, arith, sym, ◌∙◌, Bool-cases,
}
use smr_benchmark.Bonsai.Order.{Ord}
use smr_benchmark.Bonsai.Entries.{
  IsSorted, split, find_entry, erase_entry, erase_below, erase_above, erase_at, find_below,
  find_above, find_at,
}
use smr_benchmark.Bonsai.Node.{
  Shared, null, node, is_retired_spot, is_null, node_size, entries, IsGood, is_retired_spot-IsGood,
}
use smr_benchmark.Bonsai.State.{State, Ensures, Ensures-bind, Ensures-if, Ensures-return}
use smr_benchmark.Bonsai.Balance.{mk_balanced}
use smr_benchmark.Bonsai.Balance.Laws.{Makes, no_spot}
use smr_benchmark.Bonsai.Balance.Choice.{mk_balanced-Makes}
use smr_benchmark.Bonsai.Update.{do_remove, remove_here, pull_leftmost, pull_rightmost}
use smr_benchmark.Bonsai.Update.Insert.{
  Answers, check_Answers, rebuild_left, rebuild_right, Ensures-by_order,
}
use smr_benchmark.Bonsai.Update.Pull.{
  Pulled, is_null-entries, pull_leftmost-Pulled, pull_rightmost-Pulled,
}

module _ {ℓ κ} {K : Type ℓ} {V : Type κ} where
  is_null_of_size : (p : Shared K V) → IsGood p → node_size p ≡ 0 → is_null p ≡ true
  unfolding is_null node_size
  is_null_of_size (null _) g h = refl
  is_null_of_size (node _ _ _ _ _ _ _) g h = absurd (omega arith)

  node_size_null : (p : Shared K V) → is_null p ≡ true → node_size p ≡ 0
  unfolding is_null node_size
  node_size_null (null _) h = refl
  node_size_null (node _ _ _ _ _ _ _) h = absurd (ground arith)

  module _ (c : Shared K V) (root_at : ℕ → Shared K V) where
    remove_here-Answers :
        (v : V) (n : ℕ) (l r : Shared K V)
        → IsGood l
        → IsGood r
        → n ≡ suc (node_size l + node_size r)
        → Ensures c
            (remove_here root_at v n l r)
            (Answers root_at c (entries l ++ entries r) (some v))
    unfolding remove_here
    remove_here-Answers v n l r gl gr size =
        Ensures-if c _ (n == 1) _ _
          (λ e.
            let el = is_null-entries l (is_null_of_size l gl (ground arith)) in
            let er = is_null-entries r (is_null_of_size r gr (ground arith)) in
            Ensures-return c _ (null 0, some v) (inr ((refl, rw (el, er)), refl)))
          (λ e.
            Ensures-if c _ (not (is_null l)) _ _
              (λ full.
                let (f, pulls) = pull_rightmost-Pulled c root_at l gl (ground arith) in
                Ensures-bind c (Pulled root_at c f.rest f.key f.value) _ (pull_rightmost root_at l)
                  _ pulls
                  λ d b.
                    Ensures-bind c (Makes root_at c (f.rest ++ (f.key, f.value) ∷ entries r)) _
                      (mk_balanced root_at d.1 d.0 r) _
                      (mk_balanced-Makes c root_at d.1 d.0 r f.key f.value f.rest (entries r) b.1
                        b.0 (inr (gr, refl)))
                      λ top x.
                        Ensures-return c _ (top, some v)
                          (elim x [
                            | inl y ↦ inl y
                            | inr y ↦
                                inr ((y.0, y.1 ∙ rw f.cut (sym (append_assoc f.rest _ _))), refl)
                          ]))
              (λ empty.
                let (f, pulls) =
                  pull_leftmost-Pulled c root_at r gr (elim (Bool-cases (is_null r)) [
                    | inl x ↦ absurd (ground (arith, e, x, node_size_null r x, node_size_null l))
                    | inr x ↦ x
                  ]) in
                let el = is_null-entries l (ground arith) in
                Ensures-bind c (Pulled root_at c f.rest f.key f.value) _ (pull_leftmost root_at r) _
                  pulls
                  λ d b.
                    Ensures-bind c (Makes root_at c (entries l ++ (f.key, f.value) ∷ f.rest)) _
                      (mk_balanced root_at d.1 l d.0) _
                      (mk_balanced-Makes c root_at d.1 l d.0 f.key f.value (entries l) f.rest b.1
                        (inr (gl, refl)) b.0)
                      λ top x.
                        Ensures-return c _ (top, some v)
                          (elim x [ inl y ↦ inl y | inr y ↦ inr ((y.0, y.1 ∙ rw f.cut), refl) ])))

module _ {ℓ κ} {K : Type ℓ} {V : Type κ} ⦃o : Ord K⦄ (c : Shared K V)
    (root_at : ℕ → Shared K V) where
  pub do_remove-Answers :
      (p : Shared K V) (q : K)
      → IsGood p
      → IsSorted (entries p)
      → Ensures c
          (do_remove root_at p q)
          (Answers root_at c (erase_entry q (entries p)) (find_entry q (entries p)))
  unfolding do_remove erase_entry find_entry
  do_remove-Answers (null t) q g s =
      Ensures-if c _ (is_retired_spot (null t)) _ _
        (λ e. absurd (ground (arith, e, is_retired_spot-IsGood {K = K} {V = V} (null t) g)))
        (λ _. Ensures-return c _ (null 0, none) (inr ((refl, refl), refl)))
  do_remove-Answers (node t a k v n l r) q g s =
      let sides = split (entries l) k v (entries r) s in
      let ihl = do_remove-Answers l q g.2 sides.left in
      let ihr = do_remove-Answers r q g.3 sides.right in
      Ensures-if c _ (is_retired_spot (node t a k v n l r)) _ _
        (λ e. absurd (ground (arith, e, is_retired_spot-IsGood (node t a k v n l r) g)))
        (λ _.
          check_Answers c root_at _ _ none (is_retired_spot l || is_retired_spot r) _
            (no_spot c root_at l r g.2 g.3)
            (Ensures-by_order c _ (o.cmp k q) _ _ _
              (λ e.
                rw
                  (
                    erase_above q k v (entries r) (entries l) e sides.low,
                    find_above q k v (entries r) (entries l) e sides.low,
                  )
                  (rebuild_right c root_at (node t a k v n l r) l k v _ _ _
                    (refl, refl, is_retired_spot-IsGood (node t a k v n l r) g) g.2 ihr))
              (λ e.
                let same = o.eq_of_cmp k q e in
                rw
                  (
                    erase_at q k v (entries r) (entries l) same sides.low,
                    find_at q k v (entries r) (entries l) same sides.low,
                  )
                  (remove_here-Answers c root_at v n l r g.2 g.3 g.1))
              (λ e.
                let below : o.cmp q k ≡ lt = rw (o.cmp_reverse k q, e) in
                rw
                  (
                    erase_below q k v (entries r) (entries l) below,
                    find_below q k v (entries r) (entries l) below,
                  )
                  (rebuild_left c root_at (node t a k v n l r) r k v _ _ _
                    (refl, refl, is_retired_spot-IsGood (node t a k v n l r) g) g.3 ihl))))

  -- On a good tree in order, whatever is loaded from the root meanwhile, `do_remove` dereferences
  -- no null pointer and leaves the current root; it gives up, where a load of the root differed from
  -- the current one, or returns a good tree with the entry of the key erased, and the value that was
  -- there.
  do_remove_lem :
      (p : Shared K V) (q : K) (s : State K V)
      → IsGood p
      → IsSorted (entries p)
      → s.curr_root ≡ c
      → (r : Shared K V × Option V) × (t : State K V) × (do_remove root_at p q s ≡ some (r, t))
        × (t.curr_root ≡ c)
        × Answers root_at c (erase_entry q (entries p)) (find_entry q (entries p)) r
  do_remove_lem p q s g srt = do_remove-Answers p q g srt s
