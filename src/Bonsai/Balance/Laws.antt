-- ===== src/Bonsai/Balance/Laws.antt =====
-- bonsai_tree.rs: the entries of what `mk_node` and the rotations build.
use smr_benchmark.Prelude.{
  ℕ, ◌<◌, ◌≡◌, refl, Bool, false, not, ◌||◌, List, ◌∷◌, ◌++◌, append_assoc, ◌⊎◌, inl, inr, ltb,
  if◌then◌else◌, arith, sym, ◌∙◌,
}
use smr_benchmark.Bonsai.Node.{
  Shared, null, node, retired_node, is_retired_spot, node_size, entries, IsGood,
  is_retired_spot-IsGood,
}
use smr_benchmark.Bonsai.State.{
  M, return, ◌>>=◌, deref, add_new_node, from_owned, check_root, Ensures, Ensures-bind, Ensures-if,
  Ensures-imp, Ensures-return, check_root-Ensures, Stale,
}
use smr_benchmark.Bonsai.Balance.{
  mk_node, single_left, single_right, double_left, double_right, mk_balanced_left,
  mk_balanced_right,
}

module _ {ℓ κ} {K : Type ℓ} {V : Type κ} where
  -- A good tree with these entries
  abbrev pub Built : List (K × V) → Shared K V → Type (ℓ ⊔ κ)
  Built xs p = IsGood p × (entries p ≡ xs)

  -- The retired pointer, by which an attempt is given up because the root has changed, or a good
  -- tree with these entries
  abbrev pub Makes : (ℕ → Shared K V) → Shared K V → List (K × V) → Shared K V → Type (ℓ ⊔ κ)
  Makes root_at c xs p = (Stale root_at c × (p ≡ retired_node)) ⊎ Built xs p

module _ {ℓ κ} {K : Type ℓ} {V : Type κ} (c : Shared K V) where
  pub mk_node-Built :
      (l r : Shared K V) (k : K) (v : V)
      → IsGood l
      → IsGood r
      → Ensures c (mk_node l r k v) (Built (entries l ++ (k, v) ∷ entries r))
  unfolding mk_node from_owned add_new_node
  mk_node-Built l r k v gl gr s j =
      rw (is_retired_spot-IsGood l gl, is_retired_spot-IsGood r gr)
        (_, _, refl, j, ((refl, omega arith, gl, gr), refl))

  single_left-Built :
      (left right_left right_right : Shared K V) (t a n : ℕ) (rk : K) (rv : V) (k : K) (v : V)
      → IsGood left
      → IsGood right_left
      → IsGood right_right
      → Ensures c
          (single_left left (node t a rk rv n right_left right_right) right_left right_right k v)
          (Built (entries left ++ (k, v) ∷ (entries right_left ++ (rk, rv) ∷ entries right_right)))
  unfolding single_left deref
  single_left-Built left rl rr t a n rk rv k v g gl gr =
      Ensures-bind c (Built (entries left ++ (k, v) ∷ entries rl)) _ (mk_node left rl k v)
        (λ new_left. mk_node new_left rr rk rv) (mk_node-Built left rl k v g gl)
        λ new_left b.
          Ensures-imp c _ _ _ (λ p h. (h.0, h.1 ∙ (rw b.1 (append_assoc (entries left) _ _))))
            (mk_node-Built new_left rr rk rv b.0 gr)

  single_right-Built :
      (right left_right left_left : Shared K V) (t a n : ℕ) (lk : K) (lv : V) (k : K) (v : V)
      → IsGood right
      → IsGood left_right
      → IsGood left_left
      → Ensures c
          (single_right (node t a lk lv n left_left left_right) right left_right left_left k v)
          (Built ((entries left_left ++ (lk, lv) ∷ entries left_right) ++ (k, v) ∷ entries right))
  unfolding single_right deref
  single_right-Built right lr ll t a n lk lv k v g gr gl =
      Ensures-bind c (Built (entries lr ++ (k, v) ∷ entries right)) _ (mk_node lr right k v)
        (λ new_right. mk_node ll new_right lk lv) (mk_node-Built lr right k v gr g)
        λ new_right b.
          Ensures-imp c _ _ _ (λ p h. (h.0, h.1 ∙ (rw b.1 (sym (append_assoc (entries ll) _ _)))))
            (mk_node-Built ll new_right lk lv gl b.0)

  -- The three new nodes of a double rotation
  mk_three-Built :
      (a b d e : Shared K V) (k₁ k k₂ : K) (v₁ v v₂ : V)
      → IsGood a
      → IsGood b
      → IsGood d
      → IsGood e
      → Ensures c (mk_node a b k₁ v₁ >>= λ l. mk_node d e k₂ v₂ >>= λ r. mk_node l r k v) (
          Built
            ((entries a ++ (k₁, v₁) ∷ entries b) ++ (k, v) ∷ (entries d ++ (k₂, v₂) ∷ entries e)))
  mk_three-Built a b d e k₁ k k₂ v₁ v v₂ ga gb gd ge =
      Ensures-bind c (Built (entries a ++ (k₁, v₁) ∷ entries b)) _ (mk_node a b k₁ v₁)
        (λ l. mk_node d e k₂ v₂ >>= λ r. mk_node l r k v) (mk_node-Built a b k₁ v₁ ga gb)
        λ l bl.
          Ensures-bind c (Built (entries d ++ (k₂, v₂) ∷ entries e)) _ (mk_node d e k₂ v₂)
            (λ r. mk_node l r k v) (mk_node-Built d e k₂ v₂ gd ge)
            λ r br.
              Ensures-imp c _ _ _ (λ p h. (h.0, h.1 ∙ (rw (bl.1, br.1))))
                (mk_node-Built l r k v bl.0 br.0)

  module _ (root_at : ℕ → Shared K V) where
    -- A checked step gives up for a changed root, or goes on to what is built.
    after_check :
        (xs : List (K × V)) (other : Bool) (m : M K V (Shared K V))
        → other ≡ false
        → Ensures c m (Makes root_at c xs)
        → Ensures c
            (check_root root_at >>= λ same. if not same || other then return retired_node else m)
            (Makes root_at c xs)
    after_check xs other m no_other h =
        Ensures-bind c (λ same. same ≡ false → Stale root_at c) (Makes root_at c xs)
          (check_root root_at) _ (check_root-Ensures c root_at)
          λ same st.
            Ensures-if c (Makes root_at c xs) (not same || other) (return retired_node) m
              (λ e.
                Ensures-return c (Makes root_at c xs) retired_node
                  (inl (st (ground (arith, e, no_other)), refl)))
              (λ _. h)

    pub no_spot :
        (l r : Shared K V) → IsGood l → IsGood r → (is_retired_spot l || is_retired_spot r) ≡ false
    no_spot l r gl gr = rw (is_retired_spot-IsGood l gl, is_retired_spot-IsGood r gr)

    double_left-Makes :
        (left rl rr : Shared K V) (t a n : ℕ) (rk : K) (rv : V) (k : K) (v : V)
        → IsGood left
        → IsGood rl
        → IsGood rr
        → 0 < node_size rl
        → Ensures c
            (double_left root_at left (node t a rk rv n rl rr) rl rr k v)
            (Makes root_at c (entries left ++ (k, v) ∷ (entries rl ++ (rk, rv) ∷ entries rr)))
    unfolding double_left deref node_size
    double_left-Makes left (null _) rr t a n rk rv k v g gl gr h = absurd (omega arith)
    double_left-Makes left (node _ _ lk lv _ ll lr) rr t a n rk rv k v g gl gr h =
        after_check _ _ _ (no_spot ll lr gl.2 gl.3) (
          Ensures-imp c _ _ _ (λ p b. inr (b.0, b.1 ∙ simp append_assoc))
            (mk_three-Built left ll lr rr k lk rk v lv rv g gl.2 gl.3 gr))

    double_right-Makes :
        (right lr ll : Shared K V) (t a n : ℕ) (lk : K) (lv : V) (k : K) (v : V)
        → IsGood right
        → IsGood lr
        → IsGood ll
        → 0 < node_size lr
        → Ensures c
            (double_right root_at (node t a lk lv n ll lr) right lr ll k v)
            (Makes root_at c ((entries ll ++ (lk, lv) ∷ entries lr) ++ (k, v) ∷ entries right))
    unfolding double_right deref node_size
    double_right-Makes right (null _) ll t a n lk lv k v g gr gl h = absurd (omega arith)
    double_right-Makes right (node _ _ mk mv _ ml mr) ll t a n lk lv k v g gr gl h =
        after_check _ _ _ (no_spot ml mr gr.2 gr.3) (
          Ensures-imp c _ _ _ (λ p b. inr (b.0, b.1 ∙ simp append_assoc))
            (mk_three-Built ll ml mr right lk mk k lv mv v gl gr.2 gr.3 g))

    pub mk_balanced_left-Makes :
        (left right : Shared K V) (k : K) (v : V)
        → IsGood left
        → IsGood right
        → 2 < node_size right
        → Ensures c
            (mk_balanced_left root_at left right k v)
            (Makes root_at c (entries left ++ (k, v) ∷ entries right))
    unfolding mk_balanced_left deref node_size
    mk_balanced_left-Makes left (null _) k v g gr h = absurd (omega arith)
    mk_balanced_left-Makes left (node t a rk rv n rl rr) k v g gr h =
        after_check _ _ _ (no_spot rl rr gr.2 gr.3) (
          Ensures-if c _ (ltb (node_size rl) (node_size rr)) _ _
            (λ _.
              Ensures-imp c _ _ _ (λ p b. inr b)
                (single_left-Built left rl rr t a n rk rv k v g gr.2 gr.3))
            (λ e. double_left-Makes left rl rr t a n rk rv k v g gr.2 gr.3 (ground arith)))

    pub mk_balanced_right-Makes :
        (left right : Shared K V) (k : K) (v : V)
        → IsGood left
        → IsGood right
        → 2 < node_size left
        → Ensures c
            (mk_balanced_right root_at left right k v)
            (Makes root_at c (entries left ++ (k, v) ∷ entries right))
    unfolding mk_balanced_right deref node_size
    mk_balanced_right-Makes (null _) right k v gl g h = absurd (omega arith)
    mk_balanced_right-Makes (node t a lk lv n ll lr) right k v gl g h =
        after_check _ _ _ (no_spot lr ll gl.3 gl.2) (
          Ensures-if c _ (ltb (node_size lr) (node_size ll)) _ _
            (λ _.
              Ensures-imp c _ _ _ (λ p b. inr b)
                (single_right-Built right lr ll t a n lk lv k v g gl.3 gl.2))
            (λ e. double_right-Makes right lr ll t a n lk lv k v g gl.3 gl.2 (ground arith)))
