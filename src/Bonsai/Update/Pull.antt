-- ===== src/Bonsai/Update/Pull.antt =====
-- bonsai_tree.rs: `pull_leftmost` and `pull_rightmost`, against the list of entries.
use smr_benchmark.Prelude.{
  some, ℕ, ◌≡◌, refl, Bool, true, false, not, ◌||◌, List, [], ◌∷◌, ◌++◌, append_assoc, inl, inr,
  if◌then◌else◌, arith, sym, Bool-cases,
}
use smr_benchmark.Bonsai.Node.{
  Shared, null, node, retired_node, is_retired_spot, is_null, entries, IsGood,
  is_retired_spot-IsGood,
}
use smr_benchmark.Bonsai.State.{
  State, M, return, ◌>>=◌, check_root, Ensures, Ensures-bind, Ensures-if, Ensures-return,
  check_root-Ensures, Stale, from_owned, add_new_node,
}
use smr_benchmark.Bonsai.Balance.{mk_node, mk_balanced}
use smr_benchmark.Bonsai.Balance.Laws.{Makes, no_spot}
use smr_benchmark.Bonsai.Balance.Choice.{HasRoot, mk_balanced-Makes}
use smr_benchmark.Bonsai.Update.{pull_leftmost, pull_rightmost}

module _ {ℓ κ} {K : Type ℓ} {V : Type κ} where
  -- A tree with the entries `rest`, and a node with the entry `(k, v)`; or one of them is retired.
  abbrev pub Pulled :
      (ℕ → Shared K V) → Shared K V → List (K × V) → K → V → Shared K V × Shared K V → Type (ℓ ⊔ κ)
  Pulled root_at c rest k v r = Makes root_at c rest r.0 × HasRoot root_at c k v r.1

  pub record First (xs : List (K × V)) : Type (ℓ ⊔ κ) where
    pub key : K
    pub value : V
    pub rest : List (K × V)
    pub cut : xs ≡ (key, value) ∷ rest

  pub record Last (xs : List (K × V)) : Type (ℓ ⊔ κ) where
    pub key : K
    pub value : V
    pub rest : List (K × V)
    pub cut : xs ≡ rest ++ (key, value) ∷ []

  pub is_null-entries : (p : Shared K V) → is_null p ≡ true → entries p ≡ []
  unfolding is_null
  is_null-entries (null _) h = refl
  is_null-entries (node _ _ _ _ _ _ _) h = absurd (ground arith)

module _ {ℓ κ} {K : Type ℓ} {V : Type κ} (c : Shared K V) (root_at : ℕ → Shared K V) where
  mk_leaf : (k : K) (v : V) → Ensures c (mk_node (null 0) (null 0) k v) (HasRoot root_at c k v)
  unfolding mk_node from_owned add_new_node is_retired_spot
  mk_leaf k v s j = (_, _, refl, j, (refl, refl, refl))

  retired_pair :
      (rest : List (K × V)) (k : K) (v : V)
      → Stale root_at c
      → Ensures {K = K} {V = V} c (return (retired_node, retired_node)) (Pulled root_at c rest k v)
  unfolding retired_node
  retired_pair rest k v st =
      Ensures-return c _ (retired_node, retired_node) (inl (st, refl), (st, refl))

  check_Pulled :
      (rest : List (K × V)) (k : K) (v : V) (other : Bool) (m : M K V (Shared K V × Shared K V))
      → other ≡ false
      → Ensures c m (Pulled root_at c rest k v)
      → Ensures c
          (check_root root_at >>= λ same.
            if not same || other then return (retired_node, retired_node) else m)
          (Pulled root_at c rest k v)
  check_Pulled rest k v other m no_other h =
      Ensures-bind c (λ same. same ≡ false → Stale root_at c) (Pulled root_at c rest k v)
        (check_root root_at) _ (check_root-Ensures c root_at)
        λ same st.
          Ensures-if c (Pulled root_at c rest k v) (not same || other) _ m
            (λ e. retired_pair rest k v (st (ground (arith, e, no_other)))) (λ _. h)

  pub pull_leftmost-Pulled :
      (p : Shared K V)
      → IsGood p
      → is_null p ≡ false
      → (f : First (entries p)) × Ensures c
          (pull_leftmost root_at p)
          (Pulled root_at c f.rest f.key f.value)
  unfolding pull_leftmost is_null
  pull_leftmost-Pulled (null t) g h = absurd (ground arith)
  pull_leftmost-Pulled (node t a k v n l r) g h = elim (Bool-cases (is_null l)) [
    | inl e ↦
        let f : First (entries l ++ (k, v) ∷ entries r) = record {
          key = k;
          value = v;
          rest = entries r;
          cut = rw (is_null-entries l e);
        } in
        (
          f,
          Ensures-if c _ (is_retired_spot (node t a k v n l r)) _ _
              (λ e. absurd (ground (arith, e, is_retired_spot-IsGood (node t a k v n l r) g)))
              (λ _.
                check_Pulled f.rest f.key f.value (is_retired_spot l || is_retired_spot r) _
                  (no_spot c root_at l r g.2 g.3)
                  (Ensures-if c _ (not (is_null l)) _ _ (λ x. absurd (ground (arith, x, e)))
                    (λ _.
                      Ensures-bind c (HasRoot root_at c k v) _ (mk_node (null 0) (null 0) k v) _
                        (mk_leaf k v)
                        λ succ leaf. Ensures-return c _ (r, succ) (inr (g.3, refl), leaf)))),
        )
    | inr e ↦
        let (h, below) = pull_leftmost-Pulled l g.2 e in
        let f : First (entries l ++ (k, v) ∷ entries r) = record {
          key = h.key;
          value = h.value;
          rest = h.rest ++ (k, v) ∷ entries r;
          cut = rw h.cut;
        } in
        (
          f,
          Ensures-if c _ (is_retired_spot (node t a k v n l r)) _ _
              (λ e. absurd (ground (arith, e, is_retired_spot-IsGood (node t a k v n l r) g)))
              (λ _.
                check_Pulled f.rest f.key f.value (is_retired_spot l || is_retired_spot r) _
                  (no_spot c root_at l r g.2 g.3)
                  (Ensures-if c _ (not (is_null l)) _ _
                    (λ _.
                      Ensures-bind c (Pulled root_at c h.rest h.key h.value) _
                        (pull_leftmost root_at l) _ below
                        λ d b.
                          Ensures-bind c (Makes root_at c f.rest) _
                            (mk_balanced root_at (node t a k v n l r) d.0 r) _
                            (mk_balanced-Makes c root_at (node t a k v n l r) d.0 r k v h.rest
                              (entries r)
                              (refl, refl, is_retired_spot-IsGood (node t a k v n l r) g) b.0
                              (inr (g.3, refl)))
                            λ top x. Ensures-return c _ (top, d.1) (x, b.1))
                    (λ x. absurd (ground (arith, x, e))))),
        )
  ]

  pub pull_rightmost-Pulled :
      (p : Shared K V)
      → IsGood p
      → is_null p ≡ false
      → (f : Last (entries p)) × Ensures c
          (pull_rightmost root_at p)
          (Pulled root_at c f.rest f.key f.value)
  unfolding pull_rightmost is_null
  pull_rightmost-Pulled (null t) g h = absurd (ground arith)
  pull_rightmost-Pulled (node t a k v n l r) g h = elim (Bool-cases (is_null r)) [
    | inl e ↦
        let f : Last (entries l ++ (k, v) ∷ entries r) = record {
          key = k;
          value = v;
          rest = entries l;
          cut = rw (is_null-entries r e);
        } in
        (
          f,
          Ensures-if c _ (is_retired_spot (node t a k v n l r)) _ _
              (λ e. absurd (ground (arith, e, is_retired_spot-IsGood (node t a k v n l r) g)))
              (λ _.
                check_Pulled f.rest f.key f.value (is_retired_spot l || is_retired_spot r) _
                  (no_spot c root_at l r g.2 g.3)
                  (Ensures-if c _ (not (is_null r)) _ _ (λ x. absurd (ground (arith, x, e)))
                    (λ _.
                      Ensures-bind c (HasRoot root_at c k v) _ (mk_node (null 0) (null 0) k v) _
                        (mk_leaf k v)
                        λ succ leaf. Ensures-return c _ (l, succ) (inr (g.2, refl), leaf)))),
        )
    | inr e ↦
        let (h, below) = pull_rightmost-Pulled r g.3 e in
        let f : Last (entries l ++ (k, v) ∷ entries r) = record {
          key = h.key;
          value = h.value;
          rest = entries l ++ (k, v) ∷ h.rest;
          cut = rw h.cut (sym (append_assoc (entries l) _ _));
        } in
        (
          f,
          Ensures-if c _ (is_retired_spot (node t a k v n l r)) _ _
              (λ e. absurd (ground (arith, e, is_retired_spot-IsGood (node t a k v n l r) g)))
              (λ _.
                check_Pulled f.rest f.key f.value (is_retired_spot l || is_retired_spot r) _
                  (no_spot c root_at l r g.2 g.3)
                  (Ensures-if c _ (not (is_null r)) _ _
                    (λ _.
                      Ensures-bind c (Pulled root_at c h.rest h.key h.value) _
                        (pull_rightmost root_at r) _ below
                        λ d b.
                          Ensures-bind c (Makes root_at c f.rest) _
                            (mk_balanced root_at (node t a k v n l r) l d.0) _
                            (mk_balanced-Makes c root_at (node t a k v n l r) l d.0 k v (entries l)
                              h.rest (refl, refl, is_retired_spot-IsGood (node t a k v n l r) g)
                              (inr (g.2, refl)) b.0)
                            λ top x. Ensures-return c _ (top, d.1) (x, b.1))
                    (λ x. absurd (ground (arith, x, e))))),
        )
  ]

  -- On a good tree that is not empty, whatever is loaded from the root meanwhile, `pull_leftmost`
  -- dereferences no null pointer and leaves the current root; it gives a good tree of the entries but
  -- the first and a node with the first, or, in place of either, the retired pointer, and then a load
  -- of the root differed from the current one.
  pull_leftmost_lem :
      (p : Shared K V) (s : State K V)
      → IsGood p
      → is_null p ≡ false
      → s.curr_root ≡ c
      → (f : First (entries p)) × (r : Shared K V × Shared K V) × (t : State K V) × (pull_leftmost
            root_at p s
          ≡ some (r, t))
        × (t.curr_root ≡ c)
        × Pulled root_at c f.rest f.key f.value r
  pull_leftmost_lem p s g h e =
      let (f, run) = pull_leftmost-Pulled p g h in
      let (r, t, returns, same, pulled) = run s e in (f, r, t, returns, same, pulled)

  -- The same of `pull_rightmost` and the last entry: on a good tree that is not empty it dereferences
  -- no null pointer and leaves the current root; it gives a good tree of the entries but the last and
  -- a node with the last, or, in place of either, the retired pointer, and then a load of the root
  -- differed from the current one.
  pull_rightmost_lem :
      (p : Shared K V) (s : State K V)
      → IsGood p
      → is_null p ≡ false
      → s.curr_root ≡ c
      → (f : Last (entries p)) × (r : Shared K V × Shared K V) × (t : State K V) × (pull_rightmost
            root_at p s
          ≡ some (r, t))
        × (t.curr_root ≡ c)
        × Pulled root_at c f.rest f.key f.value r
  pull_rightmost_lem p s g h e =
      let (f, run) = pull_rightmost-Pulled p g h in
      let (r, t, returns, same, pulled) = run s e in (f, r, t, returns, same, pulled)
