-- ===== src/Bonsai/Update/Insert.antt =====
-- bonsai_tree.rs: `do_insert`, against the list of entries.
use Prim.Native.Nat.Ordering.{lt, eq, gt}
use smr_benchmark.Prelude.{
  ℕ, Ordering, ◌≡◌, refl, Bool, true, false, not, ◌||◌, List, [], ◌∷◌, ◌++◌, ◌⊎◌, inl, inr, Option,
  none, some, if◌then◌else◌, arith,
}
use smr_benchmark.Bonsai.Order.{Ord}
use smr_benchmark.Bonsai.Entries.{
  IsSorted, split, find_entry, insert_entry, insert_below, insert_above, insert_at, find_below,
  find_above, find_at,
}
use smr_benchmark.Bonsai.Node.{
  Shared, null, node, retired_node, is_retired_spot, entries, IsGood, is_retired_spot-IsGood,
}
use smr_benchmark.Bonsai.State.{
  State, M, return, ◌>>=◌, check_root, Ensures, Ensures-bind, Ensures-if, Ensures-return,
  check_root-Ensures, Stale,
}
use smr_benchmark.Bonsai.Balance.{mk_node, mk_balanced}
use smr_benchmark.Bonsai.Balance.Laws.{Built, Makes, mk_node-Built, no_spot}
use smr_benchmark.Bonsai.Balance.Choice.{HasRoot, mk_balanced-Makes, mk_balanced-retired}
use smr_benchmark.Bonsai.Update.{do_insert, by_order}

-- `Option::is_none`
abbrev pub is_none {κ} : {V : Type κ} → Option V → Bool
is_none none = true
is_none (some _) = false

module _ {ℓ κ} {K : Type ℓ} {V : Type κ} where
  -- The attempt is given up because the root has changed, or a good tree has the entries `xs` and
  -- the answer is `b`.
  abbrev pub Answers {μ} :
      {B : Type μ}
      → (ℕ → Shared K V)
      → Shared K V
      → List (K × V)
      → B
      → Shared K V × B
      → Type (ℓ ⊔ κ ⊔ μ)
  Answers root_at c xs b r = (Stale root_at c × (r.0 ≡ retired_node)) ⊎ (Built xs r.0 × (r.1 ≡ b))

module _ {ℓ κ} {K : Type ℓ} {V : Type κ} (c : Shared K V) where
  pub Ensures-by_order {μ ν} :
      {A : Type μ} (P : A → Type ν) (d : Ordering) (m₁ m₂ m₃ : M K V A)
      → (d ≡ lt → Ensures c m₁ P)
      → (d ≡ eq → Ensures c m₂ P)
      → (d ≡ gt → Ensures c m₃ P)
      → Ensures c (by_order d m₁ m₂ m₃) P
  Ensures-by_order P lt m₁ m₂ m₃ f g h = f refl
  Ensures-by_order P eq m₁ m₂ m₃ f g h = g refl
  Ensures-by_order P gt m₁ m₂ m₃ f g h = h refl

  module _ {μ} {B : Type μ} (root_at : ℕ → Shared K V) where
    -- A checked step with an answer gives up for a changed root, or goes on.
    pub check_Answers :
        (xs : List (K × V)) (b d : B) (other : Bool) (m : M K V (Shared K V × B))
        → other ≡ false
        → Ensures c m (Answers root_at c xs b)
        → Ensures c
            (check_root root_at >>= λ same.
              if not same || other then return (retired_node, d) else m)
            (Answers root_at c xs b)
    check_Answers xs b d other m no_other h =
        Ensures-bind c (λ same. same ≡ false → Stale root_at c) (Answers root_at c xs b)
          (check_root root_at) _ (check_root-Ensures c root_at)
          λ same st.
            Ensures-if c (Answers root_at c xs b) (not same || other) (return (retired_node, d)) m
              (λ e.
                Ensures-return c (Answers root_at c xs b) (retired_node, d)
                  (inl (st (ground (arith, e, no_other)), refl)))
              (λ _. h)

    -- Rebuilding the parent on the answer of a child
    pub rebuild_right :
        (cur l : Shared K V) (k : K) (v : V) (ys : List (K × V)) (b : B)
        (m : M K V (Shared K V × B))
        → HasRoot root_at c k v cur
        → IsGood l
        → Ensures c m (Answers root_at c ys b)
        → Ensures c
            (m >>= λ inner. mk_balanced root_at cur l inner.0 >>= λ top. return (top, inner.1))
            (Answers root_at c (entries l ++ (k, v) ∷ ys) b)
    rebuild_right cur l k v ys b m hc gl hm =
        Ensures-bind c (Answers root_at c ys b) _ m _ hm λ r a. elim a [
          | inl e ↦
              Ensures-bind c (λ p. p ≡ retired_node) _ (mk_balanced root_at cur l r.0) _
                (mk_balanced-retired c root_at cur l r.0 (inr e.1))
                λ p q. Ensures-return c _ (p, r.1) (inl (e.0, q))
          | inr d ↦
              Ensures-bind c (Makes root_at c (entries l ++ (k, v) ∷ ys)) _
                (mk_balanced root_at cur l r.0) _
                (mk_balanced-Makes c root_at cur l r.0 k v (entries l) ys hc (inr (gl, refl))
                  (inr d.0))
                λ p q. Ensures-return c _ (p, r.1) (elim q [ inl e ↦ inl e | inr f ↦ inr (f, d.1) ])
        ]

    pub rebuild_left :
        (cur r : Shared K V) (k : K) (v : V) (xs : List (K × V)) (b : B)
        (m : M K V (Shared K V × B))
        → HasRoot root_at c k v cur
        → IsGood r
        → Ensures c m (Answers root_at c xs b)
        → Ensures c
            (m >>= λ inner. mk_balanced root_at cur inner.0 r >>= λ top. return (top, inner.1))
            (Answers root_at c (xs ++ (k, v) ∷ entries r) b)
    rebuild_left cur r k v xs b m hc gr hm = Ensures-bind c (Answers root_at c xs b) _ m _ hm λ l a.
        elim a [
          | inl e ↦
              Ensures-bind c (λ p. p ≡ retired_node) _ (mk_balanced root_at cur l.0 r) _
                (mk_balanced-retired c root_at cur l.0 r (inl e.1))
                λ p q. Ensures-return c _ (p, l.1) (inl (e.0, q))
          | inr d ↦
              Ensures-bind c (Makes root_at c (xs ++ (k, v) ∷ entries r)) _
                (mk_balanced root_at cur l.0 r) _
                (mk_balanced-Makes c root_at cur l.0 r k v xs (entries r) hc (inr d.0)
                  (inr (gr, refl)))
                λ p q. Ensures-return c _ (p, l.1) (elim q [ inl e ↦ inl e | inr f ↦ inr (f, d.1) ])
        ]

module _ {ℓ κ} {K : Type ℓ} {V : Type κ} ⦃o : Ord K⦄ (c : Shared K V)
    (root_at : ℕ → Shared K V) where
  pub do_insert-Answers :
      (p : Shared K V) (q : K) (w : V)
      → IsGood p
      → IsSorted (entries p)
      → Ensures c
          (do_insert root_at p q w)
          (Answers root_at c (insert_entry q w (entries p)) (is_none (find_entry q (entries p))))
  unfolding do_insert insert_entry find_entry
  do_insert-Answers (null t) q w g s =
      Ensures-if c _ (is_retired_spot (null t)) _ _
        (λ e. absurd (ground (arith, e, is_retired_spot-IsGood {K = K} {V = V} (null t) g)))
        (λ _.
          Ensures-bind c (Built ((q, w) ∷ [])) _ (mk_node (null 0) (null 0) q w) _
            (mk_node-Built c (null 0) (null 0) q w refl refl)
            λ p b. Ensures-return c _ (p, true) (inr (b, refl)))
  do_insert-Answers (node t a k v n l r) q w g s =
      let sides = split (entries l) k v (entries r) s in
      let ihl = do_insert-Answers l q w g.2 sides.left in
      let ihr = do_insert-Answers r q w g.3 sides.right in
      Ensures-if c _ (is_retired_spot (node t a k v n l r)) _ _
        (λ e. absurd (ground (arith, e, is_retired_spot-IsGood (node t a k v n l r) g)))
        (λ _.
          check_Answers c root_at _ _ false (is_retired_spot l || is_retired_spot r) _
            (no_spot c root_at l r g.2 g.3)
            (Ensures-by_order c _ (o.cmp k q) _ _ _
              (λ e.
                rw
                  (
                    insert_above q k v (entries r) w (entries l) e sides.low,
                    find_above q k v (entries r) (entries l) e sides.low,
                  )
                  (rebuild_right c root_at (node t a k v n l r) l k v _ _ _
                    (refl, refl, is_retired_spot-IsGood (node t a k v n l r) g) g.2 ihr))
              (λ e.
                let same = o.eq_of_cmp k q e in
                rw
                  (
                    insert_at q k v (entries r) w (entries l) same sides.low,
                    find_at q k v (entries r) (entries l) same sides.low,
                  )
                  (Ensures-return c _ (node t a k v n l r, false) (inr ((g, refl), refl))))
              (λ e.
                let below : o.cmp q k ≡ lt = rw (o.cmp_reverse k q, e) in
                rw
                  (
                    insert_below q k v (entries r) w (entries l) below,
                    find_below q k v (entries r) (entries l) below,
                  )
                  (rebuild_left c root_at (node t a k v n l r) r k v _ _ _
                    (refl, refl, is_retired_spot-IsGood (node t a k v n l r) g) g.3 ihl))))

  -- On a good tree in order, whatever is loaded from the root meanwhile, `do_insert` dereferences
  -- no null pointer and leaves the current root; it gives up, where a load of the root differed from
  -- the current one, or returns a good tree with the entry inserted unless the key is there, and
  -- whether it was not there.
  do_insert_lem :
      (p : Shared K V) (q : K) (w : V) (s : State K V)
      → IsGood p
      → IsSorted (entries p)
      → s.curr_root ≡ c
      → (r : Shared K V × Bool) × (t : State K V) × (do_insert root_at p q w s ≡ some (r, t))
        × (t.curr_root ≡ c)
        × Answers root_at c (insert_entry q w (entries p)) (is_none (find_entry q (entries p))) r
  do_insert_lem p q w s g srt = do_insert-Answers p q w g srt s
