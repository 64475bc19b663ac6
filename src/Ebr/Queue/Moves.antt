-- ===== src/Ebr/Queue/Moves.antt =====
-- queue.rs: the moves of a thread, on the order of the nodes and on the values behind the head.
use smr_benchmark.Prelude.{
  ℕ, suc, ◌≤◌, ◌<◌, ◌≡◌, ◌≢◌, refl, none, some, List, [], ◌∷◌, ◌++◌, arith, inl, inr, ◌⊎◌, subst,
  sym, ap, ◌∙◌,
}
use smr_benchmark.Prelude.Family.{update}
use smr_benchmark.Ebr.Queue.{
  Queue, Pc, idle, linking, swinging, exchanging, popped, Event, pushes, pops, Move, push_start,
  push_load, push_behind, push_help, push_at_end, push_link, push_lost, push_swing, pop_start,
  pop_load, pop_empty, pop_rejected, pop_next, pop_lost, pop_won, pop_tail_moved, pop_tail_behind,
  pop_fix, pop_retire, set_next, swing_tail, Allows, Holds,
}
use smr_benchmark.Ebr.Queue.Invariant.{new_of, At, Shape, Threads}
use smr_benchmark.Ebr.Queue.Nodes.{
  swing_from, Shape-swing, Shape-alloc, Shape-link, Shape-pop, Shape-retire,
}
use smr_benchmark.Ebr.Queue.Threads.{Threads-quiet, Threads-alloc, Threads-link}
use smr_benchmark.Ebr.Queue.Chain.{Holds-end, Holds-next, Holds-frame, Holds-link}

module _ {ℓ} {D : Type ℓ} where
  pub record Inv (q : Queue D) (th : ℕ → Pc) (xs : List D) : Type ℓ where
    pub node : ℕ → ℕ
    pub h : ℕ
    pub t : ℕ
    pub l : ℕ
    pub shape : Shape node h t l q
    pub threads : Threads node h t l q th
    pub holds : Holds q.cell q.head xs

  abbrev pub After : Queue D → (ℕ → Pc) → Event D → List D → Type ℓ
  After q th e xs = (ys : List D) × Inv q th ys × Allows e xs ys

module _ {ℓ} {D : Type ℓ} {q : Queue D} {th : ℕ → Pc} {xs : List D} (v : Inv q th xs) (k : ℕ) where
  -- The thread learns something, and leaves the queue alone.
  local_move :
      (p : Pc)
      → (new_of p ≡ none) ⊎ (new_of p ≡ new_of (th k))
      → At v.node v.h v.t v.l p
      → Inv q (update th k p) xs
  local_move p same own = record {
    node = v.node;
    h = v.h;
    t = v.t;
    l = v.l;
    shape = v.shape;
    threads =
        Threads-quiet v.shape v.threads k q p v.h v.t refl refl (omega arith) (omega arith) same
          own;
    holds = v.holds;
  }

  -- The thread helps the tail on.
  swing :
      (p : Pc) (i : ℕ) {a n : ℕ}
      → i < v.l
      → v.node i ≡ a
      → v.node (suc i) ≡ n
      → (new_of p ≡ none) ⊎ (new_of p ≡ new_of (th k))
      → At v.node v.h (swing_from v.shape i) v.l p
      → Inv (swing_tail q a n) (update th k p) xs
  unfolding swing_tail
  swing p i {a} {n} lt e f same own =
      subst (λ x. Inv (swing_tail q x n) (update th k p) xs) e
        (subst (λ y. Inv (swing_tail q (v.node i) y) (update th k p) xs) f
          (record {
            node = v.node;
            h = v.h;
            t = swing_from v.shape i;
            l = v.l;
            shape = Shape-swing v.shape i lt;
            threads =
                Threads-quiet v.shape v.threads k (swing_tail q (v.node i) (v.node (suc i))) p v.h
                  (swing_from v.shape i) refl refl (omega arith) (ground arith) same own;
            holds = v.holds;
          }))

  here : {p : Pc} → th k ≡ p → At v.node v.h v.t v.l p
  here e = subst (At v.node v.h v.t v.l) e (v.threads.at k)

  -- The node that is read to have no next node is the last.
  last_one : (i : ℕ) {a : ℕ} → i ≤ v.l → v.node i ≡ a → (q.cell a).next ≡ none → i ≡ v.l
  last_one i le e f = ground (arith, v.shape.linked i)

  -- The node that is read to have a next node is not the last.
  inner_one :
      (i : ℕ) {a n : ℕ}
      → i ≤ v.l
      → v.node i ≡ a
      → (q.cell a).next ≡ some n
      → (i < v.l) × (v.node (suc i) ≡ n)
  inner_one i le e f = ground (arith, v.shape.linked i, v.shape.end)

  -- The thread links its node.
  link_new :
      {onto new : ℕ} (d : D)
      → (q.cell onto).next ≡ none
      → (q.cell new).data_slot ≡ some d
      → th k ≡ linking onto new
      → After
          (record q { cell = set_next q.cell onto new })
          (update th k (swinging onto new))
          (pushes d)
          xs
  link_new {onto} {new} d f g eq =
      let (i, b, e) = here eq in
      let top = last_one i (omega (arith, v.shape.tail_in)) e f in
      let at_end : v.node v.l ≡ onto = ap v.node (sym top) ∙ e in
      let mine = ap new_of eq in
      let (young, free, full) = v.threads.private k new mine in
      let out : (j : ℕ) → j ≤ v.l → v.node j ≢ new = λ j. v.threads.apart k new j mine in
      (
        xs ++ d ∷ [],
        subst
            (λ o.
              Inv (record q { cell = set_next q.cell o new }) (update th k (swinging o new))
                (xs ++ d ∷ []))
            at_end
            (record {
              node = update v.node (suc v.l) new;
              h = v.h;
              t = v.t;
              l = suc v.l;
              shape = Shape-link v.shape new out young free full (omega arith);
              threads = Threads-link v.shape v.threads k new mine;
              holds =
                  Holds-link v.shape new v.h out free g v.shape.head_in (sym v.shape.head_at)
                    v.holds;
            }),
        refl,
      )

  -- The thread moves the head.
  pop_first :
      {a n : ℕ} (d : D)
      → q.head ≡ a
      → (q.cell n).data_slot ≡ some d
      → th k ≡ exchanging a n
      → After (record q { head = n }) (update th k (popped a n)) (pops d) xs
  pop_first {a} {n} d f g eq =
      let (i, b, lt, e, m) = here eq in
      let at_head : i ≡ v.h =
        v.shape.distinct i v.h (omega arith) v.shape.head_in (e ∙ sym f ∙ v.shape.head_at) in
      let next : (q.cell q.head).next ≡ some n = ground (arith, f, e, m, v.shape.linked i lt) in
      let (ys, cut, rest) = Holds-next next g v.holds in
      let shape = Shape-pop v.shape n (omega arith) (ap (λ j. v.node (suc j)) (sym at_head) ∙ m) in
      (
        ys,
        record {
          node = v.node;
          h = suc v.h;
          t = v.t;
          l = v.l;
          shape = shape;
          threads =
              Threads-quiet v.shape v.threads k (record q { head = n }) (popped a n) (suc v.h) v.t
                refl refl (omega arith) (omega arith) (inl refl) (i, omega arith, e, m);
          holds = rest;
        },
        cut,
      )

  pub Move-Inv :
      {p : Pc} {e : Event D} {q' : Queue D} {p' : Pc}
      → Move q p e q' p'
      → th k ≡ p
      → After q' (update th k p') e xs
  Move-Inv (push_start d) eq = (
    xs,
    record {
      node = v.node;
      h = v.h;
      t = v.t;
      l = v.l;
      shape = Shape-alloc v.shape d;
      threads = Threads-alloc v.shape v.threads k d;
      holds =
          Holds-frame v.shape _ v.h (λ j le. ground (arith, v.shape.old j)) v.shape.head_in
            (sym v.shape.head_at) v.holds;
    },
    refl,
  )
  Move-Inv push_load eq =
      (xs, local_move _ (inr (sym (ap new_of eq))) (v.t, omega arith, sym v.shape.tail_at), refl)
  Move-Inv (push_behind f) eq =
      let (i, b, e) = here eq in
      let (lt, n) = inner_one i (omega (arith, v.shape.tail_in)) e f in
      (xs, local_move _ (inr (sym (ap new_of eq))) (i, lt, e, n), refl)
  Move-Inv push_help eq =
      let (i, b, e, n) = here eq in (xs, swing _ i b e n (inr (sym (ap new_of eq))) tt, refl)
  Move-Inv (push_at_end f) eq = (xs, local_move _ (inr (sym (ap new_of eq))) (here eq), refl)
  Move-Inv (push_link d f g) eq = link_new d f g eq
  Move-Inv (push_lost f) eq = (xs, local_move _ (inr (sym (ap new_of eq))) tt, refl)
  Move-Inv push_swing eq = let (i, b, e, n) = here eq in (xs, swing _ i b e n (inl refl) tt, refl)
  Move-Inv pop_start eq = (xs, local_move _ (inl refl) tt, refl)
  Move-Inv pop_load eq = (xs, local_move _ (inl refl) (v.h, omega arith, sym v.shape.head_at), refl)
  Move-Inv (pop_empty {a} f) eq =
      let (i, b, e) = here eq in
      let top = last_one i (omega (arith, v.shape.head_in)) e f in
      let at_head : a ≡ q.head =
        sym e ∙ ap v.node (omega (arith, v.shape.head_in)) ∙ sym v.shape.head_at in
      let nothing : xs ≡ [] = Holds-end f (subst (λ x. Holds q.cell x xs) (sym at_head) v.holds) in
      (xs, local_move _ (inl refl) tt, (nothing, nothing))
  Move-Inv (pop_rejected f) eq = (xs, local_move _ (inl refl) tt, refl)
  Move-Inv (pop_next f) eq =
      let (i, b, e) = here eq in
      let (lt, n) = inner_one i (omega (arith, v.shape.head_in, b)) e f in
      (xs, local_move _ (inl refl) (i, b, lt, e, n), refl)
  Move-Inv (pop_lost f) eq = (xs, local_move _ (inl refl) tt, refl)
  Move-Inv (pop_won d f g) eq = pop_first d f g eq
  Move-Inv (pop_tail_moved f) eq =
      let (i, b, e, n) = here eq in
      (
        xs,
        local_move _ (inl refl)
            (i, b, ground (arith, v.shape.tail_at, v.shape.lag, v.shape.head_in), e),
        refl,
      )
  Move-Inv (pop_tail_behind f) eq = (xs, local_move _ (inl refl) (here eq), refl)
  Move-Inv pop_fix eq =
      let (i, b, e, n) = here eq in
      (
        xs,
        swing _ i (omega (arith, v.shape.head_in)) e n (inl refl)
            (i, b, ground (arith, v.shape.lag, v.shape.head_in), e),
        refl,
      )
  Move-Inv (pop_retire {a} {n}) eq =
      let (i, b, c, e) = here eq in
      (
        xs,
        record {
          node = v.node;
          h = v.h;
          t = v.t;
          l = v.l;
          shape = Shape-retire v.shape i a b c e;
          threads =
              Threads-quiet v.shape v.threads k (record q { retired = a ∷ q.retired }) idle v.h v.t
                refl refl (omega arith) (omega arith) (inl refl) tt;
          holds = v.holds;
        },
        refl,
      )
