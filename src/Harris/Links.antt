-- ===== src/Harris/Links.antt =====
-- list.rs: the nodes while links change.
use smr_benchmark.Prelude.{
  ℕ, suc, ◌<◌, ◌≡◌, ◌≢◌, refl, Bool, true, false, Option, none, some, arith, ◌∙◌, sym, ap, subst,
  ℕ_discrete,
}
use smr_benchmark.Prelude.Family.{update}
use smr_benchmark.Harris.{Shared, Node, Harris, link_at, set_link, set_mark}
use smr_benchmark.Harris.Paths.{Way, here, there, Run, stop, pass, shortcut, reroute, Run-map}
use smr_benchmark.Harris.Invariant.{Linked, Above, Shape}
use smr_benchmark.Harris.Stable.{Extends}

module _ {ℓ} {V : Type ℓ} where
  Above-Run :
      {m : Harris V} {l : ℕ → Bool} (s : Shape m l) (k : ℕ) {x y : Option ℕ}
      → Above m k x
      → Run m.node l x y
      → Above m k y
  Above-Run s k h stop = h
  Above-Run {m} s k h (pass {b} lb g r) =
      Above-Run s k (up (m.node b).next.target (s.sorted b lb)) r
    where
      up : (t : Option ℕ) → Above m (m.node b).key t → Above m k t
      up none q = tt
      up (some c) q = omega arith

  pub Above-Way :
      (m : Harris V) (k : ℕ) {x : Option ℕ} {u : ℕ}
      → Above m k x
      → Way m.node x u
      → k < (m.node u).key
  Above-Way m k h here = h
  Above-Way m k h (there lt q) = omega arith

  -- Nothing but the link of one node changes.
  pub keys_stay :
      (m : Harris V) (p : ℕ) (x : Shared) (b : ℕ)
      → ((set_link m (some p) x).node b).key ≡ (m.node b).key
  keys_stay m p x b = ground arith

  pub other_next :
      (m : Harris V) (p : ℕ) (x : Shared) (b : ℕ)
      → p ≢ b
      → ((set_link m (some p) x).node b).next ≡ (m.node b).next
  other_next m p x b ne = ground arith

  pub this_next :
      (m : Harris V) (p : ℕ) (x : Shared) (b : ℕ)
      → p ≡ b
      → ((set_link m (some p) x).node b).next ≡ x
  this_next m p x b e = ground arith

  -- A way past a link that changes goes on, if it can from what the link now leads to.
  pub relink :
      (m : Harris V) (p : ℕ) (x : Shared) {u : ℕ}
      → ((m.node p).key < (m.node u).key
          → Way (set_link m (some p) x).node (m.node p).next.target u
          → Way (set_link m (some p) x).node x.target u)
      → {y : Option ℕ} → Way m.node y u
      → Way (set_link m (some p) x).node y u
  relink m p x {u} f = reroute (keys_stay m p x) (λ b lt q. elim (ℕ_discrete p b) [
    | yes e ↦
        subst (λ (s : Shared). Way (set_link m (some p) x).node s.target u)
          (sym (this_next m p x b e))
          (f (subst (λ c. (m.node c).key < (m.node u).key) (sym e) lt)
            (subst (λ c. Way (set_link m (some p) x).node (m.node c).next.target u) (sym e) q))
    | no ne ↦
        subst (λ (s : Shared). Way (set_link m (some p) x).node s.target u)
          (sym (other_next m p x b ne)) q
  ])

  -- A link that is written keeps the nodes below those above it.
  pub Above-stays :
      (m : Harris V) (p : ℕ) (x : Shared) (k : ℕ) (t : Option ℕ)
      → Above m k t
      → Above (set_link m (some p) x) k t
  Above-stays m p x k none h = tt
  Above-stays m p x k (some c) h = ground (arith, h)

  -- What holds of a link after the write
  pub next_at :
      (m : Harris V) (p : ℕ) (x : Shared) (a : ℕ) (P : Shared → Type 0)
      → (p ≡ a → P x)
      → (p ≢ a → P (m.node a).next)
      → P ((set_link m (some p) x).node a).next
  next_at m p x a P f g = elim (ℕ_discrete p a) [
    | yes e ↦ subst P (sym (this_next m p x a e)) (f e)
    | no ne ↦ subst P (sym (other_next m p x a ne)) (g ne)
  ]

  pub sorted_at :
      (m : Harris V) (p : ℕ) (x : Shared) (a : ℕ)
      → (p ≡ a → Above m (m.node a).key x.target)
      → (p ≢ a → Above m (m.node a).key (m.node a).next.target)
      → Above
          (set_link m (some p) x)
          ((set_link m (some p) x).node a).key
          ((set_link m (some p) x).node a).next.target
  sorted_at m p x a f g =
      subst (λ k. Above (set_link m (some p) x) k ((set_link m (some p) x).node a).next.target)
        (sym (keys_stay m p x a))
        (Above-stays m p x (m.node a).key ((set_link m (some p) x).node a).next.target
          (next_at m p x a (λ y. Above m (m.node a).key y.target) f g))

  pub unlink-Extends :
      {m : Harris V} {l : ℕ → Bool} {w : Option ℕ} (prev : Option ℕ) (x : Shared)
      → Linked l prev
      → (link_at m prev).marked ≡ false
      → Extends m l (set_link m prev x) l w
  unlink-Extends none x h e = record {
    fresh_le = omega arith;
    grows = λ a k. k;
    keys = λ a lt. refl;
    frozen = λ a k g. refl;
    mine = λ a f lt k. (k, refl);
  }
  unlink-Extends {m} (some p) x h e = record {
    fresh_le = omega arith;
    grows = λ a k. k;
    keys = λ a lt. keys_stay m p x a;
    frozen = λ a k g. ground (arith, e, g);
    mine = λ a f lt k. (k, ground (arith, h, k));
  }

  -- A way goes on past a link that passes over a run of marked nodes.
  pub unlink-Way :
      (m : Harris V) {l : ℕ → Bool} {u : ℕ} (prev : Option ℕ) (x : Shared)
      → Linked l prev
      → (link_at m prev).marked ≡ false
      → Run m.node l (link_at m prev).target x.target
      → ((set_link m prev x).node u).next.marked ≡ false
      → {y : Option ℕ} → Way m.node y u
      → Way (set_link m prev x).node y u
  unlink-Way m none x h e r q w = w
  unlink-Way m {l} (some p) x h e r q w =
      let ext : Extends m l (set_link m (some p) x) l none = unlink-Extends (some p) x h e in
      relink m p x (λ lt z. shortcut z q (Run-map (λ b lb gb. (lb, ext.frozen b lb gb)) r)) w

  pub unlink-Shape :
      {m : Harris V} {l : ℕ → Bool} (s : Shape m l) (prev : Option ℕ) (x : Shared)
      → Linked l prev
      → (link_at m prev).marked ≡ false
      → x.marked ≡ false
      → Linked l x.target
      → Run m.node l (link_at m prev).target x.target
      → Shape (set_link m prev x) l
  unlink-Shape s none x h e f g r = record {
    head_clear = f;
    head_linked = g;
    allocated = s.allocated;
    next_linked = s.next_linked;
    sorted = s.sorted;
    reachable = λ a k q. shortcut (s.reachable a k q) q r;
  }
  unlink-Shape {m} {l} s (some p) x h e f g r = record {
    head_clear = s.head_clear;
    head_linked = s.head_linked;
    allocated = s.allocated;
    next_linked = λ a k. next_at m p x a (λ y. Linked l y.target) (λ _. g) (λ _. s.next_linked a k);
    sorted = λ a k.
        sorted_at m p x a
          (λ q.
            Above-Run s (m.node a).key (s.sorted a k)
              (subst (λ b. Run m.node l (m.node b).next.target x.target) q r))
          (λ _. s.sorted a k);
    reachable = λ a k q. unlink-Way m (some p) x h e r q (s.reachable a k (ground (arith, e, q)));
  }

  -- A mark leaves the links.
  pub mark-Shape :
      {m : Harris V} {l : ℕ → Bool} (s : Shape m l) (a : ℕ)
      → (m.node a).next.marked ≡ false
      → Shape (set_mark m a) l
  mark-Shape {m} {l} s a e =
      let x : Shared = record (m.node a).next { marked = true } in
      record {
        head_clear = s.head_clear;
        head_linked = s.head_linked;
        allocated = s.allocated;
        next_linked = λ b k.
            next_at m a x b (λ y. Linked l y.target)
              (λ q. subst (λ c. Linked l (m.node c).next.target) (sym q) (s.next_linked b k))
              (λ _. s.next_linked b k);
        sorted = λ b k.
            sorted_at m a x b
              (λ q.
                subst (λ c. Above m (m.node b).key (m.node c).next.target) (sym q) (s.sorted b k))
              (λ _. s.sorted b k);
        reachable = λ b k q. relink m a x (λ _ w. w) (s.reachable b k (ground (arith, e, q)));
      }

  -- A way along linked nodes stays while these stay as they are.
  pub stay :
      {m : Harris V} {l : ℕ → Bool} {node' : ℕ → Node V} {u : ℕ}
      → Shape m l
      → ((b : ℕ)
          → l b ≡ true
          → ((node' b).key ≡ (m.node b).key) × ((node' b).next ≡ (m.node b).next))
      → l u ≡ true
      → {t : Option ℕ} → Linked l t
      → Way m.node t u
      → Way node' t u
  stay s same lu lt here = here
  stay {node'} {u} s same lu lb (there {b} lt q) =
      there (omega (arith, (same b lb).0, (same u lu).0)) (
        subst (λ (y : Shared). Way node' y.target u) (sym (same b lb).1)
          (stay s same lu (s.next_linked b lb) q))

  -- The new node of an insertion is written.
  pub prepare-Extends :
      {m : Harris V} {l : ℕ → Bool} {w : Option ℕ} (new : ℕ) (x : Shared)
      → l new ≡ false
      → w ≢ some new
      → Extends m l (set_link m (some new) x) l w
  prepare-Extends {m} {w} new x h ne = record {
    fresh_le = omega arith;
    grows = λ a k. k;
    keys = λ a lt. keys_stay m new x a;
    frozen = λ a k g. other_next m new x a (λ e. ground (arith, e, h, k));
    mine = λ a f lt k. (k, other_next m new x a (λ e. ne (subst (λ c. w ≡ some c) (sym e) f)));
  }

  pub prepare-Shape :
      {m : Harris V} {l : ℕ → Bool} (s : Shape m l) (new : ℕ) (x : Shared)
      → l new ≡ false
      → Shape (set_link m (some new) x) l
  prepare-Shape {m} {l} s new x h = record {
    head_clear = s.head_clear;
    head_linked = s.head_linked;
    allocated = s.allocated;
    next_linked = λ a k.
        next_at m new x a (λ y. Linked l y.target) (λ e. absurd (ground (arith, e, h, k)))
          (λ _. s.next_linked a k);
    sorted = λ a k. sorted_at m new x a (λ e. absurd (ground (arith, e, h, k))) (λ _. s.sorted a k);
    reachable = λ a k q.
        stay s (λ b lb. (keys_stay m new x b, other_next m new x b (λ e. ground (arith, e, h, lb))))
          k s.head_linked
          (s.reachable a k (
            ap (λ (y : Shared). y.marked)
              (sym (other_next m new x a (λ e. ground (arith, e, h, k))))
            ∙ q));
  }

  Above-map :
      (m m' : Harris V) {l : ℕ → Bool} (j k : ℕ) (t : Option ℕ)
      → ((b : ℕ) → l b ≡ true → (m'.node b).key ≡ (m.node b).key)
      → j ≡ k
      → Linked l t
      → Above m k t
      → Above m' j t
  Above-map m m' j k none same e lt h = tt
  Above-map m m' j k (some b) same e lb h = omega (arith, same b lb)

  -- A node is allocated.
  pub alloc-Extends :
      {m : Harris V} {l : ℕ → Bool} {w : Option ℕ} (n : Node V)
      → Shape m l
      → Extends m l (record m { node = update m.node m.fresh n; fresh = suc m.fresh }) l w
  alloc-Extends {m} n s = record {
    fresh_le = omega arith;
    grows = λ a k. k;
    keys = λ a lt. ground (arith, lt);
    frozen = λ a k g. ground (arith, s.allocated a k);
    mine = λ a f lt k. (k, ground (arith, lt));
  }

  pub alloc-Shape :
      {m : Harris V} {l : ℕ → Bool} (s : Shape m l) (n : Node V)
      → Shape (record m { node = update m.node m.fresh n; fresh = suc m.fresh }) l
  alloc-Shape {m} {l} s n = record {
    head_clear = s.head_clear;
    head_linked = s.head_linked;
    allocated = λ a k. omega (arith, s.allocated a k);
    next_linked =
        λ a k. subst (λ (y : Shared). Linked l y.target) (sym (old a k).1) (s.next_linked a k);
    sorted = λ a k.
        let m' : Harris V = record m { node = update m.node m.fresh n; fresh = suc m.fresh } in
        subst (λ (y : Shared). Above m' (m'.node a).key y.target) (sym (old a k).1)
          (Above-map m m' (m'.node a).key (m.node a).key (m.node a).next.target
            (λ b lb. (old b lb).0) (old a k).0 (s.next_linked a k) (s.sorted a k));
    reachable = λ a k q.
        stay s old k s.head_linked
          (s.reachable a k (ap (λ (y : Shared). y.marked) (sym (old a k).1) ∙ q));
  }
    where
      old :
          (a : ℕ)
          → l a ≡ true
          → ((update m.node m.fresh n a).key ≡ (m.node a).key)
            × ((update m.node m.fresh n a).next ≡ (m.node a).next)
      old a k = (ground (arith, s.allocated a k), ground (arith, s.allocated a k))
