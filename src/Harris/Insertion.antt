-- ===== src/Harris/Insertion.antt =====
-- list.rs: the nodes when a new one is linked.
use smr_benchmark.Prelude.{
  ℕ, ◌⊎◌, inl, inr, ◌<◌, ◌≡◌, ◌≢◌, refl, Bool, true, false, Option, none, some, arith, ◌∙◌, sym, ap,
  subst, ℕ_discrete,
}
use smr_benchmark.Prelude.Family.{update}
use smr_benchmark.Harris.{Shared, Harris, link_at, set_link}
use smr_benchmark.Harris.Paths.{Way, here, there, extend}
use smr_benchmark.Harris.Invariant.{Linked, Below, Above, Shape}
use smr_benchmark.Harris.Stable.{Extends}
use smr_benchmark.Harris.Links.{
  Above-Way, Above-stays, next_at, sorted_at, this_next, other_next, keys_stay, relink,
}

abbrev pub link_to : ℕ → Shared
link_to new = record { target = some new; marked = false }

grow : (l : ℕ → Bool) (new : ℕ) (t : Option ℕ) → Linked l t → Linked (update l new true) t
grow l new none h = tt
grow l new (some a) h = ground (arith, h)

module _ {ℓ} {V : Type ℓ} where
  -- What is known of a new node when it is linked
  pub record Ready (m : Harris V) (l : ℕ → Bool) (k new : ℕ) (prev : Option ℕ) (curr : Shared)
      : Type ℓ where
    pub prev_linked : Linked l prev
    pub link : link_at m prev ≡ curr
    pub clear : curr.marked ≡ false
    pub next : (m.node new).next ≡ curr
    pub curr_linked : Linked l curr.target
    pub above : Above m k curr.target
    pub below : Below m prev k
    pub key : (m.node new).key ≡ k
    pub unlinked : l new ≡ false
    pub bound : new < m.fresh

  module _ {m : Harris V} {l : ℕ → Bool} {k new : ℕ} {prev : Option ℕ} {curr : Shared}
      (s : Shape m l) (r : Ready m l k new prev curr) where
    -- A linked node is the new one or an old one.
    which : (a : ℕ) → update l new true a ≡ true → (new ≡ a) ⊎ (l a ≡ true)
    which a h = elim (ℕ_discrete new a) [ yes e ↦ inl e | no ne ↦ inr (ground (arith, h, ne)) ]

    bound_all : (a : ℕ) → update l new true a ≡ true → a < m.fresh
    bound_all a h = elim (which a h) [ inl e ↦ omega (arith, e, r.bound) | inr o ↦ s.allocated a o ]

    next_all :
        (a : ℕ) → update l new true a ≡ true → Linked (update l new true) (m.node a).next.target
    next_all a h = elim (which a h) [
      | inl e ↦
          subst (λ c. Linked (update l new true) (m.node c).next.target) e
            (subst (λ (y : Shared). Linked (update l new true) y.target) (sym r.next)
              (grow l new curr.target r.curr_linked))
      | inr o ↦ grow l new (m.node a).next.target (s.next_linked a o)
    ]

    sorted_all :
        (a : ℕ) → update l new true a ≡ true → Above m (m.node a).key (m.node a).next.target
    sorted_all a h = elim (which a h) [
      | inl e ↦
          subst (λ c. Above m (m.node c).key (m.node c).next.target) e
            (subst (λ (y : Shared). Above m (m.node new).key y.target) (sym r.next)
              (subst (λ j. Above m j curr.target) (sym r.key) r.above))
      | inr o ↦ s.sorted a o
    ]

    new_sorted : (p : ℕ) → Below m (some p) k → Above m (m.node p).key (some new)
    new_sorted p h = omega (arith, h, r.key)

  pub insert-Extends :
      {m : Harris V} {l : ℕ → Bool} {k new : ℕ} (prev : Option ℕ) {curr : Shared} {w : Option ℕ}
      → Ready m l k new prev curr
      → w ≢ some new
      → Extends m l (set_link m prev (link_to new)) (update l new true) w
  insert-Extends {l} {new} none r ne = record {
    fresh_le = omega arith;
    grows = λ a h. ground (arith, h);
    keys = λ a lt. refl;
    frozen = λ a h g. refl;
    mine = λ a f lt h. (ground (arith, h, ne, f), refl);
  }
  insert-Extends {m} {new} (some p) {curr} {w} r ne = record {
    fresh_le = omega arith;
    grows = λ a h. ground (arith, h);
    keys = λ a lt. keys_stay m p (link_to new) a;
    frozen = λ a h g. ground (arith, g, r.link, r.clear);
    mine = λ a f lt h. (ground (arith, h, ne, f), ground (arith, h, r.prev_linked));
  }

  -- A way goes on past a link that leads to a new node, which leads where that link did.
  pub insert-Way :
      (m : Harris V) {l : ℕ → Bool} {k new u : ℕ} (prev : Option ℕ) {curr : Shared}
      → Ready m l k new prev curr
      → {y : Option ℕ} → Way m.node y u
      → Way (set_link m prev (link_to new)).node y u
  insert-Way m none r w = w
  insert-Way m {k} {new} {u} (some p) {curr} r w =
      let x = link_to new in
      let m' = set_link m (some p) x in
      relink m p x
        (λ lt z.
          let way = subst (λ (y : Shared). Way m'.node y.target u) r.link z in
          there
            (omega (
              arith,
              keys_stay m p x new,
              r.key,
              Above-Way m' k (Above-stays m p x k curr.target r.above) way,
            ))
            (subst (λ (y : Shared). Way m'.node y.target u)
              (sym
                (other_next m p x new (λ e. ground (arith, e, r.unlinked, r.prev_linked)) ∙ r.next))
              way))
        w

  pub insert-Shape :
      {m : Harris V} {l : ℕ → Bool} {k new : ℕ} (prev : Option ℕ) {curr : Shared}
      → Shape m l
      → Ready m l k new prev curr
      → Shape (set_link m prev (link_to new)) (update l new true)
  insert-Shape {m} {l} {k} {new} none {curr} s r = record {
    head_clear = refl;
    head_linked = ground arith;
    allocated = bound_all s r;
    next_linked = next_all s r;
    sorted = sorted_all s r;
    reachable = λ a h q. elim (which s r a h) [
      | inl e ↦ subst (Way m.node (some new)) e here
      | inr o ↦
          let way =
            subst (λ (y : Shared). Way m.node y.target a) (r.link ∙ sym r.next)
              (s.reachable a o q) in
          there
            (omega (
              arith,
              r.key,
              Above-Way m k r.above
                  (subst (λ (y : Shared). Way m.node y.target a) r.link (s.reachable a o q)),
            ))
            way
    ];
  }
  insert-Shape {m} {l} {k} {new} (some p) {curr} s r =
      let x = link_to new in
      let m' = set_link m (some p) x in
      record {
        head_clear = s.head_clear;
        head_linked = grow l new m.head.target s.head_linked;
        allocated = bound_all s r;
        next_linked = λ a h.
            next_at m p x a (λ y. Linked (update l new true) y.target) (λ _. ground arith)
              (λ _. next_all s r a h);
        sorted = λ a h.
            sorted_at m p x a
              (λ e. subst (λ c. Above m (m.node c).key (some new)) e (new_sorted s r p r.below))
              (λ _. sorted_all s r a h);
        reachable = λ a h q. elim (which s r a h) [
          | inl e ↦ subst (Way m'.node m.head.target) e (
              extend
                (relink m p x (λ lt w. absurd (omega (arith, lt)))
                  (s.reachable p r.prev_linked (ap (λ (y : Shared). y.marked) r.link ∙ r.clear)))
                (ap (λ (y : Shared). y.target) (this_next m p x p refl))
                (omega (arith, keys_stay m p x p, keys_stay m p x new, r.below, r.key)))
          | inr o ↦ insert-Way m (some p) r (s.reachable a o (ground (arith, q, r.link, r.clear)))
        ];
      }
