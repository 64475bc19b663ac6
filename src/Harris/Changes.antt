-- ===== src/Harris/Changes.antt =====
-- list.rs: the steps that unlink, mark and insert a node, and the map.
use smr_benchmark.Prelude.{
  ℕ, ◌≡◌, ◌≢◌, refl, Bool, true, false, Option, none, some, arith, ◌∙◌, sym, ap, subst, ℕ_discrete,
}
use smr_benchmark.Prelude.Family.{update}
use smr_benchmark.Harris.{Shared, Harris, Pc, idle, linking, detaching, link_at, set_link, set_mark}
use smr_benchmark.Harris.Paths.{Way, Run, stop, pass, through, same_key}
use smr_benchmark.Harris.Invariant.{Linked, Shape, At, own}
use smr_benchmark.Harris.Stable.{At-stable}
use smr_benchmark.Harris.Links.{
  Above-Way, next_at, this_next, other_next, keys_stay, unlink-Extends, unlink-Shape, mark-Shape,
}
use smr_benchmark.Harris.Insertion.{Ready, link_to, insert-Extends, insert-Shape}
use smr_benchmark.Harris.Entries.{Represents, Inv, advance, kept, still-Represents}

module _ {ℓ} {V : Type ℓ} where
  elsewhere : (map : ℕ → Option V) (k j : ℕ) (v : Option V) → k ≢ j → update map k v j ≡ map j
  elsewhere map k j v ne = ground (arith, ne)

  at_update : (map : ℕ → Option V) (k j : ℕ) (v : Option V) → k ≡ j → update map k v j ≡ v
  at_update map k j v e = ground (arith, e)

  values_stay :
      (m : Harris V) (p : ℕ) (x : Shared) (b : ℕ)
      → ((set_link m (some p) x).node b).value ≡ (m.node b).value
  values_stay m p x b = ground arith

  pub write-keeps :
      (m : Harris V) (prev : Option ℕ) (x : Shared)
      → (link_at m prev).marked ≡ x.marked
      → (a : ℕ)
      → (((set_link m prev x).node a).key ≡ (m.node a).key)
        × (((set_link m prev x).node a).value ≡ (m.node a).value)
        × (((set_link m prev x).node a).next.marked ≡ (m.node a).next.marked)
  write-keeps m none x e a = (refl, refl, refl)
  write-keeps m (some p) x e a = (
    keys_stay m p x a,
    ground arith,
    next_at m p x a (λ y. y.marked ≡ (m.node a).next.marked)
        (λ q. sym e ∙ ap (λ c. (m.node c).next.marked) q) (λ _. refl),
  )

  -- A link passes over a run of marked nodes.
  pub unlink-Inv :
      {m : Harris V} {th : ℕ → Pc} {map : ℕ → Option V} (v : Inv m th map) (i : ℕ) (p : Pc)
      (prev : Option ℕ) {old : Shared} (x : Shared)
      → Linked v.linked prev
      → link_at m prev ≡ old
      → old.marked ≡ false
      → x.marked ≡ false
      → Linked v.linked x.target
      → Run m.node v.linked old.target x.target
      → At m v.linked p
      → ((a : ℕ) → own p ≡ some a → own (th i) ≡ some a)
      → Inv (set_link m prev x) (update th i p) map
  unlink-Inv {m} v i p prev x lp e om xm lx run a f =
      let unmarked : (link_at m prev).marked ≡ false = ap (λ (y : Shared). y.marked) e ∙ om in
      advance v i p v.linked
        (unlink-Shape v.shape prev x lp unmarked xm lx
          (subst (λ (y : Shared). Run m.node v.linked y.target x.target) (sym e) run))
        (At-stable p v.shape (unlink-Extends prev x lp unmarked) a)
        (λ j ne. unlink-Extends prev x lp unmarked) (kept v i p f)
        (still-Represents v.represents (λ b lb. write-keeps m prev x (unmarked ∙ sym xm) b))

  mark-Represents :
      {m : Harris V} {l : ℕ → Bool} {map : ℕ → Option V} (s : Shape m l) (r : Represents m l map)
      (a : ℕ)
      → l a ≡ true
      → (m.node a).next.marked ≡ false
      → Represents (set_mark m a) l (update map (m.node a).key none)
  mark-Represents {m} {l} {map} s r a la um = record {
    stored = λ b lb q.
        let ne : a ≢ b = λ e. ground (arith, q, e) in
        let ub : (m.node b).next.marked ≡ false = ground (arith, q, ne) in
        let other : (m.node a).key ≢ (m.node b).key =
          λ e. ne (same_key (s.reachable a la um) (s.reachable b lb ub) e) in
        ap (update map (m.node a).key none) (keys_stay m a y b)
        ∙ elsewhere map (m.node a).key (m.node b).key none other
        ∙ r.stored b lb ub
        ∙ ap some (sym (values_stay m a y b));
    entry = λ k w e. elim (ℕ_discrete (m.node a).key k) [
      | yes same ↦ absurd (ground (arith, e, same))
      | no other ↦
          let (b, lb, ub, kb, vb) =
            r.entry k w (sym (elsewhere map (m.node a).key k none other) ∙ e) in
          let ne : a ≢ b = λ q. other (ap (λ c. (m.node c).key) q ∙ kb) in
          (
            b,
            lb,
            ap (λ (z : Shared). z.marked) (other_next m a y b ne) ∙ ub,
            keys_stay m a y b ∙ kb,
            values_stay m a y b ∙ vb,
          )
    ];
  }
    where
      y : Shared
      y = record (m.node a).next { marked = true }

  -- A node is marked.
  pub mark-Inv :
      {m : Harris V} {th : ℕ → Pc} {map : ℕ → Option V} (v : Inv m th map) (i a : ℕ)
      (prev : Option ℕ) (curr : Shared)
      → v.linked a ≡ true
      → (m.node a).next.marked ≡ false
      → Linked v.linked prev
      → curr.target ≡ some a
      → curr.marked ≡ false
      → Inv
          (set_mark m a)
          (update th i (detaching prev curr (m.node a).next))
          (update map (m.node a).key none)
  mark-Inv {m} v i a prev curr la um lp e cm =
      let y : Shared = record (m.node a).next { marked = true } in
      advance v i (detaching prev curr (m.node a).next) v.linked (mark-Shape v.shape a um)
        (
          lp,
          cm,
          um,
          v.shape.next_linked a la,
          subst (λ t. Run (set_mark m a).node v.linked t (m.node a).next.target) (sym e)
              (pass la (ap (λ (z : Shared). z.marked) (this_next m a y a refl)) (
                subst
                  (λ (z : Shared). Run (set_mark m a).node v.linked z.target (m.node a).next.target)
                  (sym (this_next m a y a refl)) stop)),
        )
        (λ j ne. unlink-Extends (some a) y la um)
        (kept v i (detaching prev curr (m.node a).next) (λ b q. absurd (ground (arith, q))))
        (mark-Represents v.shape v.represents a la um)

  -- No node with the key is there when a new one is linked.
  absent :
      {m : Harris V} {l : ℕ → Bool} {k new : ℕ} (prev : Option ℕ) {curr : Shared} (s : Shape m l)
      (r : Ready m l k new prev curr) (b : ℕ)
      → l b ≡ true
      → (m.node b).next.marked ≡ false
      → (m.node b).key ≢ k
  absent {m} {k} none s r b lb ub e =
      let lt =
        Above-Way m k r.above
          (subst (λ (y : Shared). Way m.node y.target b) r.link (s.reachable b lb ub)) in
      omega (arith, lt, e)
  absent {m} {k} (some p) s r b lb ub e =
      let up = ap (λ (y : Shared). y.marked) r.link ∙ r.clear in
      let way =
        through (s.reachable p r.prev_linked up) (s.reachable b lb ub)
          (omega (arith, r.below, e)) in
      let lt = Above-Way m k r.above (subst (λ (y : Shared). Way m.node y.target b) r.link way) in
      omega (arith, lt, e)

  absent_entry :
      {m : Harris V} {l : ℕ → Bool} {map : ℕ → Option V} {k new : ℕ} (prev : Option ℕ)
      {curr : Shared} (s : Shape m l) (r : Ready m l k new prev curr) (h : Represents m l map)
      (found : Option V)
      → map k ≡ found
      → map k ≡ none
  absent_entry prev s r h none e = e
  absent_entry {k} prev s r h (some v) e =
      let (b, lb, ub, kb, vb) = h.entry k v e in absurd (absent prev s r b lb ub kb)

  insert-Represents :
      {m : Harris V} {l : ℕ → Bool} {map : ℕ → Option V} {k new : ℕ} (prev : Option ℕ)
      {curr : Shared} (s : Shape m l) (r : Ready m l k new prev curr) (h : Represents m l map)
      → Represents
          (set_link m prev (link_to new))
          (update l new true)
          (update map k (some (m.node new).value))
  insert-Represents {m} {l} {map} {k} {new} prev s r h = record {
    stored = λ b lb q.
        let (kb, vb, ub) = keep b in
        elim (ℕ_discrete new b) [
          | yes e ↦
              ap (update map k (some (m.node new).value)) kb
              ∙ at_update map k (m.node b).key (some (m.node new).value)
                  (sym r.key ∙ ap (λ c. (m.node c).key) e)
              ∙ ap some (ap (λ c. (m.node c).value) e ∙ sym vb)
          | no ne ↦
              let old : l b ≡ true = ground (arith, lb, ne) in
              let clear : (m.node b).next.marked ≡ false = sym ub ∙ q in
              ap (update map k (some (m.node new).value)) kb
              ∙ elsewhere map k (m.node b).key (some (m.node new).value)
                  (λ e. absent prev s r b old clear (sym e))
              ∙ h.stored b old clear
              ∙ ap some (sym vb)
        ];
    entry = λ j w e. elim (ℕ_discrete k j) [
      | yes same ↦
          let (kn, vn, un) = keep new in
          (
            new,
            ground arith,
            un ∙ ap (λ (y : Shared). y.marked) r.next ∙ r.clear,
            kn ∙ r.key ∙ same,
            vn ∙ ground (arith, sym (at_update map k j (some (m.node new).value) same) ∙ e),
          )
      | no other ↦
          let (b, lb, ub, kb, vb) =
            h.entry j w (sym (elsewhere map k j (some (m.node new).value) other) ∙ e) in
          let (kb', vb', ub') = keep b in (b, ground (arith, lb), ub' ∙ ub, kb' ∙ kb, vb' ∙ vb)
    ];
  }
    where
      keep :
          (a : ℕ)
          → (((set_link m prev (link_to new)).node a).key ≡ (m.node a).key)
            × (((set_link m prev (link_to new)).node a).value ≡ (m.node a).value)
            × (((set_link m prev (link_to new)).node a).next.marked ≡ (m.node a).next.marked)
      keep = write-keeps m prev (link_to new) (ap (λ (y : Shared). y.marked) r.link ∙ r.clear)

  pub linking-Ready :
      {m : Harris V} {th : ℕ → Pc} {map : ℕ → Option V} (v : Inv m th map) (i k new : ℕ)
      (prev : Option ℕ) (curr : Shared)
      → th i ≡ linking k new prev curr
      → link_at m prev ≡ curr
      → Ready m v.linked k new prev curr
  linking-Ready {m} v i k new prev curr t e =
      let ((lt, fresh, key), (lp, below), clear, (lc, above), next) =
        subst (At m v.linked) t (v.at i) in
      record {
        prev_linked = lp;
        link = e;
        clear = clear;
        next = next;
        curr_linked = lc;
        above = above;
        below = below;
        key = key;
        unlinked = fresh;
        bound = lt;
      }

  -- A new node is linked.
  pub insert-Inv :
      {m : Harris V} {th : ℕ → Pc} {map : ℕ → Option V} (v : Inv m th map) (i k new : ℕ)
      (prev : Option ℕ) (curr : Shared)
      → th i ≡ linking k new prev curr
      → link_at m prev ≡ curr
      → Inv
          (set_link m prev (link_to new))
          (update th i idle)
          (update map k (some (m.node new).value))
        × (map k ≡ none)
  insert-Inv {m} {th} {map} v i k new prev curr t e =
      let r = linking-Ready v i k new prev curr t e in
      (
        advance v i idle (update v.linked new true) (insert-Shape prev v.shape r) tt
            (λ j ne. insert-Extends prev r (λ q. ne (v.apart i j new (ap own t) q)))
            (λ j a ne q h. ground (arith, h)) (insert-Represents prev v.shape r v.represents),
        absent_entry prev v.shape r v.represents (map k) refl,
      )
