-- ===== src/Harris/Known.antt =====
-- list.rs: what a thread knows where it stands, and the steps on its new node.
use smr_benchmark.Prelude.{
  ℕ, suc, ◌<◌, ◌≡◌, refl, Bool, true, false, Option, none, some, arith, ◌∙◌, sym, ap, subst,
  Bool-cases, inl, inr,
}
use smr_benchmark.Prelude.Family.{update}
use smr_benchmark.Harris.{
  Shared, Node, Harris, Op, getting, inserting, removing, Pc, idle, trying, finding, cleaning,
  stepping, skipping, decided, linking, set_link, null,
}
use smr_benchmark.Harris.Invariant.{Linked, Stopped, Private, At, own_of, own}
use smr_benchmark.Harris.Stable.{Extends, Before-stable, Stopped-stable}
use smr_benchmark.Harris.Links.{
  this_next, keys_stay, prepare-Extends, prepare-Shape, alloc-Extends, alloc-Shape,
}
use smr_benchmark.Harris.Entries.{Inv, advance, kept, still-Represents}

module _ {ℓ} {V : Type ℓ} (m : Harris V) (l : ℕ → Bool) where
  own_of_bound : (op : Op) {a : ℕ} → Private m l op → own_of op ≡ some a → a < m.fresh
  own_of_bound (getting _) h e = absurd (ground (arith, e))
  own_of_bound (inserting _ new) (lt, _, _) e = ground (arith, e, lt)
  own_of_bound (removing _) h e = absurd (ground (arith, e))

  -- The new node of a thread has been allocated.
  own_bound : (p : Pc) {a : ℕ} → At m l p → own p ≡ some a → a < m.fresh
  own_bound (trying op) h e = own_of_bound op h e
  own_bound (finding op _ _ _) h e = own_of_bound op h.0 e
  own_bound (cleaning op _ _ _ _) h e = own_of_bound op h.0 e
  own_bound (stepping op _ _) h e = own_of_bound op h.0 e
  own_bound (skipping op _ _ _) h e = own_of_bound op h.0 e
  own_bound (decided op _ _ _) h e = own_of_bound op h.0 e
  own_bound (linking k new _ _) h e = own_of_bound (inserting k new) h.0 e
  own_bound _ h e = absurd (ground (arith, e))

  pub Stopped-Linked : (k : ℕ) (found : Bool) (x : Option ℕ) → Stopped m l k found x → Linked l x
  Stopped-Linked k false x h = h.0
  Stopped-Linked k true x (a, e, la, key) = subst (Linked l) (sym e) la

module _ {ℓ} {V : Type ℓ} {m : Harris V} {th : ℕ → Pc} {map : ℕ → Option V} (v : Inv m th map)
    (i : ℕ) where
  pub known : {p : Pc} → th i ≡ p → At m v.linked p
  known t = subst (At m v.linked) t (v.at i)

  -- Where a pointer leads, if it leads to a node
  pub leads : {x : Option ℕ} {a : ℕ} → Linked v.linked x → x ≡ some a → v.linked a ≡ true
  leads h e = subst (Linked v.linked) e h

  pub ends : (k : ℕ) {x : Option ℕ} → x ≡ none → Stopped m v.linked k false x
  ends k e = subst (Stopped m v.linked k false) (sym e) (tt, tt)

  pub passes :
      (k : ℕ) {x : Option ℕ} {a : ℕ}
      → x ≡ some a
      → v.linked a ≡ true
      → k < (m.node a).key
      → Stopped m v.linked k false x
  passes k e la lt = subst (Stopped m v.linked k false) (sym e) (la, lt)

  pub found_entry :
      {a : ℕ} (k : ℕ)
      → v.linked a ≡ true
      → (m.node a).next.marked ≡ false
      → (m.node a).key ≡ k
      → map k ≡ some (m.node a).value
  found_entry {a} k la um e = ap map (sym e) ∙ v.represents.stored a la um

  unlinked_fresh : v.linked m.fresh ≡ false
  unlinked_fresh = elim (Bool-cases (v.linked m.fresh)) [
    | inl h ↦ absurd (omega (arith, v.shape.allocated m.fresh h))
    | inr h ↦ h
  ]

  pub insert_start-Inv :
      (k : ℕ) (d : V)
      → th i ≡ idle
      → Inv
          (record m {
            node = update m.node m.fresh (record { next = null; key = k; value = d });
            fresh = suc m.fresh;
          })
          (update th i (trying (inserting k m.fresh)))
          map
  insert_start-Inv k d t =
      let n : Node V = record { next = null; key = k; value = d } in
      advance v i (trying (inserting k m.fresh)) v.linked (alloc-Shape v.shape n)
        (omega arith, unlinked_fresh, ground arith) (λ j ne. alloc-Extends n v.shape)
        (λ j a ne q h. ground (arith, h, own_bound m v.linked (th j) (v.at j) q))
        (still-Represents v.represents (λ a la. (
          ground (arith, v.shape.allocated a la),
          ground (arith, v.shape.allocated a la),
          ground (arith, v.shape.allocated a la),
        )))

  pub insert_prepare-Inv :
      (k new : ℕ) (prev : Option ℕ) (curr : Shared)
      → th i ≡ decided (inserting k new) false prev curr
      → Inv (set_link m (some new) curr) (update th i (linking k new prev curr)) map
  insert_prepare-Inv k new prev curr t =
      let ((lt, fresh, key), before, clear, stopped) = known t in
      let x : Extends m v.linked (set_link m (some new) curr) v.linked none =
        prepare-Extends new curr fresh (λ e. ground (arith, e)) in
      advance v i (linking k new prev curr) v.linked (prepare-Shape v.shape new curr fresh)
        (
          (lt, fresh, keys_stay m new curr new ∙ key),
          Before-stable v.shape x k prev before,
          clear,
          Stopped-stable v.shape x k false curr.target stopped,
          this_next m new curr new refl,
        )
        (λ j ne. prepare-Extends new curr fresh (λ q. ne (v.apart i j new (ap own t) q)))
        (kept v i (linking k new prev curr) (λ a h. ap own t ∙ h))
        (still-Represents v.represents
          (λ a la. (keys_stay m new curr a, ground (arith, la, fresh), ground (arith, la, fresh))))
