-- ===== src/Vbr/Allocating.antt =====
-- smrs/vbr/src/lib.rs: the steps of `allocate`.
use smr_benchmark.Prelude.{
  ℕ, ◌+◌, ◌<◌, ◌≡◌, ◌≢◌, refl, List, [], ◌∷◌, ◌++◌, some, ◌==◌, length, inl, inr, arith, subst, sym,
  ◌∙◌, ap, ℕ_discrete,
}
use smr_benchmark.Prelude.Family.{update, update-this}
use smr_benchmark.Prelude.Counting.{bit}
use smr_benchmark.Vbr.{
  not_retired, Bag, Memory, Thread, absent, idle, popping, acquiring, checking, advancing,
  setting_birth, setting_retire, new_with_alloc, push_slot,
}
use smr_benchmark.Vbr.Bags.{
  in_bags, Fit, length-range, count-range, in_bags-middle, Fit-middle, count-push,
}
use smr_benchmark.Vbr.Invariant.{held, touches, Room, At, Inv}
use smr_benchmark.Vbr.Facts.{alone, other_pc, advance, quiet, kept}

module _ {threads cap : ℕ} {m : Memory} {th : ℕ → Thread} (v : Inv threads cap m th) (i : ℕ)
    (lt : i < threads) where
  pub new_local-Inv :
      (th i).pc ≡ absent
      → Inv threads cap
          (record m { fresh = cap + m.fresh })
          (update th i
            (record (th i) { avail = new_with_alloc cap m ∷ []; retired = [] ∷ []; pc = idle }))
  new_local-Inv e =
      let (nil, nil') = subst (At cap m (th i)) e (v.at i) in
      let t : Thread = record (th i) {
        avail = new_with_alloc cap m ∷ [];
        retired = [] ∷ [];
        pc = idle;
      } in
      quiet v (record m { fresh = cap + m.fresh }) i t lt (λ y h. ground (arith, e, h))
        (λ y. (refl, refl))
        (λ y.
          let c = ap (λ cs. in_bags cs y) nil in
          let d = ap (λ cs. in_bags cs y) nil' in
          let h : held y (th i).pc ≡ 0 = ap (held y) e in
          let r = count-range m.fresh cap y in omega (arith, c, d, h, r))
        (omega arith) (v.guard_le i) v.fit
        ((omega (arith, length-range m.fresh cap), tt), (omega arith, tt)) tt
        (λ j y ne h g. ground (arith, g))

  pub pop_slot-Inv :
      (x : ℕ) (b : Bag) (bs : List Bag)
      → (th i).pc ≡ popping
      → (th i).avail ≡ (x ∷ b) ∷ bs
      → Inv threads cap m (update th i (record (th i) { avail = b ∷ bs; pc = checking x }))
  pop_slot-Inv x b bs e f =
      let fits = subst (Fit cap) f (v.fit_local i).0 in
      quiet v m i (record (th i) { avail = b ∷ bs; pc = checking x }) lt
        (λ y h. ground (arith, e, h)) (λ y. (refl, refl))
        (λ y.
          let c = ap (λ cs. in_bags cs y) f in
          let h : held y (th i).pc ≡ 0 = ap (held y) e in omega (arith, c, h))
        (omega arith) (v.guard_le i) v.fit ((omega (arith, fits), fits.1), (v.fit_local i).1)
        (omega (arith, fits))
        (λ j y ne h g.
          let c = ap (λ cs. in_bags cs y) f in
          let same : x ≡ y = ground (arith, g) in
          let one : bit (x == y) ≡ 1 = ground (arith, same) in
          alone v i j y lt ne (omega (arith, c, one)) h)

  pub pop_empty_bag-Inv :
      (bs : List Bag)
      → (th i).pc ≡ popping
      → (th i).avail ≡ [] ∷ bs
      → Inv threads cap m (update th i (record (th i) { avail = bs }))
  pop_empty_bag-Inv bs e f =
      let fits = subst (Fit cap) f (v.fit_local i).0 in
      quiet v m i (record (th i) { avail = bs }) lt (λ y h. ground (arith, e, h))
        (λ y. (refl, refl)) (λ y. let c = ap (λ cs. in_bags cs y) f in omega (arith, c))
        (omega arith) (v.guard_le i) v.fit (fits.1, (v.fit_local i).1)
        (subst (At cap m (record (th i) { avail = bs })) (sym e) tt)
        (kept v i (record (th i) { avail = bs }) (λ y h. h))

  pub acquire_bag-Inv :
      (b : Bag) (before after : List Bag)
      → (th i).pc ≡ acquiring
      → m.avail ≡ before ++ b ∷ after
      → Inv threads cap
          (record m { avail = before ++ after })
          (update th i (record (th i) { avail = b ∷ []; pc = popping }))
  acquire_bag-Inv b before after e f =
      let nil : (th i).avail ≡ [] = subst (At cap m (th i)) e (v.at i) in
      let (fits, rest) = Fit-middle before b after (subst (Fit cap) f v.fit) in
      quiet v (record m { avail = before ++ after }) i
        (record (th i) { avail = b ∷ []; pc = popping }) lt (λ y h. ground (arith, e, h))
        (λ y. (refl, refl))
        (λ y.
          let c = ap (λ cs. in_bags cs y) f in
          let d = ap (λ cs. in_bags cs y) nil in
          let h : held y (th i).pc ≡ 0 = ap (held y) e in
          let r = in_bags-middle before b after y in omega (arith, c, d, h, r))
        (omega arith) (v.guard_le i) rest ((fits, tt), (v.fit_local i).1) tt
        (λ j y ne h g. ground (arith, g))

  pub acquire_new-Inv :
      (th i).pc ≡ acquiring
      → m.avail ≡ []
      → Inv threads cap
          (record m { avail = new_with_alloc cap m ∷ []; fresh = cap + m.fresh })
          (update th i (th i))
  acquire_new-Inv e f =
      quiet v (record m { avail = new_with_alloc cap m ∷ []; fresh = cap + m.fresh }) i (th i) lt
        (λ y h. ground (arith, e, h)) (λ y. (refl, refl))
        (λ y.
          let c = ap (λ cs. in_bags cs y) f in
          let r = count-range m.fresh cap y in omega (arith, c, r))
        (omega arith) (v.guard_le i) (omega (arith, length-range m.fresh cap), tt) (v.fit_local i)
        (v.at i) (kept v i (th i) (λ y h. h))

  pub return_avail-Inv :
      (x : ℕ) (b : Bag) (bs : List Bag)
      → (th i).pc ≡ checking x
      → (th i).avail ≡ b ∷ bs
      → Inv threads cap m
          (update th i (record (th i) { avail = push_slot cap b x ∷ bs; pc = advancing }))
  return_avail-Inv x b bs e f =
      let fits = subst (Fit cap) f (v.fit_local i).0 in
      let room : length b < cap = subst (Room cap) f (subst (At cap m (th i)) e (v.at i)) in
      quiet v m i (record (th i) { avail = push_slot cap b x ∷ bs; pc = advancing }) lt
        (λ y h. ground (arith, e, h)) (λ y. (refl, refl))
        (λ y.
          let c = ap (λ cs. in_bags cs y) f in
          let one : held y (th i).pc ≡ bit (x == y) = ap (held y) e in
          let p = count-push cap b x y room in omega (arith, c, one, p))
        (omega arith) (v.guard_le i) v.fit
        (((count-push cap b x 0 room).1, fits.1), (v.fit_local i).1) tt
        (λ j y ne h g. ground (arith, g))

  pub set_birth-Inv :
      (x : ℕ)
      → (th i).pc ≡ setting_birth x
      → Inv threads cap
          (record m { birth = update m.birth x (th i).epoch })
          (update th i (record (th i) { pc = setting_retire x }))
  set_birth-Inv x e =
      let (retired, born) = subst (At cap m (th i)) e (v.at i) in
      let t : Thread = record (th i) { pc = setting_retire x } in
      let m' : Memory = record m { birth = update m.birth x (th i).epoch } in
      advance v m' i t lt
        (λ y. let h : held y (th i).pc ≡ bit (x == y) = ap (held y) e in omega (arith, h))
        (omega arith) (v.guard_le i) v.retire_le (λ y. ground (arith, v.guard_le i, v.birth_le y))
        (λ y h. elim (ℕ_discrete x y) [
          | yes q ↦
              absurd (h i (ap (λ (u : Thread). u.pc) (update-this th i t) ∙ ap setting_retire q))
          | no ne ↦
              let old =
                v.ordered y (other_pc th i t (setting_birth x) e (λ g. ground (arith, g)) h) in
              ground (arith, ne, old)
        ])
        v.fit (v.fit_local i)
        (λ j y ne g.
          let other : x ≢ y = λ q. ne (v.apart i j y (ap touches e ∙ ap some q) g) in
          (ground (arith, other), refl))
        (retired, ground arith) (kept v i t (λ y g. ap touches e ∙ g))

  pub set_retire-Inv :
      (x : ℕ)
      → m.epoch < not_retired
      → (th i).pc ≡ setting_retire x
      → Inv threads cap
          (record m { retire = update m.retire x not_retired })
          (update th i (record (th i) { pc = idle }))
  set_retire-Inv x small e =
      let (retired, born) = subst (At cap m (th i)) e (v.at i) in
      let t : Thread = record (th i) { pc = idle } in
      let m' : Memory = record m { retire = update m.retire x not_retired } in
      let le = v.guard_le i in
      let not_live : bit (m.retire x == not_retired) ≡ 0 = ground (arith, retired, le, small) in
      advance v m' i t lt
        (λ y.
          let h : held y (th i).pc ≡ bit (x == y) = ap (held y) e in
          let r : bit (m'.retire y == not_retired)
              ≡ bit (m.retire y == not_retired) + bit (x == y) =
            ground (arith, not_live) in
          omega (arith, h, r))
        (omega arith) le
        (λ y. elim (ℕ_discrete x y) [
          | yes q ↦ inr (ground (arith, q))
          | no ne ↦ elim (v.retire_le y) [
            | inl g ↦ inl (ground (arith, ne, g))
            | inr g ↦ inr (ground (arith, ne, g))
          ]
        ])
        v.birth_le
        (λ y h. elim (ℕ_discrete x y) [
          | yes q ↦ let b = v.birth_le y in ground (arith, q, b, small)
          | no ne ↦
              let old =
                v.ordered y
                  (other_pc th i t (setting_retire x) e (λ g. ne (ground (arith, g))) h) in
              ground (arith, ne, old)
        ])
        v.fit (v.fit_local i)
        (λ j y ne g.
          let other : x ≢ y = λ q. ne (v.apart i j y (ap touches e ∙ ap some q) g) in
          (refl, ground (arith, other)))
        tt (λ j y ne h g. ground (arith, g))
