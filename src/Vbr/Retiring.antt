-- ===== src/Vbr/Retiring.antt =====
-- smrs/vbr/src/lib.rs: the steps of `retire`, and of the drop of `Local`.
use smr_benchmark.Prelude.{
  ℕ, ◌+◌, ◌<◌, ◌≡◌, ◌≢◌, refl, List, [], ◌∷◌, ◌++◌, some, ◌==◌, length, inl, inr, arith, subst, sym,
  ◌∙◌, ap, ℕ_discrete,
}
use smr_benchmark.Prelude.Family.{update}
use smr_benchmark.Prelude.Counting.{bit, count-append}
use smr_benchmark.Vbr.{
  not_retired, Bag, Memory, Thread, idle, retiring, storing, pushing, leaving, push_slot, give,
}
use smr_benchmark.Vbr.Runs.{retires}
use smr_benchmark.Vbr.Bags.{in_bags, Fit, in_bags-give, Fit-give, count-push, length-snoc}
use smr_benchmark.Vbr.Invariant.{held, touches, At, Inv}
use smr_benchmark.Vbr.Facts.{unworked, other_pc, advance, quiet, kept}

module _ {threads cap : ℕ} {m : Memory} {th : ℕ → Thread} (v : Inv threads cap m th) (i : ℕ)
    (lt : i < threads) where
  pub retire_start-Inv :
      (x b : ℕ)
      → (th i).pc ≡ idle
      → m.retire x ≡ not_retired
      → m.birth x ≡ b
      → ((j : ℕ) → retires (th j).pc ≢ some x)
      → Inv threads cap m (update th i (record (th i) { pc = retiring x b }))
  retire_start-Inv x b e live born free =
      quiet v m i (record (th i) { pc = retiring x b }) lt (λ y h. ground (arith, e, h))
        (λ y. (refl, refl)) (λ y. let h : held y (th i).pc ≡ 0 = ap (held y) e in omega (arith, h))
        (omega arith) (v.guard_le i) v.fit (v.fit_local i) (live, born)
        (λ j y ne h g.
          let same : x ≡ y = ground (arith, g) in
          unworked v j x live (free j) (subst (λ z. touches (th j).pc ≡ some z) (sym same) h))

  pub store_retire-Inv :
      (x c : ℕ)
      → m.epoch < not_retired
      → (th i).pc ≡ storing x c
      → Inv threads cap
          (record m { retire = update m.retire x c })
          (update th i (record (th i) { pc = pushing x }))
  store_retire-Inv x c small e =
      let (live, born, le) = subst (At cap m (th i)) e (v.at i) in
      let t : Thread = record (th i) { pc = pushing x } in
      let m' : Memory = record m { retire = update m.retire x c } in
      let was : bit (m.retire x == not_retired) ≡ 1 = ground (arith, live) in
      let now : bit (c == not_retired) ≡ 0 = ground (arith, le, small) in
      advance v m' i t lt
        (λ y.
          let h : held y (th i).pc ≡ 0 = ap (held y) e in
          let r : bit (m'.retire y == not_retired) + bit (x == y)
              ≡ bit (m.retire y == not_retired) =
            ground (arith, was, now) in
          omega (arith, h, r))
        (omega arith) (v.guard_le i)
        (λ y. elim (ℕ_discrete x y) [
          | yes q ↦ inl (ground (arith, q, le))
          | no ne ↦ elim (v.retire_le y) [
            | inl g ↦ inl (ground (arith, ne, g))
            | inr g ↦ inr (ground (arith, ne, g))
          ]
        ])
        v.birth_le
        (λ y h. elim (ℕ_discrete x y) [
          | yes q ↦ ground (arith, q, born)
          | no ne ↦
              let old = v.ordered y (other_pc th i t (storing x c) e (λ g. ground (arith, g)) h) in
              ground (arith, ne, old)
        ])
        v.fit (v.fit_local i)
        (λ j y ne g.
          let other : x ≢ y = λ q. ne (v.apart i j y (ap touches e ∙ ap some q) g) in
          (refl, ground (arith, other)))
        tt (kept v i t (λ y g. ap touches e ∙ g))

  pub push_retired-Inv :
      (x : ℕ) (b : Bag) (bs : List Bag)
      → (th i).pc ≡ pushing x
      → (th i).retired ≡ b ∷ bs
      → length b < cap
      → Inv threads cap m (update th i (record (th i) { retired = (b ++ x ∷ []) ∷ bs; pc = idle }))
  push_retired-Inv x b bs e f room =
      let fits = subst (Fit cap) f (v.fit_local i).1 in
      quiet v m i (record (th i) { retired = (b ++ x ∷ []) ∷ bs; pc = idle }) lt
        (λ y h. ground (arith, e, h)) (λ y. (refl, refl))
        (λ y.
          let c = ap (λ cs. in_bags cs y) f in
          let h : held y (th i).pc ≡ bit (x == y) = ap (held y) e in
          let p = count-append b x y in omega (arith, c, h, p))
        (omega arith) (v.guard_le i) v.fit ((v.fit_local i).0, (length-snoc cap b x room, fits.1))
        tt (λ j y ne h g. ground (arith, g))

  pub retire_bag-Inv :
      (x : ℕ) (b : Bag) (bs : List Bag)
      → (th i).pc ≡ pushing x
      → (th i).retired ≡ b ∷ bs
      → Inv threads cap
          (record m { avail = b ∷ m.avail })
          (update th i (record (th i) { retired = bs }))
  retire_bag-Inv x b bs e f =
      let fits = subst (Fit cap) f (v.fit_local i).1 in
      quiet v (record m { avail = b ∷ m.avail }) i (record (th i) { retired = bs }) lt
        (λ y h. ground (arith, e, h)) (λ y. (refl, refl))
        (λ y. let c = ap (λ cs. in_bags cs y) f in omega (arith, c)) (omega arith) (v.guard_le i)
        (fits.0, v.fit) ((v.fit_local i).0, fits.1)
        (subst (At cap (record m { avail = b ∷ m.avail }) (record (th i) { retired = bs })) (sym e)
          tt)
        (kept v i (record (th i) { retired = bs }) (λ y g. g))

  pub push_new_bag-Inv :
      (x : ℕ)
      → 0 < cap
      → (th i).pc ≡ pushing x
      → (th i).retired ≡ []
      → Inv threads cap m
          (update th i (record (th i) { retired = push_slot cap [] x ∷ []; pc = idle }))
  push_new_bag-Inv x pos e f =
      quiet v m i (record (th i) { retired = push_slot cap [] x ∷ []; pc = idle }) lt
        (λ y h. ground (arith, e, h)) (λ y. (refl, refl))
        (λ y.
          let c = ap (λ cs. in_bags cs y) f in
          let h : held y (th i).pc ≡ bit (x == y) = ap (held y) e in
          let p = count-push cap [] x y pos in omega (arith, c, h, p))
        (omega arith) (v.guard_le i) v.fit ((v.fit_local i).0, ((count-push cap [] x 0 pos).1, tt))
        tt (λ j y ne h g. ground (arith, g))

  pub leave_retired-Inv :
      (b : Bag) (bs : List Bag)
      → (th i).pc ≡ leaving
      → (th i).retired ≡ b ∷ bs
      → Inv threads cap
          (record m { avail = give b m.avail })
          (update th i (record (th i) { retired = bs }))
  leave_retired-Inv b bs e f =
      let fits = subst (Fit cap) f (v.fit_local i).1 in
      quiet v (record m { avail = give b m.avail }) i (record (th i) { retired = bs }) lt
        (λ y h. ground (arith, e, h)) (λ y. (refl, refl))
        (λ y.
          let c = ap (λ cs. in_bags cs y) f in
          let g = in_bags-give b m.avail y in omega (arith, c, g))
        (omega arith) (v.guard_le i) (Fit-give b m.avail fits.0 v.fit) ((v.fit_local i).0, fits.1)
        (subst (At cap (record m { avail = give b m.avail }) (record (th i) { retired = bs }))
          (sym e) tt)
        (kept v i (record (th i) { retired = bs }) (λ y g. g))

  pub leave_avail-Inv :
      (b : Bag) (bs : List Bag)
      → (th i).pc ≡ leaving
      → (th i).avail ≡ b ∷ bs
      → Inv threads cap
          (record m { avail = give b m.avail })
          (update th i (record (th i) { avail = bs }))
  leave_avail-Inv b bs e f =
      let fits = subst (Fit cap) f (v.fit_local i).0 in
      quiet v (record m { avail = give b m.avail }) i (record (th i) { avail = bs }) lt
        (λ y h. ground (arith, e, h)) (λ y. (refl, refl))
        (λ y.
          let c = ap (λ cs. in_bags cs y) f in
          let g = in_bags-give b m.avail y in omega (arith, c, g))
        (omega arith) (v.guard_le i) (Fit-give b m.avail fits.0 v.fit) (fits.1, (v.fit_local i).1)
        (subst (At cap (record m { avail = give b m.avail }) (record (th i) { avail = bs })) (sym e)
          tt)
        (kept v i (record (th i) { avail = bs }) (λ y g. g))
