-- ===== src/Ebr/Intrusive/Unlinking.antt =====
-- sync/list.rs: the exchange by which an iterator takes a deleted entry out of the list.
use smr_benchmark.Prelude.{
  ℕ, suc, ◌<◌, ◌≡◌, ◌≢◌, refl, true, false, Option, none, some, arith, ◌∙◌, sym, ap, subst,
  ℕ_discrete, ◌⊎◌, inl, inr,
}
use smr_benchmark.Prelude.Family.{update}
use smr_benchmark.Ebr.Intrusive.{Shared, EntryList, link_at, set_link, finalize}
use smr_benchmark.Ebr.Intrusive.Ways.{Way, Inserted, reroute, past}
use smr_benchmark.Ebr.Intrusive.Shape.{Live, Shape}
use smr_benchmark.Ebr.Intrusive.Stable.{Extends}

abbrev pub unlinked : EntryList → Option ℕ → Shared → ℕ → EntryList
unlinked m pred succ c = finalize (set_link m pred succ) c

-- The exchange writes the link of the predecessor alone.
link_cases :
    (m : EntryList) (succ : Shared) (c : ℕ) (x y : Option ℕ)
    → ((y ≡ x) × (link_at (unlinked m x succ c) y ≡ succ))
      ⊎ ((y ≢ x) × (link_at (unlinked m x succ c) y ≡ link_at m y))
link_cases m succ c none none = inl (refl, refl)
link_cases m succ c none (some b) = inr (λ e. ground (arith, e), refl)
link_cases m succ c (some p) none = inr (λ e. ground (arith, e), refl)
link_cases m succ c (some p) (some b) = elim (ℕ_discrete p b) [
  | yes e ↦ inl (ap some (sym e), ground (arith, e))
  | no ne ↦ inr (λ e. ne (ground (arith, e)), ground (arith, ne))
]

pub unlinked_at :
    (m : EntryList) (x : Option ℕ) (succ : Shared) (c : ℕ) → link_at (unlinked m x succ c) x ≡ succ
unlinked_at m none succ c = refl
unlinked_at m (some p) succ c = ground arith

same_inserted :
    (m : EntryList) (succ : Shared) (c : ℕ) (x : Option ℕ) (a : ℕ)
    → (unlinked m x succ c).inserted a ≡ m.inserted a
same_inserted m succ c none a = refl
same_inserted m succ c (some p) a = refl

now_finalized :
    (m : EntryList) (succ : Shared) (c : ℕ) (x : Option ℕ) (a : ℕ)
    → (unlinked m x succ c).finalized a ≡ update m.finalized c (suc (m.finalized c)) a
now_finalized m succ c none a = refl
now_finalized m succ c (some p) a = refl

same_place :
    (m : EntryList) (succ : Shared) (c : ℕ) (x : Option ℕ) (a : ℕ)
    → ((unlinked m x succ c).place a ≡ m.place a)
      × ((unlinked m x succ c).insertions ≡ m.insertions)
      × ((unlinked m x succ c).fresh ≡ m.fresh)
same_place m succ c none a = (refl, refl, refl)
same_place m succ c (some p) a = (refl, refl, refl)

module _ {m : EntryList} (s : Shape m) (pred : Option ℕ) (succ : Shared) (c : ℕ)
    (pred_inserted : Inserted m.inserted pred) (leads : (link_at m pred).target ≡ some c)
    (clear : (link_at m pred).tagged ≡ false) (ins : m.inserted c ≡ true)
    (to_succ : (m.next c).target ≡ succ.target) (deleted : (m.next c).tagged ≡ true)
    (succ_clear : succ.tagged ≡ false) where
  pred_there : (y : Option ℕ) → Inserted m.inserted y → (link_at m y).tagged ≡ false → Live m y
  pred_there none h q = tt
  pred_there (some p) h q = (h, ground (arith, s.only_deleted p, q))

  fin_c : m.finalized c ≡ 0
  fin_c = s.live pred c (pred_there pred pred_inserted clear) leads

  -- The links of deleted entries stay.
  frozen : (b : ℕ) → (m.next b).tagged ≡ true → (unlinked m pred succ c).next b ≡ m.next b
  frozen b g = elim (link_cases m succ c pred (some b)) [
    | inl (e, w) ↦
        absurd (ground (arith, subst (λ y. (link_at m y).tagged ≡ false) (sym e) clear, g))
    | inr (ne, w) ↦ w
  ]

  redirect :
      (y : Option ℕ) {u : ℕ}
      → c ≢ u
      → Way (unlinked m pred succ c).next (link_at m y).target u
      → Way (unlinked m pred succ c).next (link_at (unlinked m pred succ c) y).target u
  redirect y {u} ne q = elim (link_cases m succ c pred y) [
    | inl (e, w) ↦
        let at_c : Way (unlinked m pred succ c).next (some c) u =
          subst (λ t. Way (unlinked m pred succ c).next t u)
            (ap (λ x. (link_at m x).target) e ∙ leads) q in
        subst (λ t. Way (unlinked m pred succ c).next t u)
          (ap (λ (n : Shared). n.target) (frozen c deleted)
            ∙ to_succ
            ∙ ap (λ (n : Shared). n.target) (sym w))
          (past at_c ne)
    | inr (nf, w) ↦ subst (λ (n : Shared). Way (unlinked m pred succ c).next n.target u) (sym w) q
  ]

  ways :
      {x : Option ℕ} {u : ℕ}
      → c ≢ u
      → Inserted m.inserted x
      → Way m.next x u
      → Way (unlinked m pred succ c).next x u
  ways ne h w = reroute s.next_inserted (λ b lb q. redirect (some b) ne q) h w

  link_inserted : (y : Option ℕ) → Inserted m.inserted y → Inserted m.inserted (link_at m y).target
  link_inserted none h = s.head_inserted
  link_inserted (some b) h = s.next_inserted b h

  other : (u : ℕ) → ((unlinked m pred succ c).next u).tagged ≡ false → c ≢ u
  other u q e =
      let d =
        subst (λ v. ((unlinked m pred succ c).next v).tagged ≡ true) e
          (ap (λ (n : Shared). n.tagged) (frozen c deleted) ∙ deleted) in
      ground (arith, d, q)

  pub unlink-Extends : {w : Option ℕ} → Extends m (unlinked m pred succ c) w
  unlink-Extends {w} = record {
    fresh_le = omega (arith, (same_place m succ c pred c).2);
    grows = λ a k. same_inserted m succ c pred a ∙ k;
    frozen = λ a k g. frozen a g;
    mine = λ a e lt k. (
      same_inserted m succ c pred a ∙ k,
      elim (link_cases m succ c pred (some a)) [
        | inl (f, q) ↦
            let was = subst (Inserted m.inserted) (sym f) pred_inserted in
            absurd (ground (arith, was, k))
        | inr (ne, q) ↦ q
      ],
    );
    ways = λ {x} {u} h q p. ways (other u q) h p;
    onward = λ y {u} h q p. redirect y (other u q) (ways (other u q) (link_inserted y h) p);
  }

  still_inserted :
      (t : Option ℕ) → Inserted m.inserted t → Inserted (unlinked m pred succ c).inserted t
  still_inserted none h = tt
  still_inserted (some a) h = same_inserted m succ c pred a ∙ h

  succ_inserted : Inserted m.inserted succ.target
  succ_inserted = subst (Inserted m.inserted) to_succ (s.next_inserted c ins)

  -- What is live now was live, and is not the entry that is taken out.
  was_there : (y : Option ℕ) → Live (unlinked m pred succ c) y → Live m y × (y ≢ some c)
  was_there none h = (tt, λ e. ground (arith, e))
  was_there (some a) (h, z) =
      let k = same_inserted m succ c pred a in
      let f = now_finalized m succ c pred a in
      ((ground (arith, h, k), ground (arith, f, z, fin_c)), λ e. ground (arith, e, f, z))

  -- A link leads where it did, or where that of the entry that is taken out does.
  old_link :
      (y : Option ℕ)
      → Live (unlinked m pred succ c) y
      → (z : Option ℕ) × Live m z
        × ((link_at m z).target ≡ (link_at (unlinked m pred succ c) y).target)
        × (((z ≡ some c) × (y ≡ pred)) ⊎ ((z ≡ y) × (y ≢ pred)))
  old_link y h = elim (link_cases m succ c pred y) [
    | inl (e, w) ↦
        (some c, (ins, fin_c), to_succ ∙ ap (λ (n : Shared). n.target) (sym w), inl (refl, e))
    | inr (ne, w) ↦ (y, (was_there y h).0, ap (λ (n : Shared). n.target) (sym w), inr (refl, ne))
  ]

  new_ends :
      (y : Option ℕ) (b : ℕ)
      → Live (unlinked m pred succ c) y
      → (link_at (unlinked m pred succ c) y).target ≡ some b
      → (unlinked m pred succ c).finalized b ≡ 0
  new_ends y b h e =
      let (z, l, g, o) = old_link y h in
      let old = s.live z b l (g ∙ e) in
      let f = now_finalized m succ c pred b in
      let ne : c ≢ b = λ q. not_c z y l (g ∙ e ∙ ap some (sym q)) (was_there y h).1 o in
      ground (arith, f, old, ne)
    where
      not_c :
          (z y : Option ℕ)
          → Live m z
          → (link_at m z).target ≡ some c
          → y ≢ some c
          → (((z ≡ some c) × (y ≡ pred)) ⊎ ((z ≡ y) × (y ≢ pred)))
          → ⊥
      not_c z y l q nc (inl (e, f)) =
          let d = s.descends c c ins (subst (λ x. (link_at m x).target ≡ some c) e q) in
          omega (arith, d)
      not_c z y l q nc (inr (e, nf)) =
          nf (sym e ∙ s.one_link z pred c l (pred_there pred pred_inserted clear) q leads)

  new_one_link :
      (x y : Option ℕ) (b : ℕ)
      → Live (unlinked m pred succ c) x
      → Live (unlinked m pred succ c) y
      → (link_at (unlinked m pred succ c) x).target ≡ some b
      → (link_at (unlinked m pred succ c) y).target ≡ some b
      → x ≡ y
  new_one_link x y b h k e g =
      let (z, l, f, o) = old_link x h in
      let (w, n, q, t) = old_link y k in
      let same = s.one_link z w b l n (f ∙ e) (q ∙ g) in
      join z w x y same (was_there x h).1 (was_there y k).1 o t
    where
      join :
          (z w x y : Option ℕ)
          → z ≡ w
          → x ≢ some c
          → y ≢ some c
          → (((z ≡ some c) × (x ≡ pred)) ⊎ ((z ≡ x) × (x ≢ pred)))
          → (((w ≡ some c) × (y ≡ pred)) ⊎ ((w ≡ y) × (y ≢ pred)))
          → x ≡ y
      join z w x y e nx ny (inl (f, g)) (inl (p, q)) = g ∙ sym q
      join z w x y e nx ny (inl (f, g)) (inr (p, q)) = absurd (ny (sym p ∙ sym e ∙ f))
      join z w x y e nx ny (inr (f, g)) (inl (p, q)) = absurd (nx (sym f ∙ e ∙ p))
      join z w x y e nx ny (inr (f, g)) (inr (p, q)) = sym f ∙ e ∙ p

  new_descends :
      (a b : ℕ)
      → m.inserted a ≡ true
      → ((unlinked m pred succ c).next a).target ≡ some b
      → m.place b < m.place a
  new_descends a b h e = elim (link_cases m succ c pred (some a)) [
    | inl (f, w) ↦
        let d = s.descends c b ins (to_succ ∙ ap (λ (n : Shared). n.target) (sym w) ∙ e) in
        let g = s.descends a c h (ap (λ y. (link_at m y).target) f ∙ leads) in omega (arith, d, g)
    | inr (ne, w) ↦ s.descends a b h (ap (λ (n : Shared). n.target) (sym w) ∙ e)
  ]

  new_only_deleted :
      (a : ℕ)
      → (unlinked m pred succ c).finalized a ≢ 0
      → ((unlinked m pred succ c).next a).tagged ≡ true
  new_only_deleted a ne =
      let f = now_finalized m succ c pred a in
      let gone : (m.next a).tagged ≡ true = elim (ℕ_discrete c a) [
        | yes e ↦ subst (λ b. (m.next b).tagged ≡ true) e deleted
        | no nc ↦ s.only_deleted a (λ z. ne (ground (arith, f, nc, z)))
      ] in
      ap (λ (n : Shared). n.tagged) (frozen a gone) ∙ gone

  new_head_clear : (link_at (unlinked m pred succ c) none).tagged ≡ false
  new_head_clear = elim (link_cases m succ c pred none) [
    | inl (e, w) ↦ ap (λ (n : Shared). n.tagged) w ∙ succ_clear
    | inr (ne, w) ↦ ap (λ (n : Shared). n.tagged) w ∙ s.head_clear
  ]

  new_target :
      (y : Option ℕ)
      → Inserted m.inserted y
      → Inserted (unlinked m pred succ c).inserted (link_at (unlinked m pred succ c) y).target
  new_target y h = elim (link_cases m succ c pred y) [
    | inl (e, w) ↦
        still_inserted (link_at (unlinked m pred succ c) y).target
          (subst (λ (n : Shared). Inserted m.inserted n.target) (sym w) succ_inserted)
    | inr (ne, w) ↦
        still_inserted (link_at (unlinked m pred succ c) y).target
          (subst (λ (n : Shared). Inserted m.inserted n.target) (sym w) (link_inserted y h))
  ]

  pub unlink-Shape : Shape (unlinked m pred succ c)
  unlink-Shape =
      let old : (a : ℕ) → (unlinked m pred succ c).inserted a ≡ true → m.inserted a ≡ true =
        λ a h. sym (same_inserted m succ c pred a) ∙ h in
      record {
        head_clear = new_head_clear;
        head_inserted = new_target none tt;
        allocated = λ a h. omega (arith, s.allocated a (old a h), (same_place m succ c pred a).2);
        next_inserted = λ a h. new_target (some a) (old a h);
        placed = λ a h.
            let (p, q, r) = same_place m succ c pred a in
            let lt = s.placed a (old a h) in omega (arith, p, q, lt);
        descends = λ a b h e.
            let p = (same_place m succ c pred a).0 in
            let q = (same_place m succ c pred b).0 in
            let lt = new_descends a b (old a h) e in omega (arith, p, q, lt);
        untouched = λ a h.
            let f = now_finalized m succ c pred a in
            let k = same_inserted m succ c pred a in
            let z = s.untouched a (sym k ∙ h) in ground (arith, f, k, h, z, ins);
        once = λ a.
            let f = now_finalized m succ c pred a in
            let o = s.once a in ground (arith, f, o, fin_c);
        only_deleted = new_only_deleted;
        reachable = λ a h z.
            let (l, ne) = was_there (some a) (h, z) in
            let nc : c ≢ a = λ e. ne (ap some (sym e)) in
            redirect none nc (ways nc s.head_inserted (s.reachable a l.0 l.1));
        live = new_ends;
        one_link = new_one_link;
      }
