-- ===== src/Ebr/Intrusive/Changes.antt =====
-- sync/list.rs: the writes to the links, and the invariant.
use smr_benchmark.Prelude.{
  ℕ, ◌≤◌, ◌<◌, ◌≡◌, ◌≢◌, refl, true, false, Option, none, some, arith, ◌∙◌, sym, ap, subst,
  ℕ_discrete, ◌⊎◌, inl, inr,
}
use smr_benchmark.Prelude.Family.{update}
use smr_benchmark.Ebr.Intrusive.{Shared, EntryList, link_at, delete, enter}
use smr_benchmark.Ebr.Intrusive.Ways.{Way, here, there, Inserted, reroute}
use smr_benchmark.Ebr.Intrusive.Shape.{Live, Shape}
use smr_benchmark.Ebr.Intrusive.Stable.{Extends}

-- An entry that has not been inserted is made or written.
abbrev pub write : EntryList → ℕ → Shared → ℕ → EntryList
write m a x f = record m { next = update m.next a x; fresh = f }

module _ {m : EntryList} (s : Shape m) (a : ℕ) (x : Shared) (f : ℕ) (le : m.fresh ≤ f)
    (out : m.inserted a ≡ false) where
  write_other : (b : ℕ) → m.inserted b ≡ true → (write m a x f).next b ≡ m.next b
  write_other b h = ground (arith, out, h)

  write_ways :
      {y : Option ℕ} {u : ℕ} → Inserted m.inserted y → Way m.next y u → Way (write m a x f).next y u
  write_ways {u} h w =
      reroute s.next_inserted
        (λ b lb q.
          subst (λ (n : Shared). Way (write m a x f).next n.target u) (sym (write_other b lb)) q)
        h w

  pub write-Extends : {w : Option ℕ} → w ≢ some a → Extends m (write m a x f) w
  write-Extends {w} ne = record {
    fresh_le = le;
    grows = λ b k. k;
    frozen = λ b k g. write_other b k;
    mine = λ b e lt k. (k, ground (arith, ne, e));
    ways = λ h q p. write_ways h p;
    onward = λ y {u} h q p. go y h p;
  }
    where
      go :
          (y : Option ℕ) {u : ℕ}
          → Inserted m.inserted y
          → Way m.next (link_at m y).target u
          → Way (write m a x f).next (link_at (write m a x f) y).target u
      go none h p = write_ways s.head_inserted p
      go (some b) {u} h p =
          subst (λ (n : Shared). Way (write m a x f).next n.target u) (sym (write_other b h))
            (write_ways (s.next_inserted b h) p)

  pub write-Shape : Shape (write m a x f)
  write-Shape = record {
    head_clear = s.head_clear;
    head_inserted = s.head_inserted;
    allocated = λ b h. omega (arith, le, s.allocated b h);
    next_inserted = λ b h.
        subst (λ (n : Shared). Inserted m.inserted n.target) (sym (write_other b h))
          (s.next_inserted b h);
    placed = s.placed;
    descends =
        λ b c h e. s.descends b c h (ap (λ (n : Shared). n.target) (sym (write_other b h)) ∙ e);
    untouched = s.untouched;
    once = s.once;
    only_deleted = λ b ne. ground (arith, s.only_deleted b ne, s.untouched b, ne, out);
    reachable = λ b h z. write_ways s.head_inserted (s.reachable b h z);
    live = λ y b h e. s.live y b h (sym (same y h) ∙ e);
    one_link = λ y z b h k e g. s.one_link y z b h k (sym (same y h) ∙ e) (sym (same z k) ∙ g);
  }
    where
      same : (y : Option ℕ) → Live m y → (link_at (write m a x f) y).target ≡ (link_at m y).target
      same none h = refl
      same (some b) (h, z) = ap (λ (n : Shared). n.target) (write_other b h)

-- `delete` leaves the links where they lead.
module _ {m : EntryList} (s : Shape m) (a : ℕ) (clear : (m.next a).tagged ≡ false) where
  delete_target : (b : ℕ) → ((delete m a).next b).target ≡ (m.next b).target
  delete_target b = ground arith

  delete_ways :
      {y : Option ℕ} {u : ℕ} → Inserted m.inserted y → Way m.next y u → Way (delete m a).next y u
  delete_ways {u} h w =
      reroute s.next_inserted
        (λ b lb q. subst (λ t. Way (delete m a).next t u) (sym (delete_target b)) q) h w

  pub delete-Extends : {w : Option ℕ} → m.inserted a ≡ true → Extends m (delete m a) w
  delete-Extends {w} ins = record {
    fresh_le = omega arith;
    grows = λ b k. k;
    frozen = λ b k g. ground (arith, g, clear);
    mine = λ b e lt k. (k, ground (arith, ins, k));
    ways = λ h q p. delete_ways h p;
    onward = λ y {u} h q p. go y h p;
  }
    where
      go :
          (y : Option ℕ) {u : ℕ}
          → Inserted m.inserted y
          → Way m.next (link_at m y).target u
          → Way (delete m a).next (link_at (delete m a) y).target u
      go none h p = delete_ways s.head_inserted p
      go (some b) {u} h p =
          subst (λ t. Way (delete m a).next t u) (sym (delete_target b))
            (delete_ways (s.next_inserted b h) p)

  pub delete-Shape : Shape (delete m a)
  delete-Shape = record {
    head_clear = s.head_clear;
    head_inserted = s.head_inserted;
    allocated = s.allocated;
    next_inserted =
        λ b h. subst (λ t. Inserted m.inserted t) (sym (delete_target b)) (s.next_inserted b h);
    placed = s.placed;
    descends = λ b c h e. s.descends b c h (sym (delete_target b) ∙ e);
    untouched = s.untouched;
    once = s.once;
    only_deleted = λ b ne. ground (arith, s.only_deleted b ne);
    reachable = λ b h z. delete_ways s.head_inserted (s.reachable b h z);
    live = λ y b h e. s.live y b h (sym (same y) ∙ e);
    one_link = λ y z b h k e g. s.one_link y z b h k (sym (same y) ∙ e) (sym (same z) ∙ g);
  }
    where
      same : (y : Option ℕ) → (link_at (delete m a) y).target ≡ (link_at m y).target
      same none = refl
      same (some b) = delete_target b

-- A new entry becomes the first.
module _ {m : EntryList} (s : Shape m) (a : ℕ) (lt : a < m.fresh) (out : m.inserted a ≡ false)
    (at_head : m.next a ≡ m.head) where
  pub enter-Extends : {w : Option ℕ} → w ≢ some a → Extends m (enter m a) w
  enter-Extends {w} ne = record {
    fresh_le = omega arith;
    grows = λ b k. ground (arith, k);
    frozen = λ b k g. refl;
    mine = λ b e l k. (ground (arith, k, ne, e), refl);
    ways = λ h q p. p;
    onward = λ y {u} h q p. go y p;
  }
    where
      go :
          (y : Option ℕ) {u : ℕ}
          → Way m.next (link_at m y).target u
          → Way m.next (link_at (enter m a) y).target u
      go none {u} p = there (subst (λ (n : Shared). Way m.next n.target u) (sym at_head) p)
      go (some b) p = p

  now_inserted : (t : Option ℕ) → Inserted m.inserted t → Inserted (enter m a).inserted t
  now_inserted none h = tt
  now_inserted (some b) h = ground (arith, h)

  -- A link leads where it did, or where the head did, or it is the new head.
  old_link :
      (c : ℕ)
      → Live (enter m a) (some c)
      → (y : Option ℕ) × Live m y
        × ((link_at m y).target ≡ (m.next c).target)
        × (((y ≡ none) × (a ≡ c)) ⊎ (y ≡ some c))
  old_link c (h, z) = elim (ℕ_discrete a c) [
    | yes e ↦ (none, tt, ground (arith, e, at_head), inl (refl, e))
    | no ne ↦ (some c, (ground (arith, h, ne), z), refl, inr refl)
  ]

  target_inserted : (y : Option ℕ) → Live m y → Inserted m.inserted (link_at m y).target
  target_inserted none h = s.head_inserted
  target_inserted (some c) (h, z) = s.next_inserted c h

  not_target : (c : ℕ) → Live (enter m a) (some c) → (m.next c).target ≢ some a
  not_target c h e =
      let (y, l, g, o) = old_link c h in
      let k = subst (Inserted m.inserted) (g ∙ e) (target_inserted y l) in ground (arith, k, out)

  new_ends :
      (y : Option ℕ) (b : ℕ)
      → Live (enter m a) y
      → (link_at (enter m a) y).target ≡ some b
      → m.finalized b ≡ 0
  new_ends none b h e = subst (λ c. m.finalized c ≡ 0) (ground (arith, e)) (s.untouched a out)
  new_ends (some c) b h e = let (y, l, g, o) = old_link c h in s.live y b l (g ∙ e)

  new_one_link :
      (y z : Option ℕ) (b : ℕ)
      → Live (enter m a) y
      → Live (enter m a) z
      → (link_at (enter m a) y).target ≡ some b
      → (link_at (enter m a) z).target ≡ some b
      → y ≡ z
  new_one_link none none b h k e g = refl
  new_one_link none (some d) b h k e g = absurd (not_target d k (g ∙ sym e))
  new_one_link (some c) none b h k e g = absurd (not_target c h (e ∙ sym g))
  new_one_link (some c) (some d) b h k e g =
      let (y, l, f, o) = old_link c h in
      let (z, n, q, t) = old_link d k in
      let same = s.one_link y z b l n (f ∙ e) (q ∙ g) in ground (arith, same, o, t)

  new_descends :
      (b c : ℕ)
      → (enter m a).inserted b ≡ true
      → (m.next b).target ≡ some c
      → (enter m a).place c < (enter m a).place b
  new_descends b c h e = elim (ℕ_discrete a b) [
    | yes q ↦
        let first =
          subst (Inserted m.inserted)
            (ap (λ (n : Shared). n.target) (sym at_head)
              ∙ subst (λ d. (m.next d).target ≡ some c) (sym q) e)
            s.head_inserted in
        let old = s.placed c first in ground (arith, q, first, out, old)
    | no ne ↦
        let was : m.inserted b ≡ true = ground (arith, h, ne) in
        let next = subst (Inserted m.inserted) e (s.next_inserted b was) in
        let old = s.descends b c was e in ground (arith, ne, next, out, old)
  ]

  pub enter-Shape : Shape (enter m a)
  enter-Shape = record {
    head_clear = refl;
    head_inserted = ground arith;
    allocated = λ b h. ground (arith, h, lt, s.allocated b);
    next_inserted = λ b h. now_inserted (m.next b).target (elim (ℕ_discrete a b) [
      | yes e ↦
          subst (λ c. Inserted m.inserted (m.next c).target) e
            (subst (λ (n : Shared). Inserted m.inserted n.target) (sym at_head) s.head_inserted)
      | no ne ↦ s.next_inserted b (ground (arith, h, ne))
    ]);
    placed = λ b h. elim (ℕ_discrete a b) [
      | yes e ↦ ground (arith, e)
      | no ne ↦
          let old : m.place b < m.insertions = s.placed b (ground (arith, h, ne)) in
          ground (arith, ne, old)
    ];
    descends = new_descends;
    untouched = λ b h. s.untouched b (ground (arith, h));
    once = s.once;
    only_deleted = s.only_deleted;
    reachable = λ b h z. elim (ℕ_discrete a b) [
      | yes e ↦ subst (λ c. Way m.next (some a) c) e here
      | no ne ↦ there (
          subst (λ (n : Shared). Way m.next n.target b) (sym at_head)
            (s.reachable b (ground (arith, h, ne)) z))
    ];
    live = new_ends;
    one_link = new_one_link;
  }
