-- ===== src/Ebr/Intrusive/Moves.antt =====
-- sync/list.rs: each step of a thread keeps the invariant.
use smr_benchmark.Prelude.{
  ℕ, suc, ◌<◌, ◌≡◌, ◌≢◌, refl, true, false, Option, none, some, arith, ◌∙◌, sym, ap, subst,
  Bool-cases, inl, inr,
}
use smr_benchmark.Prelude.Family.{update}
use smr_benchmark.Ebr.Intrusive.{
  Shared, null, EntryList, Iter, link_at, iter, Event, Move, Pc, idle, inserting, storing, linking,
  iterating, unlinking, restarting, panicked,
}
use smr_benchmark.Ebr.Intrusive.Move.{
  insert_start, insert_load, insert_store, insert_link, insert_lost, delete_entry, iter_start,
  iter_left, next_end, next_return, next_deleted, next_assert, unlink, unlink_lost, unlink_stalled,
  restart,
}
use smr_benchmark.Ebr.Intrusive.Ways.{Way, Inserted, past}
use smr_benchmark.Ebr.Intrusive.Shape.{Shape, Ahead, Cursor, Past, At, own, Inv}
use smr_benchmark.Ebr.Intrusive.Stable.{Extends, Inserted-stable, still_clear, advance, kept, look}
use smr_benchmark.Ebr.Intrusive.Changes.{
  write-Extends, write-Shape, delete-Extends, delete-Shape, enter-Extends, enter-Shape,
}
use smr_benchmark.Ebr.Intrusive.Unlinking.{unlinked, unlinked_at, unlink-Extends, unlink-Shape}

-- From the head everything is still to come.
from_head :
    {m : EntryList} (s : Shape m) (it : Iter)
    → Past m it
    → Cursor m (record it { pred = none; curr = m.head })
from_head {m} s it h =
    let all : Ahead m (record it { pred = none; curr = m.head }) m.head.target =
      λ u b q r. s.reachable u (h u b) (ground (arith, s.only_deleted u, q)) in
    record {
      pred_inserted = tt;
      curr_inserted = s.head_inserted;
      curr_clear = s.head_clear;
      curr_ahead = all;
      pred_ahead = all;
    }

-- The entry that is returned is no longer expected.
onto :
    {m : EntryList} (s : Shape m) (it : Iter) (a : ℕ)
    → Cursor m it
    → it.curr.target ≡ some a
    → (m.next a).tagged ≡ false
    → Cursor m (record it { pred = some a; curr = m.next a; returned = update it.returned a true })
onto {m} s it a c e clear =
    let la = subst (Inserted m.inserted) e c.curr_inserted in
    let rest : Ahead m
        (record it { pred = some a; curr = m.next a; returned = update it.returned a true })
        (m.next a).target =
      λ u b q r.
        past (subst (λ x. Way m.next x u) e (c.curr_ahead u b q (ground (arith, r))))
          (λ f. ground (arith, f, r)) in
    record {
      pred_inserted = la;
      curr_inserted = s.next_inserted a la;
      curr_clear = clear;
      curr_ahead = rest;
      pred_ahead = rest;
    }

-- The exchange fails, and the iterator goes on with what it has found in the link.
jump :
    {m : EntryList} (s : Shape m) (it : Iter)
    → Cursor m it
    → (link_at m it.pred).tagged ≡ false
    → Cursor m (record it { curr = link_at m it.pred })
jump {m} s it c clear = record {
  pred_inserted = c.pred_inserted;
  curr_inserted = there it.pred c.pred_inserted;
  curr_clear = clear;
  curr_ahead = c.pred_ahead;
  pred_ahead = c.pred_ahead;
}
  where
    there : (y : Option ℕ) → Inserted m.inserted y → Inserted m.inserted (link_at m y).target
    there none h = s.head_inserted
    there (some b) h = s.next_inserted b h

own_allocated : (m : EntryList) (p : Pc) (a : ℕ) → At m p → own p ≡ some a → a < m.fresh
own_allocated m idle a h e = absurd (ground (arith, e))
own_allocated m (inserting b) a h e = ground (arith, h.0, e)
own_allocated m (storing b n) a h e = ground (arith, h.0.0, e)
own_allocated m (linking b n) a h e = ground (arith, h.0.0, e)
own_allocated m (iterating it) a h e = absurd (ground (arith, e))
own_allocated m (unlinking it succ) a h e = absurd (ground (arith, e))
own_allocated m (restarting it) a h e = absurd (ground (arith, e))
own_allocated m panicked a h e = absurd h

not_fresh : (m : EntryList) (p : Pc) → At m p → own p ≢ some m.fresh
not_fresh m p h e = let lt = own_allocated m p m.fresh h e in omega (arith, lt)

fresh_out : {m : EntryList} → Shape m → m.inserted m.fresh ≡ false
fresh_out {m} s = elim (Bool-cases (m.inserted m.fresh)) [
  | inl h ↦ let lt = s.allocated m.fresh h in absurd (omega (arith, lt))
  | inr h ↦ h
]

-- The entry is taken out, and the iterator goes on with the next.
taken_out :
    {m : EntryList} (it : Iter) (succ : Shared) (a : ℕ) {w : Option ℕ}
    → Past m it
    → Cursor m it
    → Inserted m.inserted succ.target
    → succ.tagged ≡ false
    → Extends m (unlinked m it.pred succ a) w
    → At (unlinked m it.pred succ a) (iterating (record it { curr = succ }))
taken_out {m} it succ a h c ins clear x =
    let here = unlinked_at m it.pred succ a in
    let ahead : (u : ℕ)
        → it.before u ≡ true
        → ((unlinked m it.pred succ a).next u).tagged ≡ false
        → it.returned u ≡ false
        → Way (unlinked m it.pred succ a).next (link_at (unlinked m it.pred succ a) it.pred).target
            u =
      λ u b q r.
        x.onward it.pred c.pred_inserted q (c.pred_ahead u b (still_clear x u (h u b) q) r) in
    (
      λ u b. x.grows u (h u b),
      record {
        pred_inserted = Inserted-stable x it.pred c.pred_inserted;
        curr_inserted = Inserted-stable x succ.target ins;
        curr_clear = clear;
        curr_ahead = λ u b q r.
            subst (λ (n : Shared). Way (unlinked m it.pred succ a).next n.target u) here
              (ahead u b q r);
        pred_ahead = ahead;
      },
    )

pub Move-Inv :
    {m m' : EntryList} {th : ℕ → Pc} {e : Event} {p p' : Pc} (v : Inv m th) (i : ℕ)
    → Move m p e m' p'
    → th i ≡ p
    → Inv m' (update th i p')
Move-Inv {m} {th} v i insert_start q =
    let out = fresh_out v.shape in
    advance v i (inserting m.fresh)
      (write-Shape v.shape m.fresh null (suc m.fresh) (omega arith) out) (omega arith, out)
      (λ j ne.
        write-Extends v.shape m.fresh null (suc m.fresh) (omega arith) out
          (not_fresh m (th j) (v.at j)))
      (λ a e j ne.
        subst (λ b. own (th j) ≢ some b) (ground (arith, e)) (not_fresh m (th j) (v.at j)))
Move-Inv {m} {th} v i (insert_load {a}) q =
    let k = subst (At m) q (v.at i) in
    look v i (storing a m.head) (k, v.shape.head_inserted, v.shape.head_clear) (λ b h. ap own q ∙ h)
Move-Inv {m} {th} v i (insert_store {a} {next}) q =
    let k = subst (At m) q (v.at i) in
    advance v i (linking a next) (write-Shape v.shape a next m.fresh (omega arith) k.0.1)
      (k.0, k.1, k.2, ground arith)
      (λ j ne.
        write-Extends v.shape a next m.fresh (omega arith) k.0.1
          (λ e. ne (v.apart i j a (ap own q) e)))
      (kept v i (linking a next) (λ b h. ap own q ∙ h))
Move-Inv {m} {th} v i (insert_link {a} {next} e) q =
    let k = subst (At m) q (v.at i) in
    let at_head : m.next a ≡ m.head = k.3 ∙ sym e in
    advance v i idle (enter-Shape v.shape a k.0.0 k.0.1 at_head) tt
      (λ j ne. enter-Extends v.shape a k.0.0 k.0.1 at_head (λ f. ne (v.apart i j a (ap own q) f)))
      (λ b f. ground (arith, f))
Move-Inv {m} {th} v i (insert_lost {a} {next}) q =
    let k = subst (At m) q (v.at i) in
    look v i (storing a m.head) (k.0, v.shape.head_inserted, v.shape.head_clear)
      (λ b h. ap own q ∙ h)
Move-Inv v i (delete_entry a h g) q =
    advance v i idle (delete-Shape v.shape a g) tt (λ j ne. delete-Extends v.shape a g h)
      (λ b f. ground (arith, f))
Move-Inv {m} v i iter_start q =
    look v i (iterating (iter m)) (λ u b. b, from_head v.shape (iter m) (λ u b. b))
      (λ b h. ground (arith, h))
Move-Inv v i iter_left q = look v i idle tt (λ b h. ground (arith, h))
Move-Inv v i (next_end e) q = look v i idle tt (λ b h. ground (arith, h))
Move-Inv {m} v i (next_return {it} a e g) q =
    let k = subst (At m) q (v.at i) in
    look v i
      (iterating
        (record it { pred = some a; curr = m.next a; returned = update it.returned a true }))
      (k.0, onto v.shape it a k.1 e g) (λ b h. ground (arith, h))
Move-Inv {m} v i (next_deleted {it} a e g f) q =
    let k = subst (At m) q (v.at i) in
    look v i (unlinking it (record (m.next a) { tagged = false }))
      (k.0, k.1, a, e, subst (Inserted m.inserted) e k.1.curr_inserted, ground (arith, g), refl)
      (λ b h. ground (arith, h))
Move-Inv {m} v i (next_assert a e g f) q =
    let k = subst (At m) q (v.at i) in absurd (ground (arith, k.1.curr_clear, f))
Move-Inv {m} {th} v i (unlink {it} {succ} a e g) q =
    let (h, c, b, f, ins, n, clear) = subst (At m) q (v.at i) in
    let same : b ≡ a = ground (arith, sym f ∙ e) in
    let lead = ap (λ (x : Shared). x.target) g ∙ e in
    let no_tag = ap (λ (x : Shared). x.tagged) g ∙ c.curr_clear in
    let ins_a = subst (λ d. m.inserted d ≡ true) same ins in
    let n_a = subst (λ d. m.next d ≡ record { target = succ.target; tagged = true }) same n in
    let to_succ = ap (λ (x : Shared). x.target) n_a in
    let deleted = ap (λ (x : Shared). x.tagged) n_a in
    let ext : Extends m (unlinked m it.pred succ a) none =
      unlink-Extends v.shape it.pred succ a c.pred_inserted lead no_tag ins_a to_succ deleted
        clear in
    advance v i (iterating (record it { curr = succ }))
      (unlink-Shape v.shape it.pred succ a c.pred_inserted lead no_tag ins_a to_succ deleted clear)
      (taken_out it succ a h c (subst (Inserted m.inserted) to_succ (v.shape.next_inserted a ins_a))
        clear ext)
      (λ j ne.
        unlink-Extends v.shape it.pred succ a c.pred_inserted lead no_tag ins_a to_succ deleted
          clear)
      (λ b f. ground (arith, f))
Move-Inv {m} v i (unlink_lost {it} {succ} ne g) q =
    let k = subst (At m) q (v.at i) in
    look v i (iterating (record it { curr = link_at m it.pred })) (k.0, jump v.shape it k.1 g)
      (λ b h. ground (arith, h))
Move-Inv {m} v i (unlink_stalled {it} {succ} ne g) q =
    let k = subst (At m) q (v.at i) in look v i (restarting it) k.0 (λ b h. ground (arith, h))
Move-Inv {m} v i (restart {it}) q =
    let k = subst (At m) q (v.at i) in
    look v i (iterating (record it { pred = none; curr = m.head })) (k, from_head v.shape it k)
      (λ b h. ground (arith, h))
