-- ===== src/Ebr/Intrusive/Stable.antt =====
-- sync/list.rs: what a thread knows stays true while others change the list.
use smr_benchmark.Prelude.{
  ℕ, ◌≤◌, ◌<◌, ◌≡◌, ◌≢◌, refl, true, false, Option, none, some, arith, ◌∙◌, Bool-cases, inl, inr,
}
use smr_benchmark.Prelude.Family.{update, update-each, update-apart}
use smr_benchmark.Ebr.Intrusive.{
  EntryList, Iter, Pc, idle, inserting, storing, linking, iterating, unlinking, restarting,
  panicked, link_at,
}
use smr_benchmark.Ebr.Intrusive.Ways.{Way, Inserted}
use smr_benchmark.Ebr.Intrusive.Shape.{Shape, Cursor, Past, Private, At, own, Inv}

-- What a step changes of the list, to a thread whose new entry is `w`
pub record Extends (m m' : EntryList) (w : Option ℕ) : Type 0 where
  pub fresh_le : m.fresh ≤ m'.fresh
  pub grows : (a : ℕ) → m.inserted a ≡ true → m'.inserted a ≡ true
  pub frozen : (a : ℕ) → m.inserted a ≡ true → (m.next a).tagged ≡ true → m'.next a ≡ m.next a
  pub mine :
      (a : ℕ)
      → w ≡ some a
      → a < m.fresh
      → m.inserted a ≡ false
      → (m'.inserted a ≡ false) × (m'.next a ≡ m.next a)
  pub ways :
      {x : Option ℕ} {u : ℕ}
      → Inserted m.inserted x
      → (m'.next u).tagged ≡ false
      → Way m.next x u
      → Way m'.next x u
  pub onward :
      (y : Option ℕ) {u : ℕ}
      → Inserted m.inserted y
      → (m'.next u).tagged ≡ false
      → Way m.next (link_at m y).target u
      → Way m'.next (link_at m' y).target u

module _ {m m' : EntryList} {w : Option ℕ} (x : Extends m m' w) where
  pub Inserted-stable : (t : Option ℕ) → Inserted m.inserted t → Inserted m'.inserted t
  Inserted-stable none h = tt
  Inserted-stable (some a) h = x.grows a h

  -- A deleted entry stays deleted.
  pub still_clear :
      (u : ℕ) → m.inserted u ≡ true → (m'.next u).tagged ≡ false → (m.next u).tagged ≡ false
  still_clear u h q = elim (Bool-cases (m.next u).tagged) [
    | inl t ↦ absurd (ground (arith, x.frozen u h t, t, q))
    | inr f ↦ f
  ]

  Past-stable : (it : Iter) → Past m it → Past m' it
  Past-stable it h u b = x.grows u (h u b)

  Cursor-stable : (it : Iter) → Past m it → Cursor m it → Cursor m' it
  Cursor-stable it h c = record {
    pred_inserted = Inserted-stable it.pred c.pred_inserted;
    curr_inserted = Inserted-stable it.curr.target c.curr_inserted;
    curr_clear = c.curr_clear;
    curr_ahead = λ u b q r. x.ways c.curr_inserted q (c.curr_ahead u b (still_clear u (h u b) q) r);
    pred_ahead = λ u b q r.
        x.onward it.pred c.pred_inserted q (c.pred_ahead u b (still_clear u (h u b) q) r);
  }

  Private-stable : (a : ℕ) → w ≡ some a → Private m a → Private m' a
  Private-stable a e (lt, h) = (omega (arith, lt, x.fresh_le), (x.mine a e lt h).0)

pub At-stable : {m m' : EntryList} (p : Pc) → Extends m m' (own p) → At m p → At m' p
At-stable idle x h = tt
At-stable (inserting a) x h = Private-stable x a refl h
At-stable (storing a n) x (h, g, f) = (Private-stable x a refl h, Inserted-stable x n.target g, f)
At-stable (linking a n) x ((lt, h), g, f, e) =
    (Private-stable x a refl (lt, h), Inserted-stable x n.target g, f, (x.mine a refl lt h).1 ∙ e)
At-stable (iterating it) x (h, c) = (Past-stable x it h, Cursor-stable x it h c)
At-stable (unlinking it succ) x (h, c, a, e, k, q, f) = (
  Past-stable x it h,
  Cursor-stable x it h c,
  a,
  e,
  x.grows a k,
  x.frozen a k (ground (arith, q)) ∙ q,
  f,
)
At-stable (restarting it) x h = Past-stable x it h
At-stable panicked x h = h

pub advance :
    {m m' : EntryList} {th : ℕ → Pc} (v : Inv m th) (i : ℕ) (p : Pc)
    → Shape m'
    → At m' p
    → ((j : ℕ) → i ≢ j → Extends m m' (own (th j)))
    → ((a : ℕ) → own p ≡ some a → ((j : ℕ) → i ≢ j → own (th j) ≢ some a))
    → Inv m' (update th i p)
advance {m} {m'} {th} v i p s a x o = record {
  shape = s;
  at = update-each th i p (At m') a (λ j ne. At-stable (th j) (x j ne) (v.at j));
  apart = update-apart own th i p v.apart (λ j a ne g h. o a h j ne g);
}

same-Extends : {m : EntryList} {w : Option ℕ} → Extends m m w
same-Extends = record {
  fresh_le = omega arith;
  grows = λ a k. k;
  frozen = λ a k g. refl;
  mine = λ a f lt k. (k, refl);
  ways = λ h q p. p;
  onward = λ y h q p. p;
}

-- The entry that the thread inserts stays its own, or it has none.
pub kept :
    {m : EntryList} {th : ℕ → Pc} (v : Inv m th) (i : ℕ) (p : Pc)
    → ((a : ℕ) → own p ≡ some a → own (th i) ≡ some a)
    → (a : ℕ) → own p ≡ some a
    → (j : ℕ) → i ≢ j
    → own (th j) ≢ some a
kept v i p f a h j ne g = ne (v.apart i j a (f a h) g)

-- A step that changes nothing but what the thread knows
pub look :
    {m : EntryList} {th : ℕ → Pc} (v : Inv m th) (i : ℕ) (p : Pc)
    → At m p
    → ((a : ℕ) → own p ≡ some a → own (th i) ≡ some a)
    → Inv m (update th i p)
look v i p a f = advance v i p v.shape a (λ j ne. same-Extends) (kept v i p f)
