-- ===== src/Ebr/Intrusive/Shape.antt =====
-- sync/list.rs: what holds of the entries.
use smr_benchmark.Prelude.{ℕ, ◌≤◌, ◌<◌, ◌≡◌, ◌≢◌, true, false, Option, none, some}
use smr_benchmark.Ebr.Intrusive.{
  EntryList, Iter, Pc, idle, inserting, storing, linking, iterating, unlinking, restarting,
  panicked, link_at,
}
use smr_benchmark.Ebr.Intrusive.Ways.{Way, Inserted}

-- The links of the list are those of the head, and of the entries that no call of `C::finalize` has
-- taken out.
abbrev pub Live : EntryList → Option ℕ → Type 0
Live m none = Unit
Live m (some a) = (m.inserted a ≡ true) × (m.finalized a ≡ 0)

-- The entries were inserted one after the other, each before all that are there.
pub record Shape (m : EntryList) : Type 0 where
  pub head_clear : m.head.tagged ≡ false
  pub head_inserted : Inserted m.inserted m.head.target
  pub allocated : (a : ℕ) → m.inserted a ≡ true → a < m.fresh
  pub next_inserted : (a : ℕ) → m.inserted a ≡ true → Inserted m.inserted (m.next a).target
  pub placed : (a : ℕ) → m.inserted a ≡ true → m.place a < m.insertions
  pub descends :
      (a b : ℕ) → m.inserted a ≡ true → (m.next a).target ≡ some b → m.place b < m.place a
  pub untouched : (a : ℕ) → m.inserted a ≡ false → m.finalized a ≡ 0
  pub once : (a : ℕ) → m.finalized a ≤ 1
  pub only_deleted : (a : ℕ) → m.finalized a ≢ 0 → (m.next a).tagged ≡ true
  pub reachable : (a : ℕ) → m.inserted a ≡ true → m.finalized a ≡ 0 → Way m.next m.head.target a
  pub live : (x : Option ℕ) (b : ℕ) → Live m x → (link_at m x).target ≡ some b → m.finalized b ≡ 0
  pub one_link :
      (x y : Option ℕ) (b : ℕ)
      → Live m x
      → Live m y
      → (link_at m x).target ≡ some b
      → (link_at m y).target ≡ some b
      → x ≡ y

-- What is still to come on an iterator: every entry that was there, is not deleted, and has not
-- been returned
abbrev pub Ahead : EntryList → Iter → Option ℕ → Type 0
Ahead m it x =
    (u : ℕ)
    → it.before u ≡ true
    → (m.next u).tagged ≡ false
    → it.returned u ≡ false
    → Way m.next x u

pub record Cursor (m : EntryList) (it : Iter) : Type 0 where
  pub pred_inserted : Inserted m.inserted it.pred
  pub curr_inserted : Inserted m.inserted it.curr.target
  pub curr_clear : it.curr.tagged ≡ false
  pub curr_ahead : Ahead m it it.curr.target
  pub pred_ahead : Ahead m it (link_at m it.pred).target

-- Every entry that an iterator expects has been inserted.
abbrev pub Past : EntryList → Iter → Type 0
Past m it = (u : ℕ) → it.before u ≡ true → m.inserted u ≡ true

abbrev pub Private : EntryList → ℕ → Type 0
Private m a = (a < m.fresh) × (m.inserted a ≡ false)

abbrev pub At : EntryList → Pc → Type 0
At m idle = Unit
At m (inserting a) = Private m a
At m (storing a n) = Private m a × Inserted m.inserted n.target × (n.tagged ≡ false)
At m (linking a n) =
    Private m a × Inserted m.inserted n.target × (n.tagged ≡ false) × (m.next a ≡ n)
At m (iterating it) = Past m it × Cursor m it
At m (unlinking it succ) =
    Past m it
    × Cursor m it
    × (a : ℕ) × (it.curr.target ≡ some a)
    × (m.inserted a ≡ true)
    × (m.next a ≡ record { target = succ.target; tagged = true })
    × (succ.tagged ≡ false)
At m (restarting it) = Past m it
At m panicked = ⊥

-- The entry that a thread inserts
abbrev pub own : Pc → Option ℕ
own idle = none
own (inserting a) = some a
own (storing a n) = some a
own (linking a n) = some a
own (iterating it) = none
own (unlinking it succ) = none
own (restarting it) = none
own panicked = none

pub record Inv (m : EntryList) (th : ℕ → Pc) : Type 0 where
  pub shape : Shape m
  pub at : (k : ℕ) → At m (th k)
  pub apart : (j k a : ℕ) → own (th j) ≡ some a → own (th k) ≡ some a → j ≡ k
