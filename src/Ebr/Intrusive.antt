-- ===== src/Ebr/Intrusive.antt =====
-- sync/list.rs: the intrusive list of entries, as any number of threads insert, delete and iterate,
-- one access to shared memory at a time, and the drop of the list.
pub mod Ways
pub mod Shape
mod Stable
mod Changes
mod Unlinking
mod Moves
pub mod Safety
pub mod Drop
mod Examples
use smr_benchmark.Prelude.{
  ℕ, zero, suc, ◌≡◌, ◌≢◌, Bool, true, false, List, [], ◌∷◌, Option, none, some, if◌then◌else◌,
}
use smr_benchmark.Prelude.Family.{update}

-- `Shared`: a pointer to an entry, by its address, and whether its tag is 1, which marks the entry
-- in whose `next` it stands as deleted
pub record Shared : Type 0 where
  pub target : Option ℕ
  pub tagged : Bool

-- `with_tag(0)`
abbrev pub untagged : Shared → Shared
untagged s = record s { tagged = false }

abbrev pub null : Shared
null = record { target = none; tagged = false }

-- `List`, with the memory of its entries. Not in the code are the calls of `C::finalize` on each
-- entry so far; which entries have been inserted, the number of these, and the place of each in
-- their order.
pub record EntryList : Type 0 where
  pub head : Shared
  pub next : ℕ → Shared
  pub fresh : ℕ
  pub finalized : ℕ → ℕ
  pub inserted : ℕ → Bool
  pub insertions : ℕ
  pub place : ℕ → ℕ

-- `List::new`
abbrev pub new_list : (ℕ → Shared) → EntryList
new_list next = record {
  head = null;
  next = next;
  fresh = 0;
  finalized = λ _. 0;
  inserted = λ _. false;
  insertions = 0;
  place = λ _. 0;
}

-- `Iter`: `pred`, `none` for the head of the list, and `curr`. Not in the code are the entries that
-- had been inserted when `iter` was called, and those that the iterator has returned.
pub record Iter : Type 0 where
  pub pred : Option ℕ
  pub curr : Shared
  pub before : ℕ → Bool
  pub returned : ℕ → Bool

-- Where a thread stands
pub data Pc : Type 0 where
  idle : Pc
  inserting : (entry : ℕ) → Pc  -- `insert` is called
  storing : (entry : ℕ) (next : Shared) → Pc  -- the loop of `insert`
  linking : (entry : ℕ) (next : Shared) → Pc  -- the exchange in `insert`
  iterating : Iter → Pc  -- `next`
  unlinking : Iter → (succ : Shared) → Pc  -- the exchange in `next`
  restarting : Iter → Pc  -- `next` loads the head
  panicked : Pc  -- the debug assertion in `next`

abbrev pub link_at : EntryList → Option ℕ → Shared
link_at m none = m.head
link_at m (some a) = m.next a

abbrev pub set_link : EntryList → Option ℕ → Shared → EntryList
set_link m none x = record m { head = x }
set_link m (some a) x = record m { next = update m.next a x }

-- `Entry::delete`
abbrev pub delete : EntryList → ℕ → EntryList
delete m a = set_link m (some a) (record (m.next a) { tagged = true })

-- The exchange on the head puts the entry into the list.
abbrev pub enter : EntryList → ℕ → EntryList
enter m a = record m {
  head = record { target = some a; tagged = false };
  inserted = update m.inserted a true;
  insertions = suc m.insertions;
  place = update m.place a m.insertions;
}

-- `C::finalize`
abbrev pub finalize : EntryList → ℕ → EntryList
finalize m a = record m { finalized = update m.finalized a (suc (m.finalized a)) }

-- `iter`
abbrev pub iter : EntryList → Iter
iter m = record { pred = none; curr = m.head; before = m.inserted; returned = λ _. false }

-- What a call of `next` shows its caller
pub data Event : Type 0 where
  returns : (entry : ℕ) → Event
  stalled : Event
  ends : Event
  silent : Event

-- One step of a thread. The callers insert an entry once, delete it once it has been inserted, and
-- may leave an iterator at any time; the exchange of `insert` may fail without a cause.
pub data Move (m : EntryList) : Pc → Event → EntryList → Pc → Type 0 where
  insert_start :
      Move m idle silent
        (record m { next = update m.next m.fresh null; fresh = suc m.fresh })
        (inserting m.fresh)
  insert_load : {a : ℕ} → Move m (inserting a) silent m (storing a m.head)
  insert_store :
      {a : ℕ} {next : Shared}
      → Move m (storing a next) silent (set_link m (some a) next) (linking a next)
  insert_link :
      {a : ℕ} {next : Shared} → m.head ≡ next → Move m (linking a next) silent (enter m a) idle
  insert_lost : {a : ℕ} {next : Shared} → Move m (linking a next) silent m (storing a m.head)
  delete_entry :
      (a : ℕ)
      → m.inserted a ≡ true
      → (m.next a).tagged ≡ false
      → Move m idle silent (delete m a) idle
  iter_start : Move m idle silent m (iterating (iter m))
  iter_left : {it : Iter} → Move m (iterating it) silent m idle
  next_end : {it : Iter} → it.curr.target ≡ none → Move m (iterating it) ends m idle
  next_return :
      {it : Iter} (a : ℕ)
      → it.curr.target ≡ some a
      → (m.next a).tagged ≡ false
      → Move m (iterating it) (returns a) m (
          iterating
            (record it { pred = some a; curr = m.next a; returned = update it.returned a true }))
  next_deleted :
      {it : Iter} (a : ℕ)
      → it.curr.target ≡ some a
      → (m.next a).tagged ≡ true
      → it.curr.tagged ≡ false
      → Move m (iterating it) silent m (unlinking it (untagged (m.next a)))
  next_assert :
      {it : Iter} (a : ℕ)
      → it.curr.target ≡ some a
      → (m.next a).tagged ≡ true
      → it.curr.tagged ≡ true
      → Move m (iterating it) silent m panicked
  unlink :
      {it : Iter} {succ : Shared} (a : ℕ)
      → it.curr.target ≡ some a
      → link_at m it.pred ≡ it.curr
      → Move m
          (unlinking it succ)
          silent
          (finalize (set_link m it.pred succ) a)
          (iterating (record it { curr = succ }))
  unlink_lost :
      {it : Iter} {succ : Shared}
      → link_at m it.pred ≢ it.curr
      → (link_at m it.pred).tagged ≡ false
      → Move m (unlinking it succ) silent m (iterating (record it { curr = link_at m it.pred }))
  unlink_stalled :
      {it : Iter} {succ : Shared}
      → link_at m it.pred ≢ it.curr
      → (link_at m it.pred).tagged ≡ true
      → Move m (unlinking it succ) silent m (restarting it)
  restart :
      {it : Iter}
      → Move m (restarting it) stalled m (iterating (record it { pred = none; curr = m.head }))

pub record System : Type 0 where
  pub list : EntryList
  pub thread : ℕ → Pc

pub data Step (s : System) : Event → System → Type 0 where
  pick :
      (i : ℕ) {e : Event} {m : EntryList} {p : Pc}
      → Move s.list (s.thread i) e m p
      → Step s e (record { list = m; thread = update s.thread i p })

pub data Reach : System → Type 0 where
  start : (next : ℕ → Shared) → Reach (record { list = new_list next; thread = λ _. idle })
  later : {s t : System} {e : Event} → Reach s → Step s e t → Reach t

-- What the drop of the list does: the entries on which it calls `C::finalize`
pub data Dropped : Type 0 where
  drops : List ℕ → Dropped
  assert_failed : Dropped
  out_of_fuel : Dropped

abbrev and_finalizes : ℕ → Dropped → Dropped
and_finalizes a (drops entries) = drops (a ∷ entries)
and_finalizes a assert_failed = assert_failed
and_finalizes a out_of_fuel = out_of_fuel

-- The loop of `drop`, from a pointer on
unfoldable pub drop_from : ℕ → EntryList → Option ℕ → Dropped
drop_from zero m x = out_of_fuel
drop_from (suc fuel) m none = drops []
drop_from (suc fuel) m (some a) =
    let rest = drop_from fuel m (m.next a).target in
    if (m.next a).tagged then and_finalizes a rest else assert_failed

-- `Drop for List`
unfoldable pub drop_list : ℕ → EntryList → Dropped
drop_list fuel m = drop_from fuel m m.head.target
