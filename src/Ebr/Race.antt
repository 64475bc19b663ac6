-- ===== src/Ebr/Race.antt =====
-- smrs/circ/src/smr/ebr_impl/internal.rs run by any number of threads, one access to shared memory
-- at a time: `pin`, `unpin`, `repin_without_collect`, `try_advance`, `push_bag` and `collect`, and
-- around them the readers and writers that they serve.
pub mod Invariant
mod Guards
mod Pins
mod Bags
mod Moves
pub mod Safety
pub mod Garbage
pub mod Progress
mod Examples
use smr_benchmark.Prelude.{
  ℕ, suc, ◌+◌, ◌<◌, ◌≡◌, Bool, true, false, not, ◌&&◌, ◌||◌, List, [], ◌∷◌, ◌++◌, Option, none,
  some, ltb, length, ◌==◌, if◌then◌else◌,
}
use smr_benchmark.Ebr.Epoch.{
  Epoch, starting, is_pinned, pinned, unpinned, successor, value, epoch_eq,
}
use smr_benchmark.Ebr.Bag.{Bag, SealedBag, new_bag, seal, is_expired}
use smr_benchmark.Prelude.Family.{update}
use smr_benchmark.Prelude.Counting.{contains}

-- Objects are numbers; a deferred function is the destruction of one.
-- What all threads share: `Global`, and the objects of the data structures.
pub record Shared : Type 0 where
  pub global : Epoch
  pub queue : List (SealedBag ℕ)
  pub linked : ℕ → Bool  -- reachable from a root
  pub freed : ℕ → Bool  -- destroyed by a deferred function

-- Where a thread stands, with the local variables that are live there. `next` is an object that
-- the thread has unlinked, and that waits for a place in the bag (`defer`).
pub data Pc : Type 0 where
  idle : Pc  -- no guard
  loaded : (e : Epoch) → Pc  -- `pin`: the global epoch is read
  published : (e : Epoch) → Pc  -- `pin`: the local epoch is stored, not yet validated
  retry : Pc  -- `pin`: the validation has failed
  running : (next : Option ℕ) → Pc  -- under a guard
  scanning : (global_epoch : Epoch) (count : ℕ) (next : Option ℕ) → Pc  -- `try_advance`
  storing : (global_epoch : Epoch) (next : Option ℕ) → Pc  -- `try_advance`: all locals passed
  repinning : (global_epoch : Epoch) (next : Option ℕ) → Pc  -- `repin_without_collect`
  sealing : (e : Epoch) (next : Option ℕ) → Pc  -- `push_bag`: the global epoch is read
  popping : (global_epoch : Epoch) (next : Option ℕ) → Pc  -- `collect`: it is read for the head

-- `Local`, with the references that the thread has taken from shared memory under its guard.
pub record Thread : Type 0 where
  pub pc : Pc
  pub epoch : Epoch
  pub bag : Bag ℕ
  pub refs : ℕ → Bool

-- The test by which `try_advance` gives up at a local.
unfoldable pub blocks : Epoch → Epoch → Bool
unfolding is_pinned unpinned epoch_eq
blocks local_epoch global_epoch =
    is_pinned local_epoch && not (epoch_eq (unpinned local_epoch) global_epoch)

abbrev pub no_refs : ℕ → Bool
no_refs _ = false

abbrev pub add_ref : (ℕ → Bool) → ℕ → ℕ → Bool
add_ref f o p = o == p || f p

abbrev pub drop_ref : (ℕ → Bool) → ℕ → ℕ → Bool
drop_ref f o p = not (o == p) && f p

abbrev pub free_all : (ℕ → Bool) → List ℕ → ℕ → Bool
free_all f os p = contains os p || f p

-- One step of a thread `t` that stands at the third index. `epochs` are the local epochs of all
-- `n` participants, and `max_objects` is the capacity of a new bag.
pub data Move (n max_objects : ℕ) (epochs : ℕ → Epoch) (m : Shared) (t : Thread)
    : Pc → Shared → Thread → Type 0 where
  pin_load : Move n max_objects epochs m t idle m (record t { pc = loaded m.global })
  pin_publish :
      {e : Epoch}
      → Move n max_objects epochs m t (loaded e) m (record t { pc = published e; epoch = pinned e })
  pin_valid :
      {e : Epoch}
      → value (pinned e) ≡ value m.global
      → Move n max_objects epochs m t (published e) m (record t { pc = running none })
  pin_stale :
      {e : Epoch}
      → (value (pinned e) == value m.global) ≡ false
      → Move n max_objects epochs m t (published e) m (record t { pc = retry })
  pin_again : Move n max_objects epochs m t retry m (record t { pc = idle; epoch = starting })
  unpin :
      Move n max_objects epochs m t
        (running none)
        m
        (record t { pc = idle; epoch = starting; refs = no_refs })
  acquire :
      {next : Option ℕ} (o : ℕ)
      → m.linked o ≡ true
      → Move n max_objects epochs m t (running next) m (record t { refs = add_ref t.refs o })
  unlink :
      (o : ℕ)
      → m.linked o ≡ true
      → Move n max_objects epochs m t
          (running none)
          (record m { linked = drop_ref m.linked o })
          (record t { pc = running (some o) })
  defer_push :
      {o : ℕ}
      → ltb (length t.bag.deferreds) t.bag.capacity ≡ true
      → Move n max_objects epochs m t (running (some o)) m (record t {
        pc = running none;
        bag = record t.bag { deferreds = t.bag.deferreds ++ o ∷ [] };
      })
  seal_load :
      {next : Option ℕ}
      → Move n max_objects epochs m t (running next) m (record t { pc = sealing m.global next })
  seal_push :
      {e : Epoch} {next : Option ℕ}
      → Move n max_objects epochs m t
          (sealing e next)
          (record m { queue = m.queue ++ seal t.bag e ∷ [] })
          (record t { pc = running next; bag = new_bag max_objects })
  repin_load :
      {next : Option ℕ}
      → Move n max_objects epochs m t (running next) m (record t { pc = repinning m.global next })
  repin_same :
      {e : Epoch} {next : Option ℕ}
      → epoch_eq t.epoch (pinned e) ≡ true
      → Move n max_objects epochs m t (repinning e next) m (record t { pc = running next })
  repin_store :
      {e : Epoch} {next : Option ℕ}
      → epoch_eq t.epoch (pinned e) ≡ false
      → Move n max_objects epochs m t
          (repinning e next)
          m
          (record t { pc = running next; epoch = pinned e; refs = no_refs })
  advance_load :
      {next : Option ℕ}
      → Move n max_objects epochs m t (running next) m (record t { pc = scanning m.global 0 next })
  advance_next :
      {e : Epoch} {k : ℕ} {next : Option ℕ}
      → k < n
      → blocks (epochs k) e ≡ false
      → Move n max_objects epochs m t
          (scanning e k next)
          m
          (record t { pc = scanning e (k + 1) next })
  advance_give_up :
      {e : Epoch} {k : ℕ} {next : Option ℕ}
      → Move n max_objects epochs m t (scanning e k next) m (record t { pc = running next })
  advance_done :
      {e : Epoch} {k : ℕ} {next : Option ℕ}
      → k ≡ n
      → Move n max_objects epochs m t (scanning e k next) m (record t { pc = storing e next })
  advance_store :
      {e : Epoch} {next : Option ℕ}
      → Move n max_objects epochs m t
          (storing e next)
          (record m { global = successor e })
          (record t { pc = running next })
  collect_load :
      {next : Option ℕ}
      → Move n max_objects epochs m t (running next) m (record t { pc = popping m.global next })
  collect_pop :
      {e : Epoch} {next : Option ℕ} {b : SealedBag ℕ} {rest : List (SealedBag ℕ)}
      → m.queue ≡ b ∷ rest
      → is_expired b e ≡ true
      → Move n max_objects epochs m t
          (popping e next)
          (record m { queue = rest; freed = free_all m.freed b.bag.deferreds })
          (record t { pc = running next })
  collect_stop :
      {e : Epoch} {next : Option ℕ}
      → Move n max_objects epochs m t (popping e next) m (record t { pc = running next })

pub record System : Type 0 where
  pub mem : Shared
  pub thread : ℕ → Thread

-- An index from `n` on names no thread: it is never picked.
pub data Step (n max_objects : ℕ) (s : System) : System → Type 0 where
  pick :
      (i : ℕ) {m : Shared} {t : Thread}
      → i < n
      → Move n max_objects (λ j. (s.thread j).epoch) s.mem (s.thread i) (s.thread i).pc m t
      → Step n max_objects s (record { mem = m; thread = update s.thread i t })

-- All participants registered and unpinned, the objects of `linked` in place.
abbrev pub init : ℕ → (ℕ → Bool) → System
init max_objects linked = record {
  mem = record { global = starting; queue = []; linked = linked; freed = no_refs };
  thread = λ _. record { pc = idle; epoch = starting; bag = new_bag max_objects; refs = no_refs };
}

-- The states after `k` steps
pub data Reach (n max_objects : ℕ) (linked : ℕ → Bool) : ℕ → System → Type 0 where
  start : Reach n max_objects linked 0 (init max_objects linked)
  later :
      {k : ℕ} {s t : System}
      → Reach n max_objects linked k s
      → Step n max_objects s t
      → Reach n max_objects linked (suc k) t
