-- ===== src/Vbr.antt =====
-- smrs/vbr/src/lib.rs: version based reclamation, as any number of threads allocate, retire, load and
-- exchange, one access to shared memory at a time.
pub mod Words
pub mod Runs
mod Bags
pub mod Invariant
mod Facts
mod Allocating
mod Retiring
mod Moves
mod Effects
pub mod Safety
pub mod Versions
mod Examples
use smr_benchmark.Prelude.{
  ℕ, zero, suc, ◌+◌, ◌/◌, ◌%◌, ◌<◌, ◌≤◌, ◌≡◌, ◌≢◌, List, [], ◌∷◌, ◌++◌, Option, none, some, ltb,
  if◌then◌else◌, length,
}
use smr_benchmark.Prelude.Family.{update}

-- `NOT_RETIRED`
abbrev pub not_retired : ℕ
not_retired = 18446744073709551615

-- `Bag`: its slots, by their numbers
abbrev pub Bag : Type 0
Bag = List ℕ

-- `VerPtr`: the word of a link
pub record VerPtr : Type 0 where
  pub meta : ℕ
  pub target : Option ℕ
  pub tag : ℕ

pub record Shared : Type 0 where
  pub target : Option ℕ
  pub tag : ℕ
  pub birth : ℕ

-- `Global`, with the slots, `Inner`, and the links, `MutAtomic`, by their numbers. Of the queue of
-- bags, `SegQueue`, only which bags are in it.
pub record Memory : Type 0 where
  pub epoch : ℕ
  pub avail : List Bag
  pub birth : ℕ → ℕ
  pub retire : ℕ → ℕ
  pub fresh : ℕ
  pub link : ℕ → VerPtr

-- Where a thread stands
pub data Pc : Type 0 where
  absent : Pc  -- without a `Local`
  idle : Pc
  popping : Pc  -- the loop of `pop_avail`
  acquiring : Pc  -- the loop of `acquire`
  checking : (slot : ℕ) → Pc  -- `allocate` loads the epoch of the slot's retirement
  advancing : Pc
  setting_birth : (slot : ℕ) → Pc
  setting_retire : (slot : ℕ) → Pc
  retiring : (slot birth : ℕ) → Pc  -- `retire` loads the epoch of the slot's birth
  retiring_raw : (slot : ℕ) → Pc
  reading_epoch : (slot : ℕ) → Pc
  storing : (slot epoch : ℕ) → Pc
  pushing : (slot : ℕ) → Pc  -- the loop of `push_retired`
  loading : VerPtr → Pc  -- `load_unchecked` has the word of the link
  validating : Shared → Pc  -- `validate_epoch` in `load`
  exchanging : (link : ℕ) (owner current new : Shared) → Pc
  swapping : (link : ℕ) (curr next : VerPtr) → Pc
  leaving : Pc  -- the loop of the drop of `Local`
  panicked : Pc

-- `Local`, and the epoch of its guard
pub record Thread : Type 0 where
  pub avail : List Bag
  pub retired : List Bag
  pub epoch : ℕ
  pub pc : Pc

abbrev pub range : ℕ → ℕ → Bag
range a zero = []
range a (suc n) = a ∷ range (suc a) n

-- `Bag::pop`, `Bag::push` and the slots of `Bag::new_with_alloc`
abbrev pub new_with_alloc : ℕ → Memory → Bag
new_with_alloc cap m = range m.fresh cap

abbrev pub push_slot : ℕ → Bag → ℕ → Bag
push_slot cap b x = if ltb (length b) cap then b ++ x ∷ [] else b

abbrev pub max : ℕ → ℕ → ℕ
max a b = if ltb a b then b else a

-- `compose_u128(owner.birth.max(s.birth), s.as_raw())`
abbrev pub versioned : Shared → Shared → VerPtr
versioned owner s = record { meta = max owner.birth s.birth; target = s.target; tag = s.tag }

-- The drop of `Local` gives the bags that are not empty to the queue.
abbrev pub give : Bag → List Bag → List Bag
give [] avail = avail
give (x ∷ xs) avail = (x ∷ xs) ∷ avail

-- What a thread is shown
pub data Event : Type 0 where
  allocates : (slot birth : ℕ) → Event
  refused : Event
  loads : Shared → Event
  invalid : Event
  exchanged : Event
  not_exchanged : Event
  reallocated : Event
  silent : Event

-- One step of a thread. A thread retires a slot that is allocated, by a pointer of its birth, and only
-- where no other thread retires it: `permitted`.
pub data Move (cap : ℕ) (permitted : ℕ → Type 0) (m : Memory)
    : Thread → Event → Memory → Thread → Type 0 where
  new_local :
      {t : Thread}
      → t.pc ≡ absent
      → Move cap permitted m t silent
          (record m { fresh = cap + m.fresh })
          (record t { avail = new_with_alloc cap m ∷ []; retired = [] ∷ []; pc = idle })
  refresh :
      {t : Thread} → t.pc ≡ idle → Move cap permitted m t silent m (record t { epoch = m.epoch })
  allocate_start :
      {t : Thread} → t.pc ≡ idle → Move cap permitted m t silent m (record t { pc = popping })
  pop_slot :
      {t : Thread} (x : ℕ) (b : Bag) (bs : List Bag)
      → t.pc ≡ popping
      → t.avail ≡ (x ∷ b) ∷ bs
      → Move cap permitted m t silent m (record t { avail = b ∷ bs; pc = checking x })
  pop_empty_bag :
      {t : Thread} (bs : List Bag)
      → t.pc ≡ popping
      → t.avail ≡ [] ∷ bs
      → Move cap permitted m t silent m (record t { avail = bs })
  pop_no_bag :
      {t : Thread}
      → t.pc ≡ popping
      → t.avail ≡ []
      → Move cap permitted m t silent m (record t { pc = acquiring })
  acquire_bag :
      {t : Thread} (b : Bag) (before after : List Bag)
      → t.pc ≡ acquiring
      → m.avail ≡ before ++ b ∷ after
      → Move cap permitted m t silent
          (record m { avail = before ++ after })
          (record t { avail = b ∷ []; pc = popping })
  acquire_new :
      {t : Thread}
      → t.pc ≡ acquiring
      → m.avail ≡ []
      → Move cap permitted m t silent
          (record m { avail = new_with_alloc cap m ∷ []; fresh = cap + m.fresh })
          t
  return_avail :
      {t : Thread} {x : ℕ} (b : Bag) (bs : List Bag)
      → t.pc ≡ checking x
      → t.epoch ≤ m.retire x
      → t.avail ≡ b ∷ bs
      → Move cap permitted m t silent m
          (record t { avail = push_slot cap b x ∷ bs; pc = advancing })
  return_avail_panic :
      {t : Thread} {x : ℕ}
      → t.pc ≡ checking x
      → t.epoch ≤ m.retire x
      → t.avail ≡ []
      → Move cap permitted m t silent m (record t { pc = panicked })
  advance :
      {t : Thread}
      → t.pc ≡ advancing
      → m.epoch ≡ t.epoch
      → Move cap permitted m t refused (record m { epoch = suc m.epoch }) (record t { pc = idle })
  advance_lost :
      {t : Thread}
      → t.pc ≡ advancing
      → m.epoch ≢ t.epoch
      → Move cap permitted m t refused m (record t { pc = idle })
  allocate_assert :
      {t : Thread} {x : ℕ}
      → t.pc ≡ checking x
      → m.retire x < t.epoch
      → t.epoch ≤ m.birth x
      → Move cap permitted m t silent m (record t { pc = panicked })
  allocate_slot :
      {t : Thread} {x : ℕ}
      → t.pc ≡ checking x
      → m.retire x < t.epoch
      → m.birth x < t.epoch
      → Move cap permitted m t silent m (record t { pc = setting_birth x })
  set_birth :
      {t : Thread} {x : ℕ}
      → t.pc ≡ setting_birth x
      → Move cap permitted m t silent
          (record m { birth = update m.birth x t.epoch })
          (record t { pc = setting_retire x })
  set_retire :
      {t : Thread} {x : ℕ}
      → t.pc ≡ setting_retire x
      → Move cap permitted m t
          (allocates x t.epoch)
          (record m { retire = update m.retire x not_retired })
          (record t { pc = idle })
  retire_start :
      {t : Thread} (x b : ℕ)
      → t.pc ≡ idle
      → m.retire x ≡ not_retired
      → m.birth x ≡ b
      → permitted x
      → Move cap permitted m t silent m (record t { pc = retiring x b })
  retire_reclaimed :
      {t : Thread} {x b : ℕ}
      → t.pc ≡ retiring x b
      → b < m.birth x
      → Move cap permitted m t silent m (record t { pc = idle })
  retire_current :
      {t : Thread} {x b : ℕ}
      → t.pc ≡ retiring x b
      → m.birth x ≤ b
      → Move cap permitted m t silent m (record t { pc = retiring_raw x })
  retire_twice :
      {t : Thread} {x : ℕ}
      → t.pc ≡ retiring_raw x
      → m.retire x ≢ not_retired
      → Move cap permitted m t silent m (record t { pc = idle })
  retire_once :
      {t : Thread} {x : ℕ}
      → t.pc ≡ retiring_raw x
      → m.retire x ≡ not_retired
      → Move cap permitted m t silent m (record t { pc = reading_epoch x })
  read_epoch :
      {t : Thread} {x : ℕ}
      → t.pc ≡ reading_epoch x
      → Move cap permitted m t silent m (record t { pc = storing x m.epoch })
  store_retire :
      {t : Thread} {x c : ℕ}
      → t.pc ≡ storing x c
      → Move cap permitted m t silent
          (record m { retire = update m.retire x c })
          (record t { pc = pushing x })
  push_retired :
      {t : Thread} {x : ℕ} (b : Bag) (bs : List Bag)
      → t.pc ≡ pushing x
      → t.retired ≡ b ∷ bs
      → length b < cap
      → Move cap permitted m t silent m (record t { retired = (b ++ x ∷ []) ∷ bs; pc = idle })
  retire_bag :
      {t : Thread} {x : ℕ} (b : Bag) (bs : List Bag)
      → t.pc ≡ pushing x
      → t.retired ≡ b ∷ bs
      → cap ≤ length b
      → Move cap permitted m t silent (record m { avail = b ∷ m.avail }) (record t { retired = bs })
  push_new_bag :
      {t : Thread} {x : ℕ}
      → t.pc ≡ pushing x
      → t.retired ≡ []
      → Move cap permitted m t silent m (record t { retired = push_slot cap [] x ∷ []; pc = idle })
  load_link :
      {t : Thread} (c : ℕ)
      → t.pc ≡ idle
      → Move cap permitted m t silent m (record t { pc = loading (m.link c) })
  load_null :
      {t : Thread} {w : VerPtr}
      → t.pc ≡ loading w
      → w.target ≡ none
      → Move cap permitted m t silent m
          (record t { pc = validating (record { target = none; tag = w.tag; birth = 0 }) })
  load_birth :
      {t : Thread} {w : VerPtr} (x : ℕ)
      → t.pc ≡ loading w
      → w.target ≡ some x
      → Move cap permitted m t silent m (record t {
        pc = validating (record { target = some x; tag = w.tag; birth = m.birth x });
      })
  validate_epoch :
      {t : Thread} {s : Shared}
      → t.pc ≡ validating s
      → t.epoch ≡ m.epoch
      → Move cap permitted m t (loads s) m (record t { pc = idle })
  validate_fails :
      {t : Thread} {s : Shared}
      → t.pc ≡ validating s
      → t.epoch ≢ m.epoch
      → Move cap permitted m t invalid m (record t { pc = idle })
  exchange_start :
      {t : Thread} (c : ℕ) (owner current new : Shared)
      → t.pc ≡ idle
      → Move cap permitted m t silent m (record t { pc = exchanging c owner current new })
  owner_reallocated :
      {t : Thread} {c : ℕ} {owner current new : Shared} (x : ℕ)
      → t.pc ≡ exchanging c owner current new
      → owner.target ≡ some x
      → m.birth x ≢ owner.birth
      → Move cap permitted m t reallocated m (record t { pc = idle })
  owner_valid :
      {t : Thread} {c : ℕ} {owner current new : Shared} (x : ℕ)
      → t.pc ≡ exchanging c owner current new
      → owner.target ≡ some x
      → m.birth x ≡ owner.birth
      → Move cap permitted m t silent m
          (record t { pc = swapping c (versioned owner current) (versioned owner new) })
  owner_null :
      {t : Thread} {c : ℕ} {owner current new : Shared}
      → t.pc ≡ exchanging c owner current new
      → owner.target ≡ none
      → Move cap permitted m t silent m
          (record t { pc = swapping c (versioned owner current) (versioned owner new) })
  swap :
      {t : Thread} {c : ℕ} {curr next : VerPtr}
      → t.pc ≡ swapping c curr next
      → m.link c ≡ curr
      → Move cap permitted m t exchanged
          (record m { link = update m.link c next })
          (record t { pc = idle })
  swap_lost :
      {t : Thread} {c : ℕ} {curr next : VerPtr}
      → t.pc ≡ swapping c curr next
      → m.link c ≢ curr
      → Move cap permitted m t not_exchanged m (record t { pc = idle })
  leave : {t : Thread} → t.pc ≡ idle → Move cap permitted m t silent m (record t { pc = leaving })
  leave_retired :
      {t : Thread} (b : Bag) (bs : List Bag)
      → t.pc ≡ leaving
      → t.retired ≡ b ∷ bs
      → Move cap permitted m t silent
          (record m { avail = give b m.avail })
          (record t { retired = bs })
  leave_avail :
      {t : Thread} (b : Bag) (bs : List Bag)
      → t.pc ≡ leaving
      → t.retired ≡ []
      → t.avail ≡ b ∷ bs
      → Move cap permitted m t silent
          (record m { avail = give b m.avail })
          (record t { avail = bs })
  left :
      {t : Thread}
      → t.pc ≡ leaving
      → t.retired ≡ []
      → t.avail ≡ []
      → Move cap permitted m t silent m (record t { pc = absent })
