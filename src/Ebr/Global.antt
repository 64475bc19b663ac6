-- ===== src/Ebr/Global.antt =====
-- smrs/circ/src/smr/ebr_impl/internal.rs: `Global` and `Local` as one participant sees them, while
-- no other participant takes a step; and what `Global` does.
use smr_benchmark.Prelude.{
  ℕ, zero, suc, ◌+◌, ◌-◌, ◌%◌, ◌^◌, Bool, true, false, not, ◌&&◌, List, [], ◌∷◌, ◌++◌, length,
  Option, none, some, if◌then◌else◌,
}
use smr_benchmark.Ebr.Epoch.{Epoch, is_pinned, unpinned, successor, epoch_eq}
use smr_benchmark.Ebr.Bag.{Bag, SealedBag, new_bag, seal, is_expired}

-- With the static counters, the local epochs of the other participants, and the deferred functions
-- called so far.
pub record Global {ℓ} (D : Type ℓ) : Type ℓ where
  pub epoch : Epoch
  pub queue : List (SealedBag D)
  pub others : List Epoch
  pub garbage_count : ℕ  -- GLOBAL_GARBAGE_COUNT
  pub max_objects : ℕ  -- MAX_OBJECTS
  pub called : List D

pub record Local {ℓ} (D : Type ℓ) : Type ℓ where
  pub bag : Bag D
  pub guard_count : ℕ
  pub handle_count : ℕ
  pub advance_count : ℕ
  pub prev_epoch : Epoch
  pub pin_count : ℕ
  pub manual_count : ℕ
  pub must_collect : Bool
  pub collecting : Bool
  pub epoch : Epoch
  pub deleted : Bool  -- the entry in the list of locals is marked

pub record Participant {ℓ} (D : Type ℓ) : Type ℓ where
  pub global : Global D
  pub local : Local D

abbrev pub collects_trials : ℕ
collects_trials = 16

-- Every participant in the list is unpinned, or pinned at the given epoch.
unfoldable pub none_behind : Epoch → List Epoch → Bool
unfolding is_pinned unpinned epoch_eq
none_behind global_epoch [] = true
none_behind global_epoch (e ∷ es) =
    let rest = none_behind global_epoch es in
    if is_pinned e && not (epoch_eq (unpinned e) global_epoch) then false else rest

module _ {ℓ} {D : Type ℓ} where
  unfoldable pub push_bag : Participant D → Participant D
  unfolding seal new_bag
  push_bag s = record s {
    global = record s.global {
      garbage_count = (s.global.garbage_count + length s.local.bag.deferreds) % 2 ^ 64;
      queue = s.global.queue ++ seal s.local.bag s.global.epoch ∷ [];
    };
    local = record s.local { bag = new_bag s.global.max_objects };
  }

  -- The own local stands in the list too; where it stands does not matter. It returns the epoch.
  unfoldable pub try_advance : Participant D → Participant D × Epoch
  try_advance s =
      if none_behind s.global.epoch (s.local.epoch ∷ s.global.others)
      then (
        record s { global = record s.global { epoch = successor s.global.epoch } },
        successor s.global.epoch,
      )
      else (s, s.global.epoch)

  module _ (call : D → Participant D → Participant D) where
    -- The functions are called in order; what a call does to the participant, which may defer more
    -- and schedule a collection, is `call`.
    unfoldable pub call_all : List D → Participant D → Participant D
    call_all [] s = s
    call_all (d ∷ ds) s =
        call_all ds
          (call d (record s { global = record s.global { called = s.global.called ++ d ∷ [] } }))

    -- A bag comes off the queue, and is dropped.
    unfoldable pub drop_bag : SealedBag D → List (SealedBag D) → Participant D → Participant D
    drop_bag b rest s = call_all b.bag.deferreds (record s {
      global = record s.global {
        queue = rest;
        garbage_count = (s.global.garbage_count + 2 ^ 64 - length b.bag.deferreds) % 2 ^ 64;
      };
    })

    -- `queue.try_pop_if`, and the drop of what it pops
    unfoldable pub pop_head : List (SealedBag D) → Participant D → Option (Participant D)
    pop_head [] s = none
    pop_head (b ∷ rest) s = if is_expired b s.global.epoch then some (drop_bag b rest s) else none

    unfoldable pub collect_loop : ℕ → Participant D → Participant D
    collect_loop zero s = s
    collect_loop (suc n) s = elim (pop_head s.global.queue s) [
      | none ↦ s
      | some popped ↦ collect_loop n popped
    ]

    unfoldable pub collect : Participant D → Participant D
    collect s =
        let fresh : Participant D = record s {
          local = record s.local { manual_count = 0; pin_count = 0 };
        } in
        collect_loop collects_trials (try_advance fresh).0

  -- What a function does that does not call back
  abbrev pub silent : D → Participant D → Participant D
  silent d s = s

  unfoldable pub is_global_queue_empty : Participant D → Bool
  is_global_queue_empty s = elim s.global.queue [ [] ↦ true | _ ∷ _ ↦ false ]
