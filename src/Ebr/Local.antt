-- ===== src/Ebr/Local.antt =====
-- smrs/circ/src/smr/ebr_impl/internal.rs: what `Local` does.
pub mod Trace
pub mod Defer
pub mod Pin
pub mod Collections
pub mod Unpin
mod Examples
use smr_benchmark.Prelude.{
  ℕ, zero, suc, ◌+◌, ◌-◌, ◌%◌, ◌^◌, Bool, true, false, not, ◌&&◌, List, [], ◌∷◌, ◌++◌, ltb, length,
  ◌==◌, if◌then◌else◌,
}
use smr_benchmark.Ebr.Epoch.{Epoch, starting, pinned, value, epoch_eq}
use smr_benchmark.Ebr.Bag.{Bag, PushResult, ok, err, new_bag, is_empty, try_push}
use smr_benchmark.Ebr.Global.{Global, Local, Participant, push_bag, try_advance, collect}

-- A call returns; or arithmetic overflows where the build checks it; or a loop outlasts its fuel.
pub data Outcome {ℓ} (A : Type ℓ) : Type ℓ where
  done : A → Outcome A
  panic : Outcome A
  spinning : Outcome A

infixl 5 ◌>>=◌
abbrev pub ◌>>=◌ {ℓ κ} : {A : Type ℓ} {B : Type κ} → Outcome A → (A → Outcome B) → Outcome B
done a >>= f = f a
panic >>= f = panic
spinning >>= f = spinning

abbrev pub counts_between_advance : ℕ
counts_between_advance = 64

-- No code writes this static.
abbrev pub manual_events_between_collect : ℕ
manual_events_between_collect = 64

abbrev pub increment : ℕ → Outcome ℕ
increment n = if ltb (n + 1) (2 ^ 64) then done (n + 1) else panic

abbrev pub decrement : ℕ → Outcome ℕ
decrement zero = panic
decrement (suc n) = done n

module _ {ℓ} {D : Type ℓ} where
  unfoldable pub register : Global D → Participant D
  unfolding new_bag starting
  register g = record {
    global = g;
    local = record {
      bag = new_bag g.max_objects;
      guard_count = 0;
      handle_count = 1;
      advance_count = 0;
      prev_epoch = starting;
      pin_count = 0;
      manual_count = 0;
      must_collect = false;
      collecting = false;
      epoch = starting;
      deleted = false;
    };
  }

  unfoldable pub is_pinned : Participant D → Bool
  is_pinned s = ltb 0 s.local.guard_count

  unfoldable pub repin_without_collect : Participant D → Participant D
  repin_without_collect s =
      if epoch_eq s.local.epoch (pinned s.global.epoch)
      then s
      else record s { local = record s.local { epoch = pinned s.global.epoch } }

  unfoldable pub schedule_collection : Participant D → Participant D
  schedule_collection s =
      let scheduled : Participant D = record s { local = record s.local { must_collect = true } } in
      if s.local.collecting then repin_without_collect scheduled else scheduled

  unfoldable pub push_to_global : Participant D → Participant D
  push_to_global s = if not (is_empty s.local.bag) then push_bag s else s

  unfoldable pub flush : Participant D → Participant D
  flush s = schedule_collection (push_to_global s)

  unfoldable pub incr_advance : Participant D → Participant D
  incr_advance s =
      let advance_count : ℕ = (s.local.advance_count + 1) % 2 ^ 64 in
      let counted : Participant D = record s {
        local = record s.local { advance_count = advance_count };
      } in
      if advance_count % counts_between_advance == 0 then (try_advance counted).0 else counted

  -- The `while let` of `defer`
  unfoldable pub defer_loop : ℕ → D → Participant D → Outcome (Participant D)
  defer_loop zero d s = spinning
  defer_loop (suc fuel) d s =
      let (bag, result) = try_push s.local.bag d in
      elim result [
        | ok ↦ done (record s { local = record s.local { bag = bag } })
        | err back ↦ defer_loop fuel back (schedule_collection (push_bag s))
      ]

  unfoldable pub defer : ℕ → D → Participant D → Outcome (Participant D)
  defer fuel d s = do pushed ← defer_loop fuel d s; done (incr_advance pushed)

  unfoldable pub incr_manual_collection : Participant D → Participant D
  incr_manual_collection s =
      let manual_count : ℕ = (s.local.manual_count + 1) % 2 ^ 64 in
      let counted : Participant D = record s {
        local = record s.local { manual_count = manual_count };
      } in
      if manual_count % manual_events_between_collect == 0 then flush counted else counted

  -- The other participants have moved the global epoch.
  unfoldable pub moved_to : Epoch → Participant D → Participant D
  moved_to e s = record s { global = record s.global { epoch = e } }

  -- The `loop` of `pin`: publish the epoch by the exchange with the unpinned one, and validate it.
  -- The list has the global epochs that the two loads of each round find, which the other
  -- participants may have moved before either of them.
  unfoldable pub pin_loop : List (Epoch × Epoch) → Participant D → Outcome (Participant D × Epoch)
  pin_loop [] s = spinning
  pin_loop ((first, second) ∷ rounds) s =
      let new_epoch = pinned (moved_to first s).global.epoch in
      let current = (moved_to first s).local.epoch in
      let stored = if epoch_eq current starting then new_epoch else current in
      let seen = moved_to second (record s { local = record s.local { epoch = stored } }) in
      let again =
        pin_loop rounds (record seen { local = record seen.local { epoch = starting } }) in
      if value new_epoch == value seen.global.epoch then done (seen, new_epoch) else again

  unfoldable pub note_epoch : Epoch → Participant D → Participant D
  note_epoch e s =
      if not (epoch_eq e s.local.prev_epoch)
      then record s { local = record s.local { prev_epoch = e; advance_count = 0 } }
      else s

  unfoldable pub pin : List (Epoch × Epoch) → Participant D → Outcome (Participant D)
  pin rounds s = do
    count ← increment s.local.guard_count
    (let counted : Participant D = record s { local = record s.local { guard_count = count } } in
        if s.local.guard_count == 0
        then (do looped ← pin_loop rounds counted; done (note_epoch looped.1 looped.0))
        else done counted)

  unfoldable pub acquire_handle : Participant D → Outcome (Participant D)
  acquire_handle s =
      if ltb 0 s.local.handle_count
      then (do
        count ← increment s.local.handle_count
        done (record s { local = record s.local { handle_count = count } }))
      else panic

  module _ (call : D → Participant D → Participant D) where
    -- The `while` of `unpin`
    unfoldable pub run_collections : ℕ → Participant D → Outcome (Participant D)
    run_collections zero s = spinning
    run_collections (suc fuel) s =
        let cleared : Participant D = record s {
          local = record s.local { must_collect = false };
        } in
        let again = run_collections fuel (repin_without_collect (collect call cleared)) in
        if s.local.must_collect then again else done s

    -- What `unpin` collects before the last guard goes
    unfoldable pub collect_scheduled : ℕ → Participant D → Outcome (Participant D)
    collect_scheduled fuel s =
        if s.local.guard_count == 1 && not s.local.collecting
        then (do
          collected ←
              run_collections fuel (record s { local = record s.local { collecting = true } })
          done (record collected { local = record collected.local { collecting = false } }))
        else done s

    -- `unpin`, over what it calls as `finalize`
    unfoldable pub unpin_with :
        (Participant D → Outcome (Participant D)) → ℕ → Participant D → Outcome (Participant D)
    unpin_with finalize fuel s = do
      collected ← collect_scheduled fuel s
      count ← decrement s.local.guard_count
      (let released : Participant D = record collected {
        local = record collected.local { guard_count = count };
      } in
          let unpinned : Participant D = record released {
            local = record released.local { epoch = starting };
          } in
          if s.local.guard_count == 1
          then (if unpinned.local.handle_count == 0 then finalize unpinned else done unpinned)
          else done released)

    -- The guard of `finalize` goes while the handle count is 1, so that its `unpin` does not come
    -- back to `finalize`; where it did, this would be `spinning`.
    unfoldable pub finalize : List (Epoch × Epoch) → ℕ → Participant D → Outcome (Participant D)
    finalize rounds fuel s =
        if s.local.guard_count == 0 && s.local.handle_count == 0
        then (do
          guarded ← pin rounds (record s { local = record s.local { handle_count = 1 } })
          dropped ← unpin_with (λ _. spinning) fuel (push_to_global guarded)
          done (record dropped {
            local = record dropped.local { handle_count = 0; deleted = true };
          }))
        else panic

    unfoldable pub unpin : List (Epoch × Epoch) → ℕ → Participant D → Outcome (Participant D)
    unpin rounds fuel = unpin_with (finalize rounds fuel) fuel

    unfoldable pub release_handle :
        List (Epoch × Epoch) → ℕ → Participant D → Outcome (Participant D)
    release_handle rounds fuel s = do
      count ← decrement s.local.handle_count
      (let released : Participant D = record s {
        local = record s.local { handle_count = count };
      } in
          if s.local.guard_count == 0 && s.local.handle_count == 1
          then finalize rounds fuel released
          else done released)

    -- The guard that `pin` returns is forgotten. The rounds are those of `pin`, and of the `finalize`
    -- that `unpin` and `release_handle` may come to.
    unfoldable pub repin :
        List (Epoch × Epoch) → List (Epoch × Epoch) → ℕ → Participant D → Outcome (Participant D)
    repin rounds rounds_of_finalize fuel s = do
      held ← acquire_handle s
      unpinned ← unpin rounds_of_finalize fuel held
      pinned_again ← pin rounds unpinned
      release_handle rounds_of_finalize fuel pinned_again

  unfoldable pub bag_len : Participant D → ℕ
  bag_len s = length s.local.bag.deferreds
