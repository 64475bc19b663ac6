-- ===== src/Ebr/Local/Examples.antt =====
-- One participant next to another that is unpinned; deferred functions are numbers.
use smr_benchmark.Prelude.{
  ℕ, ◌≡◌, refl, true, false, List, [], ◌∷◌, ◌++◌, ◌==◌, if◌then◌else◌, arith,
}
use smr_benchmark.Ebr.Epoch.{Epoch, starting, value, pinned, epoch_eq, wrapping_sub, successor}
use smr_benchmark.Ebr.Bag.{is_expired, is_empty}
use smr_benchmark.Ebr.Global.{
  Global, Participant, collect, collect_loop, pop_head, drop_bag, call_all, push_bag, try_advance,
  none_behind,
}
use smr_benchmark.Ebr.Local.{
  done, spinning, defer, pin, pin_loop, moved_to, run_collections, flush, schedule_collection,
  push_to_global, repin_without_collect,
}
use smr_benchmark.Ebr.Local.Trace.{trace}
use smr_benchmark.Ebr.Local.Defer.{defer-trace, defer_spins}
use smr_benchmark.Ebr.Local.Pin.{Settles, differs, agrees, IsPinned, pin-IsPinned}

-- Global epoch 4; a bag sealed at epoch 1, and one sealed at epoch 4
abbrev shared : ℕ → Global ℕ
shared max_objects = record {
  epoch = record { bits = 8 };
  queue =
      record { epoch = record { bits = 2 }; bag = record { deferreds = 1 ∷ 2 ∷ []; capacity = 2 } }
      ∷ record { epoch = record { bits = 8 }; bag = record { deferreds = 3 ∷ []; capacity = 2 } }
      ∷ [];
  others = record { bits = 0 } ∷ [];
  garbage_count = 3;
  max_objects = max_objects;
  called = [];
}

-- With a full bag, under some guards and handles
abbrev participant : ℕ → ℕ → ℕ → Participant ℕ
participant max_objects guards handles = record {
  global = shared max_objects;
  local = record {
    bag = record { deferreds = 4 ∷ 5 ∷ []; capacity = 2 };
    guard_count = guards;
    handle_count = handles;
    advance_count = 63;
    prev_epoch = record { bits = 7 };
    pin_count = 0;
    manual_count = 0;
    must_collect = true;
    collecting = false;
    epoch = record { bits = 9 };
    deleted = false;
  };
}

defer-trace_example :
    (t : Participant ℕ) × (defer 2 6 (participant 2 1 1) ≡ done t)
    × (trace t ≡ trace (participant 2 1 1) ++ 6 ∷ [])
defer-trace_example = defer-trace 0 6 (participant 2 1 1) (omega arith)

defer_spins_example : defer 100 6 (participant 0 1 1) ≡ spinning
defer_spins_example = defer_spins 100 6 (participant 0 1 1) refl (omega arith)

abbrev quiet : Participant ℕ
quiet =
    let s = participant 2 0 1 in
    record s { local = record s.local { epoch = starting; must_collect = false } }

-- The first round finds the global epoch moved from 4 to 5, the second finds 5 twice.
abbrev two_rounds : List (Epoch × Epoch)
two_rounds =
    (record { bits = 8 }, record { bits = 10 }) ∷ (record { bits = 10 }, record { bits = 10 }) ∷ []

two_rounds-Settles : Settles two_rounds (record { bits = 10 })
unfolding value
two_rounds-Settles = differs refl (agrees refl)

pin-IsPinned_example :
    (t : Participant ℕ) × (pin two_rounds quiet ≡ done t) × IsPinned (record { bits = 10 }) quiet t
pin-IsPinned_example =
    pin-IsPinned two_rounds (record { bits = 10 }) quiet two_rounds-Settles (omega arith)
      (λ h. refl)

-- A function that schedules another collection
abbrev flushing : ℕ → Participant ℕ → Participant ℕ
flushing d s = if d == 1 then flush s else s

-- Function 1 schedules a second round, so that two rounds are not enough for the loop to end.
second_round : run_collections flushing 2 (participant 2 1 1) ≡ spinning
unfolding run_collections collect collect_loop pop_head drop_bag call_all flush schedule_collection
    push_to_global push_bag repin_without_collect try_advance none_behind is_expired is_empty
    wrapping_sub successor pinned
second_round = refl

-- A round whose second load finds another epoch is not the last.
stale_round : pin ((record { bits = 8 }, record { bits = 10 }) ∷ []) quiet ≡ spinning
unfolding pin pin_loop moved_to value pinned epoch_eq
stale_round = refl
