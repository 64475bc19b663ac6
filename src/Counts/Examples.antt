-- ===== src/Counts/Examples.antt =====
-- An object with one reference, which is given up, and a second one that is taken from 0.
use smr_benchmark.Prelude.{◌+◌, ◌≡◌, ◌<◌, ◌⊎◌, refl, true, false, arith}
use smr_benchmark.Counts.{
  strong, is_destructed, fetch_add, fetch_sub, create_object, Object, Step, Reach, start, later,
}
use smr_benchmark.Counts.Invariant.{referenced_not_destructed, unreferenced_not_lost}

-- The task that the decrement has deferred waits.
deferred_state : (s : Object) × Reach 1 1 s
deferred_state = (_, later start (Step.decrement 1 (omega arith) (omega arith)))

upgraded : (s : Object) × Reach 1 3 s
unfolding deferred_state strong is_destructed fetch_add fetch_sub create_object
upgraded = (
  _,
  later (later deferred_state.1 (Step.increment_first refl refl))
      (Step.increment_second (omega arith)),
)

referenced_not_destructed_example : (is_destructed upgraded.0.word ≡ false) × (upgraded.0.drops ≡ 0)
unfolding upgraded deferred_state
referenced_not_destructed_example =
    referenced_not_destructed (omega arith) (omega arith) upgraded.1 (omega arith)

unreferenced_not_lost_example :
    (is_destructed deferred_state.0.word ≡ true)
    ⊎ (0 < deferred_state.0.tasks + deferred_state.0.permits)
unfolding deferred_state
unreferenced_not_lost_example =
    unreferenced_not_lost (omega arith) (omega arith) deferred_state.1 refl
