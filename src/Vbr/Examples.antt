-- ===== src/Vbr/Examples.antt =====
-- One thread makes its bags and allocates a slot, then retires it; a second one makes its bags.
use smr_benchmark.Prelude.{ℕ, ◌≤◌, ◌<◌, ◌≡◌, ◌≢◌, refl, [], ◌∷◌, none, arith, ℕ_discrete}
use smr_benchmark.Vbr.{VerPtr, Move, panicked}
use smr_benchmark.Vbr.Runs.{
  System, pick, Reach, start, later, Steps, none_yet, one_more, new_global, no_thread,
}
use smr_benchmark.Vbr.Invariant.{copies}
use smr_benchmark.Vbr.Safety.{one_place, no_panic}
use smr_benchmark.Vbr.Versions.{validated_load, births_ascend}

abbrev links : ℕ → VerPtr
links _ = record { meta = 0; target = none; tag = 0 }

abbrev first : System
first = record { mem = new_global 2 2 links; thread = λ _. no_thread }

allocated : (s : System) × Reach 2 2 2 7 s
unfolding ℕ_discrete
allocated = (
  _,
  later
      (later
        (later
          (later
            (later
              (later (later (start links) (pick 0 (omega arith) (Move.new_local refl)))
                (pick 0 (omega arith) (Move.refresh refl)))
              (pick 0 (omega arith) (Move.allocate_start refl)))
            (pick 0 (omega arith) (Move.pop_slot 2 (3 ∷ []) [] refl refl)))
          (pick 0 (omega arith) (Move.allocate_slot refl (omega arith) (omega arith))))
        (pick 0 (omega arith) (Move.set_birth refl)))
      (pick 0 (omega arith) (Move.set_retire refl)),
)

-- The same steps, as those that follow the first state
to_allocated : (s : System) × Steps 2 2 7 first s
unfolding ℕ_discrete
to_allocated = (
  _,
  one_more
      (one_more
        (one_more
          (one_more
            (one_more
              (one_more (one_more none_yet (pick 0 (omega arith) (Move.new_local refl)))
                (pick 0 (omega arith) (Move.refresh refl)))
              (pick 0 (omega arith) (Move.allocate_start refl)))
            (pick 0 (omega arith) (Move.pop_slot 2 (3 ∷ []) [] refl refl)))
          (pick 0 (omega arith) (Move.allocate_slot refl (omega arith) (omega arith))))
        (pick 0 (omega arith) (Move.set_birth refl)))
      (pick 0 (omega arith) (Move.set_retire refl)),
)

retired : (s : System) × Steps 2 2 6 allocated.0 s
unfolding allocated ℕ_discrete
retired = (
  _,
  one_more
      (one_more
        (one_more
          (one_more
            (one_more
              (one_more none_yet
                (pick 0 (omega arith) (Move.retire_start 2 1 refl refl refl (λ j. ground arith))))
              (pick 0 (omega arith) (Move.retire_current refl (omega arith))))
            (pick 0 (omega arith) (Move.retire_once refl refl)))
          (pick 0 (omega arith) (Move.read_epoch refl)))
        (pick 0 (omega arith) (Move.store_retire refl)))
      (pick 1 (omega arith) (Move.new_local refl)),
)

one_place_example : copies 2 allocated.0.mem allocated.0.thread 2 ≡ 1
unfolding allocated ℕ_discrete
one_place_example = one_place (omega arith) 2 allocated.1 (omega arith)

no_panic_example : (allocated.0.thread 0).pc ≢ panicked
no_panic_example = no_panic (omega arith) 0 allocated.1 (omega arith)

-- A guard of epoch 1 may have loaded the slot, while it is retired.
validated_load_example :
    (retired.0.mem.birth 2 ≡ allocated.0.mem.birth 2)
    × (retired.0.mem.epoch ≤ retired.0.mem.retire 2)
unfolding retired allocated
validated_load_example =
    validated_load (omega arith) 0 2 allocated.1 retired.1 (omega arith) refl (λ j c. ground arith)
      refl

births_ascend_example : first.mem.birth 2 < to_allocated.0.mem.birth 2
unfolding to_allocated
births_ascend_example =
    births_ascend {capacity = 2} (omega arith) 2 (start links) to_allocated.1 (omega arith)
      (omega arith) (λ j. ground arith) refl
