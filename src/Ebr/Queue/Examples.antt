-- ===== src/Ebr/Queue/Examples.antt =====
-- One value is pushed, then popped by another thread, and the old sentinel is handed over.
use smr_benchmark.Prelude.{ℕ, refl, List, [], ◌∷◌, arith, inl, ℕ_discrete}
use smr_benchmark.Ebr.Queue.{
  Event, pushes, silent, Move, System, pick, Reach, start, later, History, Holds, set_next,
  swing_tail,
}
use smr_benchmark.Ebr.Queue.Linear.{linearizable, Leads, retired_unreachable}

pushed : (s : System ℕ) × Reach (silent ∷ pushes 7 ∷ silent ∷ silent ∷ silent ∷ []) s
unfolding ℕ_discrete set_next swing_tail
pushed = (
  _,
  later
      (later
        (later (later (later (start 10) (pick 0 (Move.push_start 7))) (pick 0 Move.push_load))
          (pick 0 (Move.push_at_end refl)))
        (pick 0 (Move.push_link 7 refl refl)))
      (pick 0 Move.push_swing),
)

about_to_pop :
    (s : System ℕ) × Reach
      (silent ∷ silent ∷ silent ∷ silent ∷ pushes 7 ∷ silent ∷ silent ∷ silent ∷ [])
      s
unfolding pushed ℕ_discrete set_next swing_tail
about_to_pop = (
  _,
  later (later (later pushed.1 (pick 1 Move.pop_start)) (pick 1 Move.pop_load))
      (pick 1 (Move.pop_next refl)),
)

retired : (s : System ℕ) × (es : List (Event ℕ)) × Reach es s
unfolding about_to_pop pushed ℕ_discrete set_next swing_tail
retired = (
  _,
  _,
  later
      (later (later about_to_pop.1 (pick 1 (Move.pop_won 7 refl refl)))
        (pick 1 (Move.pop_tail_moved (omega arith))))
      (pick 1 Move.pop_retire),
)

linearizable_example :
    (xs : List ℕ) × History (silent ∷ pushes 7 ∷ silent ∷ silent ∷ silent ∷ []) xs
    × Holds pushed.0.queue.cell pushed.0.queue.head xs
linearizable_example = linearizable pushed.1

retired_unreachable_example :
    (¬ Leads retired.0.queue.cell retired.0.queue.head 10)
    × (¬ Leads retired.0.queue.cell retired.0.queue.tail 10)
unfolding retired about_to_pop pushed
retired_unreachable_example = retired_unreachable 10 retired.2 (inl refl)
