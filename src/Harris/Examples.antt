-- ===== src/Harris/Examples.antt =====
-- Two keys are inserted, and the first is marked by a removal, which has not yet detached its node.
use smr_benchmark.Prelude.{ℕ, ◌≡◌, ◌↔◌, refl, some, List, arith, ℕ_discrete}
use smr_benchmark.Harris.{Node, Event, Move, null}
use smr_benchmark.Harris.Runs.{
  System, pick, Reach, start, later, after, Legal, harris_herlihy_shavit_get,
}
use smr_benchmark.Harris.Linear.{harris_linearizable, Shows}
use smr_benchmark.Harris.Misses.{Missed, at_marked, absence_linearizable}
use smr_benchmark.Harris.Lookup.{harris_herlihy_shavit_get_lem}

abbrev blank : ℕ → Node ℕ
blank _ = record { next = null; key = 0; value = 0 }

inserted_one : (s : System ℕ) × (es : List (Event ℕ)) × Reach es s
unfolding ℕ_discrete
inserted_one = (
  _,
  _,
  later
      (later
        (later
          (later
            (later (later (start blank) (pick 0 (Move.insert_start 5 50))) (pick 0 Move.find_head))
            (pick 0 (Move.find_end refl)))
          (pick 0 (Move.adjacent refl)))
        (pick 0 Move.insert_prepare))
      (pick 0 (Move.insert_link refl)),
)

inserted_two : (s : System ℕ) × (es : List (Event ℕ)) × Reach es s
unfolding inserted_one ℕ_discrete
inserted_two = (
  _,
  _,
  later
      (later
        (later
          (later
            (later (later inserted_one.2 (pick 1 (Move.insert_start 8 80))) (pick 1 Move.step_head))
            (pick 1 (Move.step_less 0 refl refl (omega arith))))
          (pick 1 (Move.step_end refl)))
        (pick 1 Move.insert_prepare))
      (pick 1 (Move.insert_link refl)),
)

removed : (s : System ℕ) × (es : List (Event ℕ)) × Reach es s
unfolding inserted_two inserted_one ℕ_discrete
removed = (
  _,
  _,
  later
      (later
        (later (later (later inserted_two.2 (pick 0 (Move.remove_start 5))) (pick 0 Move.find_head))
          (pick 0 (Move.find_equal 0 refl refl refl)))
        (pick 0 (Move.adjacent refl)))
      (pick 0 (Move.remove_mark 0 refl refl)),
)

harris_linearizable_example :
    Legal removed.1 × ((after removed.1 8 ≡ some 80) ↔ Shows removed.0.list 8 80)
harris_linearizable_example = harris_linearizable 8 80 removed.2

harris_herlihy_shavit_get_lem_example :
    harris_herlihy_shavit_get 9 removed.0.list 8 ≡ some (after removed.1 8)
harris_herlihy_shavit_get_lem_example = harris_herlihy_shavit_get_lem 9 8 removed.2 (omega arith)

-- A third thread looks the removed key up.
looked_up : (s : System ℕ) × (es : List (Event ℕ)) × Reach es s
unfolding removed inserted_two inserted_one ℕ_discrete
looked_up = (_, _, later (later removed.2 (pick 2 (Move.get_start 5))) (pick 2 Move.walk_head))

absence_linearizable_example : Missed 2 5 looked_up.1 looked_up.0 looked_up.2
unfolding looked_up removed inserted_two inserted_one
absence_linearizable_example = absence_linearizable 2 5 looked_up.2 (at_marked 0 refl refl refl)
