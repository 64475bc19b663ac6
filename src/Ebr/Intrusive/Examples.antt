-- ===== src/Ebr/Intrusive/Examples.antt =====
-- Two entries are inserted; while a thread iterates, the older one is deleted, and the iterator takes
-- it out.
use smr_benchmark.Prelude.{ℕ, ◌+◌, ◌≡◌, refl, true, false, List, arith, ℕ_discrete, ◌⊎◌}
use smr_benchmark.Prelude.Family.{update}
use smr_benchmark.Prelude.Counting.{count}
use smr_benchmark.Ebr.Intrusive.{
  Shared, null, Move, System, pick, Reach, start, later, drops, assert_failed, drop_list,
}
use smr_benchmark.Ebr.Intrusive.Ways.{Way}
use smr_benchmark.Ebr.Intrusive.Safety.{finalized_once, iteration_complete}
use smr_benchmark.Ebr.Intrusive.Drop.{drop_list_lem, drop_list-assert_failed}

abbrev blank : ℕ → Shared
blank _ = null

-- A thread inserts an entry.
inserted_one : (s : System) × Reach s
unfolding ℕ_discrete
inserted_one = (
  _,
  later
      (later (later (later (start blank) (pick 0 Move.insert_start)) (pick 0 Move.insert_load))
        (pick 0 Move.insert_store))
      (pick 0 (Move.insert_link refl)),
)

inserted_two : (s : System) × Reach s
unfolding inserted_one ℕ_discrete
inserted_two = (
  _,
  later
      (later (later (later inserted_one.1 (pick 0 Move.insert_start)) (pick 0 Move.insert_load))
        (pick 0 Move.insert_store))
      (pick 0 (Move.insert_link refl)),
)

-- The newer entry is returned, and the older one is deleted.
returned_one : (s : System) × Reach s
unfolding inserted_two inserted_one ℕ_discrete
returned_one = (
  _,
  later
      (later (later inserted_two.1 (pick 1 Move.iter_start))
        (pick 1 (Move.next_return 1 refl refl)))
      (pick 0 (Move.delete_entry 0 refl refl)),
)

taken_out : (s : System) × Reach s
unfolding returned_one inserted_two inserted_one ℕ_discrete
taken_out = (
  _,
  later (later returned_one.1 (pick 1 (Move.next_deleted 0 refl refl refl)))
      (pick 1 (Move.unlink 0 refl refl)),
)

deleted_both : (s : System) × Reach s
unfolding taken_out returned_one inserted_two inserted_one ℕ_discrete
deleted_both = (_, later taken_out.1 (pick 0 (Move.delete_entry 1 refl refl)))

finalized_once_example :
    ((taken_out.0.list.finalized 0 ≡ 0) × Way taken_out.0.list.next taken_out.0.list.head.target 0)
    ⊎ ((taken_out.0.list.finalized 0 ≡ 1)
        × ((taken_out.0.list.next 0).tagged ≡ true)
        × ¬ (Way taken_out.0.list.next taken_out.0.list.head.target 0))
unfolding taken_out returned_one inserted_two inserted_one
finalized_once_example = finalized_once 0 taken_out.1 refl

iteration_complete_example : update (λ _. false) 1 true 1 ≡ true
unfolding taken_out returned_one inserted_two inserted_one
iteration_complete_example = iteration_complete 1 1 taken_out.1 refl refl refl refl

drop_list_lem_example :
    (entries : List ℕ) × (drop_list 3 deleted_both.0.list ≡ drops entries)
    × (deleted_both.0.list.finalized 1 + count entries 1 ≡ 1)
unfolding deleted_both taken_out returned_one inserted_two inserted_one
drop_list_lem_example = drop_list_lem 3 1 deleted_both.1 (λ b h. ground arith) (omega arith) refl

drop_list-assert_failed_example : drop_list 3 taken_out.0.list ≡ assert_failed
unfolding taken_out returned_one inserted_two inserted_one
drop_list-assert_failed_example = drop_list-assert_failed 3 1 taken_out.1 refl refl (omega arith)
