-- ===== src/Bonsai/Map/Examples.antt =====
-- A tree of three nodes over numbers, under a root that nobody else changes.
use smr_benchmark.Prelude.{ℕ, ◌≡◌, refl, Bool, true, List, [], ◌∷◌, Option, none, some, arith}
use smr_benchmark.Bonsai.Order.{nat_ord}
use smr_benchmark.Bonsai.Entries.{IsSorted, find_entry, insert_entry, erase_entry}
use smr_benchmark.Bonsai.Entries.Laws.{or_else}
use smr_benchmark.Bonsai.Node.{
  Shared, null, node, ptr_eq, IsGood, node_size, is_retired_spot, is_retired,
}
use smr_benchmark.Bonsai.State.{
  State, load_root, commit, check_root, deref, from_owned, add_new_node,
}
use smr_benchmark.Bonsai.Balance.{mk_node, mk_balanced}
use smr_benchmark.Bonsai.Update.{do_insert}
use smr_benchmark.Bonsai.Update.Insert.{is_none}
use smr_benchmark.Bonsai.Map.{
  Outcome, returned, get, insert, remove, update_loop, attempt, curr_root, compare_exchange,
}
use smr_benchmark.Bonsai.Map.Get.{get_lem}
use smr_benchmark.Bonsai.Map.RoundTrip.{Gets, stays, insert-get, remove-get}
use smr_benchmark.Bonsai.Map.Linear.{Published, Quiet, Finished, insert-Finished, remove-Finished}

abbrev leaf : ℕ → ℕ → ℕ → Shared ℕ ℕ
leaf a k v = node 0 a k v 1 (null 0) (null 0)

abbrev sample : Shared ℕ ℕ
sample = node 0 3 5 50 3 (leaf 1 2 20) (leaf 2 8 80)

abbrev roots : ℕ → Shared ℕ ℕ
roots _ = sample

abbrev sample_entries : List (ℕ × ℕ)
sample_entries = (2, 20) ∷ (5, 50) ∷ (8, 80) ∷ []

sample-IsGood : IsGood sample
unfolding node_size
sample-IsGood = omega arith

sample-IsSorted : IsSorted sample_entries
sample-IsSorted = ((refl, (refl, tt)), ((refl, tt), (tt, tt)))

published : Published roots
unfolding ptr_eq
published = record {
  good = λ n. sample-IsGood;
  sorted = λ n. sample-IsSorted;
  same = λ n m h. refl;
}

quiet : Quiet roots
unfolding ptr_eq
quiet n m = refl

abbrev begin : State ℕ ℕ
begin = record { curr_root = null 0; new_nodes = []; next_address = 100; loads = 0 }

-- Under way on the root
abbrev at_sample : State ℕ ℕ
at_sample = record begin { curr_root = sample; loads = 1 }

insert-Finished_example :
    (x : Outcome (Bool × Shared ℕ ℕ)) × (t : State ℕ ℕ) × (insert roots 2 3 30 begin ≡ some (x, t))
    × Finished roots (insert_entry 3 30) (λ xs. is_none (find_entry 3 xs)) x t
insert-Finished_example = insert-Finished roots published 2 3 30 begin

remove-Finished_example :
    (x : Outcome (Option ℕ × Shared ℕ ℕ)) × (t : State ℕ ℕ) × (remove roots 2 5 begin ≡ some (x, t))
    × Finished roots (erase_entry 5) (find_entry 5) x t
remove-Finished_example = remove-Finished roots published 2 5 begin

get_lem_example :
    get roots 1 8 begin ≡ some (returned (find_entry 8 sample_entries), record begin { loads = 1 })
get_lem_example = get_lem roots 0 8 begin sample-IsGood sample-IsSorted

-- The right side is too heavy: a rotation to the left.
abbrev heavy : Shared ℕ ℕ
heavy = node 0 4 8 80 3 (leaf 2 7 70) (leaf 6 9 90)

insert-get_example :
    (x y : Option ℕ) × (new : Shared ℕ ℕ) × (t : State ℕ ℕ) × Gets roots 3 begin x
    × Gets roots 5 begin y
    × (insert roots 1 3 30 begin ≡ some (returned (is_none x, new), t))
    × Gets (stays new) 3 at_sample (some (or_else x 30))
    × Gets (stays new) 5 at_sample y
insert-get_example = insert-get roots published quiet 5 3 30 0 begin at_sample (omega arith)

remove-get_example :
    (x y : Option ℕ) × (new : Shared ℕ ℕ) × (t : State ℕ ℕ) × Gets roots 5 begin x
    × Gets roots 8 begin y
    × (remove roots 1 5 begin ≡ some (returned (x, new), t))
    × Gets (stays new) 5 at_sample none
    × Gets (stays new) 8 at_sample y
remove-get_example = remove-get roots published quiet 8 5 0 begin at_sample (omega arith)

-- A run: key 9 goes to the right of 8, and no rotation is needed.
inserted :
    insert roots 1 9 90 begin
    ≡ some (
      returned (true, node 0 102 5 50 4 (leaf 1 2 20) (node 0 101 8 80 2 (null 0) (leaf 100 9 90))),
      record { curr_root = sample; new_nodes = []; next_address = 103; loads = 4 },
    )
unfolding insert update_loop attempt load_root curr_root do_insert is_retired_spot check_root
    mk_balanced mk_node node_size from_owned add_new_node deref compare_exchange commit ptr_eq
    is_retired
inserted = refl
