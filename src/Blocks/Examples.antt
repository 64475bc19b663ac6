-- ===== src/Blocks/Examples.antt =====
-- block_bag.rs: a bag of numbers, its head full but for one.
use smr_benchmark.Prelude.{ℕ, zero, suc, ◌≡◌, refl, List, [], ◌∷◌, some, arith}
use smr_benchmark.Blocks.{BlockBag, deallocate_all}
use smr_benchmark.Blocks.Laws.{IsBag, Holds, deallocate_all_lem}

abbrev zeros : ℕ → List ℕ
zeros zero = []
zeros (suc n) = 0 ∷ zeros n

abbrev bag : BlockBag ℕ
bag = record {
  size_in_blocks = 1;
  head = 5 ∷ zeros 28;
  next = [];
  pool = record { size = 0; boxed = 1; dropped = 0 };
}

bag-IsBag : IsBag bag
bag-IsBag = record { head_room = omega arith; full = tt; counted = refl; pool_fits = omega arith }

deallocate_all_lem_example :
    (c : BlockBag ℕ) × (deallocate_all 30 bag ≡ some (5 ∷ zeros 28, c)) × Holds c []
deallocate_all_lem_example =
    deallocate_all_lem 30 (5 ∷ zeros 28) bag (bag-IsBag, refl) (omega arith)
