-- ===== src/Tagged/Examples.antt =====
-- Pointers to types of alignment 8.
use smr_benchmark.Prelude.{◌+◌, ◌*◌, ◌^◌, ◌≡◌, ◌≢◌, true, arith}
use smr_benchmark.Tagged.{Tagged, high_tag, with_high_tag, tagged_eq, hash_input}
use smr_benchmark.Tagged.Laws.{hash_differs}

-- High tag 3, address 40, low tag 1
abbrev sample : Tagged
sample = record { bits = 3 * 2 ^ 60 + 41 }

abbrev other : Tagged
other = record { bits = 41 }

hash_differs_example :
    (tagged_eq sample (with_high_tag sample 0) ≡ true)
    × (hash_input sample ≢ hash_input (with_high_tag sample 0))
unfolding high_tag
hash_differs_example = hash_differs sample (omega arith)
