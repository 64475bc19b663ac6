-- ===== src/Buckets/Examples.antt =====
-- Two buckets: while a thread inserts a key in one, another inserts a key in the other.
use smr_benchmark.Prelude.{ℕ, suc, ◌≡◌, ◌↔◌, refl, some, List, arith, ℕ_discrete}
use smr_benchmark.Harris.{Node, Event, Op, Move, null}
use smr_benchmark.Harris.Runs.{after, Legal}
use smr_benchmark.Harris.Linear.{Shows}
use smr_benchmark.Buckets.{HashMap, Reach, start, later, begin, go_on, bucket_of}
use smr_benchmark.Buckets.Linear.{hash_map_linearizable}

abbrev blank : ℕ → Node ℕ
blank _ = record { next = null; key = 0; value = 0 }

inserted : (s : HashMap ℕ) × (es : List (Event ℕ)) × Reach suc 2 es s
unfolding ℕ_discrete
inserted = (
  _,
  _,
  later
      (later
        (later
          (later
            (later
              (later
                (later (start blank)
                  (begin 0 (Op.inserting 5 0) (omega arith) refl (Move.insert_start 5 50)))
                (begin 1 (Op.inserting 8 0) (omega arith) refl (Move.insert_start 8 80)))
              (go_on 0 (λ e. ground (arith, e)) Move.find_head))
            (go_on 0 (λ e. ground (arith, e)) (Move.find_end refl)))
          (go_on 0 (λ e. ground (arith, e)) (Move.adjacent refl)))
        (go_on 0 (λ e. ground (arith, e)) Move.insert_prepare))
      (go_on 0 (λ e. ground (arith, e)) (Move.insert_link refl)),
)

hash_map_linearizable_example :
    Legal inserted.1
    × ((after inserted.1 5 ≡ some 50) ↔ Shows (inserted.0.bucket (bucket_of suc 2 5)) 5 50)
hash_map_linearizable_example = hash_map_linearizable suc 2 5 50 inserted.2
