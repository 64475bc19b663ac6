-- ===== src/Buckets/Linear.antt =====
-- michael_hash_map.rs: the hash map as one map, through every interleaving.
use smr_benchmark.Prelude.{ℕ, ◌≡◌, none, some, List, ◌↔◌, arith}
use smr_benchmark.Harris.{Node, Event}
use smr_benchmark.Harris.Runs.{after, Legal}
use smr_benchmark.Harris.Linear.{Shows, start-Inv, Inv-Shows}
use smr_benchmark.Buckets.{HashMap, with_capacity, bucket_of, Reach, start, later, begin, go_on}
use smr_benchmark.Buckets.Views.{Views, Inv-ext, begin-Views, go_on-Views}

module _ {ℓ} {V : Type ℓ} (hash : ℕ → ℕ) (len : ℕ) where
  start-Views : (node : ℕ → Node V) → Views (bucket_of hash len) (with_capacity node) (λ _. none)
  start-Views node = record {
    lists = λ b. Inv-ext (λ j. ground arith) (λ k. ground arith) (start-Inv node);
    keyed = λ j. tt;
  }

  Reach-Views :
      {es : List (Event V)} {s : HashMap V}
      → Reach hash len es s
      → Views (bucket_of hash len) s (after es) × Legal es
  Reach-Views (start node) = (start-Views node, tt)
  Reach-Views (later r (begin i op _ e mv)) =
      let (v, past) = Reach-Views r in (begin-Views (bucket_of hash len) v i op e mv, (past, tt))
  Reach-Views (later r (go_on i ne mv)) =
      let (v, past) = Reach-Views r in
      let (w, now) = go_on-Views (bucket_of hash len) v i ne mv in (w, (past, now))

  -- Whatever the threads do, and whatever the hash: each insertion into the hash map finds no entry of
  -- its key in the one map that the insertions and removals in all buckets before it have made, one
  -- after the other; each removal, and each look-up that finds, finds there the entry that it returns;
  -- and the entries of the map are those that the links show in the bucket of the key.
  pub hash_map_linearizable :
      {es : List (Event V)} {s : HashMap V} (k : ℕ) (d : V)
      → Reach hash len es s
      → Legal es × ((after es k ≡ some d) ↔ Shows (s.bucket (bucket_of hash len k)) k d)
  hash_map_linearizable {es} {s} k d r =
      let (v, legal) = Reach-Views r in
      let (to, from) = Inv-Shows k d (v.lists (bucket_of hash len k)) in
      (legal, (λ e. to (ground (arith, e)), λ w. let e = from w in ground (arith, e)))
