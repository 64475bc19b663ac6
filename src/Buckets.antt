-- ===== src/Buckets.antt =====
-- src/ds_impl/nr/michael_hash_map.rs: the hash map, whose buckets are lists of Harris, Herlihy and
-- Shavit.
mod Keys
mod Views
pub mod Linear
mod Examples
use smr_benchmark.Prelude.{ℕ, ◌%◌, ◌<◌, ◌≡◌, ◌≢◌, List, [], ◌∷◌}
use smr_benchmark.Prelude.Family.{update}
use smr_benchmark.Harris.{Node, Harris, Event, silent, Op, key_of, Pc, idle, trying, Move}
use smr_benchmark.Harris.Runs.{new_list}

-- `hash` and `get_bucket`: the place of a key among the buckets, of which there is one at least
abbrev pub bucket_of : (hash : ℕ → ℕ) (len : ℕ) → ℕ → ℕ
bucket_of hash len k = hash k % len

-- `HashMap`, with the place where each thread stands, and the bucket that its operation has got
pub record HashMap {ℓ} (V : Type ℓ) : Type ℓ where
  pub bucket : ℕ → Harris V
  pub thread : ℕ → Pc
  pub used : ℕ → ℕ

-- `with_capacity`
abbrev pub with_capacity {ℓ} : {V : Type ℓ} → (ℕ → Node V) → HashMap V
with_capacity node = record { bucket = λ _. new_list node; thread = λ _. idle; used = λ _. 0 }

module _ {ℓ} {V : Type ℓ} (hash : ℕ → ℕ) (len : ℕ) where
  -- `get`, `insert` and `remove` start in the bucket of their key, and go on there; in a map of no
  -- buckets they panic before they start.
  pub data Step (s : HashMap V) : Event V → HashMap V → Type ℓ where
    begin :
        (i : ℕ) {m : Harris V} (op : Op)
        → 0 < len
        → s.thread i ≡ idle
        → Move (s.bucket (bucket_of hash len (key_of op))) idle silent m (trying op)
        → Step s silent (record {
          bucket = update s.bucket (bucket_of hash len (key_of op)) m;
          thread = update s.thread i (trying op);
          used = update s.used i (bucket_of hash len (key_of op));
        })
    go_on :
        (i : ℕ) {e : Event V} {m : Harris V} {p : Pc}
        → s.thread i ≢ idle
        → Move (s.bucket (s.used i)) (s.thread i) e m p
        → Step s e (record {
          bucket = update s.bucket (s.used i) m;
          thread = update s.thread i p;
          used = s.used;
        })

  pub data Reach : List (Event V) → HashMap V → Type ℓ where
    start : (node : ℕ → Node V) → Reach [] (with_capacity node)
    later :
        {es : List (Event V)} {s t : HashMap V} {e : Event V}
        → Reach es s
        → Step s e t
        → Reach (e ∷ es) t
