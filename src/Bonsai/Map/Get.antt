-- ===== src/Bonsai/Map/Get.antt =====
-- bonsai_tree.rs: `get`, against the list of entries.
use Prim.Native.Nat.Ordering.{lt}
use smr_benchmark.Prelude.{ℕ, suc, ◌≡◌, refl, Option, none, some, if◌then◌else◌, arith}
use smr_benchmark.Bonsai.Order.{Ord}
use smr_benchmark.Bonsai.Entries.{IsSorted, split, find_entry, find_below, find_above, find_at}
use smr_benchmark.Bonsai.Node.{
  Shared, null, node, is_retired_spot, is_null, entries, IsGood, is_retired-IsGood,
  is_retired_spot-IsGood,
}
use smr_benchmark.Bonsai.State.{State, return, ◌>>=◌, deref, load_link}
use smr_benchmark.Bonsai.Map.{returned, walk, get}

module _ {ℓ κ} {K : Type ℓ} {V : Type κ} where
  -- The value at a pointer that `walk` has returned
  abbrev value_at : Shared K V → Option V
  value_at (null _) = none
  value_at (node _ _ _ v _ _ _) = some v

module _ {ℓ κ} {K : Type ℓ} {V : Type κ} ⦃o : Ord K⦄ where
  walk_finds :
      (p : Shared K V) (q : K)
      → IsGood p
      → IsSorted (entries p)
      → IsGood (walk q p) × (value_at (walk q p) ≡ find_entry q (entries p))
  unfolding walk find_entry
  walk_finds (null t) q g s = (g, refl)
  walk_finds (node t a k v n l r) q g s =
      let sides = split (entries l) k v (entries r) s in
      let kind = is_retired-IsGood (node t a k v n l r) g in
      ground (
        arith,
        kind,
        walk_finds l q g.2 sides.left,
        walk_finds r q g.3 sides.right,
        o.cmp_reverse q k,
        o.eq_of_cmp k q,
        find_below q k v (entries r) (entries l),
        (λ (h : o.cmp k q ≡ lt). find_above q k v (entries r) (entries l) h sides.low),
        (λ (h : k ≡ q). find_at q k v (entries r) (entries l) h sides.low),
      )

  -- If the root that `get` loads first is a good tree in order, the first round returns, and
  -- returns the value of the key in that tree, whatever the other loads of the root give.
  pub get_lem :
      (root_at : ℕ → Shared K V) (fuel : ℕ) (q : K) (s : State K V)
      → IsGood (root_at s.loads)
      → IsSorted (entries (root_at s.loads))
      → get root_at (suc fuel) q s
        ≡ some
            (returned (find_entry q (entries (root_at s.loads))), record s { loads = suc s.loads })
  unfolding get load_link is_null deref
  get_lem root_at fuel q s g srt =
      let (good, found) = walk_finds (root_at s.loads) q g srt in
      finish (walk q (root_at s.loads)) good found
    where
      finish :
          (p : Shared K V)
          → IsGood p
          → value_at p ≡ find_entry q (entries (root_at s.loads))
          → (if is_retired_spot p
                then get root_at fuel q
                else if is_null p
                then return (returned none)
                else (deref p >>= λ node_ref. return (returned (some node_ref.value))))
              (record s { loads = suc s.loads })
            ≡ some (
              returned (find_entry q (entries (root_at s.loads))),
              record s { loads = suc s.loads },
            )
      finish (null t) good found =
          rw (is_retired_spot-IsGood {K = K} {V = V} (null t) good, ← found)
      finish (node t a k v n l r) good found =
          rw (is_retired_spot-IsGood (node t a k v n l r) good, ← found)
