-- ===== src/Bonsai/Update.antt =====
-- bonsai_tree.rs: `do_insert`, `do_remove`, `pull_leftmost` and `pull_rightmost`.
pub mod Pull
pub mod Insert
pub mod Remove
use Prim.Native.Nat.Ordering.{lt, eq, gt}
use smr_benchmark.Prelude.{
  ℕ, Ordering, Bool, true, false, not, ◌&&◌, ◌||◌, ◌==◌, if◌then◌else◌, Option, none, some,
}
use smr_benchmark.Bonsai.Order.{Ord}
use smr_benchmark.Bonsai.Node.{Shared, null, node, retired_node, is_retired_spot, is_null}
use smr_benchmark.Bonsai.State.{M, return, ◌>>=◌, check_root}
use smr_benchmark.Bonsai.Balance.{mk_node, mk_balanced}

-- `match` on what `cmp` returns
abbrev pub by_order {μ} : {A : Type μ} → Ordering → A → A → A → A
by_order lt a b c = a
by_order eq a b c = b
by_order gt a b c = c

module _ {ℓ κ} {K : Type ℓ} {V : Type κ} where
  -- A null pointer is dereferenced.
  abbrev pub fault {μ} : {A : Type μ} → M K V A
  fault s = none

  module _ (root_at : ℕ → Shared K V) where
    -- The tree without its least entry, and a new node with that entry
    unfoldable pub pull_leftmost : Shared K V → M K V (Shared K V × Shared K V)
    pull_leftmost (null t) =
        if is_retired_spot {K = K} {V = V} (null t)
        then return (retired_node, retired_node)
        else fault
    pull_leftmost (node t a k v n l r) =
        let deeper = pull_leftmost l in
        if is_retired_spot (node t a k v n l r) then return (retired_node, retired_node) else do
          same ← check_root root_at
          if not same || (is_retired_spot l || is_retired_spot r)
              then return (retired_node, retired_node)
              else if not (is_null l)
              then (do
                pulled ← deeper
                top ← mk_balanced root_at (node t a k v n l r) pulled.0 r
                return (top, pulled.1))
              else (do succ ← mk_node (null 0) (null 0) k v; return (r, succ))

    -- The tree without its greatest entry, and a new node with that entry
    unfoldable pub pull_rightmost : Shared K V → M K V (Shared K V × Shared K V)
    pull_rightmost (null t) =
        if is_retired_spot {K = K} {V = V} (null t)
        then return (retired_node, retired_node)
        else fault
    pull_rightmost (node t a k v n l r) =
        let deeper = pull_rightmost r in
        if is_retired_spot (node t a k v n l r) then return (retired_node, retired_node) else do
          same ← check_root root_at
          if not same || (is_retired_spot l || is_retired_spot r)
              then return (retired_node, retired_node)
              else if not (is_null r)
              then (do
                pulled ← deeper
                top ← mk_balanced root_at (node t a k v n l r) l pulled.0
                return (top, pulled.1))
              else (do succ ← mk_node (null 0) (null 0) k v; return (l, succ))

    -- The `Equal` branch of `do_remove`
    unfoldable pub remove_here : V → ℕ → Shared K V → Shared K V → M K V (Shared K V × Option V)
    remove_here v n l r =
        if n == 1
        then return (null 0, some v)
        else if not (is_null l)
        then (do
          pulled ← pull_rightmost l
          top ← mk_balanced root_at pulled.1 pulled.0 r
          return (top, some v))
        else (do
          pulled ← pull_leftmost r
          top ← mk_balanced root_at pulled.1 l pulled.0
          return (top, some v))

  module _ ⦃o : Ord K⦄ (root_at : ℕ → Shared K V) where
    unfoldable pub do_insert : Shared K V → K → V → M K V (Shared K V × Bool)
    do_insert (null t) key value =
        if is_retired_spot {K = K} {V = V} (null t)
        then return (retired_node, false)
        else do new_node ← mk_node (null 0) (null 0) key value; return (new_node, true)
    do_insert (node t a k v n l r) key value =
        let on_right = (do
          inner ← do_insert r key value
          top ← mk_balanced root_at (node t a k v n l r) l inner.0
          return (top, inner.1)) in
        let on_left = (do
          inner ← do_insert l key value
          top ← mk_balanced root_at (node t a k v n l r) inner.0 r
          return (top, inner.1)) in
        if is_retired_spot (node t a k v n l r) then return (retired_node, false) else do
          same ← check_root root_at
          if not same || (is_retired_spot l || is_retired_spot r)
              then return (retired_node, false)
              else by_order (o.cmp k key) on_right (return (node t a k v n l r, false)) on_left

    unfoldable pub do_remove : Shared K V → K → M K V (Shared K V × Option V)
    do_remove (null t) key =
        if is_retired_spot {K = K} {V = V} (null t)
        then return (retired_node, none)
        else return (null 0, none)
    do_remove (node t a k v n l r) key =
        let on_right = (do
          inner ← do_remove r key
          top ← mk_balanced root_at (node t a k v n l r) l inner.0
          return (top, inner.1)) in
        let on_left = (do
          inner ← do_remove l key
          top ← mk_balanced root_at (node t a k v n l r) inner.0 r
          return (top, inner.1)) in
        if is_retired_spot (node t a k v n l r) then return (retired_node, none) else do
          same ← check_root root_at
          if not same || (is_retired_spot l || is_retired_spot r)
              then return (retired_node, none)
              else by_order (o.cmp k key) on_right (remove_here root_at v n l r) on_left
