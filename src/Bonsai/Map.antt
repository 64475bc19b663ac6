-- ===== src/Bonsai/Map.antt =====
-- bonsai_tree.rs: `BonsaiTreeMap` and its `get`, `insert` and `remove`. The root is shared: what an
-- operation loads from it is given by `root_at`.
pub mod Get
pub mod Attempt
pub mod Linear
pub mod RoundTrip
mod Examples
use Prim.Native.Nat.Ordering.{lt, eq, gt}
use smr_benchmark.Prelude.{ℕ, zero, suc, Bool, true, false, not, if◌then◌else◌, Option, none, some}
use smr_benchmark.Bonsai.Order.{Ord}
use smr_benchmark.Bonsai.Node.{Shared, null, node, is_retired, is_retired_spot, is_null, ptr_eq}
use smr_benchmark.Bonsai.State.{State, M, return, ◌>>=◌, deref, abort, commit, load_link, load_root}
use smr_benchmark.Bonsai.Update.{by_order, do_insert, do_remove}

-- A `loop`, on fuel: it goes on, or it has returned.
pub data Outcome {μ} (A : Type μ) : Type μ where
  spinning : Outcome A
  returned : A → Outcome A

module _ {ℓ κ} {K : Type ℓ} {V : Type κ} where
  -- `BonsaiTreeMap::new`
  unfoldable pub empty_root : Shared K V
  empty_root = null 0

  unfoldable pub curr_root : M K V (Shared K V)
  curr_root s = some (s.curr_root, s)

  module _ (root_at : ℕ → Shared K V) where
    -- `root.compare_exchange(current, _)` succeeds if the root is still `current`.
    unfoldable pub compare_exchange : Shared K V → M K V Bool
    unfolding load_link
    compare_exchange current = load_link root_at >>= λ p. return (ptr_eq p current)

    -- One round of the loop of `insert` and `remove`, around `do_insert` or `do_remove`: the answer
    -- and the root that the exchange has stored, or `none` where the round has lost.
    unfoldable pub attempt {μ} :
        {B : Type μ} → (Shared K V → M K V (Shared K V × B)) → M K V (Option (B × Shared K V))
    attempt update = do
      _ ← load_root root_at
      old_root ← curr_root
      made ← update old_root
      if is_retired made.0 then (do _ ← abort; return none) else (do
        won ← compare_exchange old_root
        if won
            then (do _ ← commit; return (some (made.1, made.0)))
            else (do _ ← abort; return none))

    unfoldable pub update_loop {μ} :
        {B : Type μ} → ℕ → (Shared K V → M K V (Shared K V × B)) → M K V (Outcome (B × Shared K V))
    update_loop zero update = return spinning
    update_loop (suc fuel) update = do
      done ← attempt update
      elim done [ some answer ↦ return (returned answer) | none ↦ update_loop fuel update ]

module _ {ℓ κ} {K : Type ℓ} {V : Type κ} ⦃o : Ord K⦄ where
  -- The inner `while` of `get`
  unfoldable pub walk : K → Shared K V → Shared K V
  walk key (null t) = null t
  walk key (node t a k v n l r) =
      let on_left = walk key l in
      let on_right = walk key r in
      if is_retired (node t a k v n l r)
      then node t a k v n l r
      else by_order (o.cmp key k) on_left (node t a k v n l r) on_right

  module _ (root_at : ℕ → Shared K V) where
    unfoldable pub get : ℕ → K → M K V (Outcome (Option V))
    get zero key = return spinning
    get (suc fuel) key =
        let again = get fuel key in
        do
          root ← load_link root_at
          (let found = walk key root in
              if is_retired_spot found
              then again
              else if is_null found
              then return (returned none)
              else (do node_ref ← deref found; return (returned (some node_ref.value))))

    unfoldable pub insert : ℕ → K → V → M K V (Outcome (Bool × Shared K V))
    insert fuel key value = update_loop root_at fuel (λ root. do_insert root_at root key value)

    unfoldable pub remove : ℕ → K → M K V (Outcome (Option V × Shared K V))
    remove fuel key = update_loop root_at fuel (λ root. do_remove root_at root key)
