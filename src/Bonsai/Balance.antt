-- ===== src/Bonsai/Balance.antt =====
-- bonsai_tree.rs: `mk_node`, `mk_balanced` and the rotations.
pub mod Laws
pub mod Choice
use smr_benchmark.Prelude.{ℕ, ◌+◌, ◌*◌, Bool, true, false, not, ◌&&◌, ◌||◌, ltb, leb, if◌then◌else◌}
use smr_benchmark.Bonsai.Node.{Shared, retired_node, is_retired_spot, node_size}
use smr_benchmark.Bonsai.State.{
  State, NodeRef, M, return, ◌>>=◌, deref, add_new_node, from_owned, check_root,
}

abbrev pub weight : ℕ
weight = 2

-- The tests of `mk_balanced`: is the right, or the left subtree too heavy?
unfoldable pub right_heavy : ℕ → ℕ → Bool
right_heavy l_size r_size =
    ltb 0 r_size
    && ((ltb 0 l_size && ltb (weight * l_size) r_size) || (leb l_size 0 && ltb weight r_size))

unfoldable pub left_heavy : ℕ → ℕ → Bool
left_heavy l_size r_size =
    ltb 0 l_size
    && ((ltb 0 r_size && ltb (weight * r_size) l_size) || (leb r_size 0 && ltb weight l_size))

module _ {ℓ κ} {K : Type ℓ} {V : Type κ} where
  unfoldable pub mk_node : Shared K V → Shared K V → K → V → M K V (Shared K V)
  mk_node left right key value =
      if is_retired_spot left || is_retired_spot right then return retired_node else do
        new_node ← from_owned key value (node_size left + node_size right + 1) left right
        _ ← add_new_node new_node
        return new_node

  -- The rotations take the pointers that their callers have loaded.
  unfoldable pub single_left :
      Shared K V → Shared K V → Shared K V → Shared K V → K → V → M K V (Shared K V)
  single_left left right right_left right_right key value = do
    right_ref ← deref right
    new_left ← mk_node left right_left key value
    mk_node new_left right_right right_ref.key right_ref.value

  unfoldable pub single_right :
      Shared K V → Shared K V → Shared K V → Shared K V → K → V → M K V (Shared K V)
  single_right left right left_right left_left key value = do
    left_ref ← deref left
    new_right ← mk_node left_right right key value
    mk_node left_left new_right left_ref.key left_ref.value

  module _ (root_at : ℕ → Shared K V) where
    unfoldable pub double_left :
        Shared K V → Shared K V → Shared K V → Shared K V → K → V → M K V (Shared K V)
    double_left left right right_left right_right key value = do
      right_ref ← deref right
      right_left_ref ← deref right_left
      same ← check_root root_at
      if not same || (is_retired_spot right_left_ref.left || is_retired_spot right_left_ref.right)
          then return retired_node
          else do
            new_left ← mk_node left right_left_ref.left key value
            new_right ← mk_node right_left_ref.right right_right right_ref.key right_ref.value
            mk_node new_left new_right right_left_ref.key right_left_ref.value

    unfoldable pub double_right :
        Shared K V → Shared K V → Shared K V → Shared K V → K → V → M K V (Shared K V)
    double_right left right left_right left_left key value = do
      left_ref ← deref left
      left_right_ref ← deref left_right
      same ← check_root root_at
      if not same || (is_retired_spot left_right_ref.left || is_retired_spot left_right_ref.right)
          then return retired_node
          else do
            new_left ← mk_node left_left left_right_ref.left left_ref.key left_ref.value
            new_right ← mk_node left_right_ref.right right key value
            mk_node new_left new_right left_right_ref.key left_right_ref.value

    unfoldable pub mk_balanced_left : Shared K V → Shared K V → K → V → M K V (Shared K V)
    mk_balanced_left left right key value = do
      right_ref ← deref right
      same ← check_root root_at
      if not same || (is_retired_spot right_ref.left || is_retired_spot right_ref.right)
          then return retired_node
          else if ltb (node_size right_ref.left) (node_size right_ref.right)
          then single_left left right right_ref.left right_ref.right key value
          else double_left left right right_ref.left right_ref.right key value

    unfoldable pub mk_balanced_right : Shared K V → Shared K V → K → V → M K V (Shared K V)
    mk_balanced_right left right key value = do
      left_ref ← deref left
      same ← check_root root_at
      if not same || (is_retired_spot left_ref.right || is_retired_spot left_ref.left)
          then return retired_node
          else if ltb (node_size left_ref.right) (node_size left_ref.left)
          then single_right left right left_ref.right left_ref.left key value
          else double_right left right left_ref.right left_ref.left key value

    -- `cur` gives the entry of the new root.
    unfoldable pub mk_balanced : Shared K V → Shared K V → Shared K V → M K V (Shared K V)
    unfolding right_heavy left_heavy
    mk_balanced cur left right =
        if is_retired_spot cur || (is_retired_spot left || is_retired_spot right)
        then return retired_node
        else do
          cur_ref ← deref cur
          if right_heavy (node_size left) (node_size right)
              then mk_balanced_left left right cur_ref.key cur_ref.value
              else if left_heavy (node_size left) (node_size right)
              then mk_balanced_right left right cur_ref.key cur_ref.value
              else mk_node left right cur_ref.key cur_ref.value
