-- ===== src/Bonsai/Node.antt =====
-- bonsai_tree.rs: `Node`, and the tagged pointers to it (`Shared` of nr/pointers.rs). A node is not
-- written after it is made, so a pointer is modelled with the node that it leads to.
use smr_benchmark.Prelude.{
  ℕ, suc, ◌+◌, ◌%◌, ◌≡◌, refl, Bool, true, false, ◌&&◌, ◌||◌, List, [], ◌∷◌, ◌++◌, ◌==◌, arith,
}

-- `null` with its tag, or the tag, the address and the fields of the node
pub data Shared {ℓ κ} (K : Type ℓ) (V : Type κ) : Type (ℓ ⊔ κ) where
  null : (tag : ℕ) → Shared K V
  node : (tag address : ℕ) (key : K) (value : V) (size : ℕ) (left right : Shared K V) → Shared K V

module _ {ℓ κ} {K : Type ℓ} {V : Type κ} where
  unfoldable pub tag : Shared K V → ℕ
  tag (null t) = t
  tag (node t _ _ _ _ _ _) = t

  unfoldable pub is_null : Shared K V → Bool
  is_null (null _) = true
  is_null (node _ _ _ _ _ _ _) = false

  -- `==` on pointers: the same address and the same tag. No node is at address 0.
  unfoldable pub ptr_eq : Shared K V → Shared K V → Bool
  ptr_eq (null t) (null u) = t == u
  ptr_eq (null _) (node _ _ _ _ _ _ _) = false
  ptr_eq (node _ _ _ _ _ _ _) (null _) = false
  ptr_eq (node t a _ _ _ _ _) (node u b _ _ _ _ _) = a == b && t == u

  -- `Shared::null().with_tag(Retired::new(true).bits())`
  unfoldable pub retired_node : Shared K V
  retired_node = null 1

  -- `& Retired::RETIRED`
  unfoldable pub is_retired : Shared K V → Bool
  unfolding tag
  is_retired p = tag p % 2 == 1

  unfoldable pub is_retired_spot : Shared K V → Bool
  unfolding is_retired
  is_retired_spot (null t) = is_retired (null t)
  is_retired_spot (node t a k v s l r) =
      is_retired (node t a k v s l r) || (is_retired l || is_retired r)

  -- The size is a `usize` that counts nodes in memory, which cannot overflow.
  unfoldable pub node_size : Shared K V → ℕ
  node_size (null _) = 0
  node_size (node _ _ _ _ s _ _) = s

  -- The entries from left to right
  abbrev pub entries : Shared K V → List (K × V)
  entries (null _) = []
  entries (node _ _ k v _ l r) = entries l ++ (k, v) ∷ entries r

  -- No pointer is tagged, and every size is one more than the sizes of the children.
  abbrev pub IsGood : Shared K V → Type 0
  IsGood (null t) = t ≡ 0
  IsGood (node t _ _ _ s l r) =
      (t ≡ 0) × (s ≡ suc (node_size l + node_size r)) × IsGood l × IsGood r

  pub tag-IsGood : (p : Shared K V) → IsGood p → tag p ≡ 0
  unfolding tag
  tag-IsGood (null _) g = g
  tag-IsGood (node _ _ _ _ _ _ _) g = g.0

  pub is_retired-IsGood : (p : Shared K V) → IsGood p → is_retired p ≡ false
  unfolding is_retired
  is_retired-IsGood (null _) g = ground arith
  is_retired-IsGood (node _ _ _ _ _ _ _) g = ground arith

  pub is_retired_spot-IsGood : (p : Shared K V) → IsGood p → is_retired_spot p ≡ false
  unfolding is_retired_spot
  is_retired_spot-IsGood (null _) g = ground arith
  is_retired_spot-IsGood (node _ _ _ _ _ l r) g = ground (arith, tag-IsGood l, tag-IsGood r)

  pub is_retired_spot_retired : (p : Shared K V) → p ≡ retired_node → is_retired_spot p ≡ true
  unfolding is_retired_spot retired_node
  is_retired_spot_retired p e = rw e

  pub retired_node-is_retired : (p : Shared K V) → p ≡ retired_node → is_retired p ≡ true
  unfolding is_retired retired_node
  retired_node-is_retired p e = rw e

  pub ptr_eq_comm : (p q : Shared K V) → ptr_eq p q ≡ ptr_eq q p
  unfolding ptr_eq
  ptr_eq_comm (null t) (null u) = ground arith
  ptr_eq_comm (null _) (node _ _ _ _ _ _ _) = refl
  ptr_eq_comm (node _ _ _ _ _ _ _) (null _) = refl
  ptr_eq_comm (node t a _ _ _ _ _) (node u b _ _ _ _ _) = ground arith
