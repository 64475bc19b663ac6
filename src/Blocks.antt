-- ===== src/Blocks.antt =====
-- smrs/nbr/src/block_bag.rs: a bag of retired objects in blocks, which a pool keeps for reuse.
pub mod Laws
mod Examples
use smr_benchmark.Prelude.{
  ℕ, zero, suc, ◌+◌, ◌-◌, ◌<◌, ◌≡◌, Bool, true, false, not, ◌&&◌, List, [], ◌∷◌, Option, none, some,
  length, ltb, ◌==◌, if◌then◌else◌,
}

unfoldable pub max_block_pool_size : ℕ
max_block_pool_size = 32

unfoldable pub block_size : ℕ
block_size = 30

-- `BlockPool`: the number of its blocks, which are empty, and how many blocks the allocator has given
-- and taken back
pub record BlockPool : Type 0 where
  pub size : ℕ
  pub boxed : ℕ
  pub dropped : ℕ

module _ {ℓ} (A : Type ℓ) where
  -- `Block`: the objects in its first slots, the last of them first, and the blocks that follow; its
  -- size is their number.
  pub record BlockBag : Type ℓ where
    pub size_in_blocks : ℕ
    pub head : List A
    pub next : List (List A)
    pub pool : BlockPool

unfoldable pub allocate : BlockPool → BlockPool
allocate p =
    if ltb 0 p.size then record p { size = p.size - 1 } else record p { boxed = p.boxed + 1 }

module _ {ℓ} {A : Type ℓ} where
  -- `Block::is_full`, `Block::is_empty`
  unfoldable pub is_full : List A → Bool
  is_full block = length block == block_size

  unfoldable pub is_empty_block : List A → Bool
  is_empty_block block = length block == 0

  -- `none` where an assertion fails
  unfoldable pub try_recycle : List A → BlockPool → Option BlockPool
  try_recycle block p =
      if not (is_empty_block block)
      then none
      else if p.size == max_block_pool_size
      then some (record p { dropped = p.dropped + 1 })
      else some (record p { size = p.size + 1 })

  -- `Block::push_retired` and `Block::pop`
  unfoldable pub push_block : A → List A → Option (List A)
  push_block ret block = if ltb (length block) block_size then some (ret ∷ block) else none

  unfoldable pub pop_block : List A → Option (A × List A)
  pop_block [] = none
  pop_block (ret ∷ block) = some (ret, block)

  unfoldable pub new_bag : BlockPool → BlockBag A
  new_bag p = record { size_in_blocks = 1; head = []; next = []; pool = allocate p }

  unfoldable pub is_empty_bag : BlockBag A → Bool
  is_empty_bag b = (elim b.next [ [] ↦ true | _ ∷ _ ↦ false ]) && is_empty_block b.head

  unfoldable pub push_retired : A → BlockBag A → Option (BlockBag A)
  push_retired ret b = elim (push_block ret b.head) [
    | none ↦ none
    | some block ↦
        if is_full block
        then some (record b {
          size_in_blocks = b.size_in_blocks + 1;
          head = [];
          next = block ∷ b.next;
          pool = allocate b.pool;
        })
        else some (record b { head = block })
  ]

  -- `pop` where the head is empty: the block after it becomes the head.
  unfoldable pub pop_next : BlockBag A → List (List A) → Option (A × BlockBag A)
  pop_next b [] = none
  pop_next b (block ∷ rest) = elim (pop_block block) [
    | none ↦ none
    | some (ret, left) ↦ elim (try_recycle b.head b.pool) [
      | none ↦ none
      | some pool ↦ some (
        ret,
        record { size_in_blocks = b.size_in_blocks - 1; head = left; next = rest; pool = pool },
      )
    ]
  ]

  unfoldable pub pop : BlockBag A → Option (A × BlockBag A)
  pop b =
      if is_empty_bag b
      then none
      else if is_empty_block b.head
      then pop_next b b.next
      else elim (pop_block b.head) [
        | none ↦ none
        | some (ret, left) ↦ some (ret, record b { head = left })
      ]

  -- The objects are deallocated in the order of the list; `none` where the fuel is used up, or an
  -- assertion fails.
  unfoldable pub deallocate_all : ℕ → BlockBag A → Option (List A × BlockBag A)
  deallocate_all zero b = none
  deallocate_all (suc fuel) b = if is_empty_bag b then some ([], b) else elim (pop b) [
    | none ↦ none
    | some (ret, rest) ↦ elim (deallocate_all fuel rest) [
      | none ↦ none
      | some (rets, left) ↦ some (ret ∷ rets, left)
    ]
  ]
