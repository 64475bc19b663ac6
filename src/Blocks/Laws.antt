-- ===== src/Blocks/Laws.antt =====
-- block_bag.rs: the bag as a stack.
use smr_benchmark.Prelude.{
  ℕ, zero, suc, ◌+◌, ◌-◌, ◌≤◌, ◌<◌, ◌≡◌, refl, List, [], ◌∷◌, ◌++◌, some, length, ◌==◌, arith,
  Bool-cases, inl, inr,
}
use smr_benchmark.Blocks.{
  BlockPool, BlockBag, max_block_pool_size, block_size, allocate, is_full, is_empty_block,
  try_recycle, push_block, pop_block, new_bag, is_empty_bag, push_retired, pop_next, pop,
  deallocate_all,
}

allocate_fits : (p : BlockPool) → p.size ≤ 32 → (allocate p).size ≤ 32
unfolding allocate
allocate_fits p h = ground (arith, h)

module _ {ℓ} where
  recycled :
      (A : Type ℓ) (p : BlockPool)
      → p.size ≤ 32
      → (q : BlockPool) × (try_recycle {A = A} [] p ≡ some q) × (q.size ≤ 32)
  unfolding try_recycle is_empty_block max_block_pool_size
  recycled A p h = elim (Bool-cases (p.size == 32)) [
    | inl e ↦ (record p { dropped = p.dropped + 1 }, ground (arith, e), h)
    | inr e ↦ (record p { size = p.size + 1 }, ground (arith, e), ground (arith, e, h))
  ]

module _ {ℓ} {A : Type ℓ} where
  abbrev pub concat : List (List A) → List A
  concat [] = []
  concat (b ∷ bs) = b ++ concat bs

  -- The objects in a bag, the last that was pushed first
  abbrev pub contents : BlockBag A → List A
  contents b = b.head ++ concat b.next

  -- The blocks after the head are full.
  abbrev pub Full : List (List A) → Type 0
  Full [] = Unit
  Full (b ∷ bs) = (length b ≡ 30) × Full bs

  abbrev pub count_blocks : List (List A) → ℕ
  count_blocks [] = 0
  count_blocks (b ∷ bs) = suc (count_blocks bs)

  pub record IsBag (b : BlockBag A) : Type ℓ where
    pub head_room : length b.head < 30
    pub full : Full b.next
    pub counted : b.size_in_blocks ≡ suc (count_blocks b.next)
    pub pool_fits : b.pool.size ≤ 32

  -- A bag that is in order, with what it holds
  abbrev pub Holds : BlockBag A → List A → Type ℓ
  Holds b xs = IsBag b × (contents b ≡ xs)

  -- `push_retired` on a bag that is in order fails in no assertion, and leaves a bag in order with the
  -- object on top; the pool keeps at most 32 blocks.
  push_retired_lem :
      (ret : A) (b : BlockBag A)
      → IsBag b
      → (c : BlockBag A) × (push_retired ret b ≡ some c) × Holds c (ret ∷ contents b)
  unfolding push_retired push_block is_full block_size
  push_retired_lem ret b h = elim (Bool-cases (is_full (ret ∷ b.head))) [
    | inl e ↦ (
      record b {
        size_in_blocks = b.size_in_blocks + 1;
        head = [];
        next = (ret ∷ b.head) ∷ b.next;
        pool = allocate b.pool;
      },
      ground (arith, e, h.head_room),
      (
        record {
          head_room = omega arith;
          full = (ground (arith, e), h.full);
          counted = omega (arith, h.counted);
          pool_fits = allocate_fits b.pool h.pool_fits;
        },
        refl,
      ),
    )
    | inr e ↦ (
      record b { head = ret ∷ b.head },
      ground (arith, e, h.head_room),
      (
        record {
          head_room = ground (arith, e, h.head_room);
          full = h.full;
          counted = h.counted;
          pool_fits = h.pool_fits;
        },
        refl,
      ),
    )
  ]

  pop_parts :
      (n : ℕ) (head : List A) (next : List (List A)) (pool : BlockPool) (x : A) (xs : List A)
      → IsBag (record { size_in_blocks = n; head = head; next = next; pool = pool })
      → head ++ concat next ≡ x ∷ xs
      → (c : BlockBag A) × (pop
            (record { size_in_blocks = n; head = head; next = next; pool = pool })
          ≡ some (x, c))
        × Holds c xs
  unfolding pop is_empty_bag is_empty_block pop_next pop_block
  pop_parts n [] [] pool x xs h e = absurd (ground (arith, e))
  pop_parts n [] ([] ∷ next) pool x xs h e = absurd (omega (arith, h.full.0))
  pop_parts n [] ((y ∷ left) ∷ next) pool x xs h e =
      let (q, r, fits) = recycled A pool h.pool_fits in
      (
        record { size_in_blocks = n - 1; head = left; next = next; pool = q },
        ground (arith, r, e),
        (
          record {
            head_room = omega (arith, h.full.0);
            full = h.full.1;
            counted = omega (arith, h.counted);
            pool_fits = fits;
          },
          ground (arith, e),
        ),
      )
  pop_parts n (y ∷ left) next pool x xs h e = (
    record { size_in_blocks = n; head = left; next = next; pool = pool },
    ground (arith, e),
    (
      record {
        head_room = omega (arith, h.head_room);
        full = h.full;
        counted = h.counted;
        pool_fits = h.pool_fits;
      },
      ground (arith, e),
    ),
  )

  -- `pop` on a bag that is in order and holds something fails in no assertion: it returns the object
  -- that was pushed last, and leaves a bag in order with the others; the pool keeps at most 32 blocks.
  pop_lem :
      (x : A) (xs : List A) (b : BlockBag A)
      → Holds b (x ∷ xs)
      → (c : BlockBag A) × (pop b ≡ some (x, c)) × Holds c xs
  pop_lem x xs b (h, e) = pop_parts b.size_in_blocks b.head b.next b.pool x xs h e

  is_empty_parts :
      (n : ℕ) (head : List A) (next : List (List A)) (pool : BlockPool) (xs : List A)
      → IsBag (record { size_in_blocks = n; head = head; next = next; pool = pool })
      → head ++ concat next ≡ xs
      → is_empty_bag (record { size_in_blocks = n; head = head; next = next; pool = pool })
        ≡ (length xs == 0)
  unfolding is_empty_bag is_empty_block
  is_empty_parts n [] [] pool xs h e = ground (arith, e)
  is_empty_parts n [] ([] ∷ next) pool xs h e = absurd (omega (arith, h.full.0))
  is_empty_parts n [] ((y ∷ left) ∷ next) pool xs h e = ground (arith, e)
  is_empty_parts n (y ∷ left) [] pool xs h e = ground (arith, e)
  is_empty_parts n (y ∷ left) (_ ∷ _) pool xs h e = ground (arith, e)

  -- The loop of `deallocate_all` on a bag in order ends, on fuel above the number of the objects: it
  -- deallocates all of them, the last that was pushed first, and leaves a bag in order that is empty.
  pub deallocate_all_lem :
      (fuel : ℕ) (xs : List A) (b : BlockBag A)
      → Holds b xs
      → length xs < fuel
      → (c : BlockBag A) × (deallocate_all fuel b ≡ some (xs, c)) × Holds c []
  unfolding deallocate_all
  deallocate_all_lem zero xs b h lt = absurd (omega arith)
  deallocate_all_lem (suc fuel) [] b (h, e) lt =
      let empty = is_empty_parts b.size_in_blocks b.head b.next b.pool [] h e in
      (b, ground (arith, empty), (h, e))
  deallocate_all_lem (suc fuel) (x ∷ xs) b (h, e) lt =
      let some_left = is_empty_parts b.size_in_blocks b.head b.next b.pool (x ∷ xs) h e in
      let (c, popped, held) = pop_lem x xs b (h, e) in
      let (d, rest, done) = deallocate_all_lem fuel xs c held (omega (arith, lt)) in
      (d, ground (arith, some_left, popped, rest), done)

  new_bag-Holds : (p : BlockPool) → p.size ≤ 32 → Holds (new_bag {A = A} p) []
  unfolding new_bag
  new_bag-Holds p h = (
    record { head_room = omega arith; full = tt; counted = refl; pool_fits = allocate_fits p h },
    refl,
  )
