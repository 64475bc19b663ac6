-- ===== src/Stamp.antt =====
-- smrs/circ/src/smr/ebr.rs: the word of the counts under epochs, and the epochs of four bits that are
-- stamped on it.
pub mod Fields
pub mod Window
mod Examples
use smr_benchmark.Prelude.{
  ℕ, suc, ◌+◌, ◌-◌, ◌*◌, ◌/◌, ◌%◌, ◌^◌, Bool, true, false, not, ◌||◌, List, [], ◌∷◌, ltb, ◌==◌,
  if◌then◌else◌,
}
use smr_benchmark.Prelude.Int.{ℤ, pos, negsuc, pos_part, neg_part, leb_ℤ}

-- `State`, on a word of 64 bits: from the lowest, 29 bits of the strong count, 29 of the weak count,
-- WEAKED, DESTRUCTED, and 4 of the epoch
unfoldable pub epoch : ℕ → ℕ
epoch word = (word / 2 ^ 60) % 2 ^ 4

unfoldable pub strong : ℕ → ℕ
strong word = word % 2 ^ 29

unfoldable pub weak : ℕ → ℕ
weak word = (word / 2 ^ 29) % 2 ^ 29

unfoldable pub destructed : ℕ → Bool
destructed word = not ((word / 2 ^ 59) % 2 == 0)

unfoldable pub weaked : ℕ → Bool
weaked word = not ((word / 2 ^ 58) % 2 == 0)

unfoldable pub with_epoch : ℕ → ℕ → ℕ
with_epoch word epoch = word % 2 ^ 60 + (epoch % 2 ^ 4) * 2 ^ 60

unfoldable pub add_strong : ℕ → ℕ → ℕ
add_strong word val = (word + val) % 2 ^ 64

unfoldable pub sub_strong : ℕ → ℕ → ℕ
sub_strong word val = (word + 2 ^ 64 - val) % 2 ^ 64

unfoldable pub add_weak : ℕ → ℕ → ℕ
add_weak word val = (word + val * 2 ^ 29) % 2 ^ 64

unfoldable pub with_destructed : ℕ → Bool → ℕ
with_destructed word dest = word / 2 ^ 60 * 2 ^ 60 + (if dest then 2 ^ 59 else 0) + word % 2 ^ 59

unfoldable pub with_weaked : ℕ → Bool → ℕ
with_weaked word weaked = word / 2 ^ 59 * 2 ^ 59 + (if weaked then 2 ^ 58 else 0) + word % 2 ^ 58

-- The operations on the word of an object, while no other thread takes a step. `increment_strong`
-- returns whether there is a reference.
unfoldable pub increment_strong : ℕ → ℕ × Bool
increment_strong word =
    if destructed word
    then (add_strong word 1, false)
    else if strong word == 0
    then (add_strong (add_strong word 1) 1, true)
    else (add_strong word 1, true)

-- `decrement_strong` at the given timestamp, with whether it has hit zero, which defers
-- `try_destruct`
unfoldable pub decrement_strong : ℕ → ℕ → ℕ → ℕ × Bool
decrement_strong word count timestamp =
    (sub_strong (with_epoch word timestamp) count, strong word == count)

-- What `try_destruct` does: it gives one count back, with whether that has hit zero, or sets the flag
-- and disposes of the object.
pub data Destruction : Type 0 where
  gave_back : (hit_zero : Bool) → Destruction
  disposed : Destruction

unfoldable pub try_destruct : ℕ → ℕ → ℕ × Destruction
try_destruct word timestamp =
    if ltb 0 (strong word)
    then (let (word', hit_zero) = decrement_strong word 1 timestamp in (word', gave_back hit_zero))
    else (with_destructed word true, disposed)

unfoldable pub increment_weak : ℕ → ℕ → ℕ
increment_weak word count =
    if weaked word
    then (if weak word == 0 then add_weak (add_weak word count) 1 else add_weak word count)
    else add_weak (with_weaked word true) count

-- With whether it defers `try_dealloc`
unfoldable pub decrement_weak : ℕ → ℕ × Bool
decrement_weak word = ((word + 2 ^ 64 - 2 ^ 29) % 2 ^ 64, weak word == 1)

unfoldable pub non_zero : ℕ → ℕ × Bool
non_zero word =
    if destructed word
    then (word, false)
    else if strong word == 0
    then (add_strong word 1, true)
    else (word, true)

-- `isize`, whose bounds the epochs do not reach: `a - b` of two numbers, and `%`, which keeps the sign
abbrev pub of_sub : ℕ → ℕ → ℤ
of_sub a b = if ltb a b then negsuc (b - a - 1) else pos (a - b)

abbrev pub rem : ℤ → ℕ → ℤ
rem (pos n) m = pos (n % m)
rem (negsuc n) m = of_sub 0 (suc n % m)

-- `Modular` of the width of the epoch, by its `max`, which is positive where it is made
unfoldable pub trans : ℕ → ℤ → ℤ
trans max val = rem (of_sub (pos_part val) (neg_part val + suc max)) (2 ^ 4)

unfoldable pub inver : ℕ → ℤ → ℤ
inver max val = rem (of_sub (pos_part val + suc max) (neg_part val)) (2 ^ 4)

unfoldable pub le : ℕ → ℤ → ℤ → Bool
le max a b = leb_ℤ (trans max a) (trans max b)

-- The fold of `max` over its array; every element is greater than `isize::MIN`.
unfoldable pub max_from : ℕ → ℤ → List ℕ → ℤ
max_from max acc [] = acc
max_from max acc (val ∷ nums) =
    let next = trans max (pos (val % 2 ^ 4)) in
    max_from max (if leb_ℤ acc next then next else acc) nums

unfoldable pub modular_max : ℕ → ℕ → List ℕ → ℤ
modular_max max val nums = inver max (max_from max (trans max (pos (val % 2 ^ 4))) nums)

-- Whether `dispose_general_node` and `dispose_list` reclaim a node at once; the root, which is at depth
-- 0, they always do
unfoldable pub reclaims_now : Bool → ℕ → ℕ → Bool
reclaims_now is_root node_epoch curr_epoch =
    is_root || le (curr_epoch + 1) (pos node_epoch) (of_sub curr_epoch 3)

-- The word that a node leaves to the next when it is disposed of: one count less, and the latest of
-- three epochs
unfoldable pub release_next : ℕ → ℕ → ℕ → ℕ → ℕ
release_next curr_epoch node_epoch link_epoch word =
    let merged = modular_max (curr_epoch + 1) node_epoch (link_epoch ∷ epoch word ∷ []) in
    with_epoch (sub_strong word 1) (pos_part merged)
