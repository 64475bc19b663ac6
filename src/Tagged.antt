-- ===== src/Tagged.antt =====
-- smrs/circ/src/utils.rs: `Tagged`, a pointer with a tag in the low bits that its alignment leaves
-- free, and a second tag in the four high bits.
pub mod Parts
pub mod Laws
mod Examples
use smr_benchmark.Prelude.{ℕ, ◌+◌, ◌*◌, ◌/◌, ◌%◌, ◌^◌, ◌<◌, Bool, ◌==◌}

-- The machine word; a raw pointer is such a word with both tags 0.
pub record Tagged : Type 0 where
  pub bits : ℕ

-- A word has 64 bits.
abbrev pub IsWord : Tagged → Type 0
IsWord p = p.bits < 2 ^ 64

abbrev pub high_tag_width : ℕ
high_tag_width = 4

abbrev pub high_bits_pos : ℕ
high_bits_pos = 60

-- `ptr & !low_bits` is `/ align * align`, `& low_bits` is `% align`, as the alignment of a type is a
-- power of two; `& !high_bits` is `% 2 ^ 60`, and the high bits are shifted down by `/ 2 ^ 60`.
unfoldable pub high_tag : Tagged → ℕ
high_tag p = p.bits / 2 ^ high_bits_pos % 2 ^ high_tag_width

unfoldable pub with_high_tag : Tagged → ℕ → Tagged
with_high_tag p tag = record {
  bits = p.bits % 2 ^ high_bits_pos + tag % 2 ^ high_tag_width * 2 ^ high_bits_pos;
}

-- `==`
unfoldable pub tagged_eq : Tagged → Tagged → Bool
unfolding with_high_tag
tagged_eq p q = (with_high_tag p 0).bits == (with_high_tag q 0).bits

-- What `Hash` gives to the hasher
unfoldable pub hash_input : Tagged → ℕ
hash_input p = p.bits

module _ (align : ℕ) where
  unfoldable pub tag : Tagged → ℕ
  tag p = p.bits % align

  unfoldable pub as_raw : Tagged → Tagged
  as_raw p = record { bits = p.bits / align * align % 2 ^ high_bits_pos }

  unfoldable pub is_null : Tagged → Bool
  unfolding as_raw
  is_null p = (as_raw p).bits == 0

  unfoldable pub with_tag : Tagged → ℕ → Tagged
  with_tag p tag = record { bits = p.bits / align * align + tag % align }
