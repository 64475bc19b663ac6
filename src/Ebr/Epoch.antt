-- ===== src/Ebr/Epoch.antt =====
-- smrs/circ/src/smr/ebr_impl/epoch.rs: an epoch and its pinned flag in one machine word, and the
-- atomic cell that holds it.
pub mod Distance
mod Examples
use smr_benchmark.Prelude.{ℕ, ◌+◌, ◌-◌, ◌*◌, ◌/◌, ◌%◌, ◌^◌, ◌<◌, Bool, ltb, ◌==◌, if◌then◌else◌}
use smr_benchmark.Prelude.Int.{ℤ, pos, negsuc}

-- `usize::wrapping_add` and `usize::wrapping_sub` on 64 bits
abbrev pub wrapping_add_usize : ℕ → ℕ → ℕ
wrapping_add_usize a b = (a + b) % 2 ^ 64

abbrev pub wrapping_sub_usize : ℕ → ℕ → ℕ
wrapping_sub_usize a b = (a + 2 ^ 64 - b) % 2 ^ 64

-- `word as isize >> 1`, the shift that keeps the sign
abbrev pub shr_isize : ℕ → ℤ
shr_isize w = if ltb w (2 ^ 63) then pos (w / 2) else negsuc ((2 ^ 64 - w - 1) / 2)

-- The least significant bit is the pinned flag; the rest is the epoch.
pub record Epoch : Type 0 where
  pub bits : ℕ

-- The field is a `usize`.
abbrev pub IsWord : Epoch → Type 0
IsWord e = e.bits < 2 ^ 64

unfoldable pub starting : Epoch
starting = record { bits = 0 }

-- `& !1` is `/ 2 * 2`, `& 1` is `% 2`, `| 1` is `/ 2 * 2 + 1`.
unfoldable pub is_pinned : Epoch → Bool
is_pinned e = e.bits % 2 == 1

unfoldable pub pinned : Epoch → Epoch
pinned e = record { bits = e.bits / 2 * 2 + 1 }

unfoldable pub unpinned : Epoch → Epoch
unpinned e = record { bits = e.bits / 2 * 2 }

unfoldable pub successor : Epoch → Epoch
successor e = record { bits = wrapping_add_usize e.bits 2 }

unfoldable pub value : Epoch → ℕ
unfolding unpinned
value e = (unpinned e).bits / 2

-- How many epochs `e` is ahead of `rhs`.
unfoldable pub wrapping_sub : Epoch → Epoch → ℤ
wrapping_sub e rhs = shr_isize (wrapping_sub_usize e.bits (rhs.bits / 2 * 2))

-- `==` on epochs, derived from the word
unfoldable pub epoch_eq : Epoch → Epoch → Bool
epoch_eq e f = e.bits == f.bits
