-- ===== src/Ebr/Epoch/Distance.antt =====
-- epoch.rs: the distance of two epochs, across the wrap of the word.
use smr_benchmark.Prelude.{ℕ, zero, suc, ◌+◌, ◌*◌, ◌%◌, ◌^◌, ◌<◌, ◌≡◌, true, false, arith}
use smr_benchmark.Prelude.Int.{pos, negsuc}
use smr_benchmark.Ebr.Epoch.{
  Epoch, IsWord, is_pinned, pinned, unpinned, successor, value, wrapping_sub,
}

-- `n` calls of `successor`
unfoldable pub advance : ℕ → Epoch → Epoch
advance zero e = e
advance (suc n) e = successor (advance n e)

pub advance-bits : (n : ℕ) (e : Epoch) → IsWord e → (advance n e).bits ≡ (e.bits + 2 * n) % 2 ^ 64
unfolding advance successor
advance-bits zero e w = omega arith
advance-bits (suc n) e w = omega (arith, advance-bits n e w)

-- After fewer than 2^62 calls of `successor`, through the wrap of the word too, the distance from
-- the epoch at the start is the number of calls, and the distance back is its negation.
pub wrapping_sub-advance :
    (n : ℕ) (e : Epoch)
    → IsWord e
    → suc n < 2 ^ 62
    → (wrapping_sub (advance (suc n) e) e ≡ pos (suc n))
      × (wrapping_sub e (advance (suc n) e) ≡ negsuc n)
unfolding wrapping_sub
wrapping_sub-advance n e w h =
    (ground (arith, advance-bits (suc n) e w), ground (arith, advance-bits (suc n) e w))

-- On words, the flag of either epoch does not change the distance: the shift drops it, as the
-- comment in `wrapping_sub` says.
wrapping_sub_ignores_flags :
    (e f : Epoch)
    → IsWord e
    → IsWord f
    → (wrapping_sub (pinned e) f ≡ wrapping_sub (unpinned e) f)
      × (wrapping_sub e f ≡ wrapping_sub (unpinned e) (unpinned f))
      × (wrapping_sub e (pinned f) ≡ wrapping_sub e (unpinned f))
unfolding wrapping_sub pinned unpinned
wrapping_sub_ignores_flags e f we wf = (ground arith, ground arith, ground arith)

-- On words, pinning changes the flag alone: a pinned and an unpinned epoch have the same value, their
-- flags are as named, unpinning forgets the flag, and both are words again.
pinned_laws :
    (e : Epoch)
    → IsWord e
    → (is_pinned (pinned e) ≡ true)
      × (is_pinned (unpinned e) ≡ false)
      × (value (pinned e) ≡ value e)
      × (value (unpinned e) ≡ value e)
      × (unpinned (pinned e) ≡ unpinned e)
      × IsWord (pinned e)
      × IsWord (unpinned e)
unfolding is_pinned pinned unpinned value
pinned_laws e w = (
  ground arith,
  ground arith,
  ground arith,
  ground arith,
  ground arith,
  ground arith,
  ground arith,
)
