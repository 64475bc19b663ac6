-- ===== src/Ebr/Epoch/Examples.antt =====
-- Epochs at the wrap of the word.
use smr_benchmark.Prelude.{◌-◌, ◌^◌, ◌≡◌, arith}
use smr_benchmark.Prelude.Int.{pos, negsuc}
use smr_benchmark.Ebr.Epoch.{Epoch, wrapping_sub}
use smr_benchmark.Ebr.Epoch.Distance.{advance, wrapping_sub-advance}

-- The last epoch before the wrap, pinned
abbrev last : Epoch
last = record { bits = 2 ^ 64 - 1 }

abbrev first : Epoch
first = record { bits = 4 }

wrapping_sub-advance_example :
    (wrapping_sub (advance 3 last) last ≡ pos 3) × (wrapping_sub last (advance 3 last) ≡ negsuc 2)
wrapping_sub-advance_example = wrapping_sub-advance 2 last (omega arith) (omega arith)
