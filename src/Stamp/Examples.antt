-- ===== src/Stamp/Examples.antt =====
-- ebr.rs: words and stamps of concrete objects.
use smr_benchmark.Prelude.{
  ℕ, ◌+◌, ◌*◌, ◌%◌, ◌^◌, ◌≤◌, ◌≡◌, refl, Bool, true, false, ◌||◌, ◌⊎◌, leb, arith,
}
use smr_benchmark.Stamp.{le, trans, reclaims_now}
use smr_benchmark.Stamp.Window.{reclaims_now-behind, reclaims_now_lem}

-- Two strong counts, one weak count, stamped with epoch 14
abbrev word : ℕ
word = 2 + 2 ^ 29 + 14 * 2 ^ 60

-- A stamp that is 16 epochs behind the next but one is not reclaimed at once, unless it is that of the root.
too_old : reclaims_now false (4 % 2 ^ 4) 18 ≡ false
unfolding reclaims_now le trans
too_old = refl

old_root : reclaims_now true (4 % 2 ^ 4) 18 ≡ true
unfolding reclaims_now
old_root = refl

-- The stamp of epoch 15 is 15, that of the current one 2.
reclaims_now-behind_example : ◌≡◌ {A = Bool} false true ⊎ (15 + 3 ≤ 18)
unfolding reclaims_now le trans
reclaims_now-behind_example = reclaims_now-behind false 15 18 (omega arith) refl

reclaims_now_lem_example : reclaims_now false (15 % 2 ^ 4) 17 ≡ (false || leb (15 + 3) 17)
reclaims_now_lem_example = reclaims_now_lem false 15 17 (omega arith) (omega arith)
