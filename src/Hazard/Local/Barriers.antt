-- ===== src/Hazard/Local/Barriers.antt =====
-- hp-pp: the epochs of `EpochBarrier`, which wrap.
use smr_benchmark.Prelude.{ℕ, zero, suc, ◌+◌, ◌%◌, ◌^◌, ◌<◌, ◌≡◌, leb, arith}
use smr_benchmark.Hazard.Local.{check, barrier}

-- The number of barriers after which `check` lets the hazard pointers of an epoch go is two, through
-- the wrap of the word.
unfoldable barriers : ℕ → ℕ → ℕ
unfolding barrier
barriers zero e = e
barriers (suc k) e = barrier (barriers k e)

barriers_eq : (k e : ℕ) → e < 2 ^ 64 → barriers k e ≡ (e + k) % 2 ^ 64
unfolding barriers barrier
barriers_eq zero e h = omega arith
barriers_eq (suc k) e h = omega (arith, barriers_eq k e h)

-- After fewer than 2^64 calls of `barrier` from a word, through its wrap too, `check` accepts the epoch
-- at the start when the calls were at least two.
check-barriers : (k e : ℕ) → e < 2 ^ 64 → k < 2 ^ 64 → check e (barriers k e) ≡ leb 2 k
unfolding check
check-barriers k e h b = ground (arith, barriers_eq k e h)
