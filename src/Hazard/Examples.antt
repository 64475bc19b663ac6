-- ===== src/Hazard/Examples.antt =====
-- One hazard pointer protects object 7 while the thread retires it and reclaims.
use smr_benchmark.Prelude.{if◌then◌else◌, ◌==◌, ℕ, ◌≡◌, refl, false, arith, ℕ_discrete}
use smr_benchmark.Hazard.{Guard, Move, System, pick_hazard, pick_thread, Reach, start, later}
use smr_benchmark.Hazard.Safety.{protected_not_freed, copies, one_retired_copy}

-- Link 0 leads to object 7, and every other link is null.
abbrev links : ℕ → ℕ
links l = if l == 0 then 7 else 0

guarded : (s : System) × Reach 1 1 links s
unfolding ℕ_discrete
guarded = (
  _,
  later
      (later (later start (pick_hazard 0 (omega arith) (Guard.protect_load 0)))
        (pick_hazard 0 (omega arith) Guard.protect_raw))
      (pick_hazard 0 (omega arith) (Guard.validate refl)),
)

retired : (s : System) × Reach 1 1 links s
unfolding guarded ℕ_discrete
retired = (
  _,
  later
      (later (later guarded.1 (pick_thread 0 (omega arith) (Move.store_link 0 0 refl)))
        (pick_thread 0 (omega arith) (Move.retire 7 (omega arith) refl (λ l. ground arith))))
      (pick_thread 0 (omega arith) Move.flush_retireds),
)

-- The slot is read, and object 7 is kept.
reclaimed : (s : System) × Reach 1 1 links s
unfolding retired guarded ℕ_discrete
reclaimed = (
  _,
  later
      (later
        (later (later retired.1 (pick_thread 0 (omega arith) Move.pop_all))
          (pick_thread 0 (omega arith) (Move.scan 0 (omega arith))))
        (pick_thread 0 (omega arith) (Move.scanned (λ k lt. ground arith))))
      (pick_thread 0 (omega arith) (Move.keep refl)),
)

protected_not_freed_example : reclaimed.0.mem.freed 7 ≡ false
unfolding reclaimed retired guarded
protected_not_freed_example = protected_not_freed 0 7 reclaimed.1 refl

one_retired_copy_example : copies 1 reclaimed.0 7 ≡ 1
one_retired_copy_example = one_retired_copy 7 reclaimed.1
