-- ===== src/Hazard/Local/Examples.antt =====
-- hp-pp: one thread, on concrete states.
use smr_benchmark.Prelude.{
  ℕ, ◌+◌, ◌≤◌, ◌≡◌, refl, [], ◌∷◌, some, none, ltb, ◌==◌, ◌⊎◌, if◌then◌else◌, arith, ℕ_discrete,
}
use smr_benchmark.Prelude.Counting.{bit, count}
use smr_benchmark.Hazard.{concat}
use smr_benchmark.Hazard.Local.{
  Domain, Thread, collect_guarded_ptrs, do_reclamation, grow_array, grow_array_with, with_index,
  reset_head, push_retired, retire, acquire, reclaim_when_due, flush_when_due, flush_retireds,
  reclaim, clear_epoched, drop_hazards, drop_hazard, split_guarded, set_counts_between_flush,
}
use smr_benchmark.Hazard.Local.Depth.{retire-suc}
use smr_benchmark.Hazard.Local.Slots.{owners, acquire_lem}

-- A domain where another thread protects node 7
abbrev domain : Domain
domain = record {
  barrier = 2;
  retireds = (5 ∷ 7 ∷ []) ∷ [];
  num_garbages = 2;
  counts_between_flush = 2;
  other_hazards = 7 ∷ [];
  invalidated = [];
  freed = [];
}

-- A thread with two slots, both taken, the first of them by an epoch
abbrev thread : Thread
thread = record {
  domain = domain;
  array = 100;
  fresh = 101;
  size = 2;
  slot = λ i. if i == 0 then 5 else if i == 1 then 9 else 0;
  available_indices = [];
  epoched_hps = (1, 0 ∷ []) ∷ [];
  unlinkeds = record { ptrs = 11 ∷ []; hps = [] } ∷ [];
  retired = 13 ∷ [];
  count = 3;
}

-- The epoch lets its slot go, so node 5 is freed; node 7 stays.
reclaimed : (do_reclamation (retire 0) thread).domain.freed ≡ 5 ∷ []
unfolding do_reclamation reclaim clear_epoched drop_hazards drop_hazard split_guarded
    collect_guarded_ptrs reset_head with_index ℕ_discrete
reclaimed = refl

kept : concat (do_reclamation (retire 0) thread).domain.retireds ≡ 7 ∷ []
unfolding do_reclamation reclaim clear_epoched drop_hazards drop_hazard split_guarded
    collect_guarded_ptrs reset_head with_index ℕ_discrete
kept = refl

-- The fourth event flushes, and reclaims too.
retired_flushed : concat (retire 1 15 thread).domain.retireds ≡ 7 ∷ []
unfolding retire reclaim_when_due flush_when_due flush_retireds do_reclamation reclaim clear_epoched
    drop_hazards drop_hazard split_guarded collect_guarded_ptrs reset_head with_index push_retired
    ℕ_discrete
retired_flushed = refl

retired_freed : (retire 1 15 thread).domain.freed ≡ 13 ∷ 15 ∷ 5 ∷ []
unfolding retire reclaim_when_due flush_when_due flush_retireds do_reclamation reclaim clear_epoched
    drop_hazards drop_hazard split_guarded collect_guarded_ptrs reset_head with_index push_retired
    ℕ_discrete
retired_freed = refl

-- With no epoch to let a slot go, the array grows, at the fourth event, and again for the scan.
abbrev crowded : Thread
crowded = record thread { epoched_hps = [] }

grown_twice :
    ((grow_array 1 crowded).size ≡ 8)
    × ((grow_array 1 crowded).available_indices ≡ 3 ∷ 2 ∷ 7 ∷ 6 ∷ 5 ∷ 4 ∷ [])
unfolding grow_array grow_array_with with_index retire push_retired reclaim_when_due flush_when_due
    flush_retireds do_reclamation reclaim clear_epoched drop_hazards drop_hazard split_guarded
    collect_guarded_ptrs reset_head ℕ_discrete
grown_twice = (refl, refl)

-- With the fourth event counted
abbrev after_fourth : Thread
after_fourth = record thread { count = 4 }

refused : set_counts_between_flush 3 domain ≡ none
unfolding set_counts_between_flush
refused = refl

-- No slot is free: the array grows twice, and the hazard pointer on slot 1 stays.
acquire_lem_example :
    (u : Thread) × (idx : ℕ) × (acquire 1 crowded ≡ some (u, idx))
    × (owners 1 u + bit (idx == 1) + 1 ≤ bit (ltb 1 u.size))
    × (2 ≤ u.size)
    × (◌≡◌ {A = ℕ} 1 0 ⊎ (u.slot 1 ≡ 9))
acquire_lem_example = acquire_lem 1 1 1 crowded (omega arith) (omega arith)

retire-suc_example : retire 5 15 crowded ≡ retire 1 15 crowded
retire-suc_example = retire-suc 4 15 crowded (omega arith)
