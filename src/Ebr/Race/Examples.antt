-- ===== src/Ebr/Race/Examples.antt =====
-- A run of two threads: thread 0 reads object 7, thread 1 unlinks it and hands it over.
use smr_benchmark.Prelude.{
  ℕ, ◌+◌, ◌≡◌, refl, Bool, true, false, ◌⊎◌, inl, [], ◌∷◌, none, arith, ℕ_discrete,
}
use smr_benchmark.Ebr.Epoch.{starting, pinned, unpinned, is_pinned, value}
use smr_benchmark.Ebr.Bag.{SealedBag, new_bag, seal}
use smr_benchmark.Ebr.Race.{System, pick, Reach, start, later, Move, blocks}
use smr_benchmark.Ebr.Race.Safety.{no_use_after_free, epoch_skew, referenced_bag_is_recent}
use smr_benchmark.Ebr.Race.Progress.{Steps, try_advance_succeeds}
use smr_benchmark.Ebr.Race.Garbage.{one_copy, no_double_free, copies}
use smr_benchmark.Prelude.Counting.{count}

abbrev all_linked : ℕ → Bool
all_linked _ = true

retired : (s : System) × Reach 2 4 all_linked 11 s
unfolding ℕ_discrete starting pinned unpinned value new_bag seal
retired = (
  _,
  later
      (later
        (later
          (later
            (later
              (later
                (later
                  (later
                    (later
                      (later (later start (pick 0 (omega arith) Move.pin_load))
                        (pick 0 (omega arith) Move.pin_publish))
                      (pick 0 (omega arith) (Move.pin_valid refl)))
                    (pick 0 (omega arith) (Move.acquire 7 refl)))
                  (pick 1 (omega arith) Move.pin_load))
                (pick 1 (omega arith) Move.pin_publish))
              (pick 1 (omega arith) (Move.pin_valid refl)))
            (pick 1 (omega arith) (Move.unlink 7 refl)))
          (pick 1 (omega arith) (Move.defer_push refl)))
        (pick 1 (omega arith) Move.seal_load))
      (pick 1 (omega arith) Move.seal_push),
)

-- Thread 1 has then found both locals at the global epoch.
storing_state : (s : System) × Reach 2 4 all_linked 15 s
unfolding retired ℕ_discrete blocks is_pinned
storing_state = (
  _,
  later
      (later
        (later (later retired.1 (pick 1 (omega arith) Move.advance_load))
          (pick 1 (omega arith) (Move.advance_next (omega arith) refl)))
        (pick 1 (omega arith) (Move.advance_next (omega arith) refl)))
      (pick 1 (omega arith) (Move.advance_done refl)),
)

no_use_after_free_example : retired.0.mem.freed 7 ≡ false
unfolding retired
no_use_after_free_example = no_use_after_free (omega arith) retired.1 0 7 refl

epoch_skew_example :
    (value retired.0.mem.global ≡ value (retired.0.thread 0).epoch)
    ⊎ (value retired.0.mem.global ≡ value (retired.0.thread 0).epoch + 1)
unfolding retired
epoch_skew_example = epoch_skew (omega arith) retired.1 0 refl

sealed : SealedBag ℕ
unfolding starting
sealed = record { epoch = starting; bag = record { deferreds = 7 ∷ []; capacity = 4 } }

referenced_bag_is_recent_example :
    (value retired.0.mem.global ≡ value sealed.epoch)
    ⊎ (value retired.0.mem.global ≡ value sealed.epoch + 1)
unfolding retired sealed
referenced_bag_is_recent_example =
    referenced_bag_is_recent (omega arith) retired.1 sealed 0 7 (inl refl) refl refl

try_advance_succeeds_example :
    (d : ℕ) × (t : System) × (d ≡ 5)
    × Steps 2 4 retired.0 d t
    × (value t.mem.global ≡ value retired.0.mem.global + 1)
unfolding retired starting pinned
try_advance_succeeds_example =
    try_advance_succeeds {i = 1} none retired.0 (omega arith) retired.1 (omega arith) refl
      (λ j h. ground arith)

one_copy_example : copies 2 retired.0 7 ≡ 1
one_copy_example = one_copy 7 retired.1

no_double_free_example :
    (retired.0.mem.freed 7 ≡ false)
    × (count sealed.bag.deferreds 7 ≡ 1)
    × (retired.0.mem.linked 7 ≡ false)
unfolding retired sealed
no_double_free_example = no_double_free sealed 7 retired.1 (inl refl) refl
