-- ===== src/Stamp/Fields.antt =====
-- ebr.rs: the fields of the word.
use smr_benchmark.Prelude.{
  ℕ, ◌+◌, ◌-◌, ◌%◌, ◌^◌, ◌≤◌, ◌<◌, ◌≡◌, true, false, ◌&&◌, ◌==◌, if◌then◌else◌, arith,
}
use smr_benchmark.Stamp.{
  epoch, strong, weak, destructed, weaked, with_epoch, add_strong, sub_strong, with_destructed,
  decrement_strong, increment_strong, increment_weak, add_weak, with_weaked, try_destruct, non_zero,
  gave_back, disposed,
}

-- On a word with enough counts, `decrement_strong` takes the counts from the strong count, stamps the
-- lowest four bits of the timestamp, and leaves the weak count and both flags; it says whether the
-- strong count is 0.
decrement_strong_lem :
    (word count timestamp : ℕ)
    → word < 2 ^ 64
    → count ≤ strong word
    → (strong (decrement_strong word count timestamp).0 ≡ strong word - count)
      × (weak (decrement_strong word count timestamp).0 ≡ weak word)
      × (weaked (decrement_strong word count timestamp).0 ≡ weaked word)
      × (destructed (decrement_strong word count timestamp).0 ≡ destructed word)
      × (epoch (decrement_strong word count timestamp).0 ≡ timestamp % 2 ^ 4)
      × ((decrement_strong word count timestamp).1
          ≡ (strong (decrement_strong word count timestamp).0 == 0))
unfolding decrement_strong sub_strong with_epoch strong weak weaked destructed epoch
decrement_strong_lem word count timestamp h le =
    (omega arith, omega arith, ground arith, ground arith, omega arith, ground arith)

-- On a word with enough room, `increment_weak` adds the count to the weak count, and one more where the
-- flag was set and the weak count 0; it sets the flag, and leaves the strong count, the epoch and the
-- other flag.
increment_weak_lem :
    (word count : ℕ)
    → word < 2 ^ 64
    → weak word + count + 1 < 2 ^ 29
    → (weak (increment_weak word count)
        ≡ weak word + count + (if weaked word && (weak word == 0) then 1 else 0))
      × (weaked (increment_weak word count) ≡ true)
      × (strong (increment_weak word count) ≡ strong word)
      × (epoch (increment_weak word count) ≡ epoch word)
      × (destructed (increment_weak word count) ≡ destructed word)
unfolding increment_weak add_weak with_weaked strong weak weaked destructed epoch
increment_weak_lem word count h room =
    (ground arith, ground arith, ground arith, ground arith, ground arith)

-- A reference is taken while the count is 0 and the object not destructed: the deferred `try_destruct`
-- that follows gives back the second count and does not hit zero, so one count is left, and the object
-- is not destructed.
increment_strong-try_destruct :
    (word timestamp : ℕ)
    → word < 2 ^ 64
    → strong word ≡ 0
    → destructed word ≡ false
    → ((increment_strong word).1 ≡ true)
      × ((try_destruct (increment_strong word).0 timestamp).1 ≡ gave_back false)
      × (strong (try_destruct (increment_strong word).0 timestamp).0 ≡ 1)
      × (destructed (try_destruct (increment_strong word).0 timestamp).0 ≡ false)
unfolding increment_strong try_destruct decrement_strong add_strong sub_strong with_epoch strong
    destructed
increment_strong-try_destruct word timestamp h zero alive =
    (ground arith, ground arith, ground arith, ground arith)

-- Once `try_destruct` has found the count to be 0, no `increment_strong` and no `non_zero` returns that
-- there is a reference, though the first leaves a count.
try_destruct-increment_strong :
    (word timestamp : ℕ)
    → word < 2 ^ 64
    → strong word ≡ 0
    → ((try_destruct word timestamp).1 ≡ disposed)
      × ((increment_strong (try_destruct word timestamp).0).1 ≡ false)
      × ((non_zero (try_destruct word timestamp).0).1 ≡ false)
      × ((non_zero (increment_strong (try_destruct word timestamp).0).0).1 ≡ false)
unfolding increment_strong try_destruct non_zero with_destructed add_strong strong destructed
try_destruct-increment_strong word timestamp h zero =
    (ground arith, ground arith, ground arith, ground arith)
