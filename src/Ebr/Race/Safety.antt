-- ===== src/Ebr/Race/Safety.antt =====
-- internal.rs: the states that the threads can reach.
use smr_benchmark.Prelude.{ℕ, suc, ◌+◌, ◌^◌, ◌<◌, ◌≡◌, refl, Bool, true, false, ◌⊎◌, Option, arith}
use smr_benchmark.Prelude.Counting.{contains}
use smr_benchmark.Ebr.Epoch.{Epoch, starting, successor, value}
use smr_benchmark.Ebr.Bag.{SealedBag, new_bag}
use smr_benchmark.Ebr.Race.{storing, System, Step, pick, Reach, start, later, init}
use smr_benchmark.Ebr.Race.Invariant.{guarded, In, Inv}
use smr_benchmark.Ebr.Race.Pins.{Move-global}
use smr_benchmark.Ebr.Race.Moves.{Move-Inv}

Inv-init : (n c : ℕ) (linked : ℕ → Bool) → Inv n 0 (init c linked).mem (init c linked).thread
unfolding starting new_bag
Inv-init n c linked = record {
  even = omega arith;
  bound = omega arith;
  fits = λ i. refl;
  absent = λ j h. refl;
  scan = λ i j h. omega arith;
  under_guard = λ j o h. ground arith;
  kept = λ i o h. ground arith;
  seals = λ i j o h r. tt;
  queued = λ b h. absurd h;
  queued_unlinked = λ b o h r. absurd h;
  queued_refs = λ b j o h r g. absurd h;
  freed_unlinked = λ o h. ground arith;
  safe = λ j o h. refl;
}

Step-Inv :
    {n c k : ℕ} {s t : System}
    → k < 2 ^ 60
    → Step n c s t
    → Inv n k s.mem s.thread
    → Inv n (suc k) t.mem t.thread
Step-Inv small (pick i lt mv) inv = Move-Inv inv small i lt mv refl

module _ {n c : ℕ} {linked : ℕ → Bool} where
  pub Reach-Inv : {k : ℕ} {s : System} → k < 2 ^ 60 → Reach n c linked k s → Inv n k s.mem s.thread
  Reach-Inv small start = Inv-init n c linked
  Reach-Inv small (later r st) = Step-Inv (omega arith) st (Reach-Inv (omega arith) r)

  module _ {k : ℕ} {s : System} (small : k < 2 ^ 60) (r : Reach n c linked k s) where
    -- In every state that any number of threads reach in fewer than 2^60 steps, an object to which
    -- a thread holds a reference from its current guard has not been destroyed.
    pub no_use_after_free : (j o : ℕ) → (s.thread j).refs o ≡ true → s.mem.freed o ≡ false
    no_use_after_free j o h = ground (arith, (Reach-Inv small r).safe j o)

    -- A thread that holds a validated guard sees the global epoch at its own epoch, or one ahead.
    pub epoch_skew :
        (j : ℕ)
        → guarded (s.thread j).pc ≡ true
        → (value s.mem.global ≡ value (s.thread j).epoch)
          ⊎ (value s.mem.global ≡ value (s.thread j).epoch + 1)
    unfolding value
    epoch_skew j h = ground (arith, (Reach-Inv small r).fits j, (Reach-Inv small r).even)

    -- Where `try_advance` stores the successor of the epoch that it has read, the global epoch is
    -- still that epoch, or is that successor already: the store skips no epoch, and undoes none.
    advance_overwrites :
        (i : ℕ) (e : Epoch) (next : Option ℕ)
        → i < n
        → (s.thread i).pc ≡ storing e next
        → (s.mem.global ≡ e) ⊎ (s.mem.global ≡ successor e)
    unfolding successor
    advance_overwrites i e next lt h = ground (
      arith,
      (Reach-Inv small r).fits i,
      (Reach-Inv small r).scan i i,
      (Reach-Inv small r).even,
      (Reach-Inv small r).bound,
    )

    -- A bag of the queue that holds an object to which some thread has a reference was sealed at
    -- the current global epoch or at the one before: no bag further behind is referred to.
    pub referenced_bag_is_recent :
        (b : SealedBag ℕ) (j o : ℕ)
        → In b s.mem.queue
        → contains b.bag.deferreds o ≡ true
        → (s.thread j).refs o ≡ true
        → (value s.mem.global ≡ value b.epoch) ⊎ (value s.mem.global ≡ value b.epoch + 1)
    unfolding value
    referenced_bag_is_recent b j o h g f = ground (
      arith,
      (Reach-Inv small r).queued b h,
      (Reach-Inv small r).queued_refs b j o h g f,
      (Reach-Inv small r).under_guard j o f,
      (Reach-Inv small r).fits j,
      (Reach-Inv small r).even,
    )

    -- A step leaves the global epoch, or replaces it by its successor.
    Step-global :
        {t : System}
        → Step n c s t
        → (t.mem.global ≡ s.mem.global) ⊎ (t.mem.global ≡ successor s.mem.global)
    unfolding successor
    Step-global (pick i lt mv) = ground (
      arith,
      Move-global (Reach-Inv small r) small i lt mv refl,
      (Reach-Inv small r).even,
      (Reach-Inv small r).bound,
    )
