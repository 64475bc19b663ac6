-- ===== src/Hazard/Safety.antt =====
-- Hazard pointers: the states that the threads reach, and where each object is in them.
use smr_benchmark.Prelude.{ℕ, ◌+◌, ◌≤◌, ◌≡◌, false, not, refl, arith}
use smr_benchmark.Prelude.Counting.{
  bit, count, count-append, count-concat, sum_below, sum_below-update, sum_below-le, sum_below_zero,
}
use smr_benchmark.Hazard.{
  Memory, Hazard, protected, Phase, working, scanning, sweeping, Thread, concat, Guard, Move,
  retire, flush_retireds, keep, swept, System, pick_hazard, pick_thread, Reach, start, later,
}
use smr_benchmark.Hazard.Invariant.{Inv}
use smr_benchmark.Hazard.Moves.{Guard-Inv, Move-Inv}

module _ {n c : ℕ} {link : ℕ → ℕ} where
  Reach-Inv : {s : System} → Reach n c link s → Inv n s.mem s.hazard s.thread
  Reach-Inv start = record {
    null_stays = refl;
    linked = λ l. refl;
    in_hand = λ r o h. ground arith;
    pooled = λ o h. ground arith;
    freed_gone = λ o h. ground arith;
    fits = λ i. tt;
    absent = λ i le. refl;
    spares = λ i r p e. tt;
    safe = λ i p e. refl;
  }
  Reach-Inv (later r (pick_hazard i lt g)) = Guard-Inv (Reach-Inv r) i g lt refl
  Reach-Inv (later r (pick_thread i lt mv)) = Move-Inv (Reach-Inv r) i mv refl

  -- In every state that the threads reach, an object that a hazard pointer protects, by `protect` and
  -- until it is reset or used for another, has not been freed, retired or not.
  pub protected_not_freed :
      {s : System} (i o : ℕ) → Reach n c link s → s.hazard i ≡ protected o → s.mem.freed o ≡ false
  protected_not_freed i o r e = (Reach-Inv r).safe i o e

  -- No link of the data structures leads to an object that has been freed.
  links_not_freed : {s : System} (l : ℕ) → Reach n c link s → s.mem.freed (s.mem.link l) ≡ false
  links_not_freed {s} l r =
      ground (arith, (Reach-Inv r).linked l, (Reach-Inv r).freed_gone (s.mem.link l))

-- How often a thread has a retired object in hand
abbrev pub count_hand : ℕ → Thread → ℕ
count_hand o t = count t.retired o + (elim t.phase [
  | working ↦ 0
  | scanning batch _ _ ↦ count batch o
  | sweeping rest _ not_freed ↦ count rest o + count not_freed o
])

-- The copies of an object outside the threads: one while it is not retired
abbrev pub count_memory : ℕ → Memory → ℕ
count_memory o m = bit (not (m.gone o)) + count (concat m.retireds) o + bit (m.freed o)

abbrev pub copies : ℕ → System → ℕ → ℕ
copies c s o = count_memory o s.mem + sum_below c (λ r. count_hand o (s.thread r))

Guard-copies :
    {i : ℕ} {m : Memory} {h : Hazard} {m' : Memory} {h' : Hazard} (o : ℕ)
    → Guard m i h m' h'
    → count_memory o m' ≡ count_memory o m
Guard-copies o (Guard.protect_load src) = refl
Guard-copies o g = refl

Move-copies :
    {n : ℕ} {m : Memory} {t : Thread} {p : Phase} {m' : Memory} {t' : Thread} (o : ℕ)
    → Move n m t p m' t'
    → t.phase ≡ p
    → count_memory o m + count_hand o t ≤ 1
    → count_memory o m' + count_hand o t' ≡ count_memory o m + count_hand o t
Move-copies {t} o (retire x g h f) q le = ground (arith, h, count-append t.retired x o)
Move-copies {m} {t} o flush_retireds q le =
    ground (arith, count-concat t.retired (concat m.retireds) o)
Move-copies {m} o (swept {not_freed = xs}) q le =
    ground (arith, count-concat xs (concat m.retireds) o)
Move-copies o (keep {o = x} {not_freed = xs} g) q le = ground (arith, count-append xs x o)
Move-copies o mv q le = ground arith

-- Of every object there is in every state exactly one copy: it is not retired, or in the retired list
-- of one thread, or in one batch of the domain, or in the hands of one thread that reclaims, or freed.
-- So none is lost, and none is freed twice.
pub one_retired_copy :
    {n c : ℕ} {link : ℕ → ℕ} {s : System} (o : ℕ) → Reach n c link s → copies c s o ≡ 1
one_retired_copy {c} o start = omega (arith, sum_below_zero c)
one_retired_copy o (later r (pick_hazard i lt g)) =
    omega (arith, one_retired_copy o r, Guard-copies o g)
one_retired_copy {c} o (later {s} r (pick_thread i {t} lt mv)) =
    let ih = one_retired_copy o r in
    let sums = sum_below-update (count_hand o) s.thread i t c lt in
    let one = sum_below-le (count_hand o) s.thread i c lt in
    omega (arith, ih, sums, one, Move-copies o mv refl (omega (arith, ih, one)))
