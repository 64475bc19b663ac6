-- ===== src/Vbr/Safety.antt =====
-- smrs/vbr/src/lib.rs: what every interleaving keeps of the slots.
use smr_benchmark.Prelude.{ℕ, suc, ◌≤◌, ◌<◌, ◌≡◌, ◌≢◌, refl, arith, inl, subst, ltb}
use smr_benchmark.Prelude.Counting.{bit, sum_below_zero}
use smr_benchmark.Vbr.{not_retired, VerPtr, panicked}
use smr_benchmark.Vbr.Runs.{new_global, no_thread, System, pick, Reach, start, later, bag_count}
use smr_benchmark.Vbr.Bags.{in_bags-new, Fit-new}
use smr_benchmark.Vbr.Invariant.{copies, At, Inv}
use smr_benchmark.Vbr.Moves.{Move-Inv}
use smr_benchmark.Vbr.Effects.{Move-Effect}

start-Inv :
    (threads cap capacity : ℕ) (link : ℕ → VerPtr)
    → Inv threads cap (new_global capacity cap link) (λ _. no_thread)
start-Inv threads cap capacity link = record {
  copied = λ x.
      let bags = in_bags-new (bag_count capacity cap) cap 0 x in
      let sum = sum_below_zero threads in ground (arith, bags, sum);
  guard_le = λ j. omega arith;
  retire_le = λ x. inl (omega arith);
  birth_le = λ x. omega arith;
  ordered = λ x h. omega arith;
  fit = Fit-new (bag_count capacity cap) cap 0;
  fit_local = λ j. (tt, tt);
  at = λ j. (refl, refl);
  apart = λ j k x e. absurd (ground (arith, e));
  outside = λ j ge. refl;
}

module _ {threads cap capacity : ℕ} (pos : 0 < cap) where
  pub Reach-Inv :
      {n : ℕ} {s : System}
      → Reach threads cap capacity n s
      → suc n < not_retired
      → Inv threads cap s.mem s.thread × (s.mem.epoch ≤ suc n)
  Reach-Inv (start link) small = (start-Inv threads cap capacity link, omega arith)
  Reach-Inv (later r (pick i lt mv)) small =
      let (v, le) = Reach-Inv r (omega (arith, small)) in
      let e = Move-Effect mv in
      (Move-Inv v i lt mv pos (omega (arith, le, small)), omega (arith, le, e.epoch_suc))

  -- In fewer than 2^64 - 2 steps, and with room in the bags: a slot that has been made is in exactly one
  -- place: once in one bag, in the hand of one thread, or allocated; any other is in none.
  pub one_place :
      {n : ℕ} {s : System} (x : ℕ)
      → Reach threads cap capacity n s
      → suc n < not_retired
      → copies threads s.mem s.thread x ≡ bit (ltb x s.mem.fresh)
  one_place x r small = (Reach-Inv r small).0.copied x

  -- In fewer than 2^64 - 2 steps, and with room in the bags, no thread panics: `return_avail` finds a
  -- bag, and the assertion in `allocate` holds.
  pub no_panic :
      {n : ℕ} {s : System} (i : ℕ)
      → Reach threads cap capacity n s
      → suc n < not_retired
      → (s.thread i).pc ≢ panicked
  no_panic {s = s} i r small e = subst (At cap s.mem (s.thread i)) e ((Reach-Inv r small).0.at i)
