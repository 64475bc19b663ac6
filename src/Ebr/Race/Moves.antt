-- ===== src/Ebr/Race/Moves.antt =====
-- internal.rs: the moves of a thread and the invariant.
use smr_benchmark.Prelude.{ℕ, suc, ◌^◌, ◌<◌, ◌≡◌, arith}
use smr_benchmark.Ebr.Race.{Shared, Pc, Thread, Move}
use smr_benchmark.Prelude.Family.{update}
use smr_benchmark.Ebr.Race.Invariant.{Inv}
use smr_benchmark.Ebr.Race.Pins.{Move-global, Move-own, Move-others, Move-scan, Move-under_guard}
use smr_benchmark.Ebr.Race.Bags.{
  Move-kept, Move-seals, Move-queued, Move-queued_unlinked, Move-queued_refs, Move-freed_unlinked,
  Move-safe,
}

module _ {n k c : ℕ} {m : Shared} {th : ℕ → Thread} (inv : Inv n k m th) (small : k < 2 ^ 60)
    (i : ℕ) (lt : i < n) where
  pub Move-Inv :
      {p : Pc} {m' : Shared} {t' : Thread}
      → Move n c (λ j. (th j).epoch) m (th i) p m' t'
      → (th i).pc ≡ p
      → Inv n (suc k) m' (update th i t')
  Move-Inv mv q = record {
    even = (Move-global inv small i lt mv q).0;
    bound = (Move-global inv small i lt mv q).1;
    fits = λ j. ground (arith, Move-own inv small i lt mv q, Move-others inv small i lt mv q j);
    absent = λ j h. ground (arith, inv.absent j h);
    scan = Move-scan inv small i lt mv q;
    under_guard = Move-under_guard inv small i lt mv q;
    kept = Move-kept inv small i lt mv q;
    seals = Move-seals inv small i lt mv q;
    queued = Move-queued inv small i lt mv q;
    queued_unlinked = Move-queued_unlinked inv small i lt mv q;
    queued_refs = Move-queued_refs inv small i lt mv q;
    freed_unlinked = Move-freed_unlinked inv small i lt mv q;
    safe = Move-safe inv small i lt mv q;
  }
