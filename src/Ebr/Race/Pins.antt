-- ===== src/Ebr/Race/Pins.antt =====
-- internal.rs: the epochs in the invariant, under the moves of `pin`, `try_advance` and
-- `repin_without_collect`.
use smr_benchmark.Prelude.{ℕ, suc, ◌+◌, ◌*◌, ◌%◌, ◌^◌, ◌≤◌, ◌<◌, ◌≡◌, true, arith}
use smr_benchmark.Ebr.Epoch.{starting, is_pinned, pinned, unpinned, successor, value, epoch_eq}
use smr_benchmark.Ebr.Race.{Shared, Pc, idle, Thread, blocks, Move, pin_load, advance_store}
use smr_benchmark.Prelude.Family.{update}
use smr_benchmark.Ebr.Race.Invariant.{guarded, passed, Fits, Inv}
use smr_benchmark.Ebr.Race.Guards.{guard}

-- The global epoch may rise to `g'` if no guarded thread falls behind by more than one epoch.
Fits-rise :
    (g g' e : ℕ) (p : Pc) → Fits g p e → g ≤ g' → (guarded p ≡ true → g' ≤ e + 1) → Fits g' p e
Fits-rise g g' e idle f le h = f
Fits-rise g g' e p f le h = ground arith

module _ {n k c : ℕ} {m : Shared} {th : ℕ → Thread} (inv : Inv n k m th) (small : k < 2 ^ 60)
    (i : ℕ) (lt : i < n) where
  open inv use {
    even, bound, fits, absent, scan, under_guard, kept, seals, queued, queued_unlinked, queued_refs,
    freed_unlinked, safe,
  }

  -- The global epoch is even, moves by at most one epoch, and never backwards.
  pub Move-global :
      {p : Pc} {m' : Shared} {t' : Thread}
      → Move n c (λ j. (th j).epoch) m (th i) p m' t'
      → (th i).pc ≡ p
      → (m'.global.bits % 2 ≡ 0)
        × (m'.global.bits ≤ 2 * suc k)
        × (m.global.bits ≤ m'.global.bits)
        × (m'.global.bits ≤ m.global.bits + 2)
  unfolding successor
  Move-global pin_load q = omega arith
  Move-global mv q = ground (arith, guard mv, fits i, scan i i)

  pub Move-own :
      {p : Pc} {m' : Shared} {t' : Thread}
      → Move n c (λ j. (th j).epoch) m (th i) p m' t'
      → (th i).pc ≡ p
      → Fits m'.global.bits t'.pc t'.epoch.bits
  unfolding successor starting pinned value unpinned epoch_eq
  Move-own pin_load q = ground (arith, fits i)
  Move-own mv q = ground (arith, guard mv, fits i, scan i i)

  pub Move-others :
      {p : Pc} {m' : Shared} {t' : Thread}
      → Move n c (λ j. (th j).epoch) m (th i) p m' t'
      → (th i).pc ≡ p
      → (j : ℕ) → Fits m'.global.bits (th j).pc (th j).epoch.bits
  unfolding successor
  Move-others pin_load q j = fits j
  Move-others (advance_store {e}) q j =
      Fits-rise m.global.bits (successor e).bits _ (th j).pc (fits j)
        (ground (arith, fits i, scan i i))
        (λ h. ground (arith, fits i, scan i i, scan i j h, fits j, absent j))
  Move-others mv q j = fits j

  pub Move-scan :
      {p : Pc} {m' : Shared} {t' : Thread}
      → Move n c (λ j. (th j).epoch) m (th i) p m' t'
      → (th i).pc ≡ p
      → (a b : ℕ) → guarded (update th i t' b).pc ≡ true
      → passed n (update th i t' a).pc b ≤ (update th i t' b).epoch.bits
  unfolding blocks is_pinned unpinned epoch_eq pinned value
  Move-scan pin_load q a b h = ground (arith, scan a b, scan i b)
  Move-scan mv q a b h =
      ground (arith, guard mv, scan a b, scan i b, scan a i, fits i, fits a, fits b, even)

  pub Move-under_guard :
      {p : Pc} {m' : Shared} {t' : Thread}
      → Move n c (λ j. (th j).epoch) m (th i) p m' t'
      → (th i).pc ≡ p
      → (j o : ℕ) → (update th i t' j).refs o ≡ true
      → guarded (update th i t' j).pc ≡ true
  Move-under_guard pin_load q j o h = ground (arith, under_guard j o)
  Move-under_guard mv q j o h = ground (arith, under_guard j o)
