-- ===== src/Ebr/Race/Bags.antt =====
-- internal.rs: the objects in the invariant, under the moves of `defer`, `push_bag` and `collect`.
use smr_benchmark.Prelude.{ℕ, ◌+◌, ◌%◌, ◌^◌, ◌≤◌, ◌<◌, ◌≡◌, true, false, arith}
use smr_benchmark.Prelude.Counting.{contains, contains-append}
use smr_benchmark.Ebr.Epoch.{Epoch, pinned, epoch_eq, wrapping_sub}
use smr_benchmark.Ebr.Bag.{SealedBag, new_bag, seal, is_expired}
use smr_benchmark.Ebr.Race.{
  Shared, Pc, Thread, Move, pin_load, acquire, defer_push, seal_load, seal_push, collect_pop,
}
use smr_benchmark.Prelude.Family.{update}
use smr_benchmark.Ebr.Race.Invariant.{Keeps, In, SealsAt, Inv}
use smr_benchmark.Ebr.Race.Guards.{guard, In-append}
use smr_benchmark.Ebr.Race.Pins.{Move-global}

module _ {n k : ℕ} {m : Shared} {th : ℕ → Thread} (inv : Inv n k m th) (small : k < 2 ^ 60) where
  open inv use {bound, fits, under_guard, queued, queued_refs}

  -- A bag that has expired at a global epoch read earlier holds nothing that a thread refers to.
  pub expired_unreferenced :
      (e : Epoch) (b : SealedBag ℕ) (j o : ℕ)
      → In b m.queue
      → e.bits ≤ m.global.bits
      → is_expired b e ≡ true
      → contains b.bag.deferreds o ≡ true
      → (th j).refs o ≡ false
  unfolding is_expired wrapping_sub
  expired_unreferenced e b j o h le x r =
      ground (arith, queued b h, queued_refs b j o h r, under_guard j o, fits j, bound, small)

module _ {n k c : ℕ} {m : Shared} {th : ℕ → Thread} (inv : Inv n k m th) (small : k < 2 ^ 60)
    (i : ℕ) (lt : i < n) where
  open inv use {
    even, bound, fits, absent, scan, under_guard, kept, seals, queued, queued_unlinked, queued_refs,
    freed_unlinked, safe,
  }

  pub Move-kept :
      {p : Pc} {m' : Shared} {t' : Thread}
      → Move n c (λ j. (th j).epoch) m (th i) p m' t'
      → (th i).pc ≡ p
      → (j o : ℕ) → Keeps (update th i t' j) o
      → m'.linked o ≡ false
  unfolding new_bag
  Move-kept pin_load q j o h = ground (arith, kept j o)
  Move-kept (defer_push {o = x} _) q j o h =
      ground (arith, kept j o, contains-append (th i).bag.deferreds x o)
  Move-kept mv q j o h = ground (arith, guard mv, kept j o)

  pub Move-seals :
      {p : Pc} {m' : Shared} {t' : Thread}
      → Move n c (λ j. (th j).epoch) m (th i) p m' t'
      → (th i).pc ≡ p
      → (a b o : ℕ) → contains (update th i t' a).bag.deferreds o ≡ true
      → (update th i t' b).refs o ≡ true
      → SealsAt (update th i t' a).pc (update th i t' b).epoch.bits
  unfolding new_bag pinned epoch_eq
  Move-seals pin_load q a b o h r = ground (arith, seals a b o, under_guard b o)
  Move-seals seal_load q a b o h r = ground (arith, seals a b o, under_guard b o, fits b)
  Move-seals (acquire x g) q a b o h r = ground (arith, seals a b o, kept a o, g)
  Move-seals mv q a b o h r = ground (arith, guard mv, seals a b o, under_guard b o)

  pub Move-queued :
      {p : Pc} {m' : Shared} {t' : Thread}
      → Move n c (λ j. (th j).epoch) m (th i) p m' t'
      → (th i).pc ≡ p
      → (b : SealedBag ℕ) → In b m'.queue
      → (b.epoch.bits % 2 ≡ 0) × (b.epoch.bits ≤ m'.global.bits)
  unfolding seal
  Move-queued pin_load q b h = queued b h
  Move-queued (seal_push {e}) q b h =
      ground (arith, queued b, In-append m.queue (seal (th i).bag e) b h, fits i)
  Move-queued mv q b h = ground (arith, guard mv, queued b, Move-global inv small i lt mv q)

  pub Move-queued_unlinked :
      {p : Pc} {m' : Shared} {t' : Thread}
      → Move n c (λ j. (th j).epoch) m (th i) p m' t'
      → (th i).pc ≡ p
      → (b : SealedBag ℕ) (o : ℕ) → In b m'.queue
      → contains b.bag.deferreds o ≡ true
      → m'.linked o ≡ false
  unfolding seal
  Move-queued_unlinked pin_load q b o h r = queued_unlinked b o h r
  Move-queued_unlinked (seal_push {e}) q b o h r =
      ground (arith, queued_unlinked b o, In-append m.queue (seal (th i).bag e) b h, kept i o)
  Move-queued_unlinked mv q b o h r = ground (arith, guard mv, queued_unlinked b o)

  pub Move-queued_refs :
      {p : Pc} {m' : Shared} {t' : Thread}
      → Move n c (λ j. (th j).epoch) m (th i) p m' t'
      → (th i).pc ≡ p
      → (b : SealedBag ℕ) (j o : ℕ) → In b m'.queue
      → contains b.bag.deferreds o ≡ true
      → (update th i t' j).refs o ≡ true
      → (update th i t' j).epoch.bits ≤ b.epoch.bits + 1
  unfolding seal pinned epoch_eq
  Move-queued_refs pin_load q b j o h r g = ground (arith, queued_refs b j o, under_guard j o)
  Move-queued_refs (seal_push {e}) q b j o h r g =
      ground (arith, queued_refs b j o, In-append m.queue (seal (th i).bag e) b h, seals i j o)
  Move-queued_refs mv q b j o h r g =
      ground (arith, guard mv, queued_refs b j o, under_guard j o, queued_unlinked b o)

  pub Move-freed_unlinked :
      {p : Pc} {m' : Shared} {t' : Thread}
      → Move n c (λ j. (th j).epoch) m (th i) p m' t'
      → (th i).pc ≡ p
      → (o : ℕ) → m'.freed o ≡ true
      → m'.linked o ≡ false
  Move-freed_unlinked pin_load q o h = freed_unlinked o h
  Move-freed_unlinked (collect_pop {b} g x) q o h =
      ground (arith, g, freed_unlinked o, queued_unlinked b o)
  Move-freed_unlinked mv q o h = ground (arith, guard mv, freed_unlinked o)

  pub Move-safe :
      {p : Pc} {m' : Shared} {t' : Thread}
      → Move n c (λ j. (th j).epoch) m (th i) p m' t'
      → (th i).pc ≡ p
      → (j o : ℕ) → m'.freed o ≡ true
      → (update th i t' j).refs o ≡ false
  Move-safe pin_load q j o h = ground (arith, safe j o)
  Move-safe (collect_pop {e} {b} g x) q j o h =
      ground (arith, g, x, safe j o, fits i, expired_unreferenced inv small e b j o)
  Move-safe mv q j o h = ground (arith, guard mv, safe j o, freed_unlinked o)
