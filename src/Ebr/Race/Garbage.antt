-- ===== src/Ebr/Race/Garbage.antt =====
-- Where each object of the interleavings of internal.rs is: in the data structure, with the thread
-- that has unlinked it, in the queue, or destroyed.
use smr_benchmark.Prelude.{
  ℕ, ◌+◌, ◌≤◌, ◌≡◌, refl, Bool, true, false, List, [], ◌∷◌, ◌++◌, none, some, ◌==◌, arith, inl, inr,
}
use smr_benchmark.Ebr.Epoch.{Epoch}
use smr_benchmark.Ebr.Bag.{SealedBag, new_bag, seal}
use smr_benchmark.Ebr.Race.{
  Shared, Pc, Thread, Move, pin_load, defer_push, seal_push, collect_pop, System, Step, pick, Reach,
  start, later,
}
use smr_benchmark.Prelude.Counting.{
  bit, contains, count, count-append, count_pos_iff, sum_below, sum_below-update, sum_below-le,
  sum_below_zero,
}
use smr_benchmark.Ebr.Race.Guards.{guard}
use smr_benchmark.Ebr.Race.Invariant.{next_of, In}

abbrev pub count_queue : List (SealedBag ℕ) → ℕ → ℕ
count_queue [] o = 0
count_queue (b ∷ q) o = count b.bag.deferreds o + count_queue q o

count_queue-append :
    (q : List (SealedBag ℕ)) (b : SealedBag ℕ) (o : ℕ)
    → count_queue (q ++ b ∷ []) o ≡ count_queue q o + count b.bag.deferreds o
count_queue-append [] b o = omega arith
count_queue-append (x ∷ q) b o = omega (arith, count_queue-append q b o)

-- How often a thread keeps the object: in its bag, or on the way to it.
abbrev pub count_kept : ℕ → Thread → ℕ
count_kept o t =
    count t.bag.deferreds o + (elim (next_of t.pc) [ none ↦ 0 | some p ↦ bit (p == o) ])

count-le-count_queue :
    (q : List (SealedBag ℕ)) (b : SealedBag ℕ) (o : ℕ)
    → In b q
    → count b.bag.deferreds o ≤ count_queue q o
count-le-count_queue [] b o h = absurd h
count-le-count_queue (x ∷ q) b o (inl e) = ground arith
count-le-count_queue (x ∷ q) b o (inr h) = omega (arith, count-le-count_queue q b o h)

-- The copies of an object outside the threads
abbrev pub count_shared : ℕ → Shared → ℕ
count_shared o m = bit (m.linked o) + count_queue m.queue o + bit (m.freed o)

abbrev pub copies : ℕ → System → ℕ → ℕ
copies n s o = count_shared o s.mem + sum_below n (λ j. count_kept o (s.thread j))

-- With one copy at most, a move of a thread keeps the number of copies.
Move-copies :
    {n c : ℕ} {ep : ℕ → Epoch} {m : Shared} {t : Thread} {p : Pc} {m' : Shared} {t' : Thread}
    (o : ℕ)
    → Move n c ep m t p m' t'
    → t.pc ≡ p
    → count_shared o m + count_kept o t ≤ 1
    → count_shared o m' + count_kept o t' ≡ count_shared o m + count_kept o t
unfolding new_bag seal
Move-copies o pin_load q h = ground arith
Move-copies {t} o (defer_push {o = x} _) q h = ground (arith, count-append t.bag.deferreds x o)
Move-copies {m} {t} o (seal_push {e}) q h =
    ground (arith, count_queue-append m.queue (seal t.bag e) o)
Move-copies o (collect_pop {b} g x) q h = ground (arith, g, count_pos_iff b.bag.deferreds o)
Move-copies o mv q h = ground (arith, guard mv)

Step-copies :
    {n c : ℕ} {s t : System} (o : ℕ) → Step n c s t → copies n s o ≤ 1 → copies n t o ≡ copies n s o
Step-copies {n} {s} o (pick i {t = t} lt mv) h =
    let sums = sum_below-update (count_kept o) s.thread i t n lt in
    let one = sum_below-le (count_kept o) s.thread i n lt in
    omega (arith, sums, one, Move-copies o mv refl (omega (arith, one)))

-- No garbage is lost or duplicated: of an object that starts in the data structure there is in
-- every reachable state exactly one copy, in the structure, with one thread that has unlinked it,
-- in one bag of the queue, or destroyed; of any other object there is none.
pub one_copy :
    {n c : ℕ} {linked : ℕ → Bool} {k : ℕ} {s : System} (o : ℕ)
    → Reach n c linked k s
    → copies n s o ≡ bit (linked o)
unfolding new_bag
one_copy {n} {linked} o start = omega (arith, sum_below_zero n)
one_copy {linked} o (later r st) =
    let ih = one_copy o r in
    let le : bit (linked o) ≤ 1 = ground arith in
    omega (arith, ih, le, Step-copies o st (omega (arith, ih, le)))

-- No double free: an object in a bag of the queue has not been destroyed, stands in that bag once,
-- and is out of the data structure.
pub no_double_free :
    {n c : ℕ} {linked : ℕ → Bool} {k : ℕ} {s : System} (b : SealedBag ℕ) (o : ℕ)
    → Reach n c linked k s
    → In b s.mem.queue
    → contains b.bag.deferreds o ≡ true
    → (s.mem.freed o ≡ false) × (count b.bag.deferreds o ≡ 1) × (s.mem.linked o ≡ false)
no_double_free {linked} {s} b o r h g =
    let le : bit (linked o) ≤ 1 = ground arith in
    let positive = (count_pos_iff b.bag.deferreds o).0 g in
    let queued = count-le-count_queue s.mem.queue b o h in
    (
      ground (arith, one_copy o r, le, positive, queued),
      omega (arith, one_copy o r, le, positive, queued),
      ground (arith, one_copy o r, le, positive, queued),
    )
