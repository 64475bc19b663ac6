-- ===== src/Hazard/Local/Tally.antt =====
-- hp-pp: how often a node is on its way to be freed.
use smr_benchmark.Prelude.{
  ℕ, suc, ◌+◌, ◌*◌, ◌/◌, ◌%◌, ◌^◌, ◌≤◌, ◌<◌, ◌≡◌, refl, false, List, [], ◌∷◌, ◌++◌, ◌==◌, arith,
  ◌∙◌, ap, inl, inr, Bool-cases,
}
use smr_benchmark.Prelude.Counting.{bit, count, count-append, count-concat}
use smr_benchmark.Hazard.{concat}
use smr_benchmark.Hazard.Local.{
  Unlinked, Thread, barrier, drop_hazards, clear_epoched, push_retireds, flush_retireds,
  do_reclamation, flush_when_due, reclaim_when_due, push_retired, retire, drain_unlinkeds,
  drop_passed, do_invalidation, invalidate_when_due, schedule_invalidation, drop_thread,
}
use smr_benchmark.Hazard.Local.Same.{Same, clear_epoched-Same, drop_passed-Same}
use smr_benchmark.Hazard.Local.Depth.{NextKept, due-NextKept, flush_when_due-Same}
use smr_benchmark.Hazard.Local.Accounts.{MaybeAppended, do_reclamation_lem}

-- How often a node is among those unlinked, and anywhere on its way to be freed
abbrev pub count_unlinkeds : List Unlinked → ℕ → ℕ
count_unlinkeds [] o = 0
count_unlinkeds (u ∷ us) o = count u.ptrs o + count_unlinkeds us o

abbrev pub tally : ℕ → Thread → ℕ
tally o t =
    count_unlinkeds t.unlinkeds o
    + count t.retired o
    + count (concat t.domain.retireds) o
    + count t.domain.freed o

tally-Same : (o : ℕ) {t u : Thread} → Same t u → tally o u ≡ tally o t
tally-Same o s = rw (s.unlinkeds, s.retired, s.retireds, s.freed)

tally-flush : (o : ℕ) (t : Thread) → tally o (flush_retireds t) ≡ tally o t
unfolding flush_retireds push_retireds
tally-flush o t = omega (arith, count-concat t.retired (concat t.domain.retireds) o)

count-MaybeAppended :
    (xs : List ℕ) (p o : ℕ) (ys : List ℕ)
    → MaybeAppended xs p ys
    → (p == o) ≡ false
    → count ys o ≡ count xs o
count-MaybeAppended xs p o ys (inl e) other = ap (λ (zs : List ℕ). count zs o) e
count-MaybeAppended xs p o ys (inr e) other =
    ap (λ (zs : List ℕ). count zs o) e ∙ count-append xs p o ∙ ground (arith, other)

-- The own array, which the scan may retire, is none of the nodes that are counted.
tally-do_reclamation :
    (depth o : ℕ) (t : Thread)
    → NextKept t
    → (t.array == o) ≡ false
    → tally o (do_reclamation (retire depth) t) ≡ tally o t
tally-do_reclamation depth o t next other =
    let (a, b, c, d) = do_reclamation_lem depth o t next in
    rw (c, count-MaybeAppended t.retired t.array o _ d other) (ground (arith, a, b))

tally-flush_when_due : (o : ℕ) (t : Thread) → tally o (flush_when_due t) ≡ tally o t
unfolding flush_when_due
tally-flush_when_due o t = ground (arith, tally-flush o t)

tally-reclaim_when_due :
    (depth o : ℕ) (t : Thread)
    → 2 ≤ t.domain.counts_between_flush
    → t.count < 2 ^ 64
    → (t.array == o) ≡ false
    → tally o (reclaim_when_due (retire depth) t) ≡ tally o t
unfolding reclaim_when_due
tally-reclaim_when_due depth o t two small other =
    elim (Bool-cases (t.count % (t.domain.counts_between_flush * 2) == 0)) [
      | inl e ↦ rw e (tally-do_reclamation depth o t (due-NextKept t two small e) other)
      | inr e ↦ rw e refl
    ]

-- What follows an event leaves the tally of every node but the own array alone.
tally-due :
    (depth o : ℕ) (t : Thread)
    → 2 ≤ t.domain.counts_between_flush
    → t.count < 2 ^ 64
    → (t.array == o) ≡ false
    → tally o (reclaim_when_due (retire depth) (flush_when_due t)) ≡ tally o t
tally-due depth o t two small other =
    let same = flush_when_due-Same t in
    tally-reclaim_when_due depth o (flush_when_due t) (omega (arith, same.1, two))
      (omega (arith, same.0, small)) (rw same.2 other)
    ∙ tally-flush_when_due o t

count_unlinkeds-append :
    (us : List Unlinked) (u : Unlinked) (o : ℕ)
    → count_unlinkeds (us ++ u ∷ []) o ≡ count_unlinkeds us o + count u.ptrs o
count_unlinkeds-append [] u o = omega arith
count_unlinkeds-append (x ∷ us) u o = omega (arith, count_unlinkeds-append us u o)

count-drain : (us : List Unlinked) (o : ℕ) → count (drain_unlinkeds us).0 o ≡ count_unlinkeds us o
unfolding drain_unlinkeds
count-drain [] o = refl
count-drain (u ∷ us) o =
    omega (arith, count-concat u.ptrs (drain_unlinkeds us).0 o, count-drain us o)

-- Invalidation takes the nodes from the unlinked ones to the retired ones of the thread.
tally-do_invalidation : (o : ℕ) (t : Thread) → tally o (do_invalidation t) ≡ tally o t
unfolding do_invalidation
tally-do_invalidation o t =
    let (invalidateds, hps) = drain_unlinkeds t.unlinkeds in
    let drained : Thread = record t {
      unlinkeds = [];
      domain = record t.domain { invalidated = t.domain.invalidated ++ invalidateds };
    } in
    let same = drop_passed-Same t.domain.barrier t.epoched_hps drained in
    let passed = drop_passed t.domain.barrier t.epoched_hps drained in
    omega (
      arith,
      tally-Same o same,
      count-concat passed.retired invalidateds o,
      count-drain t.unlinkeds o,
    )

tally-invalidate_when_due : (o : ℕ) (t : Thread) → tally o (invalidate_when_due t) ≡ tally o t
unfolding invalidate_when_due
tally-invalidate_when_due o t = ground (arith, tally-do_invalidation o t)

-- Where the bound is at least 2, `retire` adds the node once to those on their way, in the list of the
-- thread, of the domain or among the freed, whatever it flushes and reclaims; every other node, which
-- the own array is not, is there as often as before.
tally-retire :
    (depth o ptr : ℕ) (t : Thread)
    → 2 ≤ t.domain.counts_between_flush
    → (t.array == o) ≡ false
    → tally o (retire (suc depth) ptr t) ≡ tally o t + bit (ptr == o)
unfolding retire push_retired
tally-retire depth o ptr t two other =
    tally-due depth o (push_retired ptr t) two (omega arith) other
    ∙ omega (arith, count-append t.retired ptr o)

invalidate_when_due-keeps :
    (t : Thread)
    → ((invalidate_when_due t).count ≡ t.count)
      × ((invalidate_when_due t).domain.counts_between_flush ≡ t.domain.counts_between_flush)
      × ((invalidate_when_due t).array ≡ t.array)
unfolding invalidate_when_due do_invalidation
invalidate_when_due-keeps t =
    let drained : Thread = record t {
      unlinkeds = [];
      domain = record t.domain {
        invalidated = t.domain.invalidated ++ (drain_unlinkeds t.unlinkeds).0;
      };
    } in
    let same = drop_passed-Same t.domain.barrier t.epoched_hps drained in
    elim (Bool-cases (t.count % (t.domain.counts_between_flush / 2) == 0)) [
      | inl e ↦ rw e (same.events, same.flush_at, same.array)
      | inr e ↦ rw e (refl, refl, refl)
    ]

-- Where the bound is at least 2, `schedule_invalidation` adds the unlinked nodes to those on their way,
-- each as often as it is given, whatever it invalidates, flushes and reclaims.
tally-schedule_invalidation :
    (depth o : ℕ) (hps ptrs : List ℕ) (t : Thread)
    → 2 ≤ t.domain.counts_between_flush
    → (t.array == o) ≡ false
    → tally o (schedule_invalidation depth hps ptrs t) ≡ tally o t + count ptrs o
unfolding schedule_invalidation
tally-schedule_invalidation depth o hps ptrs t two other =
    let unlinked : Unlinked = record { ptrs = ptrs; hps = hps } in
    let added : Thread = record t {
      unlinkeds = t.unlinkeds ++ unlinked ∷ [];
      count = (t.count + 1) % 2 ^ 64;
    } in
    let keeps = invalidate_when_due-keeps added in
    tally-due depth o (invalidate_when_due added) (omega (arith, keeps.1, two))
      (omega (arith, keeps.0)) (rw keeps.2 other)
    ∙ tally-invalidate_when_due o added
    ∙ omega (arith, count_unlinkeds-append t.unlinkeds unlinked o)

drained_all : (t : Thread) → (do_invalidation t).unlinkeds ≡ []
unfolding do_invalidation
drained_all t =
    let drained : Thread = record t {
      unlinkeds = [];
      domain = record t.domain {
        invalidated = t.domain.invalidated ++ (drain_unlinkeds t.unlinkeds).0;
      };
    } in
    (drop_passed-Same t.domain.barrier t.epoched_hps drained).unlinkeds

clear_epoched-empties : (q : List (ℕ × List ℕ)) (t : Thread) → (clear_epoched q t).epoched_hps ≡ []
unfolding clear_epoched
clear_epoched-empties [] t = refl
clear_epoched-empties ((_, hps) ∷ q) t = clear_epoched-empties q (drop_hazards hps t)

-- The assertions of `Thread::drop` hold: no unlinked node, retired node or epoch is left in the
-- thread; and every node is on its way as often as before.
drop_thread_lem :
    (o : ℕ) (t : Thread)
    → ((drop_thread t).unlinkeds ≡ [])
      × ((drop_thread t).retired ≡ [])
      × ((drop_thread t).epoched_hps ≡ [])
      × (tally o (drop_thread t) ≡ tally o t)
unfolding drop_thread flush_retireds push_retireds
drop_thread_lem o t =
    let invalidated = do_invalidation t in
    let flushed = flush_retireds invalidated in
    let fenced : Thread = record flushed {
      domain = record flushed.domain { barrier = barrier flushed.domain.barrier };
    } in
    let same = clear_epoched-Same fenced.epoched_hps fenced in
    (
      same.unlinkeds ∙ drained_all t,
      same.retired,
      clear_epoched-empties fenced.epoched_hps fenced,
      tally-Same o same ∙ tally-flush o invalidated ∙ tally-do_invalidation o t,
    )
