-- ===== src/Hazard/Local.antt =====
-- smrs/hp-pp/src/{thread,retire,domain,hazard}.rs: what `Thread` does, by one thread while no other
-- takes a step.
pub mod Same
pub mod Depth
pub mod Accounts
pub mod Tally
pub mod Slots
mod Barriers
mod Examples
use smr_benchmark.Prelude.{
  ℕ, zero, suc, ◌+◌, ◌-◌, ◌*◌, ◌/◌, ◌%◌, ◌^◌, Bool, true, false, not, List, [], ◌∷◌, ◌++◌, Option,
  none, some, length, ltb, leb, ◌==◌, if◌then◌else◌,
}
use smr_benchmark.Prelude.Family.{update}
use smr_benchmark.Prelude.Counting.{contains}
use smr_benchmark.Hazard.{concat}

-- `Unlinked`: nodes to invalidate, under hazard pointers, which are indices of slots
pub record Unlinked : Type 0 where
  pub ptrs : List ℕ
  pub hps : List ℕ

-- `Domain`, with the hazards of the other threads, and the nodes that have been invalidated and freed
-- so far
pub record Domain : Type 0 where
  pub barrier : ℕ
  pub retireds : List (List ℕ)
  pub num_garbages : ℕ
  pub counts_between_flush : ℕ
  pub other_hazards : List ℕ
  pub invalidated : List ℕ
  pub freed : List ℕ

-- `Thread` with its array of slots. The last element of the vector `available_indices` comes first.
-- The array is retired when it grows, so it has an address, and so has the next one.
pub record Thread : Type 0 where
  pub domain : Domain
  pub array : ℕ
  pub fresh : ℕ
  pub size : ℕ
  pub slot : ℕ → ℕ
  pub available_indices : List ℕ
  pub epoched_hps : List (ℕ × List ℕ)
  pub unlinkeds : List Unlinked
  pub retired : List ℕ
  pub count : ℕ

-- `EpochBarrier::check` on 64 bits
unfoldable pub check : ℕ → ℕ → Bool
check old new = leb 2 ((new + 2 ^ 64 - old) % 2 ^ 64)

-- `EpochBarrier::barrier`: the exchange succeeds.
unfoldable pub barrier : ℕ → ℕ
barrier epoch = (epoch + 1) % 2 ^ 64

-- `set_counts_between_flush` refuses what is odd or less than 2.
unfoldable pub set_counts_between_flush : ℕ → Domain → Option Domain
set_counts_between_flush counts d =
    if leb 2 counts
    then (if counts % 2 == 0 then some (record d { counts_between_flush = counts }) else none)
    else none

-- The hazards among the first slots
abbrev pub hazards_below : ℕ → (ℕ → ℕ) → List ℕ
hazards_below zero slot = []
hazards_below (suc n) slot =
    let rest = hazards_below n slot in if slot n == 0 then rest else slot n ∷ rest

-- What the hazard pointers protect: those of the other threads, and the own ones. The own array counts
-- among them, since the scan holds it while it reads the own slots.
unfoldable pub guarded_ptrs : Thread → List ℕ
guarded_ptrs t = t.domain.other_hazards ++ t.array ∷ hazards_below t.size t.slot

-- `protect_raw` and `reset_protection`
unfoldable pub protect_raw : ℕ → ℕ → Thread → Thread
protect_raw idx ptr t = record t { slot = update t.slot idx ptr }

-- `HazardPointer::drop`: the slot is cleared, and its index given back.
unfoldable pub drop_hazard : ℕ → Thread → Thread
unfolding protect_raw
drop_hazard idx t =
    let reset = protect_raw idx 0 t in
    record reset { available_indices = idx ∷ reset.available_indices }

unfoldable pub drop_hazards : List ℕ → Thread → Thread
drop_hazards [] t = t
drop_hazards (idx ∷ rest) t = drop_hazards rest (drop_hazard idx t)

unfoldable pub clear_epoched : List (ℕ × List ℕ) → Thread → Thread
clear_epoched [] t = record t { epoched_hps = [] }
clear_epoched ((_, hps) ∷ rest) t = clear_epoched rest (drop_hazards hps t)

-- `copy_to`, on indices: it succeeds towards a slot that is scanned later.
unfoldable pub copy_to : ℕ → ℕ → Thread → Option Thread
unfolding protect_raw
copy_to from to t = if leb to from then none else some (protect_raw to (t.slot from) t)

-- `RetiredList::push` and `pop_all`, the exchanges successful
unfoldable pub push_retireds : List ℕ → Thread → Thread
push_retireds batch t = record t {
  domain = record t.domain { retireds = batch ∷ t.domain.retireds };
}

unfoldable pub pop_all : Thread → Thread × List ℕ
pop_all t = (record t { domain = record t.domain { retireds = [] } }, concat t.domain.retireds)

unfoldable pub flush_retireds : Thread → Thread
unfolding push_retireds
flush_retireds t =
    let counted : Thread = record t {
      domain = record t.domain {
        num_garbages = (t.domain.num_garbages + length t.retired) % 2 ^ 64;
      };
    } in
    record (push_retireds t.retired counted) { retired = [] }

-- The `filter_map` of `do_reclamation`: the deleter runs on what no hazard pointer protects.
unfoldable pub split_guarded : List ℕ → List ℕ → List ℕ × List ℕ
split_guarded guarded [] = ([], [])
split_guarded guarded (o ∷ rest) =
    let (kept, freed) = split_guarded guarded rest in
    if contains guarded o then (o ∷ kept, freed) else (kept, o ∷ freed)

-- `size..new_size`, the last first
abbrev pub range_down : ℕ → ℕ → List ℕ
range_down from zero = []
range_down from (suc n) = (from + n) ∷ range_down from n

-- The slots are copied to an array of twice the size, the old one is retired by `retire`, and the
-- indices of the new half are given out afterwards.
unfoldable pub grow_array_with : (ℕ → Thread → Thread) → Thread → Thread
grow_array_with retire t =
    let moved : Thread = record t {
      array = t.fresh;
      fresh = suc t.fresh;
      size = t.size * 2;
      slot = λ i. if ltb i t.size then t.slot i else 0;
    } in
    let retired = retire t.array moved in
    record retired { available_indices = range_down t.size t.size ++ retired.available_indices }

-- By whether an index is free
abbrev pub index_or : {A : Type 0} → List ℕ → A → A → A
index_or [] none_left found = none_left
index_or (_ ∷ _) none_left found = found

-- What `acquire` does before it takes an index
unfoldable pub with_index : (ℕ → Thread → Thread) → Thread → Thread
with_index retire t = index_or t.available_indices (grow_array_with retire t) t

-- The hazard pointers of the scan, one after the other, take the same index, protect the array of a
-- thread, clear the slot and give the index back.
unfoldable pub reset_head : List ℕ → Thread → Thread
reset_head [] t = t
reset_head (idx ∷ _) t = protect_raw idx 0 t

-- The first hazard pointer of the scan may find no index, so that the array grows. The own slots are
-- read once it has.
unfoldable pub collect_guarded_ptrs : (ℕ → Thread → Thread) → Thread → Thread × List ℕ
unfolding guarded_ptrs
collect_guarded_ptrs retire t =
    let scanned = reset_head (with_index retire t).available_indices (with_index retire t) in
    (scanned, guarded_ptrs scanned)

-- `do_reclamation` once it has popped something
unfoldable pub reclaim : (ℕ → Thread → Thread) → List ℕ → Thread → Thread
unfolding push_retireds
reclaim retire retireds t =
    let fenced : Thread = record t {
      domain = record t.domain { barrier = barrier t.domain.barrier };
    } in
    let cleared = clear_epoched fenced.epoched_hps fenced in
    let (scanned, guarded) = collect_guarded_ptrs retire cleared in
    let (not_freed, freed) = split_guarded guarded retireds in
    push_retireds not_freed (record scanned {
      domain = record scanned.domain {
        num_garbages =
            (scanned.domain.num_garbages + 2 ^ 64 - (length retireds - length not_freed)) % 2 ^ 64;
        freed = scanned.domain.freed ++ freed;
      };
    })

-- `do_reclamation`, over what it calls as `retire` where its scan grows the array
unfoldable pub do_reclamation : (ℕ → Thread → Thread) → Thread → Thread
unfolding pop_all
do_reclamation retire t =
    let (popped, retireds) = pop_all t in
    if length retireds == 0 then popped else reclaim retire retireds popped

-- What `retire` and `schedule_invalidation` do after a count that is a multiple. The double of the
-- bound is taken not to overflow.
unfoldable pub flush_when_due : Thread → Thread
flush_when_due t = if t.count % t.domain.counts_between_flush == 0 then flush_retireds t else t

unfoldable pub reclaim_when_due : (ℕ → Thread → Thread) → Thread → Thread
reclaim_when_due retire t =
    if t.count % (t.domain.counts_between_flush * 2) == 0 then do_reclamation retire t else t

unfoldable pub push_retired : ℕ → Thread → Thread
push_retired ptr t = record t { retired = t.retired ++ ptr ∷ []; count = (t.count + 1) % 2 ^ 64 }

-- `retire` calls itself, through the reclamation and the array that its scan grows; the first argument
-- bounds the depth of those calls.
unfoldable pub retire : ℕ → ℕ → Thread → Thread
retire zero ptr t = flush_when_due (push_retired ptr t)
retire (suc depth) ptr t = reclaim_when_due (retire depth) (flush_when_due (push_retired ptr t))

-- `Unlinked::do_invalidation` of each element that is drained
unfoldable pub drain_unlinkeds : List Unlinked → List ℕ × List ℕ
drain_unlinkeds [] = ([], [])
drain_unlinkeds (u ∷ rest) =
    let (invalidateds, hps) = drain_unlinkeds rest in (u.ptrs ++ invalidateds, u.hps ++ hps)

-- The `while` of `do_invalidation`, on the queue
unfoldable pub drop_passed : ℕ → List (ℕ × List ℕ) → Thread → Thread
drop_passed epoch [] t = record t { epoched_hps = [] }
drop_passed epoch ((old_epoch, hps) ∷ rest) t =
    let dropped = drop_passed epoch rest (drop_hazards hps t) in
    if check old_epoch epoch then dropped else record t { epoched_hps = (old_epoch, hps) ∷ rest }

unfoldable pub do_invalidation : Thread → Thread
do_invalidation t =
    let (invalidateds, hps) = drain_unlinkeds t.unlinkeds in
    let epoch = t.domain.barrier in
    let drained : Thread = record t {
      unlinkeds = [];
      domain = record t.domain { invalidated = t.domain.invalidated ++ invalidateds };
    } in
    let passed = drop_passed epoch drained.epoched_hps drained in
    record passed {
      epoched_hps = passed.epoched_hps ++ (epoch, hps) ∷ [];
      retired = passed.retired ++ invalidateds;
    }

unfoldable pub invalidate_when_due : Thread → Thread
invalidate_when_due t =
    if t.count % (t.domain.counts_between_flush / 2) == 0 then do_invalidation t else t

unfoldable pub schedule_invalidation : ℕ → List ℕ → List ℕ → Thread → Thread
schedule_invalidation depth hps unlinkeds t = reclaim_when_due (retire depth) (
    flush_when_due (
      invalidate_when_due (record t {
        unlinkeds = t.unlinkeds ++ record { ptrs = unlinkeds; hps = hps } ∷ [];
        count = (t.count + 1) % 2 ^ 64;
      })))

unfoldable pub grow_array : ℕ → Thread → Thread
grow_array depth = grow_array_with (retire depth)

unfoldable pub take_index : Thread → Option (Thread × ℕ)
take_index t = elim t.available_indices [
  | [] ↦ none
  | idx ∷ rest ↦ some (record t { available_indices = rest }, idx)
]

-- `none` where the array has grown and still has no slot
unfoldable pub acquire : ℕ → Thread → Option (Thread × ℕ)
acquire depth t = elim (take_index t) [
  | some taken ↦ some taken
  | none ↦ take_index (grow_array depth t)
]

unfoldable pub protect_frontier : ℕ → List ℕ → Thread → Option (Thread × List ℕ)
protect_frontier depth [] t = some (t, [])
protect_frontier depth (ptr ∷ rest) t = elim (acquire depth t) [
  | none ↦ none
  | some (u, idx) ↦ elim (protect_frontier depth rest (protect_raw idx ptr u)) [
    | none ↦ none
    | some (w, hps) ↦ some (w, idx ∷ hps)
  ]
]

-- What the client's `do_unlink` returns is given; it runs once the frontier is protected.
unfoldable pub try_unlink : ℕ → List ℕ → Option (List ℕ) → Thread → Option (Thread × Bool)
try_unlink depth frontier unlinked t = elim (protect_frontier depth frontier t) [
  | none ↦ none
  | some (u, hps) ↦ elim unlinked [
    | some ptrs ↦ some (schedule_invalidation depth hps ptrs u, true)
    | none ↦ some (drop_hazards hps u, false)
  ]
]

-- `Thread::drop`, but for the record that goes back to the domain
unfoldable pub drop_thread : Thread → Thread
drop_thread t =
    let flushed = flush_retireds (do_invalidation t) in
    let fenced : Thread = record flushed {
      domain = record flushed.domain { barrier = barrier flushed.domain.barrier };
    } in
    record (clear_epoched fenced.epoched_hps fenced) { available_indices = [] }
