-- ===== src/Hazard/Local/Depth.antt =====
-- hp-pp: how deep `retire` calls itself.
use smr_benchmark.Prelude.{
  ℕ, zero, suc, ◌+◌, ◌*◌, ◌/◌, ◌%◌, ◌^◌, ◌≤◌, ◌<◌, ◌≡◌, refl, false, true, List, [], ◌∷◌, ◌⊎◌, inl,
  inr, ◌==◌, if◌then◌else◌, arith, Bool-cases, ◌∙◌, ap, sym, ltb,
}
use native.Mathlib.Nat.{
  div-add-mod, mul-add-mod_self_left, mod-eq_of_lt, mul_assoc, mul_left_comm, zero-mod,
}
use smr_benchmark.Hazard.Local.{
  Thread, barrier, clear_epoched, push_retired, flush_when_due, reclaim_when_due, grow_array_with,
  with_index, index_or, collect_guarded_ptrs, reclaim, do_reclamation, pop_all, retire,
  flush_retireds, push_retireds,
}
use smr_benchmark.Hazard.{concat}
use smr_benchmark.Hazard.Local.Same.{clear_epoched-Same}

-- The next event of the thread is not one that flushes.
abbrev pub NextKept : Thread → Type 0
NextKept t = ((t.count + 1) % 2 ^ 64 % t.domain.counts_between_flush == 0) ≡ false

zero_of : {n : ℕ} → (n == 0) ≡ true → n ≡ 0
zero_of h = ground (arith, h)

-- Either way a list was made
pub list_cases : (xs : List ℕ) → (xs ≡ []) ⊎ ((x : ℕ) × (rest : List ℕ) × (xs ≡ x ∷ rest))
list_cases [] = inl refl
list_cases (x ∷ rest) = inr (x, rest, refl)

double_mod : (x c : ℕ) → (x % c == 0) ≡ false → (x % (c * 2) == 0) ≡ false
double_mod x c h = elim (Bool-cases (x % (c * 2) == 0)) [
  | inl e ↦
      let q : ℕ = x / (c * 2) in
      let split : c * (2 * q) + 0 ≡ x =
        omega (arith, mul_assoc c 2 q, div-add-mod x (c * 2), zero_of e) in
      let rest : x % c ≡ 0 =
        ap (λ (y : ℕ). y % c) (sym split) ∙ mul-add-mod_self_left c (2 * q) 0 ∙ zero-mod c in
      absurd (ground (arith, h, rest))
  | inr e ↦ e
]

-- After an event at which `retire` and `schedule_invalidation` reclaim comes one that does not flush, if
-- the bound between flushes is at least 2.
pub due-NextKept :
    (t : Thread)
    → 2 ≤ t.domain.counts_between_flush
    → t.count < 2 ^ 64
    → (t.count % (t.domain.counts_between_flush * 2) == 0) ≡ true
    → NextKept t
due-NextKept t two small due =
    let c : ℕ = t.domain.counts_between_flush in
    let q : ℕ = t.count / (c * 2) in
    let split : c * (2 * q) ≡ t.count =
      omega (arith, mul_assoc c 2 q, div-add-mod t.count (c * 2), zero_of due) in
    let even : 2 * (c * q) ≡ t.count = omega (arith, mul_left_comm c 2 q, split) in
    let next : (t.count + 1) % 2 ^ 64 ≡ c * (2 * q) + 1 = omega (arith, even, small, split) in
    let one : (t.count + 1) % 2 ^ 64 % c ≡ 1 =
      ap (λ (y : ℕ). y % c) next ∙ mul-add-mod_self_left c (2 * q) 1 ∙ mod-eq_of_lt two in
    ground (arith, one)

-- Before an event that does not flush, `retire` only keeps the pointer, at any depth.
retire-push_retired :
    (depth ptr : ℕ) (t : Thread) → NextKept t → retire depth ptr t ≡ push_retired ptr t
unfolding retire flush_when_due reclaim_when_due push_retired
retire-push_retired zero ptr t h = rw h refl
retire-push_retired (suc depth) ptr t h = rw (h, double_mod _ _ h) refl

grow_array_with-retire :
    (depth : ℕ) (t : Thread)
    → NextKept t
    → grow_array_with (retire depth) t ≡ grow_array_with push_retired t
unfolding grow_array_with
grow_array_with-retire depth t h =
    rw
      (retire-push_retired depth t.array
        (record t {
          array = t.fresh;
          fresh = suc t.fresh;
          size = t.size * 2;
          slot = λ i. if ltb i t.size then t.slot i else 0;
        })
        h)
      refl

-- Either the array grows or the thread is left alone.
pub with_index-cases :
    (grow : ℕ → Thread → Thread) (t : Thread)
    → ((t.available_indices ≡ []) × (with_index grow t ≡ grow_array_with grow t))
      ⊎ ((idx : ℕ) × (rest : List ℕ) × (t.available_indices ≡ idx ∷ rest) × (with_index grow t ≡ t))
unfolding with_index
with_index-cases grow t = elim (list_cases t.available_indices) [
  | inl e ↦ inl (e, ap (λ (xs : List ℕ). index_or xs (grow_array_with grow t) t) e)
  | inr (x, rest, e) ↦
      inr (x, rest, e, ap (λ (xs : List ℕ). index_or xs (grow_array_with grow t) t) e)
]

with_index-retire :
    (depth : ℕ) (t : Thread) → NextKept t → with_index (retire depth) t ≡ with_index push_retired t
unfolding with_index
with_index-retire depth t h =
    ap (λ (g : Thread). index_or t.available_indices g t) (grow_array_with-retire depth t h)

reclaim-retire :
    (depth : ℕ) (xs : List ℕ) (t : Thread)
    → NextKept t
    → reclaim (retire depth) xs t ≡ reclaim push_retired xs t
unfolding reclaim collect_guarded_ptrs
reclaim-retire depth xs t h =
    let fenced : Thread = record t {
      domain = record t.domain { barrier = barrier t.domain.barrier };
    } in
    let same = clear_epoched-Same t.epoched_hps fenced in
    let kept : NextKept (clear_epoched t.epoched_hps fenced) = rw (same.events, same.flush_at) h in
    rw (with_index-retire depth (clear_epoched t.epoched_hps fenced) kept) refl

-- Where the next event does not flush, the scan of `do_reclamation` only keeps the array that it
-- retires.
pub do_reclamation-retire :
    (depth : ℕ) (t : Thread)
    → NextKept t
    → do_reclamation (retire depth) t ≡ do_reclamation push_retired t
unfolding do_reclamation pop_all
do_reclamation-retire depth t h =
    rw
      (reclaim-retire depth (concat t.domain.retireds)
        (record t { domain = record t.domain { retireds = [] } }) h)
      refl

pub flush_when_due-Same :
    (t : Thread)
    → ((flush_when_due t).count ≡ t.count)
      × ((flush_when_due t).domain.counts_between_flush ≡ t.domain.counts_between_flush)
      × ((flush_when_due t).array ≡ t.array)
unfolding flush_when_due flush_retireds push_retireds
flush_when_due-Same t = elim (Bool-cases (t.count % t.domain.counts_between_flush == 0)) [
  | inl e ↦ rw e (refl, refl, refl)
  | inr e ↦ rw e (refl, refl, refl)
]

pub reclaim_when_due-retire :
    (depth : ℕ) (t : Thread)
    → 2 ≤ t.domain.counts_between_flush
    → t.count < 2 ^ 64
    → reclaim_when_due (retire depth) t ≡ reclaim_when_due push_retired t
unfolding reclaim_when_due
reclaim_when_due-retire depth t two small =
    elim (Bool-cases (t.count % (t.domain.counts_between_flush * 2) == 0)) [
      | inl e ↦ rw e (do_reclamation-retire depth t (due-NextKept t two small e))
      | inr e ↦ rw e refl
    ]

-- If the bound between flushes is at least 2, one level is enough for the calls of `retire` by itself,
-- through the reclamation and the array that its scan grows: at every greater depth the result is the
-- same.
pub retire-suc :
    (depth ptr : ℕ) (t : Thread)
    → 2 ≤ t.domain.counts_between_flush
    → retire (suc depth) ptr t ≡ retire 1 ptr t
unfolding retire push_retired
retire-suc depth ptr t two =
    let flushed = flush_when_due (push_retired ptr t) in
    let same = flush_when_due-Same (push_retired ptr t) in
    let two' : 2 ≤ flushed.domain.counts_between_flush = omega (arith, same.1, two) in
    let small : flushed.count < 2 ^ 64 = omega (arith, same.0) in
    reclaim_when_due-retire depth flushed two' small
    ∙ sym (reclaim_when_due-retire 0 flushed two' small)
