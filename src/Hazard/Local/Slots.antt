-- ===== src/Hazard/Local/Slots.antt =====
-- hp-pp: the slots of the hazard pointers of one thread.
use smr_benchmark.Prelude.{
  ℕ, zero, suc, ◌+◌, ◌*◌, ◌%◌, ◌≤◌, ◌<◌, ◌≡◌, refl, List, [], ◌∷◌, ◌++◌, ◌⊎◌, ap, Option, some,
  none, ltb, leb, ◌==◌, if◌then◌else◌, arith, Bool-cases, ◌∙◌, inl, inr, length, ◌&&◌,
}
use smr_benchmark.Prelude.Counting.{bit, count, count-concat}
use smr_benchmark.Hazard.{concat}
use smr_benchmark.Hazard.Local.{
  Unlinked, Thread, barrier, protect_raw, drop_hazard, drop_hazards, clear_epoched, push_retireds,
  pop_all, flush_retireds, reclaim, do_reclamation, flush_when_due, reclaim_when_due, retire,
  range_down, grow_array, grow_array_with, with_index, reset_head, collect_guarded_ptrs,
  push_retired, acquire, take_index,
}
use smr_benchmark.Hazard.Local.Depth.{list_cases, with_index-cases}

-- How often a slot is free, or kept by a hazard pointer that the thread holds for the scheme
abbrev pub count_epoched : List (ℕ × List ℕ) → ℕ → ℕ
count_epoched [] i = 0
count_epoched ((_, hps) ∷ q) i = count hps i + count_epoched q i

abbrev pub count_held : List Unlinked → ℕ → ℕ
count_held [] i = 0
count_held (u ∷ us) i = count u.hps i + count_held us i

abbrev pub owners : ℕ → Thread → ℕ
owners i t = count t.available_indices i + count_epoched t.epoched_hps i + count_held t.unlinkeds i

drop_hazards-owners :
    (i : ℕ) (hps : List ℕ) (t : Thread)
    → (count (drop_hazards hps t).available_indices i ≡ count hps i + count t.available_indices i)
      × ((drop_hazards hps t).unlinkeds ≡ t.unlinkeds)
      × ((drop_hazards hps t).size ≡ t.size)
      × (count hps i ≡ 0 → (drop_hazards hps t).slot i ≡ t.slot i)
unfolding drop_hazards drop_hazard protect_raw
drop_hazards-owners i [] t = (omega arith, refl, refl, λ e. refl)
drop_hazards-owners i (x ∷ hps) t =
    let (a, b, c, d) = drop_hazards-owners i hps (drop_hazard x t) in
    (omega (arith, a), b, c, λ e. d (omega (arith, e)) ∙ ground (arith, e))

-- What a thread keeps of a slot while other slots are given back and the array grows: a new slot has
-- one owner, the others have as many as before, and one that nobody owned is as it was.
abbrev Keeps : ℕ → Thread → Thread → Type 0
Keeps i t u =
    (owners i u + bit (ltb i t.size) ≡ owners i t + bit (ltb i u.size))
    × (t.size ≤ u.size)
    × (owners i t ≡ 0 → i < t.size → u.slot i ≡ t.slot i)

Keeps-trans : (i : ℕ) (t u w : Thread) → Keeps i t u → Keeps i u w → Keeps i t w
Keeps-trans i t u w (a, b, c) (a', b', c') = (
  omega (arith, a, a'),
  omega (arith, b, b'),
  λ e h. c' (ground (arith, a, b, e, h)) (omega (arith, b, h)) ∙ c e h,
)

Keeps-same :
    (i : ℕ) (t u : Thread)
    → owners i u ≡ owners i t
    → u.size ≡ t.size
    → (owners i t ≡ 0 → u.slot i ≡ t.slot i)
    → Keeps i t u
Keeps-same i t u a b c =
    (omega (arith, a, ap (λ (n : ℕ). bit (ltb i n)) b), omega (arith, b), λ e h. c e)

clear_epoched-Keeps :
    (i : ℕ) (q : List (ℕ × List ℕ)) (t : Thread)
    → (owners i (clear_epoched q t)
        ≡ count t.available_indices i + count_epoched q i + count_held t.unlinkeds i)
      × ((clear_epoched q t).size ≡ t.size)
      × (count_epoched q i ≡ 0 → (clear_epoched q t).slot i ≡ t.slot i)
unfolding clear_epoched drop_hazards
clear_epoched-Keeps i [] t = (omega arith, refl, λ e. refl)
clear_epoched-Keeps i ((_, hps) ∷ q) t =
    let (a, b, c, d) = drop_hazards-owners i hps t in
    let (a', b', c') = clear_epoched-Keeps i q (drop_hazards hps t) in
    (rw b at a' ∙ omega (arith, a), b' ∙ c, λ e. c' (omega (arith, e)) ∙ d (omega (arith, e)))

cleared-Keeps : (i : ℕ) (t : Thread) → Keeps i t (clear_epoched t.epoched_hps t)
cleared-Keeps i t =
    let (a, b, c) = clear_epoched-Keeps i t.epoched_hps t in
    Keeps-same i t (clear_epoched t.epoched_hps t) a b (λ e. c (omega (arith, e)))

count-range_down :
    (i from n : ℕ) → count (range_down from n) i ≡ bit (leb from i && ltb i (from + n))
count-range_down i from zero = ground arith
count-range_down i from (suc n) = ground (arith, count-range_down i from n)

reset_head-Keeps :
    (i : ℕ) (xs : List ℕ) (t : Thread) → t.available_indices ≡ xs → Keeps i t (reset_head xs t)
unfolding reset_head protect_raw
reset_head-Keeps i [] t e = (refl, omega arith, λ e h. refl)
reset_head-Keeps i (x ∷ xs) t e =
    Keeps-same i t (protect_raw x 0 t) refl refl
      (λ h. ground (arith, h, ap (λ (ys : List ℕ). count ys i) e))

-- What is wanted of `retire` in the growth of the array
abbrev RetireKeeps : (ℕ → Thread → Thread) → Type 0
RetireKeeps ret = (i ptr : ℕ) (t : Thread) → Keeps i t (ret ptr t)

module _ (ret : ℕ → Thread → Thread) (keeps : RetireKeeps ret) where
  grow_array-Keeps : (i : ℕ) (t : Thread) → Keeps i t (grow_array_with ret t)
  unfolding grow_array_with
  grow_array-Keeps i t =
      let moved : Thread = record t {
        array = t.fresh;
        fresh = suc t.fresh;
        size = t.size * 2;
        slot = λ j. if ltb j t.size then t.slot j else 0;
      } in
      let (a, b, c) = keeps i t.array moved in
      let more = count-concat (range_down t.size t.size) (ret t.array moved).available_indices i in
      (
        ground (arith, a, b, more, count-range_down i t.size t.size),
        omega (arith, b),
        λ e h. c e (omega (arith, h)) ∙ ground (arith, h),
      )

  with_index-Keeps : (i : ℕ) (t : Thread) → Keeps i t (with_index ret t)
  with_index-Keeps i t = elim (with_index-cases ret t) [
    | inl (_, e) ↦ rw e (grow_array-Keeps i t)
    | inr (_, _, _, e) ↦ rw e (refl, omega arith, λ e h. refl)
  ]

  scan-Keeps : (i : ℕ) (t : Thread) → Keeps i t (collect_guarded_ptrs ret t).0
  unfolding collect_guarded_ptrs
  scan-Keeps i t =
      let ready = with_index ret t in
      Keeps-trans i t ready (reset_head ready.available_indices ready) (with_index-Keeps i t)
        (reset_head-Keeps i ready.available_indices ready refl)

  reclaim-Keeps : (i : ℕ) (xs : List ℕ) (t : Thread) → Keeps i t (reclaim ret xs t)
  unfolding reclaim push_retireds
  reclaim-Keeps i xs t =
      let fenced : Thread = record t {
        domain = record t.domain { barrier = barrier t.domain.barrier };
      } in
      let cleared = clear_epoched t.epoched_hps fenced in
      Keeps-trans i t cleared (collect_guarded_ptrs ret cleared).0 (cleared-Keeps i fenced)
        (scan-Keeps i cleared)

  do_reclamation-Keeps : (i : ℕ) (t : Thread) → Keeps i t (do_reclamation ret t)
  unfolding do_reclamation pop_all
  do_reclamation-Keeps i t =
      let xs = concat t.domain.retireds in
      elim (Bool-cases (length xs == 0)) [
        | inl h ↦ rw h (refl, omega arith, λ e h. refl)
        | inr h ↦
            rw h (reclaim-Keeps i xs (record t { domain = record t.domain { retireds = [] } }))
      ]

  reclaim_when_due-Keeps : (i : ℕ) (t : Thread) → Keeps i t (reclaim_when_due ret t)
  unfolding reclaim_when_due
  reclaim_when_due-Keeps i t =
      elim (Bool-cases (t.count % (t.domain.counts_between_flush * 2) == 0)) [
        | inl h ↦ rw h (do_reclamation-Keeps i t)
        | inr h ↦ rw h (refl, omega arith, λ e h. refl)
      ]

flush_when_due-Keeps : (i : ℕ) (t : Thread) → Keeps i t (flush_when_due t)
unfolding flush_when_due flush_retireds push_retireds
flush_when_due-Keeps i t = elim (Bool-cases (t.count % t.domain.counts_between_flush == 0)) [
  | inl h ↦ rw h (refl, omega arith, λ e h. refl)
  | inr h ↦ rw h (refl, omega arith, λ e h. refl)
]

pushed-Keeps : (i ptr : ℕ) (t : Thread) → Keeps i t (flush_when_due (push_retired ptr t))
unfolding push_retired
pushed-Keeps i ptr t =
    let kept = push_retired ptr t in
    Keeps-trans i t kept (flush_when_due kept) (refl, omega arith, λ e h. refl)
      (flush_when_due-Keeps i kept)

retire-Keeps : (depth : ℕ) → RetireKeeps (retire depth)
unfolding retire
retire-Keeps zero i ptr t = pushed-Keeps i ptr t
retire-Keeps (suc depth) i ptr t =
    let flushed = flush_when_due (push_retired ptr t) in
    Keeps-trans i t flushed (reclaim_when_due (retire depth) flushed) (pushed-Keeps i ptr t)
      (reclaim_when_due-Keeps (retire depth) (retire-Keeps depth) i flushed)

range_first :
    (from n : ℕ) (ys : List ℕ)
    → 0 < n
    → (idx : ℕ) × (rest : List ℕ) × (range_down from n ++ ys ≡ idx ∷ rest)
range_first from zero ys h = absurd (omega arith)
range_first from (suc n) ys h = (_, _, refl)

grown_first :
    (depth : ℕ) (t : Thread)
    → 0 < t.size
    → (idx : ℕ) × (rest : List ℕ) × ((grow_array depth t).available_indices ≡ idx ∷ rest)
unfolding grow_array grow_array_with
grown_first depth t h = range_first t.size t.size _ h

take_none : (t : Thread) → t.available_indices ≡ [] → take_index t ≡ none
unfolding take_index
take_none t e = rw e refl

take_some :
    (t : Thread) (idx : ℕ) (rest : List ℕ)
    → t.available_indices ≡ idx ∷ rest
    → take_index t ≡ some (record t { available_indices = rest }, idx)
unfolding take_index
take_some t idx rest e = rw e refl

acquire_free :
    (depth : ℕ) (t u : Thread) (idx : ℕ)
    → take_index t ≡ some (u, idx)
    → acquire depth t ≡ some (u, idx)
unfolding acquire
acquire_free depth t u idx e = rw (acquire, e) refl

acquire_grown :
    (depth : ℕ) (t : Thread) (found : Option (Thread × ℕ))
    → take_index t ≡ none
    → take_index (grow_array depth t) ≡ found
    → acquire depth t ≡ found
unfolding acquire
acquire_grown depth t found e f = rw (acquire, e) f

grown-Keeps : (depth i : ℕ) (t : Thread) → Keeps i t (grow_array depth t)
unfolding grow_array
grown-Keeps depth i t = grow_array-Keeps (retire depth) (retire-Keeps depth) i t

-- Where slot `i` has one owner at most, and none if it is past the array, `acquire` returns a thread
-- and an index, growing the array when every slot is taken, and that is still so when the index is
-- counted among the hazard pointers that are held; the array has not shrunk, and if a hazard pointer
-- was held on slot `i`, what it protects is unchanged, through the copy of the array and the
-- reclamation that its retirement may cause, whose scan may grow the array again.
pub acquire_lem :
    (depth i held : ℕ) (t : Thread)
    → 0 < t.size
    → owners i t + held ≤ bit (ltb i t.size)
    → (u : Thread) × (idx : ℕ) × (acquire depth t ≡ some (u, idx))
      × (owners i u + bit (idx == i) + held ≤ bit (ltb i u.size))
      × (t.size ≤ u.size)
      × ((held ≡ 0) ⊎ (u.slot i ≡ t.slot i))
acquire_lem depth i held t p h = elim (list_cases t.available_indices) [
  | inl e ↦
      let grown = grow_array depth t in
      let (idx, rest, f) = grown_first depth t p in
      let (a, b, c) = grown-Keeps depth i t in
      (
        record grown { available_indices = rest },
        idx,
        acquire_grown depth t _ (take_none t e) (take_some grown idx rest f),
        ground (arith, a, b, h, ap (λ (xs : List ℕ). count xs i) f),
        b,
        elim (Bool-cases (held == 0)) [
          | inl g ↦ inl (ground (arith, g))
          | inr g ↦ inr (c (ground (arith, h, g)) (ground (arith, h, g)))
        ],
      )
  | inr (idx, rest, e) ↦ (
    record t { available_indices = rest },
    idx,
    acquire_free depth t _ idx (take_some t idx rest e),
    ground (arith, h, ap (λ (xs : List ℕ). count xs i) e),
    omega arith,
    inr refl,
  )
]
