-- ===== src/Hazard/Local/Accounts.antt =====
-- hp-pp: what the hazard pointers of a thread and its reclamations do to the nodes.
use smr_benchmark.Prelude.{
  ℕ, ◌+◌, ◌≤◌, ◌≡◌, ◌⊎◌, refl, List, [], ◌∷◌, ◌++◌, length, ◌==◌, if◌then◌else◌, arith, Bool-cases,
  ◌∙◌, ap, inl, inr, sym, subst,
}
use smr_benchmark.Prelude.Counting.{contains, count, count-concat}
use smr_benchmark.Hazard.{concat}
use smr_benchmark.Hazard.Local.{
  Domain, Thread, barrier, guarded_ptrs, collect_guarded_ptrs, reset_head, with_index,
  grow_array_with, protect_raw, clear_epoched, push_retireds, push_retired, pop_all, split_guarded,
  reclaim, do_reclamation, retire,
}
use smr_benchmark.Hazard.Local.Same.{clear_epoched-Same}
use smr_benchmark.Hazard.Local.Depth.{NextKept, with_index-cases, do_reclamation-retire}

split_lem :
    (guarded xs : List ℕ) (o : ℕ)
    → (count (split_guarded guarded xs).0 o ≡ (if contains guarded o then count xs o else 0))
      × (count (split_guarded guarded xs).1 o ≡ (if contains guarded o then 0 else count xs o))
      × (length (split_guarded guarded xs).0 ≤ length xs)
unfolding split_guarded
split_lem guarded [] o = (ground arith, ground arith, omega arith)
split_lem guarded (x ∷ xs) o = elim (Bool-cases (contains guarded x)) [
  | inl h ↦ rw h (
    ground (arith, split_lem guarded xs o),
    ground (arith, split_lem guarded xs o),
    ground (arith, split_lem guarded xs o),
  )
  | inr h ↦ rw h (
    ground (arith, split_lem guarded xs o),
    ground (arith, split_lem guarded xs o),
    ground (arith, split_lem guarded xs o),
  )
]

-- The list as it was, or with one element more
abbrev pub MaybeAppended : List ℕ → ℕ → List ℕ → Type 0
MaybeAppended xs o ys = (ys ≡ xs) ⊎ (ys ≡ xs ++ o ∷ [])

-- What the scan leaves alone, where the array that it may retire is only kept
reset_head-leaves :
    (xs : List ℕ) (t : Thread)
    → ((reset_head xs t).domain ≡ t.domain)
      × ((reset_head xs t).unlinkeds ≡ t.unlinkeds)
      × ((reset_head xs t).retired ≡ t.retired)
unfolding reset_head protect_raw
reset_head-leaves [] t = (refl, refl, refl)
reset_head-leaves (x ∷ xs) t = (refl, refl, refl)

abbrev Leaves : Thread → Thread → Type 0
Leaves t u =
    (u.domain ≡ t.domain) × (u.unlinkeds ≡ t.unlinkeds) × MaybeAppended t.retired t.array u.retired

grow_array-Leaves : (t : Thread) → Leaves t (grow_array_with push_retired t)
unfolding grow_array_with push_retired
grow_array-Leaves t = (refl, refl, inr refl)

with_index-Leaves : (t : Thread) → Leaves t (with_index push_retired t)
with_index-Leaves t = elim (with_index-cases push_retired t) [
  | inl (_, e) ↦ rw e (grow_array-Leaves t)
  | inr (_, _, _, e) ↦ rw e (refl, refl, inl refl)
]

scan-Leaves : (t : Thread) → Leaves t (collect_guarded_ptrs push_retired t).0
unfolding collect_guarded_ptrs
scan-Leaves t =
    let ready = with_index push_retired t in
    let (a, b, c) = with_index-Leaves t in
    let (a', b', c') = reset_head-leaves ready.available_indices ready in
    (a' ∙ a, b' ∙ b, elim c [ inl e ↦ inl (c' ∙ e) | inr e ↦ inr (c' ∙ e) ])

-- What a reclamation that has popped `xs` leaves of a node, by the hazard pointers that are there
-- afterwards
abbrev Reclaimed : ℕ → List ℕ → Thread → Thread → Type 0
Reclaimed o xs t u =
    (count (concat u.domain.retireds) o ≡ (if contains (guarded_ptrs u) o then count xs o else 0))
    × (count u.domain.freed o
        ≡ count t.domain.freed o + (if contains (guarded_ptrs u) o then 0 else count xs o))
    × (u.unlinkeds ≡ t.unlinkeds)
    × MaybeAppended t.retired t.array u.retired

reclaim-Reclaimed :
    (o : ℕ) (xs : List ℕ) (t : Thread)
    → t.domain.retireds ≡ []
    → Reclaimed o xs t (reclaim push_retired xs t)
unfolding reclaim push_retireds collect_guarded_ptrs guarded_ptrs
reclaim-Reclaimed o xs t e =
    let fenced : Thread = record t {
      domain = record t.domain { barrier = barrier t.domain.barrier };
    } in
    let same = clear_epoched-Same t.epoched_hps fenced in
    let cleared = clear_epoched t.epoched_hps fenced in
    let (scanned, guarded) = collect_guarded_ptrs push_retired cleared in
    let (a, b, c) = scan-Leaves cleared in
    let (kept, freed) = split_guarded guarded xs in
    let cut = split_lem guarded xs o in
    let none_left : concat scanned.domain.retireds ≡ [] =
      ap (λ (d : Domain). concat d.retireds) a ∙ ap concat (same.retireds ∙ e) in
    let freed_before : scanned.domain.freed ≡ t.domain.freed =
      ap (λ (d : Domain). d.freed) a ∙ same.freed in
    (
      ap (λ (ys : List ℕ). count (kept ++ ys) o) none_left
          ∙ count-concat kept [] o
          ∙ omega (arith, cut.0),
      ap (λ (ys : List ℕ). count (ys ++ freed) o) freed_before
          ∙ count-concat t.domain.freed freed o
          ∙ omega (arith, cut.1),
      b ∙ same.unlinkeds,
      elim c [
        | inl kept_all ↦ inl (kept_all ∙ same.retired)
        | inr one_more ↦ inr (
            one_more
            ∙ ap (λ (ys : List ℕ). ys ++ cleared.array ∷ []) same.retired
            ∙ ap (λ (p : ℕ). t.retired ++ p ∷ []) same.array)
      ],
    )

no_length : (xs : List ℕ) (o : ℕ) → length xs ≡ 0 → count xs o ≡ 0
no_length [] o e = refl
no_length (x ∷ xs) o e = absurd (omega arith)

pushed_reclamation :
    (o : ℕ) (t : Thread) → Reclaimed o (concat t.domain.retireds) t (do_reclamation push_retired t)
unfolding do_reclamation pop_all
pushed_reclamation o t =
    let xs = concat t.domain.retireds in
    let popped : Thread = record t { domain = record t.domain { retireds = [] } } in
    elim (Bool-cases (length xs == 0)) [
      | inl h ↦
          rw h (ground (arith, no_length xs o), ground (arith, no_length xs o), refl, inl refl)
      | inr h ↦ rw h (reclaim-Reclaimed o xs popped refl)
    ]

pub do_reclamation_lem :
    (depth o : ℕ) (t : Thread)
    → NextKept t
    → (count (concat (do_reclamation (retire depth) t).domain.retireds) o ≡ (
        if contains (guarded_ptrs (do_reclamation (retire depth) t)) o
        then count (concat t.domain.retireds) o
        else 0))
      × (count (do_reclamation (retire depth) t).domain.freed o
          ≡ count t.domain.freed o
            + (if contains (guarded_ptrs (do_reclamation (retire depth) t)) o
                then 0
                else count (concat t.domain.retireds) o))
      × ((do_reclamation (retire depth) t).unlinkeds ≡ t.unlinkeds)
      × MaybeAppended t.retired t.array (do_reclamation (retire depth) t).retired
do_reclamation_lem depth o t next =
    subst (Reclaimed o (concat t.domain.retireds) t) (sym (do_reclamation-retire depth t next))
      (pushed_reclamation o t)
