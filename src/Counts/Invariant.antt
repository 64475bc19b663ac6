-- ===== src/Counts/Invariant.antt =====
-- hp.rs: the owners of the strong count of an object.
use smr_benchmark.Prelude.{
  ℕ, suc, ◌+◌, ◌-◌, ◌^◌, ◌<◌, ◌≤◌, ◌≡◌, true, false, ◌⊎◌, if◌then◌else◌, arith,
}
use smr_benchmark.Counts.{
  strong, is_destructed, fetch_add, fetch_sub, create_object, Object, Step, Reach, start, later,
}

-- While the object lives, its count is that of its references, and one more for a task or a permit,
-- of which there is at most one, and exactly one if no reference is left; or all is 0, with a task.
abbrev Live : Object → Type 0
Live s =
    (s.drops ≡ 0)
    × (s.tasks + s.permits ≤ 1)
    × ((strong s.word ≡ s.refs + s.tasks + s.permits)
        ⊎ ((strong s.word ≡ 0) × (s.refs ≡ 0) × (s.tasks ≡ 1) × (s.owing ≡ 0)))
    × (0 < s.refs + s.tasks + s.permits)
    × ((s.owing ≡ 0) ⊎ (s.tasks ≡ 1))

abbrev Gone : Object → Type 0
Gone s = (s.drops ≡ 1) × (s.refs ≡ 0) × (s.tasks ≡ 0) × (s.permits ≡ 0) × (s.owing ≡ 0)

abbrev Inv : ℕ → Object → Type 0
Inv bound s =
    (s.word < 2 ^ 64)
    × (strong s.word ≤ bound)
    × (((is_destructed s.word ≡ false) × Live s) ⊎ ((is_destructed s.word ≡ true) × Gone s))

Step-Inv :
    {bound : ℕ} {s t : Object} → bound < 2 ^ 31 - 1 → Step s t → Inv bound s → Inv (suc bound) t
unfolding strong is_destructed fetch_add fetch_sub
Step-Inv h (Step.increment_failed d) i = ground arith
Step-Inv h (Step.increment d p) i = ground arith
Step-Inv h (Step.increment_first d p) i = ground arith
Step-Inv h (Step.increment_second p) i = ground arith
Step-Inv h (Step.decrement n p q) i = ground arith
Step-Inv h (Step.destruct_later p q r) i = ground arith
Step-Inv h (Step.permit p) i = ground arith
Step-Inv h (Step.destruct p q r) i = ground arith
Step-Inv h (Step.non_zero d p) i = ground arith
Step-Inv h (Step.weak w p q r) i = ground (arith, q, r)

Reach-Inv :
    {init k : ℕ} {s : Object} → 0 < init → init + k < 2 ^ 31 → Reach init k s → Inv (init + k) s
unfolding create_object strong is_destructed
Reach-Inv pos h start = ground arith
Reach-Inv {init} pos h (later {k} r st) =
    ground (arith, Step-Inv {bound = init + k} (omega arith) st (Reach-Inv pos (omega arith) r))

module _ {init k : ℕ} {s : Object} (positive : 0 < init) (small : init + k < 2 ^ 31)
    (r : Reach init k s) where
  -- If an object is created with at least one reference, and the number of references it is created
  -- with and the number of accesses to its word stay below 2^31 together, then while there is a
  -- strong reference the object has not been destructed, and its value has not been dropped.
  pub referenced_not_destructed : 0 < s.refs → (is_destructed s.word ≡ false) × (s.drops ≡ 0)
  referenced_not_destructed h = ground (arith, Reach-Inv positive small r)

  -- Under the same bounds the value is dropped at most once, and the flag says whether it was.
  dropped_once : s.drops ≡ (if is_destructed s.word then 1 else 0)
  dropped_once = ground (arith, Reach-Inv positive small r)

  -- Under the same bounds an object without references has been destructed, or a task or a permit is
  -- there that comes back to it: it is not forgotten.
  pub unreferenced_not_lost : s.refs ≡ 0 → (is_destructed s.word ≡ true) ⊎ (0 < s.tasks + s.permits)
  unreferenced_not_lost h = ground (arith, Reach-Inv positive small r)
