-- ===== src/Counts.antt =====
-- smrs/circ/src/smr/hp.rs: the strong count of an object, in one word with its weak count and two
-- flags, as any number of threads change it, one access to the word at a time.
pub mod Invariant
mod Examples
use smr_benchmark.Prelude.{
  ℕ, zero, suc, ◌+◌, ◌-◌, ◌*◌, ◌/◌, ◌%◌, ◌^◌, ◌<◌, ◌≤◌, ◌≡◌, Bool, true, false, ◌==◌, if◌then◌else◌,
}

-- `COUNT`, `WEAK_COUNT` and `DESTRUCTED`
abbrev pub one_count : ℕ
one_count = 1

abbrev pub one_weak : ℕ
one_weak = 2 ^ 31

abbrev pub destructed_bit : ℕ
destructed_bit = 2 ^ 63

-- `& STRONG`, the low 31 bits
unfoldable pub strong : ℕ → ℕ
strong word = word % 2 ^ 31

-- `& DESTRUCTED`
unfoldable pub is_destructed : ℕ → Bool
is_destructed word = word / destructed_bit % 2 == 1

unfoldable pub fetch_add : ℕ → ℕ → ℕ
fetch_add word n = (word + n) % 2 ^ 64

unfoldable pub fetch_sub : ℕ → ℕ → ℕ
fetch_sub word n = (word + 2 ^ 64 - n) % 2 ^ 64

-- The state that `create_object` gives an object with `init_strong` references
unfoldable pub create_object : ℕ → ℕ
create_object init_strong = init_strong * one_count + one_weak

-- The word of the object, and who acts on it: `refs` strong references are owned, `tasks` calls of
-- `try_destruct` are deferred, `permits` calls of it have seen a count and are about to take one off,
-- `owing` calls of `increment_strong` have found the count at 0 and are about to add the second one,
-- and `drops` times the value has been dropped.
pub record Object : Type 0 where
  pub word : ℕ
  pub refs : ℕ
  pub tasks : ℕ
  pub permits : ℕ
  pub owing : ℕ
  pub drops : ℕ

-- What a subtraction that leaves the count at 0 defers
abbrev pub deferred : ℕ → ℕ → ℕ
deferred word n = if strong word == n then 1 else 0

-- One access to the word
pub data Step (s : Object) : Object → Type 0 where
  -- `increment_strong`: the object is gone, and the call returns false.
  increment_failed :
      is_destructed s.word ≡ true → Step s (record s { word = fetch_add s.word one_count })
  -- `increment_strong`: there is a count already.
  increment :
      is_destructed s.word ≡ false
      → 0 < strong s.word
      → Step s (record s { word = fetch_add s.word one_count; refs = s.refs + 1 })
  -- `increment_strong` from 0: a count for the deferred task, and then one for the reference.
  increment_first :
      is_destructed s.word ≡ false
      → strong s.word ≡ 0
      → Step s (record s { word = fetch_add s.word one_count; owing = s.owing + 1 })
  increment_second :
      0 < s.owing
      → Step s
          (record s { word = fetch_add s.word one_count; owing = s.owing - 1; refs = s.refs + 1 })
  -- `decrement_strong` by an owner of `n` references
  decrement :
      (n : ℕ)
      → 0 < n
      → n ≤ s.refs
      → Step s (record s {
        word = fetch_sub s.word (n * one_count);
        refs = s.refs - n;
        tasks = s.tasks + deferred s.word (n * one_count);
      })
  -- `try_destruct` finds a count. A deferred task runs when no thread protects the object, and a
  -- thread protects it throughout `increment_strong`.
  destruct_later :
      0 < s.tasks
      → s.owing ≡ 0
      → 0 < strong s.word
      → Step s (record s { tasks = s.tasks - 1; permits = s.permits + 1 })
  -- Then it calls `decrement_strong`.
  permit :
      0 < s.permits
      → Step s (record s {
        word = fetch_sub s.word one_count;
        permits = s.permits - 1;
        tasks = s.tasks + deferred s.word one_count;
      })
  -- `try_destruct` finds no count, and its exchange succeeds.
  destruct :
      0 < s.tasks
      → s.owing ≡ 0
      → strong s.word ≡ 0
      → Step s (record s {
        word = if is_destructed s.word then s.word else s.word + destructed_bit;
        tasks = s.tasks - 1;
        drops = s.drops + 1;
      })
  -- `non_zero`: its exchange succeeds.
  non_zero :
      is_destructed s.word ≡ false
      → strong s.word ≡ 0
      → Step s (record s { word = fetch_add s.word one_count })
  -- The operations on the weak count change other bits.
  weak :
      (word : ℕ)
      → word < 2 ^ 64
      → strong word ≡ strong s.word
      → is_destructed word ≡ is_destructed s.word
      → Step s (record s { word = word })

abbrev pub created : ℕ → Object
created init_strong = record {
  word = create_object init_strong;
  refs = init_strong;
  tasks = 0;
  permits = 0;
  owing = 0;
  drops = 0;
}

-- The states after `k` steps
pub data Reach (init_strong : ℕ) : ℕ → Object → Type 0 where
  start : Reach init_strong 0 (created init_strong)
  later : {k : ℕ} {s t : Object} → Reach init_strong k s → Step s t → Reach init_strong (suc k) t
