-- ===== src/Vbr/Invariant.antt =====
-- smrs/vbr/src/lib.rs: what holds of the slots and of what a thread knows.
use smr_benchmark.Prelude.{
  ℕ, ◌+◌, ◌≤◌, ◌<◌, ◌≡◌, ◌≢◌, List, [], ◌∷◌, Option, none, some, ◌==◌, ltb, length, ◌⊎◌,
}
use smr_benchmark.Prelude.Counting.{bit, sum_below}
use smr_benchmark.Vbr.{
  not_retired, Bag, Memory, Thread, Pc, absent, idle, popping, acquiring, checking, advancing,
  setting_birth, setting_retire, retiring, retiring_raw, reading_epoch, storing, pushing, loading,
  validating, exchanging, swapping, leaving, panicked,
}
use smr_benchmark.Vbr.Bags.{in_bags, Fit}

-- Whether a thread has the slot in hand, out of every bag
abbrev pub held : ℕ → Pc → ℕ
held x (checking y) = bit (y == x)
held x (setting_birth y) = bit (y == x)
held x (setting_retire y) = bit (y == x)
held x (pushing y) = bit (y == x)
held x _ = 0

abbrev pub weight : ℕ → Thread → ℕ
weight x t = in_bags t.avail x + in_bags t.retired x + held x t.pc

-- In how many places the slot is: in bags, in hand, or allocated
abbrev pub copies : ℕ → Memory → (ℕ → Thread) → ℕ → ℕ
copies threads m th x =
    in_bags m.avail x + sum_below threads (λ j. weight x (th j)) + bit (m.retire x == not_retired)

-- The slot that a thread works on
abbrev pub touches : Pc → Option ℕ
touches (checking x) = some x
touches (setting_birth x) = some x
touches (setting_retire x) = some x
touches (retiring x b) = some x
touches (retiring_raw x) = some x
touches (reading_epoch x) = some x
touches (storing x c) = some x
touches (pushing x) = some x
touches _ = none

-- The first of the bags has room.
abbrev pub Room : ℕ → List Bag → Type 0
Room cap [] = ⊥
Room cap (b ∷ bs) = length b < cap

abbrev pub At : ℕ → Memory → Thread → Pc → Type 0
At cap m t absent = (t.avail ≡ []) × (t.retired ≡ [])
At cap m t idle = Unit
At cap m t popping = Unit
At cap m t acquiring = t.avail ≡ []
At cap m t (checking x) = Room cap t.avail
At cap m t advancing = Unit
At cap m t (setting_birth x) = (m.retire x < t.epoch) × (m.birth x < t.epoch)
At cap m t (setting_retire x) = (m.retire x < t.epoch) × (m.birth x ≡ t.epoch)
At cap m t (retiring x b) = (m.retire x ≡ not_retired) × (m.birth x ≡ b)
At cap m t (retiring_raw x) = m.retire x ≡ not_retired
At cap m t (reading_epoch x) = m.retire x ≡ not_retired
At cap m t (storing x c) = (m.retire x ≡ not_retired) × (m.birth x ≤ c) × (c ≤ m.epoch)
At cap m t (pushing x) = Unit
At cap m t (loading w) = Unit
At cap m t (validating s) = Unit
At cap m t (exchanging c owner current new) = Unit
At cap m t (swapping c curr next) = Unit
At cap m t leaving = Unit
At cap m t panicked = ⊥

pub record Inv (threads cap : ℕ) (m : Memory) (th : ℕ → Thread) : Type 0 where
  pub copied : (x : ℕ) → copies threads m th x ≡ bit (ltb x m.fresh)
  pub guard_le : (j : ℕ) → (th j).epoch ≤ m.epoch
  pub retire_le : (x : ℕ) → (m.retire x ≤ m.epoch) ⊎ (m.retire x ≡ not_retired)
  pub birth_le : (x : ℕ) → m.birth x ≤ m.epoch
  pub ordered : (x : ℕ) → ((j : ℕ) → (th j).pc ≢ setting_retire x) → m.birth x ≤ m.retire x
  pub fit : Fit cap m.avail
  pub fit_local : (j : ℕ) → Fit cap (th j).avail × Fit cap (th j).retired
  pub at : (j : ℕ) → At cap m (th j) (th j).pc
  pub apart : (j k x : ℕ) → touches (th j).pc ≡ some x → touches (th k).pc ≡ some x → j ≡ k
  pub outside : (j : ℕ) → threads ≤ j → (th j).pc ≡ absent
