-- ===== src/Vbr/Effects.antt =====
-- smrs/vbr/src/lib.rs: what a step does to the epochs.
use smr_benchmark.Prelude.{ℕ, suc, ◌≤◌, ◌≡◌, refl, ◌⊎◌, inl, inr, arith, ◌∙◌, ap, ℕ_discrete}
use smr_benchmark.Vbr.{
  not_retired, Memory, Thread, Event, Move, setting_birth, setting_retire, storing,
}
use smr_benchmark.Vbr.Move.{
  new_local, refresh, allocate_start, pop_slot, pop_empty_bag, pop_no_bag, acquire_bag, acquire_new,
  return_avail, return_avail_panic, advance, advance_lost, allocate_assert, allocate_slot,
  set_birth, set_retire, retire_start, retire_reclaimed, retire_current, retire_twice, retire_once,
  read_epoch, store_retire, push_retired, retire_bag, push_new_bag, load_link, load_null,
  load_birth, validate_epoch, validate_fails, exchange_start, owner_reallocated, owner_valid,
  owner_null, swap, swap_lost, leave, leave_retired, leave_avail, left,
}

-- What a step does to the epochs of one slot
pub data Change (m : Memory) (t : Thread) (m' : Memory) (x : ℕ) : Type 0 where
  unchanged : m'.birth x ≡ m.birth x → m'.retire x ≡ m.retire x → Change m t m' x
  born : t.pc ≡ setting_birth x → m'.birth x ≡ t.epoch → m'.retire x ≡ m.retire x → Change m t m' x
  allocated :
      t.pc ≡ setting_retire x → m'.birth x ≡ m.birth x → m'.retire x ≡ not_retired → Change m t m' x
  retired :
      (c : ℕ) → t.pc ≡ storing x c → m'.birth x ≡ m.birth x → m'.retire x ≡ c → Change m t m' x

-- The epoch that a retirement is to store is one that has been read.
abbrev pub Read : Memory → Thread → Thread → Type 0
Read m t t' = (x c : ℕ) → t'.pc ≡ storing x c → (t.pc ≡ storing x c) ⊎ (c ≡ m.epoch)

pub record Effect (m : Memory) (t : Thread) (m' : Memory) (t' : Thread) : Type 0 where
  pub epoch_le : m.epoch ≤ m'.epoch
  pub epoch_suc : m'.epoch ≤ suc m.epoch
  pub slot : (x : ℕ) → Change m t m' x
  pub read : Read m t t'

calm :
    (m : Memory) (t : Thread) (m' : Memory) (t' : Thread)
    → m.epoch ≤ m'.epoch
    → m'.epoch ≤ suc m.epoch
    → ((x : ℕ) → (m'.birth x ≡ m.birth x) × (m'.retire x ≡ m.retire x))
    → Read m t t'
    → Effect m t m' t'
calm m t m' t' le small same r = record {
  epoch_le = le;
  epoch_suc = small;
  slot = λ x. unchanged (same x).0 (same x).1;
  read = r;
}

-- A step changes the epochs of a slot in three places alone: the two stores of `allocate`, and that
-- of `retire_raw`.
pub Move-Effect :
    {cap : ℕ} {permitted : ℕ → Type 0} {m : Memory} {t : Thread} {e : Event} {m' : Memory}
    {t' : Thread}
    → Move cap permitted m t e m' t'
    → Effect m t m' t'
Move-Effect {m} {t} {m'} {t'} (new_local q) =
    calm m t m' t' (omega arith) (omega arith) (λ x. (refl, refl))
      (λ x c h. absurd (ground (arith, h)))
Move-Effect {m} {t} {m'} {t'} (allocate_start q) =
    calm m t m' t' (omega arith) (omega arith) (λ x. (refl, refl))
      (λ x c h. absurd (ground (arith, h)))
Move-Effect {m} {t} {m'} {t'} (pop_slot x b bs q f) =
    calm m t m' t' (omega arith) (omega arith) (λ x. (refl, refl))
      (λ x c h. absurd (ground (arith, h)))
Move-Effect {m} {t} {m'} {t'} (pop_no_bag q f) =
    calm m t m' t' (omega arith) (omega arith) (λ x. (refl, refl))
      (λ x c h. absurd (ground (arith, h)))
Move-Effect {m} {t} {m'} {t'} (acquire_bag b before after q f) =
    calm m t m' t' (omega arith) (omega arith) (λ x. (refl, refl))
      (λ x c h. absurd (ground (arith, h)))
Move-Effect {m} {t} {m'} {t'} (return_avail b bs q le f) =
    calm m t m' t' (omega arith) (omega arith) (λ x. (refl, refl))
      (λ x c h. absurd (ground (arith, h)))
Move-Effect {m} {t} {m'} {t'} (return_avail_panic q le f) =
    calm m t m' t' (omega arith) (omega arith) (λ x. (refl, refl))
      (λ x c h. absurd (ground (arith, h)))
Move-Effect {m} {t} {m'} {t'} (advance q f) =
    calm m t m' t' (omega arith) (omega arith) (λ x. (refl, refl))
      (λ x c h. absurd (ground (arith, h)))
Move-Effect {m} {t} {m'} {t'} (advance_lost q f) =
    calm m t m' t' (omega arith) (omega arith) (λ x. (refl, refl))
      (λ x c h. absurd (ground (arith, h)))
Move-Effect {m} {t} {m'} {t'} (allocate_assert q r b) =
    calm m t m' t' (omega arith) (omega arith) (λ x. (refl, refl))
      (λ x c h. absurd (ground (arith, h)))
Move-Effect {m} {t} {m'} {t'} (allocate_slot q r b) =
    calm m t m' t' (omega arith) (omega arith) (λ x. (refl, refl))
      (λ x c h. absurd (ground (arith, h)))
Move-Effect {m} {t} {m'} {t'} (refresh q) =
    calm m t m' t' (omega arith) (omega arith) (λ x. (refl, refl)) (λ x c h. inl h)
Move-Effect {m} {t} {m'} {t'} (pop_empty_bag bs q f) =
    calm m t m' t' (omega arith) (omega arith) (λ x. (refl, refl)) (λ x c h. inl h)
Move-Effect {m} {t} {m'} {t'} (acquire_new q f) =
    calm m t m' t' (omega arith) (omega arith) (λ x. (refl, refl)) (λ x c h. inl h)
Move-Effect {m} {t} {m'} {t'} (set_birth {x} q) = record {
  epoch_le = omega arith;
  epoch_suc = omega arith;
  slot = λ y. elim (ℕ_discrete x y) [
    | yes e ↦ born (q ∙ ap setting_birth e) (ground (arith, e)) refl
    | no ne ↦ unchanged (ground (arith, ne)) refl
  ];
  read = λ y c h. absurd (ground (arith, h));
}
Move-Effect {m} {t} {m'} {t'} (set_retire {x} q) = record {
  epoch_le = omega arith;
  epoch_suc = omega arith;
  slot = λ y. elim (ℕ_discrete x y) [
    | yes e ↦ allocated (q ∙ ap setting_retire e) refl (ground (arith, e))
    | no ne ↦ unchanged refl (ground (arith, ne))
  ];
  read = λ y c h. absurd (ground (arith, h));
}
Move-Effect {m} {t} {m'} {t'} (retire_start x b q l g f) =
    calm m t m' t' (omega arith) (omega arith) (λ x. (refl, refl))
      (λ x c h. absurd (ground (arith, h)))
Move-Effect {m} {t} {m'} {t'} (retire_reclaimed q le) =
    calm m t m' t' (omega arith) (omega arith) (λ x. (refl, refl))
      (λ x c h. absurd (ground (arith, h)))
Move-Effect {m} {t} {m'} {t'} (retire_current q le) =
    calm m t m' t' (omega arith) (omega arith) (λ x. (refl, refl))
      (λ x c h. absurd (ground (arith, h)))
Move-Effect {m} {t} {m'} {t'} (retire_twice q ne) =
    calm m t m' t' (omega arith) (omega arith) (λ x. (refl, refl))
      (λ x c h. absurd (ground (arith, h)))
Move-Effect {m} {t} {m'} {t'} (retire_once q l) =
    calm m t m' t' (omega arith) (omega arith) (λ x. (refl, refl))
      (λ x c h. absurd (ground (arith, h)))
Move-Effect {m} {t} {m'} {t'} (read_epoch q) =
    calm m t m' t' (omega arith) (omega arith) (λ x. (refl, refl))
      (λ x c h. inr (ground (arith, h)))
Move-Effect {m} {t} {m'} {t'} (store_retire {x} {c = d} q) = record {
  epoch_le = omega arith;
  epoch_suc = omega arith;
  slot = λ y. elim (ℕ_discrete x y) [
    | yes e ↦ retired d (q ∙ ap (λ z. storing z d) e) refl (ground (arith, e))
    | no ne ↦ unchanged refl (ground (arith, ne))
  ];
  read = λ y c h. absurd (ground (arith, h));
}
Move-Effect {m} {t} {m'} {t'} (push_retired b bs q f r) =
    calm m t m' t' (omega arith) (omega arith) (λ x. (refl, refl))
      (λ x c h. absurd (ground (arith, h)))
Move-Effect {m} {t} {m'} {t'} (retire_bag b bs q f r) =
    calm m t m' t' (omega arith) (omega arith) (λ x. (refl, refl)) (λ x c h. inl h)
Move-Effect {m} {t} {m'} {t'} (push_new_bag q f) =
    calm m t m' t' (omega arith) (omega arith) (λ x. (refl, refl))
      (λ x c h. absurd (ground (arith, h)))
Move-Effect {m} {t} {m'} {t'} (load_link c q) =
    calm m t m' t' (omega arith) (omega arith) (λ x. (refl, refl))
      (λ x c h. absurd (ground (arith, h)))
Move-Effect {m} {t} {m'} {t'} (load_null q f) =
    calm m t m' t' (omega arith) (omega arith) (λ x. (refl, refl))
      (λ x c h. absurd (ground (arith, h)))
Move-Effect {m} {t} {m'} {t'} (load_birth x q f) =
    calm m t m' t' (omega arith) (omega arith) (λ x. (refl, refl))
      (λ x c h. absurd (ground (arith, h)))
Move-Effect {m} {t} {m'} {t'} (validate_epoch q f) =
    calm m t m' t' (omega arith) (omega arith) (λ x. (refl, refl))
      (λ x c h. absurd (ground (arith, h)))
Move-Effect {m} {t} {m'} {t'} (validate_fails q f) =
    calm m t m' t' (omega arith) (omega arith) (λ x. (refl, refl))
      (λ x c h. absurd (ground (arith, h)))
Move-Effect {m} {t} {m'} {t'} (exchange_start c o a b q) =
    calm m t m' t' (omega arith) (omega arith) (λ x. (refl, refl))
      (λ x c h. absurd (ground (arith, h)))
Move-Effect {m} {t} {m'} {t'} (owner_reallocated x q f g) =
    calm m t m' t' (omega arith) (omega arith) (λ x. (refl, refl))
      (λ x c h. absurd (ground (arith, h)))
Move-Effect {m} {t} {m'} {t'} (owner_valid x q f g) =
    calm m t m' t' (omega arith) (omega arith) (λ x. (refl, refl))
      (λ x c h. absurd (ground (arith, h)))
Move-Effect {m} {t} {m'} {t'} (owner_null q f) =
    calm m t m' t' (omega arith) (omega arith) (λ x. (refl, refl))
      (λ x c h. absurd (ground (arith, h)))
Move-Effect {m} {t} {m'} {t'} (swap q f) =
    calm m t m' t' (omega arith) (omega arith) (λ x. (refl, refl))
      (λ x c h. absurd (ground (arith, h)))
Move-Effect {m} {t} {m'} {t'} (swap_lost q f) =
    calm m t m' t' (omega arith) (omega arith) (λ x. (refl, refl))
      (λ x c h. absurd (ground (arith, h)))
Move-Effect {m} {t} {m'} {t'} (leave q) =
    calm m t m' t' (omega arith) (omega arith) (λ x. (refl, refl))
      (λ x c h. absurd (ground (arith, h)))
Move-Effect {m} {t} {m'} {t'} (leave_retired b bs q f) =
    calm m t m' t' (omega arith) (omega arith) (λ x. (refl, refl)) (λ x c h. inl h)
Move-Effect {m} {t} {m'} {t'} (leave_avail b bs q f g) =
    calm m t m' t' (omega arith) (omega arith) (λ x. (refl, refl)) (λ x c h. inl h)
Move-Effect {m} {t} {m'} {t'} (left q f g) =
    calm m t m' t' (omega arith) (omega arith) (λ x. (refl, refl))
      (λ x c h. absurd (ground (arith, h)))
