-- ===== src/Ebr/Bag.antt =====
-- smrs/circ/src/smr/ebr_impl/internal.rs: `Bag`, a bounded list of deferred functions, and
-- `SealedBag`, a bag with the global epoch at which it was handed over.
use smr_benchmark.Prelude.{ℕ, Bool, true, false, ◌++◌, List, [], ◌∷◌, ltb, length, if◌then◌else◌}
use smr_benchmark.Prelude.Int.{pos, leb_ℤ}
use smr_benchmark.Ebr.Epoch.{Epoch, wrapping_sub}

-- `Result<(), Deferred>`: the deferred function comes back when there is no room.
pub data PushResult {ℓ} (A : Type ℓ) : Type ℓ where
  ok : PushResult A
  err : A → PushResult A

-- `Vec<Deferred>` with the capacity that it was made with; it is never grown.
pub record Bag {ℓ} (A : Type ℓ) : Type ℓ where
  pub deferreds : List A
  pub capacity : ℕ

pub record SealedBag {ℓ} (A : Type ℓ) : Type ℓ where
  pub epoch : Epoch
  pub bag : Bag A

-- `Bag::default`: the capacity is the value of `MAX_OBJECTS` at the call.
unfoldable pub new_bag {ℓ} : {A : Type ℓ} → ℕ → Bag A
new_bag max_objects = record { deferreds = []; capacity = max_objects }

unfoldable pub is_empty {ℓ} : {A : Type ℓ} → Bag A → Bool
is_empty b = elim b.deferreds [ [] ↦ true | _ ∷ _ ↦ false ]

-- The slot of `push` is the last of the vector.
unfoldable pub try_push {ℓ} : {A : Type ℓ} → Bag A → A → Bag A × PushResult A
try_push b d =
    if ltb (length b.deferreds) b.capacity
    then (record b { deferreds = b.deferreds ++ d ∷ [] }, ok)
    else (b, err d)

unfoldable pub seal {ℓ} : {A : Type ℓ} → Bag A → Epoch → SealedBag A
seal b e = record { epoch = e; bag = b }

-- Three epochs are let pass.
unfoldable pub is_expired {ℓ} : {A : Type ℓ} → SealedBag A → Epoch → Bool
is_expired b global_epoch = leb_ℤ (pos 3) (wrapping_sub global_epoch b.epoch)
