-- ===== src/Ebr/Race/Guards.antt =====
-- The premise of each move of internal.rs, and membership after a push.
use smr_benchmark.Prelude.{ℕ, ◌<◌, ◌≡◌, true, false, ◌⊎◌, inl, inr, List, [], ◌∷◌, ◌++◌}
use smr_benchmark.Ebr.Epoch.{Epoch, pinned, value, epoch_eq}
use smr_benchmark.Ebr.Bag.{is_expired}
use smr_benchmark.Ebr.Race.{
  Shared, Pc, Thread, blocks, Move, pin_valid, acquire, unlink, repin_same, repin_store,
  advance_next, advance_done, collect_pop,
}
use smr_benchmark.Ebr.Race.Invariant.{In}

pub In-append : {A : Type 0} (xs : List A) (a b : A) → In b (xs ++ a ∷ []) → In b xs ⊎ (a ≡ b)
In-append [] a b (inl e) = inr e
In-append [] a b (inr h) = elim h [ ]
In-append (x ∷ xs) a b (inl e) = inl (inl e)
In-append (x ∷ xs) a b (inr h) = elim (In-append xs a b h) [ inl q ↦ inl (inr q) | inr e ↦ inr e ]

-- The premise of a move, for the catch-all clauses below, which cannot name it.
abbrev pub Guard :
    {n c : ℕ} {ep : ℕ → Epoch} {m : Shared} {t : Thread} {p : Pc} {m' : Shared} {t' : Thread}
    → Move n c ep m t p m' t'
    → Type 0
Guard {m} (pin_valid {e} _) = value (pinned e) ≡ value m.global
Guard {m} (acquire o _) = m.linked o ≡ true
Guard {m} (unlink o _) = m.linked o ≡ true
Guard {t} (repin_same {e} _) = epoch_eq t.epoch (pinned e) ≡ true
Guard {t} (repin_store {e} _) = epoch_eq t.epoch (pinned e) ≡ false
Guard {n} {ep} (advance_next {e} {k} _ _) = (k < n) × (blocks (ep k) e ≡ false)
Guard {n} (advance_done {k} _) = k ≡ n
Guard {m} (collect_pop {e} {b} {rest} _ _) = (m.queue ≡ b ∷ rest) × (is_expired b e ≡ true)
Guard _ = Unit

pub guard :
    {n c : ℕ} {ep : ℕ → Epoch} {m : Shared} {t : Thread} {p : Pc} {m' : Shared} {t' : Thread}
    → (mv : Move n c ep m t p m' t') → Guard mv
guard (pin_valid g) = g
guard (acquire o g) = g
guard (unlink o g) = g
guard (repin_same g) = g
guard (repin_store g) = g
guard (advance_next g h) = (g, h)
guard (advance_done g) = g
guard (collect_pop g h) = (g, h)
guard _ = tt
