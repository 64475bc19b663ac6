-- ===== src/Vbr/Versions.antt =====
-- smrs/vbr/src/lib.rs: births as versions.
use smr_benchmark.Prelude.{ℕ, suc, ◌+◌, ◌≤◌, ◌<◌, ◌≡◌, ◌≢◌, refl, arith, ◌⊎◌, inl, inr, subst, ◌∙◌}
use smr_benchmark.Prelude.Family.{update-each}
use smr_benchmark.Vbr.{not_retired, Memory, Thread, setting_retire, storing}
use smr_benchmark.Vbr.Runs.{System, pick, Reach, later, Steps, none_yet, one_more}
use smr_benchmark.Vbr.Invariant.{At, Inv}
use smr_benchmark.Vbr.Effects.{Change, unchanged, born, allocated, retired, Move-Effect}
use smr_benchmark.Vbr.Safety.{Reach-Inv}

-- What a guard of epoch `e` keeps true of a slot of birth `b`, while the global epoch is `e`
record Kept (e b x : ℕ) (u : System) : Type 0 where
  same_birth : u.mem.birth x ≡ b
  not_before : e ≤ u.mem.retire x
  no_older : (j c : ℕ) → (u.thread j).pc ≡ storing x c → e ≤ c
  entered : e ≤ u.mem.epoch

-- Since a state, a slot has been left as it was, or has a later birth.
abbrev Since : System → ℕ → Memory → Type 0
Since s x u =
    ((u.retire x ≡ s.mem.retire x) × (u.birth x ≡ s.mem.birth x)) ⊎ (s.mem.birth x < u.birth x)

module _ {threads cap : ℕ} where
  guarded_change :
      {u : System} {m : Memory} (e b x i : ℕ)
      → Change u.mem (u.thread i) m x
      → Inv threads cap u.mem u.thread
      → Kept e b x u
      → (u.thread i).epoch ≤ u.mem.epoch
      → u.mem.epoch ≤ e
      → (m.birth x ≡ b) × (e ≤ m.retire x)
  guarded_change e b x i (unchanged p q) v old guard le =
      (p ∙ old.same_birth, let g = old.not_before in omega (arith, q, g))
  guarded_change {u} e b x i (born p q o) v old guard le =
      let a = subst (At cap u.mem (u.thread i)) p (v.at i) in
      let g = old.not_before in absurd (omega (arith, a, g, guard, le))
  guarded_change {u} e b x i (allocated p q o) v old guard le =
      let a = subst (At cap u.mem (u.thread i)) p (v.at i) in
      let g = old.not_before in absurd (omega (arith, a, g, guard, le))
  guarded_change e b x i (retired c p q o) v old guard le =
      (q ∙ old.same_birth, let g = old.no_older i c p in omega (arith, o, g))

  version_change :
      (s : System) {u : System} {m : Memory} (x i : ℕ)
      → Change u.mem (u.thread i) m x
      → Inv threads cap u.mem u.thread
      → s.mem.birth x ≤ s.mem.retire x
      → s.mem.retire x ≢ not_retired
      → Since s x u.mem
      → Since s x m
  version_change s x i (unchanged p q) v le ne (inl h) = inl (q ∙ h.0, p ∙ h.1)
  version_change s x i (unchanged p q) v le ne (inr h) = inr (omega (arith, p, h))
  version_change s {u} x i (born p q o) v le ne h =
      let a = subst (At cap u.mem (u.thread i)) p (v.at i) in inr (ground (arith, a, q, o, h, le))
  version_change s {u} x i (allocated p q o) v le ne (inl h) =
      let a = subst (At cap u.mem (u.thread i)) p (v.at i) in absurd (omega (arith, a, h, le))
  version_change s x i (allocated p q o) v le ne (inr h) = inr (omega (arith, q, h))
  version_change s {u} x i (retired c p q o) v le ne (inl h) =
      let a = subst (At cap u.mem (u.thread i)) p (v.at i) in absurd (ne (omega (arith, a, h)))
  version_change s x i (retired c p q o) v le ne (inr h) = inr (omega (arith, q, h))

module _ {threads cap capacity : ℕ} (pos : 0 < cap) where
  append :
      {n k : ℕ} {s t : System}
      → Reach threads cap capacity n s
      → Steps threads cap k s t
      → Reach threads cap capacity (k + n) t
  append {n} {s} r none_yet = subst (λ z. Reach threads cap capacity z s) (omega arith) r
  append {n} {t} r (one_more st step) =
      subst (λ z. Reach threads cap capacity z t) (omega arith) (later (append r st) step)

  guarded_on :
      {n k : ℕ} {s t : System} (e b x : ℕ)
      → Reach threads cap capacity n s
      → Steps threads cap k s t
      → suc (k + n) < not_retired
      → Kept e b x s
      → t.mem.epoch ≤ e
      → Kept e b x t
  guarded_on e b x r none_yet small h le = h
  guarded_on {n} e b x r (one_more {n = k} {s} {u} st (pick i {m} {t} lt mv)) small h le =
      let eff = Move-Effect mv in
      let late = eff.epoch_le in
      let v = (Reach-Inv pos (append r st) (omega (arith, small))).0 in
      let old = guarded_on e b x r st (omega (arith, small)) h (omega (arith, le, late)) in
      let guard = v.guard_le i in
      let stays : (m.birth x ≡ b) × (e ≤ m.retire x) =
        guarded_change e b x i (eff.slot x) v old guard (omega (arith, le, late)) in
      record {
        same_birth = stays.0;
        not_before = stays.1;
        no_older =
            update-each u.thread i t (λ (w : Thread). (c : ℕ) → w.pc ≡ storing x c → e ≤ c)
              (λ c q. elim (eff.read x c q) [
                | inl p ↦ old.no_older i c p
                | inr p ↦ let g = old.entered in omega (arith, p, g)
              ])
              (λ j ne c q. old.no_older j c q);
        entered = let g = old.entered in omega (arith, g, late);
      }

  -- In fewer than 2^64 - 2 steps, and with room in the bags: a slot that is allocated, and whose
  -- retirement no thread is about to store, is not allocated again, as long as the global epoch is
  -- that of a guard: where `validate_epoch` passes, the slot has the birth that it had, and no guard of
  -- this epoch may take it.
  pub validated_load :
      {n k : ℕ} {s t : System} (i x : ℕ)
      → Reach threads cap capacity n s
      → Steps threads cap k s t
      → suc (k + n) < not_retired
      → s.mem.retire x ≡ not_retired
      → ((j c : ℕ) → (s.thread j).pc ≢ storing x c)
      → (s.thread i).epoch ≡ t.mem.epoch
      → (t.mem.birth x ≡ s.mem.birth x) × (t.mem.epoch ≤ t.mem.retire x)
  validated_load {s} {t} i x r st small live free e =
      let v = (Reach-Inv pos r (omega (arith, small))).0 in
      let guard = v.guard_le i in
      let end = (Reach-Inv pos (append r st) (omega (arith, small))).1 in
      let k =
        guarded_on t.mem.epoch (s.mem.birth x) x r st small
          (record {
            same_birth = refl;
            not_before = omega (arith, live, end, small);
            no_older = λ j c q. absurd (free j c q);
            entered = omega (arith, e, guard);
          })
          (omega arith) in
      (k.same_birth, k.not_before)

  version_on :
      {n k : ℕ} {s t : System} (x : ℕ)
      → Reach threads cap capacity n s
      → Steps threads cap k s t
      → suc (k + n) < not_retired
      → s.mem.birth x ≤ s.mem.retire x
      → s.mem.retire x ≢ not_retired
      → Since s x t.mem
  version_on x r none_yet small le ne = inl (refl, refl)
  version_on {s} x r (one_more st (pick i lt mv)) small le ne =
      let v = (Reach-Inv pos (append r st) (omega (arith, small))).0 in
      version_change s x i ((Move-Effect mv).slot x) v le ne
        (version_on x r st (omega (arith, small)) le ne)

  -- In fewer than 2^64 - 2 steps, and with room in the bags: a slot that is not allocated, and that no
  -- thread is giving a birth, has a greater birth wherever it is allocated later.
  pub births_ascend :
      {n k : ℕ} {s t : System} (x : ℕ)
      → Reach threads cap capacity n s
      → Steps threads cap k s t
      → suc (k + n) < not_retired
      → s.mem.retire x ≢ not_retired
      → ((j : ℕ) → (s.thread j).pc ≢ setting_retire x)
      → t.mem.retire x ≡ not_retired
      → s.mem.birth x < t.mem.birth x
  births_ascend {s} {t} x r st small ne free live =
      let v = (Reach-Inv pos r (omega (arith, small))).0 in
      elim (version_on x r st small (v.ordered x free) ne) [
        | inl h ↦ absurd (ne (omega (arith, h, live)))
        | inr h ↦ h
      ]
