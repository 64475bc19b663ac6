-- ===== src/Ebr/Local/Pin.antt =====
-- internal.rs: `pin` and its loop.
use smr_benchmark.Prelude.{
  ◌+◌, ◌^◌, ◌<◌, ◌≡◌, refl, true, false, List, ◌∷◌, not, ap, inl, inr, ltb, ◌==◌, if◌then◌else◌,
  arith, Bool-cases, ◌∙◌,
}
use smr_benchmark.Ebr.Epoch.{Epoch, starting, pinned, unpinned, value, epoch_eq}
use smr_benchmark.Ebr.Global.{Global, Participant}
use smr_benchmark.Ebr.Local.{done, note_epoch, moved_to, pin_loop, pin}
use smr_benchmark.Ebr.Local.Trace.{trace, trace-note_epoch}

-- The rounds of the loop of `pin`, of which the first whose two loads find the same epoch is the last
-- one that is run, and finds `g`.
pub data Settles : List (Epoch × Epoch) → Epoch → Type 0 where
  agrees :
      {first g : Epoch} {rounds : List (Epoch × Epoch)}
      → value first ≡ value g
      → Settles ((first, g) ∷ rounds) g
  differs :
      {first second g : Epoch} {rounds : List (Epoch × Epoch)}
      → (value first == value second) ≡ false
      → Settles rounds g
      → Settles ((first, second) ∷ rounds) g

value-pinned : (g : Epoch) → value (pinned g) ≡ value g
unfolding value pinned unpinned
value-pinned g = omega arith

pinned_same : (e g : Epoch) → value e ≡ value g → pinned e ≡ pinned g
unfolding value pinned unpinned
pinned_same e g h = ground (arith, h)

epoch_eq_self : {e f : Epoch} → e ≡ f → epoch_eq e f ≡ true
unfolding epoch_eq
epoch_eq_self h = ground arith

module _ {ℓ} {D : Type ℓ} where
  -- Pinned at the global epoch `g`
  landed : Epoch → Participant D → Participant D
  landed g s = record s {
    global = record s.global { epoch = g };
    local = record s.local { epoch = pinned g };
  }

  pin_loop_done :
      {rounds : List (Epoch × Epoch)} {g : Epoch} (s : Participant D)
      → Settles rounds g
      → s.local.epoch ≡ starting
      → pin_loop rounds s ≡ done (landed g s, pinned g)
  unfolding pin_loop landed moved_to
  pin_loop_done s (agrees {first} {g} same) e =
      let valid : (value (pinned g) == value g) ≡ true = ground (arith, value-pinned g) in
      rw (epoch_eq_self e, pinned_same first g same, valid) refl
  pin_loop_done s (differs {first} {second} {g} other rest) e =
      let stale : (value (pinned first) == value second) ≡ false =
        ground (arith, value-pinned first, other) in
      rw stale (
        pin_loop_done
          (record s {
            global = record s.global { epoch = second };
            local = record s.local { epoch = starting };
          })
          rest refl)

  note_epoch_keeps :
      (e : Epoch) (s : Participant D)
      → ((note_epoch e s).local.guard_count ≡ s.local.guard_count)
        × ((note_epoch e s).local.handle_count ≡ s.local.handle_count)
        × ((note_epoch e s).local.epoch ≡ s.local.epoch)
        × ((note_epoch e s).local.bag ≡ s.local.bag)
        × ((note_epoch e s).local.must_collect ≡ s.local.must_collect)
        × ((note_epoch e s).global ≡ s.global)
  unfolding note_epoch
  note_epoch_keeps e s = elim (Bool-cases (not (epoch_eq e s.local.prev_epoch))) [
    | inl h ↦ rw h (refl, refl, refl, refl, refl, refl)
    | inr h ↦ rw h (refl, refl, refl, refl, refl, refl)
  ]

  -- What a call of `pin` leaves: one more guard, the trace as it was, and under the first guard the
  -- local epoch pinned at the global one; under a further guard both are left alone.
  pub record IsPinned (g : Epoch) (s t : Participant D) : Type ℓ where
    pub guards : t.local.guard_count ≡ s.local.guard_count + 1
    pub handles : t.local.handle_count ≡ s.local.handle_count
    pub same_trace : trace t ≡ trace s
    pub epoch : t.local.epoch ≡ (if s.local.guard_count == 0 then pinned g else s.local.epoch)
    pub global_epoch : t.global.epoch ≡ (if s.local.guard_count == 0 then g else s.global.epoch)

  -- The other participants move the global epoch between the loads of `pin`. Unless the count of
  -- guards overflows, `pin` returns once the two loads of a round find the same epoch, and there is
  -- one more guard: if it is the first, on a local epoch that was unpinned, the local epoch is pinned
  -- at the global epoch as the second load of that round found it, whatever earlier rounds stored;
  -- if not, neither epoch is touched. The handles and the functions called, queued and in the bag are
  -- as they were.
  pub pin-IsPinned :
      (rounds : List (Epoch × Epoch)) (g : Epoch) (s : Participant D)
      → Settles rounds g
      → s.local.guard_count + 1 < 2 ^ 64
      → (s.local.guard_count ≡ 0 → s.local.epoch ≡ starting)
      → (t : Participant D) × (pin rounds s ≡ done t) × IsPinned g s t
  unfolding pin landed
  pin-IsPinned rounds g s settles room unpinned =
      let fits : ltb (s.local.guard_count + 1) (2 ^ 64) ≡ true = ground arith in
      let counted : Participant D = record s {
        local = record s.local { guard_count = s.local.guard_count + 1 };
      } in
      elim (Bool-cases (s.local.guard_count == 0)) [
        | inl h ↦
            let keeps = note_epoch_keeps (pinned g) (landed g counted) in
            (
              note_epoch (pinned g) (landed g counted),
              rw (fits, h, pin_loop_done counted settles (unpinned (ground arith))),
              record {
                guards = keeps.0;
                handles = keeps.1;
                same_trace = trace-note_epoch (pinned g) (landed g counted);
                epoch = keeps.2 ∙ rw h refl;
                global_epoch = ap (λ (m : Global D). m.epoch) keeps.5 ∙ rw h refl;
              },
            )
        | inr h ↦ (
          counted,
          rw (fits, h),
          record {
            guards = refl;
            handles = refl;
            same_trace = refl;
            epoch = rw h;
            global_epoch = rw h;
          },
        )
      ]
