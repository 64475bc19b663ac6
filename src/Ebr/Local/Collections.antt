-- ===== src/Ebr/Local/Collections.antt =====
-- internal.rs: the collections that `unpin` runs, where the functions that they call do not call back.
use smr_benchmark.Prelude.{
  ℕ, suc, ◌≡◌, refl, true, false, not, ◌&&◌, ◌⊎◌, inl, inr, ◌==◌, arith, Bool-cases, ◌∙◌,
}
use smr_benchmark.Ebr.Global.{Participant, collect, try_advance, silent}
use smr_benchmark.Ebr.Local.{done, repin_without_collect, run_collections, collect_scheduled}
use smr_benchmark.Ebr.Local.Trace.{trace, trace-collect, trace-repin_without_collect}
use smr_benchmark.Ebr.Local.Trace.{collect_loop-Collected}

module _ {ℓ} {D : Type ℓ} where
  collect_local :
      (s : Participant D)
      → (collect silent s).local ≡ record s.local { manual_count = 0; pin_count = 0 }
  unfolding collect try_advance
  collect_local s =
      let fresh : Participant D = record s {
        local = record s.local { manual_count = 0; pin_count = 0 };
      } in
      (collect_loop-Collected 16 (try_advance fresh).0).same_local ∙ ground arith

  -- What the collections of `unpin` leave alone
  pub record Kept (s t : Participant D) : Type ℓ where
    pub guards : t.local.guard_count ≡ s.local.guard_count
    pub handles : t.local.handle_count ≡ s.local.handle_count
    pub bag : t.local.bag ≡ s.local.bag
    pub same_trace : trace t ≡ trace s

  -- One round of the `while` of `unpin`
  round : Participant D → Participant D
  round s =
      repin_without_collect
        (collect silent (record s { local = record s.local { must_collect = false } }))

  round_lem : (s : Participant D) → Kept s (round s) × ((round s).local.must_collect ≡ false)
  unfolding round repin_without_collect
  round_lem s =
      let cleared : Participant D = record s { local = record s.local { must_collect = false } } in
      let same = collect_local cleared in
      (
        record {
          guards = ground (arith, same);
          handles = ground (arith, same);
          bag = ground (arith, same);
          same_trace = trace-repin_without_collect (collect silent cleared) ∙ trace-collect cleared;
        },
        ground (arith, same),
      )

  run_collections-Kept :
      (fuel : ℕ) (s : Participant D)
      → (t : Participant D) × (run_collections silent (suc (suc fuel)) s ≡ done t) × Kept s t
  unfolding run_collections round
  run_collections-Kept fuel s = elim (Bool-cases s.local.must_collect) [
    | inl e ↦ let (kept, cleared) = round_lem s in (round s, rw (e, cleared), kept)
    | inr e ↦ (s, rw e, record { guards = refl; handles = refl; bag = refl; same_trace = refl })
  ]

  pub collect_scheduled-Kept :
      (fuel : ℕ) (s : Participant D)
      → (t : Participant D) × (collect_scheduled silent (suc (suc fuel)) s ≡ done t)
        × Kept s t
        × (((s.local.guard_count == 1) ≡ true) ⊎ (t.local.epoch ≡ s.local.epoch))
  unfolding collect_scheduled
  collect_scheduled-Kept fuel s =
      let busy : Participant D = record s { local = record s.local { collecting = true } } in
      elim (Bool-cases (s.local.guard_count == 1 && not s.local.collecting)) [
        | inl e ↦
            let (t, run, kept) = run_collections-Kept fuel busy in
            (
              record t { local = record t.local { collecting = false } },
              rw (e, run),
              record {
                guards = kept.guards;
                handles = kept.handles;
                bag = kept.bag;
                same_trace = kept.same_trace;
              },
              inl (ground arith),
            )
        | inr e ↦ (
          s,
          rw e,
          record { guards = refl; handles = refl; bag = refl; same_trace = refl },
          inr refl,
        )
      ]
