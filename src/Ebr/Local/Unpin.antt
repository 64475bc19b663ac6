-- ===== src/Ebr/Local/Unpin.antt =====
-- internal.rs: `unpin`, `finalize` and `release_handle`.
use smr_benchmark.Prelude.{
  ℕ, zero, suc, ◌+◌, ◌-◌, ◌<◌, ◌≡◌, refl, true, false, ◌&&◌, ◌⊎◌, inl, inr, List, [], ◌==◌,
  if◌then◌else◌, arith, Bool-cases, ◌∙◌, ap,
}
use smr_benchmark.Ebr.Epoch.{Epoch, starting}
use smr_benchmark.Ebr.Bag.{Bag, new_bag, is_empty}
use smr_benchmark.Ebr.Global.{Participant, push_bag, silent}
use smr_benchmark.Ebr.Local.{
  Outcome, done, spinning, push_to_global, unpin_with, finalize, unpin, decrement, release_handle,
}
use smr_benchmark.Ebr.Local.Trace.{trace, trace-push_to_global}
use smr_benchmark.Ebr.Local.Pin.{Settles, pin-IsPinned}
use smr_benchmark.Ebr.Local.Collections.{collect_scheduled-Kept}

decrement_pos : (n : ℕ) → 0 < n → decrement n ≡ done (n - 1)
decrement_pos zero h = absurd (omega arith)
decrement_pos (suc n) h = ground arith

module _ {ℓ} {D : Type ℓ} where
  -- What a call of `unpin` leaves while a handle or another guard is there: one guard less, the
  -- trace as it was, and the local epoch unpinned if that was the last guard.
  pub record IsReleased (s t : Participant D) : Type ℓ where
    pub guards : t.local.guard_count + 1 ≡ s.local.guard_count
    pub handles : t.local.handle_count ≡ s.local.handle_count
    pub bag : t.local.bag ≡ s.local.bag
    pub same_trace : trace t ≡ trace s
    pub epoch : t.local.epoch ≡ (if s.local.guard_count == 1 then starting else s.local.epoch)

  module _ (end : Participant D → Outcome (Participant D)) (fuel : ℕ) (s : Participant D)
      (guarded : 0 < s.local.guard_count) where
    unpin_with-IsReleased :
        (0 < s.local.handle_count) ⊎ (1 < s.local.guard_count)
        → (t : Participant D) × (unpin_with silent end (suc (suc fuel)) s ≡ done t) × IsReleased s t
    unfolding unpin_with
    unpin_with-IsReleased more =
        let (u, run, kept, idle) = collect_scheduled-Kept fuel s in
        let released : Participant D = record u {
          local = record u.local { guard_count = s.local.guard_count - 1 };
        } in
        let unpinned : Participant D = record released {
          local = record released.local { epoch = starting };
        } in
        elim (Bool-cases (s.local.guard_count == 1)) [
          | inl e ↦
              let held : (u.local.handle_count == 0) ≡ false = ground (arith, kept.handles, more) in
              (
                unpinned,
                rw (run, decrement_pos _ guarded, e, held),
                record {
                  guards = omega arith;
                  handles = kept.handles;
                  bag = kept.bag;
                  same_trace = kept.same_trace;
                  epoch = rw e;
                },
              )
          | inr e ↦ (
            released,
            rw (run, decrement_pos _ guarded, e),
            record {
              guards = omega arith;
              handles = kept.handles;
              bag = kept.bag;
              same_trace = kept.same_trace;
              epoch = rw e (ground (arith, idle));
            },
          )
        ]

    -- The last guard of a participant with no handle
    unpin_with_last :
        s.local.guard_count ≡ 1
        → s.local.handle_count ≡ 0
        → (u : Participant D) × (unpin_with silent end (suc (suc fuel)) s ≡ end u)
          × (u.local.guard_count ≡ 0)
          × (u.local.handle_count ≡ 0)
          × (trace u ≡ trace s)
          × (u.local.epoch ≡ starting)
    unfolding unpin_with
    unpin_with_last one none_held =
        let (u, run, kept, idle) = collect_scheduled-Kept fuel s in
        let unpinned : Participant D = record u {
          local = record u.local { guard_count = s.local.guard_count - 1; epoch = starting };
        } in
        let e : (s.local.guard_count == 1) ≡ true = ground arith in
        let free : (u.local.handle_count == 0) ≡ true = ground (arith, kept.handles) in
        (
          unpinned,
          rw (run, decrement_pos _ guarded, e, free),
          omega arith,
          kept.handles ∙ none_held,
          kept.same_trace,
          refl,
        )

  -- The participant has left: it holds no guard and no handle, its entry is marked, its bag is
  -- empty, its epoch unpinned, and what was in its bag has been called or is in the queue.
  pub record IsFinalized (s t : Participant D) : Type ℓ where
    pub guards : t.local.guard_count ≡ 0
    pub handles : t.local.handle_count ≡ 0
    pub deleted : t.local.deleted ≡ true
    pub empty : t.local.bag.deferreds ≡ []
    pub unpinned : t.local.epoch ≡ starting
    pub same_trace : trace t ≡ trace s

  pushed_bag :
      (s : Participant D)
      → ((push_to_global s).local.bag.deferreds ≡ [])
        × ((push_to_global s).local.guard_count ≡ s.local.guard_count)
        × ((push_to_global s).local.handle_count ≡ s.local.handle_count)
  unfolding push_to_global push_bag is_empty new_bag
  pushed_bag s = (ground arith, ground arith, ground arith)

  finalize-IsFinalized :
      (rounds : List (Epoch × Epoch)) (g : Epoch) (fuel : ℕ) (s : Participant D)
      → Settles rounds g
      → s.local.guard_count ≡ 0
      → s.local.handle_count ≡ 0
      → s.local.epoch ≡ starting
      → (t : Participant D) × (finalize silent rounds (suc (suc fuel)) s ≡ done t) × IsFinalized s t
  unfolding finalize
  finalize-IsFinalized rounds g fuel s settles no_guard no_handle at_start =
      let asserted : (s.local.guard_count == 0 && s.local.handle_count == 0) ≡ true =
        ground arith in
      let held : Participant D = record s { local = record s.local { handle_count = 1 } } in
      let (p, pins, at_p) = pin-IsPinned rounds g held settles (omega arith) (λ _. at_start) in
      let q = push_to_global p in
      let (empty, guards, handles) = pushed_bag p in
      let (t, unpins, at_t) =
        unpin_with-IsReleased (λ _. spinning) fuel q (omega (arith, guards, at_p.guards))
          (inl (omega (arith, handles, at_p.handles))) in
      (
        record t { local = record t.local { handle_count = 0; deleted = true } },
        rw (asserted, pins, unpins),
        record {
          guards = omega (arith, at_t.guards, guards, at_p.guards);
          handles = refl;
          deleted = refl;
          empty = ap (λ (b : Bag D). b.deferreds) at_t.bag ∙ empty;
          unpinned = ground (arith, at_t.epoch, guards, at_p.guards);
          same_trace = at_t.same_trace ∙ trace-push_to_global p ∙ at_p.same_trace;
        },
      )

  -- Where deferred functions do not call back: while a handle or another guard is there, `unpin` returns after two rounds of collection at
  -- most: one guard is gone, the counts of handles and the trace are as they were, and if it was the
  -- last guard the local epoch is unpinned.
  unpin-IsReleased :
      (rounds : List (Epoch × Epoch)) (fuel : ℕ) (s : Participant D)
      → 0 < s.local.guard_count
      → (0 < s.local.handle_count) ⊎ (1 < s.local.guard_count)
      → (t : Participant D) × (unpin silent rounds (suc (suc fuel)) s ≡ done t) × IsReleased s t
  unfolding unpin
  unpin-IsReleased rounds fuel s =
      unpin_with-IsReleased (finalize silent rounds (suc (suc fuel))) fuel s

  -- Where deferred functions do not call back: when the last guard goes and no handle is left, and the
  -- rounds of the `pin` of `finalize` settle, `unpin` returns after two rounds of collection
  -- at most, and the participant has left: no guard and no handle, the entry marked, the bag empty
  -- and the epoch unpinned, with the trace as it was.
  pub unpin-IsFinalized :
      (rounds : List (Epoch × Epoch)) (g : Epoch) (fuel : ℕ) (s : Participant D)
      → Settles rounds g
      → s.local.guard_count ≡ 1
      → s.local.handle_count ≡ 0
      → (t : Participant D) × (unpin silent rounds (suc (suc fuel)) s ≡ done t) × IsFinalized s t
  unfolding unpin
  unpin-IsFinalized rounds g fuel s settles one none_held =
      let (u, e, guards, handles, same, at_start) =
        unpin_with_last (finalize silent rounds (suc (suc fuel))) fuel s (omega arith) one
          none_held in
      let (t, ends, f) = finalize-IsFinalized rounds g fuel u settles guards handles at_start in
      (
        t,
        e ∙ ends,
        record {
          guards = f.guards;
          handles = f.handles;
          deleted = f.deleted;
          empty = f.empty;
          unpinned = f.unpinned;
          same_trace = f.same_trace ∙ same;
        },
      )

  -- Under the same conditions, the same of `release_handle`, when the last handle goes, no guard is left and the epoch is
  -- unpinned.
  release_handle-IsFinalized :
      (rounds : List (Epoch × Epoch)) (g : Epoch) (fuel : ℕ) (s : Participant D)
      → Settles rounds g
      → s.local.guard_count ≡ 0
      → s.local.epoch ≡ starting
      → s.local.handle_count ≡ 1
      → (t : Participant D) × (release_handle silent rounds (suc (suc fuel)) s ≡ done t)
        × IsFinalized s t
  unfolding release_handle
  release_handle-IsFinalized rounds g fuel s settles none_guarded at_start one =
      let released : Participant D = record s {
        local = record s.local { handle_count = s.local.handle_count - 1 };
      } in
      let test : (s.local.guard_count == 0 && s.local.handle_count == 1) ≡ true = ground arith in
      let (t, ends, f) =
        finalize-IsFinalized rounds g fuel released settles none_guarded (omega arith) at_start in
      (
        t,
        rw (decrement_pos s.local.handle_count (omega arith), test) ends,
        record {
          guards = f.guards;
          handles = f.handles;
          deleted = f.deleted;
          empty = f.empty;
          unpinned = f.unpinned;
          same_trace = f.same_trace;
        },
      )
