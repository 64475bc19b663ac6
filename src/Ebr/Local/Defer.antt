-- ===== src/Ebr/Local/Defer.antt =====
-- internal.rs: `defer` and its loop.
use smr_benchmark.Prelude.{
  ℕ, zero, suc, ◌≤◌, ◌<◌, ◌≡◌, refl, false, inl, inr, [], ◌∷◌, ◌++◌, append_assoc, ltb, length,
  arith, Bool-cases, ◌∙◌, ap,
}
use smr_benchmark.Ebr.Bag.{ok, new_bag, try_push}
use smr_benchmark.Ebr.Global.{Participant, push_bag}
use smr_benchmark.Ebr.Local.{
  done, spinning, repin_without_collect, schedule_collection, incr_advance, defer_loop, defer,
}
use smr_benchmark.Ebr.Local.Trace.{
  trace, trace-push_bag, trace-schedule_collection, trace-incr_advance,
}

module _ {ℓ} {D : Type ℓ} where
  module _ (d : D) (s : Participant D) where
    push_fits :
        (fuel : ℕ)
        → length s.local.bag.deferreds < s.local.bag.capacity
        → defer_loop (suc fuel) d s
          ≡ done (record s {
            local = record s.local {
              bag = record s.local.bag { deferreds = s.local.bag.deferreds ++ d ∷ [] };
            };
          })
    unfolding defer_loop try_push
    push_fits fuel h =
        let b = s.local.bag in
        let e : try_push b d ≡ (record b { deferreds = b.deferreds ++ d ∷ [] }, ok) =
          ground arith in
        rw (e, defer_loop) (rw e)

    push_full :
        (fuel : ℕ)
        → s.local.bag.capacity ≤ length s.local.bag.deferreds
        → defer_loop (suc fuel) d s ≡ defer_loop fuel d (schedule_collection (push_bag s))
    unfolding defer_loop try_push
    push_full fuel h =
        let e : ltb (length s.local.bag.deferreds) s.local.bag.capacity ≡ false = ground arith in
        rw (e, defer_loop)

  fresh_bag :
      (s : Participant D)
      → ((schedule_collection (push_bag s)).local.bag ≡ new_bag s.global.max_objects)
        × ((schedule_collection (push_bag s)).global.max_objects ≡ s.global.max_objects)
  unfolding schedule_collection repin_without_collect push_bag
  fresh_bag s = (ground arith, ground arith)

  pushed : D → Participant D → Participant D
  pushed d s = record s {
    local = record s.local {
      bag = record s.local.bag { deferreds = s.local.bag.deferreds ++ d ∷ [] };
    };
  }

  trace-pushed : (d : D) (s : Participant D) → trace (pushed d s) ≡ trace s ++ d ∷ []
  unfolding pushed
  trace-pushed d s = simp append_assoc

  -- Two rounds of the loop of `defer` are enough if new bags have room: it returns, and the trace
  -- of functions called, queued and in the bag is as before with the new one at its end.
  pub defer-trace :
      (fuel : ℕ) (d : D) (s : Participant D)
      → 0 < s.global.max_objects
      → (t : Participant D) × (defer (suc (suc fuel)) d s ≡ done t) × (trace t ≡ trace s ++ d ∷ [])
  unfolding defer pushed new_bag
  defer-trace fuel d s room =
      elim (Bool-cases (ltb (length s.local.bag.deferreds) s.local.bag.capacity)) [
        | inl h ↦
            let e = push_fits d s (suc fuel) (ground arith) in
            (incr_advance (pushed d s), rw e, trace-incr_advance (pushed d s) ∙ trace-pushed d s)
        | inr h ↦
            let u : Participant D = schedule_collection (push_bag s) in
            let e : defer_loop (suc (suc fuel)) d s ≡ defer_loop (suc fuel) d u =
              push_full d s (suc fuel) (ground arith) in
            let bag = fresh_bag s in
            let f = push_fits d u fuel (rw (bag.0, new_bag) room) in
            let kept : trace u ≡ trace s =
              trace-schedule_collection (push_bag s) ∙ trace-push_bag s in
            (
              incr_advance (pushed d u),
              rw (e, f),
              trace-incr_advance (pushed d u) ∙ trace-pushed d u ∙ ap (λ xs. xs ++ d ∷ []) kept,
            )
      ]

  -- With bags of no capacity, which `set_bag_capacity(0)` asks for, `defer` on a full bag does not
  -- return, however many rounds it is given.
  pub defer_spins :
      (fuel : ℕ) (d : D) (s : Participant D)
      → s.global.max_objects ≡ 0
      → s.local.bag.capacity ≤ length s.local.bag.deferreds
      → defer fuel d s ≡ spinning
  unfolding defer defer_loop new_bag
  defer_spins fuel d s none_fits full = rw (loops fuel d s none_fits full)
    where
      loops :
          (fuel : ℕ) (d : D) (s : Participant D)
          → s.global.max_objects ≡ 0
          → s.local.bag.capacity ≤ length s.local.bag.deferreds
          → defer_loop fuel d s ≡ spinning
      loops zero d s z full = refl
      loops (suc fuel) d s z full =
          let u : Participant D = schedule_collection (push_bag s) in
          let bag = fresh_bag s in
          push_full d s fuel full ∙ loops fuel d u (bag.1 ∙ z) (rw (bag.0, z) (omega arith))
