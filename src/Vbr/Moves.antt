-- ===== src/Vbr/Moves.antt =====
-- smrs/vbr/src/lib.rs: each step of a thread keeps the invariant.
use smr_benchmark.Prelude.{ℕ, suc, ◌<◌, ◌≡◌, ◌≢◌, refl, none, some, arith, subst, sym, ◌∙◌, ap}
use smr_benchmark.Prelude.Family.{update}
use smr_benchmark.Vbr.{
  not_retired, Pc, Memory, Thread, Event, Move, absent, idle, popping, acquiring, checking,
  setting_birth, setting_retire, retiring_raw, reading_epoch, storing, loading, validating,
  exchanging, swapping, leaving, versioned,
}
use smr_benchmark.Vbr.Runs.{retires}
use smr_benchmark.Vbr.Move.{
  new_local, refresh, allocate_start, pop_slot, pop_empty_bag, pop_no_bag, acquire_bag, acquire_new,
  return_avail, return_avail_panic, advance, advance_lost, allocate_assert, allocate_slot,
  set_birth, set_retire, retire_start, retire_reclaimed, retire_current, retire_twice, retire_once,
  read_epoch, store_retire, push_retired, retire_bag, push_new_bag, load_link, load_null,
  load_birth, validate_epoch, validate_fails, exchange_start, owner_reallocated, owner_valid,
  owner_null, swap, swap_lost, leave, leave_retired, leave_avail, left,
}
use smr_benchmark.Vbr.Invariant.{held, touches, Room, At, Inv}
use smr_benchmark.Vbr.Facts.{quiet, look}
use smr_benchmark.Vbr.Allocating.{
  new_local-Inv, pop_slot-Inv, pop_empty_bag-Inv, acquire_bag-Inv, acquire_new-Inv,
  return_avail-Inv, set_birth-Inv, set_retire-Inv,
}
use smr_benchmark.Vbr.Retiring.{
  retire_start-Inv, store_retire-Inv, push_retired-Inv, retire_bag-Inv, push_new_bag-Inv,
  leave_retired-Inv, leave_avail-Inv,
}

module _ {threads cap : ℕ} {m : Memory} {th : ℕ → Thread} (v : Inv threads cap m th) (i : ℕ)
    (lt : i < threads) where
  known : {p : Pc} → (th i).pc ≡ p → At cap m (th i) p
  known e = subst (At cap m (th i)) e (v.at i)

  -- A step to a place where the thread has no slot in hand and retires none
  move :
      {p : Pc} (p' : Pc)
      → (th i).pc ≡ p
      → ((x : ℕ) → p ≢ setting_retire x)
      → ((x : ℕ) → held x p' ≡ held x p)
      → At cap m (record (th i) { pc = p' }) p'
      → ((x : ℕ) → touches p' ≡ some x → touches p ≡ some x)
      → Inv threads cap m (update th i (record (th i) { pc = p' }))
  move p' e plain hold a f =
      look v i (record (th i) { pc = p' }) lt (λ x h. plain x (sym e ∙ h)) refl refl (v.guard_le i)
        (λ x. hold x ∙ sym (ap (held x) e)) a (λ x h. ap touches e ∙ f x h)

  -- No other thread allocates a slot that this one has in hand.
  not_setting : (x : ℕ) → (th i).pc ≡ checking x → (j : ℕ) → (th j).pc ≢ setting_retire x
  not_setting x e j h =
      let i_x : touches (th i).pc ≡ some x = ap touches e in
      let j_x : touches (th j).pc ≡ some x = ap touches h in
      let same = v.apart i j x i_x j_x in
      ground (arith, subst (λ k. (th k).pc ≡ setting_retire x) (sym same) h, e)

  pub Move-Inv :
      {e : Event} {m' : Memory} {t : Thread}
      → Move cap (λ x. (j : ℕ) → retires (th j).pc ≢ some x) m (th i) e m' t
      → 0 < cap
      → suc m.epoch < not_retired
      → Inv threads cap m' (update th i t)
  Move-Inv (new_local e) pos small = new_local-Inv v i lt e
  Move-Inv (refresh e) pos small =
      look v i (record (th i) { epoch = m.epoch }) lt (λ x h. ground (arith, e, h)) refl refl
        (omega arith) (λ x. refl) (subst (At cap m (record (th i) { epoch = m.epoch })) (sym e) tt)
        (λ x h. h)
  Move-Inv (allocate_start e) pos small =
      move (popping) e (λ x h. ground (arith, h)) (λ x. refl) tt (λ x h. absurd (ground (arith, h)))
  Move-Inv (pop_slot x b bs e f) pos small = pop_slot-Inv v i lt x b bs e f
  Move-Inv (pop_empty_bag bs e f) pos small = pop_empty_bag-Inv v i lt bs e f
  Move-Inv (pop_no_bag e f) pos small =
      move (acquiring) e (λ x h. ground (arith, h)) (λ x. refl) f
        (λ x h. absurd (ground (arith, h)))
  Move-Inv (acquire_bag b before after e f) pos small = acquire_bag-Inv v i lt b before after e f
  Move-Inv (acquire_new e f) pos small = acquire_new-Inv v i lt e f
  Move-Inv (return_avail {x} b bs e le f) pos small = return_avail-Inv v i lt x b bs e f
  Move-Inv (return_avail_panic e le f) pos small = absurd (subst (Room cap) f (known e))
  Move-Inv (advance e f) pos small =
      quiet v (record m { epoch = suc m.epoch }) i (record (th i) { pc = idle }) lt
        (λ x h. ground (arith, e, h)) (λ x. (refl, refl))
        (λ x. let h : held x (th i).pc ≡ 0 = ap (held x) e in omega (arith, h)) (omega arith)
        (let g = v.guard_le i in omega (arith, g)) v.fit (v.fit_local i) tt
        (λ j x ne h g. ground (arith, g))
  Move-Inv (advance_lost e f) pos small =
      move (idle) e (λ x h. ground (arith, h)) (λ x. refl) tt (λ x h. absurd (ground (arith, h)))
  Move-Inv (allocate_assert {x} e r b) pos small =
      let o = v.ordered x (not_setting x e) in absurd (omega (arith, r, b, o))
  Move-Inv (allocate_slot {x} e r b) pos small =
      move (setting_birth x) e (λ x h. ground (arith, h)) (λ x. refl) (r, b) (λ x h. h)
  Move-Inv (set_birth {x} e) pos small = set_birth-Inv v i lt x e
  Move-Inv (set_retire {x} e) pos small = set_retire-Inv v i lt x (omega (arith, small)) e
  Move-Inv (retire_start x b e live born free) pos small =
      retire_start-Inv v i lt x b e live born free
  Move-Inv (retire_reclaimed e le) pos small =
      move (idle) e (λ x h. ground (arith, h)) (λ x. refl) tt (λ x h. absurd (ground (arith, h)))
  Move-Inv (retire_current {x} {b} e le) pos small =
      move (retiring_raw x) e (λ x h. ground (arith, h)) (λ x. refl) (known e).0 (λ x h. h)
  Move-Inv (retire_twice e ne) pos small =
      move (idle) e (λ x h. ground (arith, h)) (λ x. refl) tt (λ x h. absurd (ground (arith, h)))
  Move-Inv (retire_once {x} e live) pos small =
      move (reading_epoch x) e (λ x h. ground (arith, h)) (λ x. refl) live (λ x h. h)
  Move-Inv (read_epoch {x} e) pos small =
      move (storing x m.epoch) e (λ x h. ground (arith, h)) (λ x. refl)
        (known e, v.birth_le x, omega arith) (λ x h. h)
  Move-Inv (store_retire {x} {c} e) pos small = store_retire-Inv v i lt x c (omega (arith, small)) e
  Move-Inv (push_retired {x} b bs e f room) pos small = push_retired-Inv v i lt x b bs e f room
  Move-Inv (retire_bag {x} b bs e f full) pos small = retire_bag-Inv v i lt x b bs e f
  Move-Inv (push_new_bag {x} e f) pos small = push_new_bag-Inv v i lt x pos e f
  Move-Inv (load_link c e) pos small =
      move (loading (m.link c)) e (λ x h. ground (arith, h)) (λ x. refl) tt
        (λ x h. absurd (ground (arith, h)))
  Move-Inv (load_null {w} e f) pos small =
      move (validating (record { target = none; tag = w.tag; birth = 0 })) e
        (λ x h. ground (arith, h)) (λ x. refl) tt (λ x h. absurd (ground (arith, h)))
  Move-Inv (load_birth {w} x e f) pos small =
      move (validating (record { target = some x; tag = w.tag; birth = m.birth x })) e
        (λ x h. ground (arith, h)) (λ x. refl) tt (λ x h. absurd (ground (arith, h)))
  Move-Inv (validate_epoch e f) pos small =
      move (idle) e (λ x h. ground (arith, h)) (λ x. refl) tt (λ x h. absurd (ground (arith, h)))
  Move-Inv (validate_fails e f) pos small =
      move (idle) e (λ x h. ground (arith, h)) (λ x. refl) tt (λ x h. absurd (ground (arith, h)))
  Move-Inv (exchange_start c owner current new e) pos small =
      move (exchanging c owner current new) e (λ x h. ground (arith, h)) (λ x. refl) tt
        (λ x h. absurd (ground (arith, h)))
  Move-Inv (owner_reallocated x e f ne) pos small =
      move (idle) e (λ x h. ground (arith, h)) (λ x. refl) tt (λ x h. absurd (ground (arith, h)))
  Move-Inv (owner_valid {c} {owner} {current} {new} x e f q) pos small =
      move (swapping c (versioned owner current) (versioned owner new)) e (λ x h. ground (arith, h))
        (λ x. refl) tt (λ x h. absurd (ground (arith, h)))
  Move-Inv (owner_null {c} {owner} {current} {new} e f) pos small =
      move (swapping c (versioned owner current) (versioned owner new)) e (λ x h. ground (arith, h))
        (λ x. refl) tt (λ x h. absurd (ground (arith, h)))
  Move-Inv (swap {c} {curr} {next} e f) pos small =
      quiet v (record m { link = update m.link c next }) i (record (th i) { pc = idle }) lt
        (λ x h. ground (arith, e, h)) (λ x. (refl, refl))
        (λ x. let h : held x (th i).pc ≡ 0 = ap (held x) e in omega (arith, h)) (omega arith)
        (v.guard_le i) v.fit (v.fit_local i) tt (λ j x ne h g. ground (arith, g))
  Move-Inv (swap_lost e f) pos small =
      move (idle) e (λ x h. ground (arith, h)) (λ x. refl) tt (λ x h. absurd (ground (arith, h)))
  Move-Inv (leave e) pos small =
      move (leaving) e (λ x h. ground (arith, h)) (λ x. refl) tt (λ x h. absurd (ground (arith, h)))
  Move-Inv (leave_retired b bs e f) pos small = leave_retired-Inv v i lt b bs e f
  Move-Inv (leave_avail b bs e f g) pos small = leave_avail-Inv v i lt b bs e g
  Move-Inv (left e f g) pos small =
      move (absent) e (λ x h. ground (arith, h)) (λ x. refl) (g, f)
        (λ x h. absurd (ground (arith, h)))
