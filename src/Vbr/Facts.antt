-- ===== src/Vbr/Facts.antt =====
-- smrs/vbr/src/lib.rs: how the invariant is carried on.
use smr_benchmark.Prelude.{
  ℕ, ◌+◌, ◌≤◌, ◌<◌, ◌≡◌, ◌≢◌, refl, some, ◌==◌, ltb, ◌⊎◌, inl, inr, arith, subst, sym, ◌∙◌, ap,
  ℕ_discrete, dec_lt,
}
use smr_benchmark.Prelude.Family.{update, update-each, update-apart, update-other}
use smr_benchmark.Prelude.Counting.{bit, sum_below-update, sum_below-le}
use smr_benchmark.Vbr.{
  not_retired, Memory, Thread, Pc, absent, idle, popping, acquiring, checking, advancing,
  setting_birth, setting_retire, retiring, retiring_raw, reading_epoch, storing, pushing, loading,
  validating, exchanging, swapping, leaving, panicked,
}
use smr_benchmark.Vbr.Runs.{no_thread, retires}
use smr_benchmark.Vbr.Bags.{in_bags, Fit, sum_below-two}
use smr_benchmark.Vbr.Invariant.{held, weight, touches, At, Inv}

-- What a thread knows of the slot that it works on stays while that slot does.
pub At-stable :
    (cap : ℕ) (m m' : Memory) (t : Thread) (p : Pc)
    → ((x : ℕ) → touches p ≡ some x → (m'.birth x ≡ m.birth x) × (m'.retire x ≡ m.retire x))
    → m.epoch ≤ m'.epoch
    → At cap m t p
    → At cap m' t p
At-stable cap m m' t (setting_birth x) f le h =
    let e = f x refl in (omega (arith, e, h), omega (arith, e, h))
At-stable cap m m' t (setting_retire x) f le h =
    let e = f x refl in (omega (arith, e, h), omega (arith, e, h))
At-stable cap m m' t (retiring x b) f le h =
    let e = f x refl in (omega (arith, e, h), omega (arith, e, h))
At-stable cap m m' t (retiring_raw x) f le h = let e = f x refl in omega (arith, e, h)
At-stable cap m m' t (reading_epoch x) f le h = let e = f x refl in omega (arith, e, h)
At-stable cap m m' t (storing x c) f le h =
    let e = f x refl in (omega (arith, e, h), omega (arith, e, h), omega (arith, le, h))
At-stable cap m m' t absent f le h = h
At-stable cap m m' t idle f le h = tt
At-stable cap m m' t popping f le h = tt
At-stable cap m m' t acquiring f le h = h
At-stable cap m m' t (checking x) f le h = h
At-stable cap m m' t advancing f le h = tt
At-stable cap m m' t (pushing x) f le h = tt
At-stable cap m m' t (loading w) f le h = tt
At-stable cap m m' t (validating s) f le h = tt
At-stable cap m m' t (exchanging c owner current new) f le h = tt
At-stable cap m m' t (swapping c curr next) f le h = tt
At-stable cap m m' t leaving f le h = tt
At-stable cap m m' t panicked f le h = h

-- A slot that a thread works on is in hand, or the thread retires it, and then it is allocated.
touched :
    (cap : ℕ) (m : Memory) (t : Thread) (p : Pc) (x : ℕ)
    → At cap m t p
    → touches p ≡ some x
    → (held x p ≡ 1) ⊎ ((retires p ≡ some x) × (m.retire x ≡ not_retired))
touched cap m t (checking y) x h e = ground (arith, e)
touched cap m t (setting_birth y) x h e = ground (arith, e)
touched cap m t (setting_retire y) x h e = ground (arith, e)
touched cap m t (retiring y b) x h e = inr (e, ground (arith, e, h))
touched cap m t (retiring_raw y) x h e = inr (e, ground (arith, e, h))
touched cap m t (reading_epoch y) x h e = inr (e, ground (arith, e, h))
touched cap m t (storing y c) x h e = inr (e, ground (arith, e, h))
touched cap m t (pushing y) x h e = ground (arith, e)
touched cap m t absent x h e = absurd (ground (arith, e))
touched cap m t idle x h e = absurd (ground (arith, e))
touched cap m t popping x h e = absurd (ground (arith, e))
touched cap m t acquiring x h e = absurd (ground (arith, e))
touched cap m t advancing x h e = absurd (ground (arith, e))
touched cap m t (loading w) x h e = absurd (ground (arith, e))
touched cap m t (validating s) x h e = absurd (ground (arith, e))
touched cap m t (exchanging c owner current new) x h e = absurd (ground (arith, e))
touched cap m t (swapping c curr next) x h e = absurd (ground (arith, e))
touched cap m t leaving x h e = absurd (ground (arith, e))
touched cap m t panicked x h e = absurd h

-- No thread was about to allocate a slot if none is after a step of one that was not.
pub other_pc :
    (th : ℕ → Thread) {y : ℕ} (i : ℕ) (t : Thread) (p : Pc)
    → (th i).pc ≡ p
    → p ≢ setting_retire y
    → ((j : ℕ) → (update th i t j).pc ≢ setting_retire y)
    → (j : ℕ) → (th j).pc ≢ setting_retire y
other_pc th {y} i t p e plain h j = elim (ℕ_discrete i j) [
  | yes q ↦ subst (λ k. (th k).pc ≢ setting_retire y) q (λ g. plain (sym e ∙ g))
  | no ne ↦ subst (λ (u : Thread). u.pc ≢ setting_retire y) (update-other th i t j ne) (h j)
]

module _ {threads cap : ℕ} {m : Memory} {th : ℕ → Thread} (v : Inv threads cap m th) where
  working : (j x : ℕ) → touches (th j).pc ≡ some x → j < threads
  working j x e = elim (dec_lt j threads) [
    | yes lt ↦ lt
    | no ge ↦
        let out = v.outside j (omega (arith, ge)) in
        absurd (ground (arith, e, subst (λ p. touches p ≡ some x) out e))
  ]

  -- A slot that a thread has is not one that another works on.
  pub alone : (i j x : ℕ) → i < threads → i ≢ j → 1 ≤ weight x (th i) → touches (th j).pc ≢ some x
  alone i j x lt ne has e =
      let c = v.copied x in
      let most : bit (ltb x m.fresh) ≤ 1 = ground arith in
      elim (touched cap m (th j) (th j).pc x (v.at j) e) [
        | inl h ↦
            let two =
              sum_below-two (weight x) th no_thread i j threads refl lt (working j x e) ne in
            omega (arith, c, most, two, has, h)
        | inr q ↦
            let one = sum_below-le (weight x) th i threads lt in
            let live : bit (m.retire x == not_retired) ≡ 1 = ground (arith, q.1) in
            omega (arith, c, most, one, has, live)
      ]

  -- An allocated slot that no thread retires is not one that a thread works on.
  pub unworked :
      (j x : ℕ) → m.retire x ≡ not_retired → retires (th j).pc ≢ some x → touches (th j).pc ≢ some x
  unworked j x live ne e =
      let c = v.copied x in
      let most : bit (ltb x m.fresh) ≤ 1 = ground arith in
      elim (touched cap m (th j) (th j).pc x (v.at j) e) [
        | inl h ↦
            let one = sum_below-le (weight x) th j threads (working j x e) in
            let bit_one : bit (m.retire x == not_retired) ≡ 1 = ground (arith, live) in
            omega (arith, c, most, one, h, bit_one)
        | inr q ↦ ne q.0
      ]

  -- A step of one thread
  pub advance :
      (m' : Memory) (i : ℕ) (t : Thread)
      → i < threads
      → ((x : ℕ)
          → in_bags m'.avail x + weight x t + bit (m'.retire x == not_retired) + bit (ltb x m.fresh)
            ≡ in_bags m.avail x
              + weight x (th i)
              + bit (m.retire x == not_retired)
              + bit (ltb x m'.fresh))
      → m.epoch ≤ m'.epoch
      → t.epoch ≤ m'.epoch
      → ((x : ℕ) → (m'.retire x ≤ m'.epoch) ⊎ (m'.retire x ≡ not_retired))
      → ((x : ℕ) → m'.birth x ≤ m'.epoch)
      → ((x : ℕ) → ((j : ℕ) → (update th i t j).pc ≢ setting_retire x) → m'.birth x ≤ m'.retire x)
      → Fit cap m'.avail
      → Fit cap t.avail × Fit cap t.retired
      → ((j x : ℕ)
          → i ≢ j
          → touches (th j).pc ≡ some x
          → (m'.birth x ≡ m.birth x) × (m'.retire x ≡ m.retire x))
      → At cap m' t t.pc
      → ((j x : ℕ) → i ≢ j → touches (th j).pc ≡ some x → touches t.pc ≢ some x)
      → Inv threads cap m' (update th i t)
  advance m' i t lt counts le guard retire birth order f fl same a apart = record {
    copied = λ x.
        let sum = sum_below-update (weight x) th i t threads lt in
        let old = v.copied x in let c = counts x in omega (arith, sum, old, c);
    guard_le =
        update-each th i t (λ u. u.epoch ≤ m'.epoch) guard
          (λ j ne. let g = v.guard_le j in omega (arith, g, le));
    retire_le = retire;
    birth_le = birth;
    ordered = order;
    fit = f;
    fit_local =
        update-each th i t (λ u. Fit cap u.avail × Fit cap u.retired) fl (λ j ne. v.fit_local j);
    at =
        update-each th i t (λ u. At cap m' u u.pc) a
          (λ j ne. At-stable cap m m' (th j) (th j).pc (λ x e. same j x ne e) le (v.at j));
    apart = update-apart (λ (u : Thread). touches u.pc) th i t v.apart apart;
    outside = λ j ge.
        let ne : i ≢ j = λ e. omega (arith, lt, ge, e) in
        ap (λ (u : Thread). u.pc) (update-other th i t j ne) ∙ v.outside j ge;
  }

  -- A step that leaves the epochs of the slots
  pub quiet :
      (m' : Memory) (i : ℕ) (t : Thread)
      → i < threads
      → ((x : ℕ) → (th i).pc ≢ setting_retire x)
      → ((x : ℕ) → (m'.birth x ≡ m.birth x) × (m'.retire x ≡ m.retire x))
      → ((x : ℕ)
          → in_bags m'.avail x + weight x t + bit (ltb x m.fresh)
            ≡ in_bags m.avail x + weight x (th i) + bit (ltb x m'.fresh))
      → m.epoch ≤ m'.epoch
      → t.epoch ≤ m'.epoch
      → Fit cap m'.avail
      → Fit cap t.avail × Fit cap t.retired
      → At cap m' t t.pc
      → ((j x : ℕ) → i ≢ j → touches (th j).pc ≡ some x → touches t.pc ≢ some x)
      → Inv threads cap m' (update th i t)
  quiet m' i t lt plain same counts le guard f fl a apart =
      advance m' i t lt
        (λ x.
          let c = counts x in
          let r : bit (m'.retire x == not_retired) ≡ bit (m.retire x == not_retired) =
            ap (λ k. bit (k == not_retired)) (same x).1 in
          omega (arith, c, r))
        le guard
        (λ x. elim (v.retire_le x) [
          | inl h ↦ inl (let e = same x in omega (arith, e, h, le))
          | inr h ↦ inr ((same x).1 ∙ h)
        ])
        (λ x. let e = same x in let b = v.birth_le x in omega (arith, e, b, le))
        (λ x h.
          let e = same x in
          let o = v.ordered x (other_pc th i t (th i).pc refl (plain x) h) in omega (arith, e, o))
        f fl (λ j x ne e. same x) a apart

  pub kept :
      (i : ℕ) (t : Thread)
      → ((x : ℕ) → touches t.pc ≡ some x → touches (th i).pc ≡ some x)
      → (j x : ℕ) → i ≢ j
      → touches (th j).pc ≡ some x
      → touches t.pc ≢ some x
  kept i t f j x ne e g = ne (v.apart i j x (f x g) e)

  -- A step that changes where the thread stands, and nothing of the bags
  pub look :
      (i : ℕ) (t : Thread)
      → i < threads
      → ((x : ℕ) → (th i).pc ≢ setting_retire x)
      → t.avail ≡ (th i).avail
      → t.retired ≡ (th i).retired
      → t.epoch ≤ m.epoch
      → ((x : ℕ) → held x t.pc ≡ held x (th i).pc)
      → At cap m t t.pc
      → ((x : ℕ) → touches t.pc ≡ some x → touches (th i).pc ≡ some x)
      → Inv threads cap m (update th i t)
  look i t lt plain ea er guard hold a f =
      quiet m i t lt plain (λ x. (refl, refl))
        (λ x.
          let h = hold x in
          let p = ap (λ bs. in_bags bs x) ea in
          let q = ap (λ bs. in_bags bs x) er in omega (arith, h, p, q))
        (omega arith) guard v.fit
        (subst (Fit cap) (sym ea) (v.fit_local i).0, subst (Fit cap) (sym er) (v.fit_local i).1) a
        (kept i t f)
