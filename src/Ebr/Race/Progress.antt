-- ===== src/Ebr/Race/Progress.antt =====
-- `try_advance` of internal.rs, run without interruption.
use smr_benchmark.Prelude.{
  ℕ, zero, suc, ◌+◌, ◌^◌, ◌<◌, ◌≡◌, refl, Bool, false, ◌⊎◌, inl, inr, Option, arith, ap, subst, sym,
}
use smr_benchmark.Ebr.Epoch.{Epoch, successor, value, is_pinned, unpinned, epoch_eq}
use smr_benchmark.Ebr.Race.Invariant.{Inv}
use smr_benchmark.Ebr.Race.Safety.{Reach-Inv}
use smr_benchmark.Ebr.Race.{
  Shared, Pc, running, scanning, storing, Thread, System, Step, pick, Reach, blocks, Move,
  advance_load, advance_next, advance_done, advance_store,
}
use smr_benchmark.Prelude.Family.{update}

-- `k` steps of any threads
pub data Steps (n c : ℕ) (s : System) : ℕ → System → Type 0 where
  here : Steps n c s 0 s
  then_step : {k : ℕ} {t u : System} → Steps n c s k t → Step n c t u → Steps n c s (suc k) u

pick_here :
    {n c i : ℕ} {s : System} {p : Pc} {m : Shared} {t : Thread}
    → i < n
    → (s.thread i).pc ≡ p
    → Move n c (λ j. (s.thread j).epoch) s.mem (s.thread i) p m t
    → Step n c s (record { mem = m; thread = update s.thread i t })
pick_here {n} {c} {i} {s} {m} {t} lt e mv =
    pick i lt (subst (λ q. Move n c (λ j. (s.thread j).epoch) s.mem (s.thread i) q m t) (sym e) mv)

-- A state that is `d` more steps on, with the scan of thread `i` at local `k`.
record Scanned (n c i d k : ℕ) (e : Epoch) (next : Option ℕ) (s t : System) : Type 0 where
  steps : ℕ
  count : steps ≡ d
  run : Steps n c s steps t
  at_local : (t.thread i).pc ≡ scanning e k next
  same : t.mem ≡ s.mem
  passes : (l : ℕ) → l < n → blocks (t.thread l).epoch e ≡ false

module _ {n c i : ℕ} {e : Epoch} {next : Option ℕ} {s : System} (lt : i < n) where
  scan_local :
      {d k : ℕ} {t : System}
      → k < n
      → Scanned n c i d k e next s t
      → (u : System) × Scanned n c i (suc d) (k + 1) e next s u
  scan_local {d} {k} {t} below h = (
    record {
      mem = t.mem;
      thread = update t.thread i (record (t.thread i) { pc = scanning e (k + 1) next });
    },
    record {
      steps = suc h.steps;
      count = ap suc h.count;
      run = then_step h.run (pick_here lt h.at_local (advance_next below (h.passes k below)));
      at_local = ground arith;
      same = h.same;
      passes = λ l b. ground (arith, h.passes l b);
    },
  )

  scan_all :
      (m d k : ℕ) {t : System}
      → k + m ≡ n
      → Scanned n c i d k e next s t
      → (u : System) × Scanned n c i (d + m) n e next s u
  scan_all zero d k {t} q h = (
    t,
    subst (λ x. Scanned n c i x n e next s t) (omega arith)
        (subst (λ x. Scanned n c i d x e next s t) (omega arith) h),
  )
  scan_all (suc m) d k q h =
      let (t', h') = scan_local (omega arith) h in
      let (u, h'') = scan_all m (suc d) (k + 1) (omega arith) h' in
      (u, subst (λ x. Scanned n c i x n e next s u) (omega arith) h'')

-- A local whose word is 0, or one more than that of an even global epoch, does not block.
unblocked :
    {n k : ℕ} {m : Shared} {th : ℕ → Thread}
    → Inv n k m th
    → (e : Epoch) → (e.bits ≡ 0) ⊎ (e.bits ≡ m.global.bits + 1)
    → blocks e m.global ≡ false
unfolding blocks is_pinned unpinned epoch_eq
unblocked {m} inv e (inl h) = ground (arith, h)
unblocked {m} inv e (inr h) = ground (arith, h, inv.even)

successor_value :
    {n k : ℕ} {m : Shared} {th : ℕ → Thread}
    → k < 2 ^ 60
    → Inv n k m th
    → value (successor m.global) ≡ value m.global + 1
unfolding value unpinned successor
successor_value {m} small inv = omega (arith, inv.bound, inv.even)

-- In every state that any number of threads reach in fewer than 2^60 steps: if a thread is under a
-- guard, and every local has the word 0 of an unpinned participant or that of one pinned at the global
-- epoch, then `n` + 3 steps can advance the global epoch by one.
pub try_advance_succeeds :
    {n c i k : ℕ} {linked : ℕ → Bool} (next : Option ℕ) (s : System)
    → k < 2 ^ 60
    → Reach n c linked k s
    → i < n
    → (s.thread i).pc ≡ running next
    → ((j : ℕ)
        → j < n
        → ((s.thread j).epoch.bits ≡ 0) ⊎ ((s.thread j).epoch.bits ≡ s.mem.global.bits + 1))
    → (d : ℕ) × (t : System) × (d ≡ n + 3)
      × Steps n c s d t
      × (value t.mem.global ≡ value s.mem.global + 1)
try_advance_succeeds {n} {c} {i} next s small reached lt e at_global =
    let inv = Reach-Inv small reached in
    let free : (j : ℕ) → j < n → blocks (s.thread j).epoch s.mem.global ≡ false =
      λ j b. unblocked inv (s.thread j).epoch (at_global j b) in
    let s1 : System = record {
      mem = s.mem;
      thread = update s.thread i (record (s.thread i) { pc = scanning s.mem.global 0 next });
    } in
    let h1 : Scanned n c i 1 0 s.mem.global next s s1 = record {
      steps = 1;
      count = refl;
      run = then_step here (pick_here lt e advance_load);
      at_local = ground arith;
      same = refl;
      passes = λ l b. ground (arith, free l b);
    } in
    let (t, h) = scan_all lt n 1 0 (omega arith) h1 in
    let done = then_step h.run (pick_here lt h.at_local (advance_done refl)) in
    (
      suc (suc h.steps),
      _,
      omega (arith, h.count),
      then_step done (pick_here {p = storing s.mem.global next} lt (ground arith) advance_store),
      successor_value small inv,
    )
