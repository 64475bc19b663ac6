-- ===== src/Ebr/Local/Trace.antt =====
-- internal.rs: the deferred functions of one participant, in the order in which they were deferred.
use smr_benchmark.Prelude.{
  ℕ, zero, suc, ◌+◌, ◌-◌, ◌%◌, ◌^◌, ◌≤◌, ◌≡◌, refl, true, false, ◌⊎◌, inl, inr, List, [], ◌∷◌, ◌++◌,
  append_assoc, append-nil, length, ◌==◌, arith, Bool-cases, sym, ◌∙◌, ap, subst, none, some,
}
use smr_benchmark.Ebr.Epoch.{Epoch}
use smr_benchmark.Ebr.Bag.{SealedBag, is_empty, is_expired}
use smr_benchmark.Ebr.Global.{
  Participant, push_bag, try_advance, collect, collect_loop, call_all, drop_bag, pop_head,
  collects_trials, silent,
}
use smr_benchmark.Ebr.Local.{
  repin_without_collect, schedule_collection, push_to_global, incr_advance, note_epoch,
}

module _ {ℓ} {D : Type ℓ} where
  abbrev pub queued : List (SealedBag D) → List D
  queued [] = []
  queued (b ∷ q) = b.bag.deferreds ++ queued q

  pub queued-append :
      (q : List (SealedBag D)) (b : SealedBag D)
      → queued (q ++ b ∷ []) ≡ queued q ++ b.bag.deferreds
  queued-append [] b = append-nil b.bag.deferreds
  queued-append (x ∷ q) b = simp (queued-append q b, append_assoc)

  abbrev pub AllExpired : Epoch → List (SealedBag D) → Type 0
  AllExpired e [] = Unit
  AllExpired e (b ∷ q) = (is_expired b e ≡ true) × AllExpired e q

  abbrev pub HeadKept : Epoch → List (SealedBag D) → Type 0
  HeadKept e [] = Unit
  HeadKept e (b ∷ q) = is_expired b e ≡ false

  -- From `s` to `t`, in at most `n` trials, the bags `taken` have come off the queue.
  pub record Collected (n : ℕ) (s t : Participant D) : Type ℓ where
    pub taken : List (SealedBag D)
    pub cut : s.global.queue ≡ taken ++ t.global.queue
    pub calls : t.global.called ≡ s.global.called ++ queued taken
    pub same_local : t.local ≡ s.local
    pub same_epoch : t.global.epoch ≡ s.global.epoch
    pub expired : AllExpired s.global.epoch taken
    pub most : length taken ≤ n
    pub stop : (length taken ≡ n) ⊎ HeadKept t.global.epoch t.global.queue

  record Popped (q : List (SealedBag D)) (s : Participant D) : Type ℓ where
    bag : SealedBag D
    rest : List (SealedBag D)
    cut : q ≡ bag ∷ rest
    expired : is_expired bag s.global.epoch ≡ true
    pops : pop_head silent q s ≡ some (drop_bag silent bag rest s)

  pop_head-cases :
      (q : List (SealedBag D)) (s : Participant D)
      → ((pop_head silent q s ≡ none) × HeadKept s.global.epoch q) ⊎ Popped q s
  unfolding pop_head
  pop_head-cases [] s = inl (refl, tt)
  pop_head-cases (b ∷ q) s = elim (Bool-cases (is_expired b s.global.epoch)) [
    | inl e ↦ inr (record { bag = b; rest = q; cut = refl; expired = e; pops = rw e })
    | inr e ↦ inl (rw e, e)
  ]

  call_all-silent :
      (ds : List D) (s : Participant D)
      → call_all silent ds s
        ≡ record s { global = record s.global { called = s.global.called ++ ds } }
  unfolding call_all
  call_all-silent [] s = rw (append-nil s.global.called)
  call_all-silent (d ∷ ds) s =
      call_all-silent ds
        (record s { global = record s.global { called = s.global.called ++ d ∷ [] } })
      ∙ simp append_assoc

  -- A bag whose functions do not call back
  quiet_drop : SealedBag D → List (SealedBag D) → Participant D → Participant D
  quiet_drop b rest s = record s {
    global = record s.global {
      queue = rest;
      garbage_count = (s.global.garbage_count + 2 ^ 64 - length b.bag.deferreds) % 2 ^ 64;
      called = s.global.called ++ b.bag.deferreds;
    };
  }

  drop_bag-quiet_drop :
      (b : SealedBag D) (rest : List (SealedBag D)) (s : Participant D)
      → drop_bag silent b rest s ≡ quiet_drop b rest s
  unfolding drop_bag quiet_drop
  drop_bag-quiet_drop b rest s = call_all-silent b.bag.deferreds _

  -- The loop of `collect` with `n` trials left, where the functions do not call back, takes at most `n` bags off the head of the queue, in
  -- order, each of them expired; their functions are called in the order of the queue, the local and
  -- the global epoch stay as they were, and it stops early only at a bag that has not expired or at
  -- the end of the queue.
  pub collect_loop-Collected : (n : ℕ) (s : Participant D) → Collected n s (collect_loop silent n s)
  unfolding collect_loop quiet_drop
  collect_loop-Collected zero s = record {
    taken = [];
    cut = refl;
    calls = sym (append-nil s.global.called);
    same_local = refl;
    same_epoch = refl;
    expired = tt;
    most = omega arith;
    stop = inl refl;
  }
  collect_loop-Collected (suc n) s = elim (pop_head-cases s.global.queue s) [
    | inl h ↦
        let e : collect_loop silent (suc n) s ≡ s = rw (h.0, collect_loop) in
        subst (Collected (suc n) s) (sym e) (record {
          taken = [];
          cut = refl;
          calls = sym (append-nil s.global.called);
          same_local = refl;
          same_epoch = refl;
          expired = tt;
          most = omega arith;
          stop = inr h.1;
        })
    | inr p ↦
        let c = collect_loop-Collected n (quiet_drop p.bag p.rest s) in
        let e : collect_loop silent (suc n) s ≡ collect_loop silent n (quiet_drop p.bag p.rest s) =
          (rw (p.pops, collect_loop))
          ∙ ap (collect_loop silent n) (drop_bag-quiet_drop p.bag p.rest s) in
        subst (Collected (suc n) s) (sym e) (record {
          taken = p.bag ∷ c.taken;
          cut = p.cut ∙ ap (λ q. p.bag ∷ q) c.cut;
          calls = c.calls ∙ append_assoc s.global.called _ _;
          same_local = c.same_local;
          same_epoch = c.same_epoch;
          expired = (p.expired, c.expired);
          most = omega (arith, c.most);
          stop = elim c.stop [ inl e ↦ inl (ap suc e) | inr h ↦ inr h ];
        })
  ]

  queued-append_list : (p q : List (SealedBag D)) → queued (p ++ q) ≡ queued p ++ queued q
  queued-append_list [] q = refl
  queued-append_list (b ∷ p) q = simp (queued-append_list p q, append_assoc)

  -- Called, then queued, then in the bag
  abbrev pub trace : Participant D → List D
  trace s = s.global.called ++ (queued s.global.queue ++ s.local.bag.deferreds)

  trace-Collected :
      {n : ℕ} {s : Participant D} (t : Participant D) → Collected n s t → trace t ≡ trace s
  trace-Collected t c = rw (c.calls, c.cut, c.same_local, queued-append_list) (simp append_assoc)

  pub trace-push_bag : (s : Participant D) → trace (push_bag s) ≡ trace s
  unfolding push_bag
  trace-push_bag s = simp (queued-append, append_assoc, append-nil)

  pub trace-try_advance : (s : Participant D) → trace (try_advance s).0 ≡ trace s
  unfolding try_advance
  trace-try_advance s = ground arith

  pub trace-collect : (s : Participant D) → trace (collect silent s) ≡ trace s
  unfolding collect
  trace-collect s =
      trace-Collected _ (collect_loop-Collected collects_trials _) ∙ trace-try_advance _

  pub trace-repin_without_collect : (s : Participant D) → trace (repin_without_collect s) ≡ trace s
  unfolding repin_without_collect
  trace-repin_without_collect s = ground arith

  pub trace-schedule_collection : (s : Participant D) → trace (schedule_collection s) ≡ trace s
  unfolding schedule_collection
  trace-schedule_collection s = elim (Bool-cases s.local.collecting) [
    | inl e ↦ rw e (trace-repin_without_collect _)
    | inr e ↦ rw e
  ]

  pub trace-push_to_global : (s : Participant D) → trace (push_to_global s) ≡ trace s
  unfolding push_to_global
  trace-push_to_global s = elim (Bool-cases (is_empty s.local.bag)) [
    | inl e ↦ rw e
    | inr e ↦ rw e (trace-push_bag s)
  ]

  pub trace-incr_advance : (s : Participant D) → trace (incr_advance s) ≡ trace s
  unfolding incr_advance
  trace-incr_advance s = elim (Bool-cases ((s.local.advance_count + 1) % 2 ^ 64 % 64 == 0)) [
    | inl e ↦ rw e (trace-try_advance _)
    | inr e ↦ rw e
  ]

  pub trace-note_epoch : (e : Epoch) (s : Participant D) → trace (note_epoch e s) ≡ trace s
  unfolding note_epoch
  trace-note_epoch e s = ground arith
