-- ===== src/Ebr/Queue/Nodes.antt =====
-- queue.rs: the order of the nodes under the stores to the queue.
use smr_benchmark.Prelude.{
  ℕ, suc, ◌≤◌, ◌<◌, ◌≡◌, ◌≢◌, sym, ◌∙◌, none, some, inl, inr, ◌∷◌, arith, ◌==◌, if◌then◌else◌,
}
use smr_benchmark.Prelude.Family.{update}
use smr_benchmark.Ebr.Queue.{Queue, set_next, swing_tail}
use smr_benchmark.Ebr.Queue.Invariant.{Shape}

module _ {ℓ} {D : Type ℓ} {node : ℕ → ℕ} {h t l : ℕ} {q : Queue D} (s : Shape node h t l q) where
  open s use {head_at, tail_at, head_in, tail_in, lag, linked, end, filled, old, distinct, gone}

  -- The tail goes from a node to the next, if it is at the first.
  abbrev pub swing_from : ℕ → ℕ
  swing_from i = if t == i then suc i else t

  pub Shape-swing :
      (i : ℕ) → i < l → Shape node h (swing_from i) l (swing_tail q (node i) (node (suc i)))
  unfolding swing_tail
  Shape-swing i lt = record {
    head_at = head_at;
    tail_at = ground (arith, tail_at, distinct t i tail_in);
    head_in = head_in;
    tail_in = ground (arith, tail_in);
    lag = ground (arith, lag);
    linked = linked;
    end = end;
    filled = filled;
    old = old;
    distinct = distinct;
    gone = λ a m. let (j, p, r, e) = gone a m in (j, p, ground arith, e);
  }

  -- A new node is made.
  pub Shape-alloc :
      (d : D)
      → Shape node h t l (record q {
        cell = update q.cell q.fresh (record { data_slot = some d; next = none });
        fresh = suc q.fresh;
      })
  Shape-alloc d = record {
    head_at = head_at;
    tail_at = tail_at;
    head_in = head_in;
    tail_in = tail_in;
    lag = lag;
    linked = λ i lt. ground (arith, linked i lt, old i);
    end = ground (arith, end, old l);
    filled = λ i lt. ground (arith, filled i lt, old (suc i));
    old = λ i le. ground (arith, old i le);
    distinct = distinct;
    gone = gone;
  }

  -- A new node is linked behind the last.
  pub Shape-link :
      (a : ℕ)
      → ((i : ℕ) → i ≤ l → node i ≢ a)
      → a < q.fresh
      → (q.cell a).next ≡ none
      → (q.cell a).data_slot ≢ none
      → l ≤ t
      → Shape (update node (suc l) a) h t (suc l) (record q { cell = set_next q.cell (node l) a })
  unfolding set_next
  Shape-link a out lt e f le = record {
    head_at = ground (arith, head_at, head_in);
    tail_at = ground (arith, tail_at, tail_in);
    head_in = omega (arith, head_in);
    tail_in = omega (arith, tail_in);
    lag = omega arith;
    linked = λ i b. ground (arith, linked i, distinct i l, end);
    end = ground (arith, out l, e);
    filled = λ i b. ground (arith, filled i, f, out l, distinct (suc i) l);
    old = λ i b. ground (arith, old i);
    distinct = λ i j b c p. ground (arith, distinct i j, out i, out j);
    gone = λ x m. let (j, p, r, e) = gone x m in (j, p, r, ground (arith, head_in));
  }

  -- The head goes to the next node.
  pub Shape-pop :
      (n : ℕ) → h < l → node (suc h) ≡ n → Shape node (suc h) t l (record q { head = n })
  Shape-pop n lt e = record {
    head_at = sym e;
    tail_at = tail_at;
    head_in = omega arith;
    tail_in = tail_in;
    lag = lag;
    linked = linked;
    end = end;
    filled = filled;
    old = old;
    distinct = distinct;
    gone = λ a m. let (j, p, r, e) = gone a m in (j, omega arith, r, e);
  }

  -- A node that the head and the tail have left is retired.
  pub Shape-retire :
      (i : ℕ) (a : ℕ)
      → i < h
      → i < t
      → node i ≡ a
      → Shape node h t l (record q { retired = a ∷ q.retired })
  Shape-retire i a p r e = record {
    head_at = head_at;
    tail_at = tail_at;
    head_in = head_in;
    tail_in = tail_in;
    lag = lag;
    linked = linked;
    end = end;
    filled = filled;
    old = old;
    distinct = distinct;
    gone = λ x m. elim m [ inl f ↦ (i, p, r, e ∙ f) | inr g ↦ gone x g ];
  }
