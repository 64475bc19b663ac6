-- ===== src/Ebr/Queue/Linear.antt =====
-- queue.rs: the queue as a list, through every interleaving.
use smr_benchmark.Prelude.{
  ℕ, suc, ◌+◌, ◌≤◌, ◌≡◌, ◌≢◌, refl, none, some, List, [], arith, subst, sym, ◌∙◌, dec_lt,
}
use smr_benchmark.Ebr.Queue.{
  Node, Queue, idle, exchanging, Event, System, pick, Reach, start, later, History, Holds, last,
  new_queue,
}
use smr_benchmark.Ebr.Queue.Invariant.{In, At, Shape}
use smr_benchmark.Ebr.Queue.Moves.{Inv, Move-Inv}

module _ {ℓ} {D : Type ℓ} where
  start-Inv : (a : ℕ) → Inv (new_queue {D = D} a) (λ _. idle) []
  start-Inv a = record {
    node = λ i. a + i;
    h = 0;
    t = 0;
    l = 0;
    shape = record {
      head_at = omega arith;
      tail_at = omega arith;
      head_in = omega arith;
      tail_in = omega arith;
      lag = omega arith;
      linked = λ i lt. absurd (omega arith);
      end = refl;
      filled = λ i lt. absurd (omega arith);
      old = λ i le. omega arith;
      distinct = λ i j b c e. omega arith;
      gone = λ x m. absurd m;
    };
    threads = record {
      at = λ k. tt;
      private = λ k x e. absurd (ground arith);
      apart = λ k x i e. absurd (ground arith);
      alone = λ j k x e. absurd (ground arith);
    };
    holds = last refl;
  }

  -- The values in the queue, with the history that made them
  Reach-Inv :
      {es : List (Event D)} {s : System D}
      → Reach es s
      → (xs : List D) × Inv s.queue s.thread xs × History es xs
  Reach-Inv (start a) = ([], start-Inv a, refl)
  Reach-Inv (later r (pick k mv)) =
      let (xs, v, past) = Reach-Inv r in
      let (ys, v', now) = Move-Inv v k mv refl in (ys, v', (xs, past, now))

  -- Whatever the threads do, the links from the head lead through the values that are left when the
  -- pushes and pops are done on a list, one after the other, in the order of the exchanges that link
  -- a node and move the head: a pop takes the value at the front of that list, a push adds one at its
  -- end, and a pop that finds no next node does so when the list is empty.
  pub linearizable :
      {es : List (Event D)} {s : System D}
      → Reach es s
      → (xs : List D) × History es xs × Holds s.queue.cell s.queue.head xs
  linearizable r = let (xs, v, past) = Reach-Inv r in (xs, past, v.holds)

  -- From one address the links lead to another.
  pub data Leads (cell : ℕ → Node D) : ℕ → ℕ → Type ℓ where
    already : {a : ℕ} → Leads cell a a
    onward : {a b c : ℕ} → (cell a).next ≡ some b → Leads cell b c → Leads cell a c

  Leads-up :
      {node : ℕ → ℕ} {h t l : ℕ} {q : Queue D} (s : Shape node h t l q) (i : ℕ) {a b : ℕ}
      → i ≤ l
      → node i ≡ a
      → Leads q.cell a b
      → (j : ℕ) × (i ≤ j) × (j ≤ l) × (node j ≡ b)
  Leads-up s i le e already = (i, omega arith, le, e)
  Leads-up {l} s i le e (onward f r) = elim (dec_lt i l) [
    | yes lt ↦
        let (j, p, b, g) = Leads-up s (suc i) lt (ground (arith, s.linked i lt)) r in
        (j, omega arith, b, g)
    | no top ↦ absurd (ground (arith, s.end))
  ]

  -- A node that has been handed to the collector can be reached neither from the head of the queue
  -- nor from its tail, whatever the threads do.
  pub retired_unreachable :
      {es : List (Event D)} {s : System D} (a : ℕ)
      → Reach es s
      → In a s.queue.retired
      → (¬ Leads s.queue.cell s.queue.head a) × (¬ Leads s.queue.cell s.queue.tail a)
  retired_unreachable a r m =
      let (xs, v, past) = Reach-Inv r in
      let (i, b, c, e) = v.shape.gone a m in
      (
        λ g.
            let (j, p, le, f) = Leads-up v.shape v.h v.shape.head_in (sym v.shape.head_at) g in
            ground (arith, v.shape.distinct i j (omega arith) le (e ∙ sym f)),
        λ g.
            let (j, p, le, f) = Leads-up v.shape v.t v.shape.tail_in (sym v.shape.tail_at) g in
            ground (arith, v.shape.distinct i j (omega arith) le (e ∙ sym f)),
      )

  -- The slot that a pop reads is initialized: that of the next node where the head is about to be
  -- exchanged for it.
  pop_reads_value :
      {es : List (Event D)} {s : System D} (k a n : ℕ)
      → Reach es s
      → s.thread k ≡ exchanging a n
      → (s.queue.cell n).data_slot ≢ none
  pop_reads_value k a n r e =
      let (xs, v, past) = Reach-Inv r in
      let (i, b, lt, f, g) = subst (At v.node v.h v.t v.l) e (v.threads.at k) in
      ground (arith, g, v.shape.filled i lt)
