-- ===== src/Ebr/Queue.antt =====
-- smrs/circ/src/smr/ebr_impl/sync/queue.rs: the Michael-Scott queue, as any number of threads work on
-- it, one access to shared memory at a time.
pub mod Chain
mod Nodes
mod Threads
mod Moves
pub mod Linear
mod Examples
pub mod Invariant
use smr_benchmark.Prelude.{
  ℕ, suc, ◌+◌, ◌≡◌, ◌≢◌, Bool, List, [], ◌∷◌, ◌++◌, Option, none, some, ◌==◌, if◌then◌else◌,
}
use smr_benchmark.Prelude.Family.{update}

module _ {ℓ} (D : Type ℓ) where
  -- `Node`; the slot of the first sentinel is not initialized.
  pub record Node : Type ℓ where
    pub data_slot : Option D
    pub next : Option ℕ

  -- `Queue`, with the memory of its nodes: the address that the allocator gives next, and the
  -- addresses handed to `defer_destroy`. A guard keeps the addresses that a thread has loaded from
  -- being given out again.
  pub record Queue : Type ℓ where
    pub head : ℕ
    pub tail : ℕ
    pub cell : ℕ → Node
    pub fresh : ℕ
    pub retired : List ℕ

  -- What a step does to the list of values that the queue stands for. A pop that finds the queue
  -- empty, or its first value to fail the condition, changes nothing.
  pub data Event : Type ℓ where
    pushes : D → Event
    pops : D → Event
    finds_empty : Event
    silent : Event

-- Where a thread stands, with the local variables that are live there
pub data Pc : Type 0 where
  idle : Pc
  pushing : (new : ℕ) → Pc  -- the loop of `push`
  onto_tail : (onto new : ℕ) → Pc  -- `push_internal`: the tail is read
  helping : (onto next new : ℕ) → Pc  -- it is not the last node
  linking : (onto new : ℕ) → Pc  -- it looks like the last node
  swinging : (onto new : ℕ) → Pc  -- the new node is linked
  trying : Pc  -- the loop of `try_pop` or `try_pop_if`
  looking : (head : ℕ) → Pc  -- `pop_internal`, `pop_if_internal`: the head is read
  exchanging : (head next : ℕ) → Pc  -- there is a next node, and its value will do
  popped : (head next : ℕ) → Pc  -- the head is moved
  fixing : (head next : ℕ) → Pc  -- the tail is still the old head
  retiring : (head next : ℕ) → Pc

module _ {ℓ} (D : Type ℓ) where
  pub record System : Type ℓ where
    pub queue : Queue D
    pub thread : ℕ → Pc

module _ {ℓ} {D : Type ℓ} where
  unfoldable pub set_next : (ℕ → Node D) → ℕ → ℕ → ℕ → Node D
  set_next cell a n = update cell a (record (cell a) { next = some n })

  -- `tail.compare_exchange(current, new)`, whose result is not used
  unfoldable pub swing_tail : Queue D → ℕ → ℕ → Queue D
  swing_tail q current new = record q { tail = if q.tail == current then new else q.tail }

  -- One step of a thread
  pub data Move (q : Queue D) : Pc → Event D → Queue D → Pc → Type ℓ where
    push_start :
        (d : D)
        → Move q idle silent
            (record q {
              cell = update q.cell q.fresh (record { data_slot = some d; next = none });
              fresh = suc q.fresh;
            })
            (pushing q.fresh)
    push_load : {new : ℕ} → Move q (pushing new) silent q (onto_tail q.tail new)
    push_behind :
        {onto new n : ℕ}
        → (q.cell onto).next ≡ some n
        → Move q (onto_tail onto new) silent q (helping onto n new)
    push_help :
        {onto n new : ℕ} → Move q (helping onto n new) silent (swing_tail q onto n) (pushing new)
    push_at_end :
        {onto new : ℕ}
        → (q.cell onto).next ≡ none
        → Move q (onto_tail onto new) silent q (linking onto new)
    push_link :
        {onto new : ℕ} (d : D)
        → (q.cell onto).next ≡ none
        → (q.cell new).data_slot ≡ some d
        → Move q
            (linking onto new)
            (pushes d)
            (record q { cell = set_next q.cell onto new })
            (swinging onto new)
    push_lost :
        {onto new : ℕ}
        → (q.cell onto).next ≢ none
        → Move q (linking onto new) silent q (pushing new)
    push_swing : {onto new : ℕ} → Move q (swinging onto new) silent (swing_tail q onto new) idle
    pop_start : Move q idle silent q trying
    pop_load : Move q trying silent q (looking q.head)
    pop_empty : {a : ℕ} → (q.cell a).next ≡ none → Move q (looking a) finds_empty q idle
    pop_rejected : {a n : ℕ} → (q.cell a).next ≡ some n → Move q (looking a) silent q idle
    pop_next : {a n : ℕ} → (q.cell a).next ≡ some n → Move q (looking a) silent q (exchanging a n)
    pop_lost : {a n : ℕ} → q.head ≢ a → Move q (exchanging a n) silent q trying
    pop_won :
        {a n : ℕ} (d : D)
        → q.head ≡ a
        → (q.cell n).data_slot ≡ some d
        → Move q (exchanging a n) (pops d) (record q { head = n }) (popped a n)
    pop_tail_moved : {a n : ℕ} → q.tail ≢ a → Move q (popped a n) silent q (retiring a n)
    pop_tail_behind : {a n : ℕ} → q.tail ≡ a → Move q (popped a n) silent q (fixing a n)
    pop_fix : {a n : ℕ} → Move q (fixing a n) silent (swing_tail q a n) (retiring a n)
    pop_retire :
        {a n : ℕ} → Move q (retiring a n) silent (record q { retired = a ∷ q.retired }) idle

  pub data Step (s : System D) : Event D → System D → Type ℓ where
    pick :
        (i : ℕ) {e : Event D} {q : Queue D} {p : Pc}
        → Move s.queue (s.thread i) e q p
        → Step s e (record { queue = q; thread = update s.thread i p })

  -- `Queue::new`, with its sentinel at an address
  abbrev pub new_queue : ℕ → Queue D
  new_queue a = record {
    head = a;
    tail = a;
    cell = λ _. record { data_slot = none; next = none };
    fresh = suc a;
    retired = [];
  }

  -- The states after some steps, with their events, the latest first
  pub data Reach : List (Event D) → System D → Type ℓ where
    start : (a : ℕ) → Reach [] (record { queue = new_queue a; thread = λ _. idle })
    later :
        {es : List (Event D)} {s t : System D} {e : Event D}
        → Reach es s
        → Step s e t
        → Reach (e ∷ es) t

  -- The queue as a list, and what an event does to it
  abbrev pub Allows : Event D → List D → List D → Type ℓ
  Allows (pushes d) xs ys = ys ≡ xs ++ d ∷ []
  Allows (pops d) xs ys = xs ≡ d ∷ ys
  Allows finds_empty xs ys = (xs ≡ []) × (ys ≡ [])
  Allows silent xs ys = ys ≡ xs

  -- The events, one after the other, lead from the empty list to this one.
  abbrev pub History : List (Event D) → List D → Type ℓ
  History [] ys = ys ≡ []
  History (e ∷ es) ys = (xs : List D) × History es xs × Allows e xs ys

  -- From the node at `a` the links lead through nodes with these values to the last node.
  pub data Holds (cell : ℕ → Node D) : ℕ → List D → Type ℓ where
    last : {a : ℕ} → (cell a).next ≡ none → Holds cell a []
    link :
        {a b : ℕ} {d : D} {xs : List D}
        → (cell a).next ≡ some b
        → (cell b).data_slot ≡ some d
        → Holds cell b xs
        → Holds cell a (d ∷ xs)
