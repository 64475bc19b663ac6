-- ===== src/Ebr/Queue/Invariant.antt =====
-- queue.rs: every node that was ever linked, in the order of the links, and where the queue and the
-- threads stand in that order.
use smr_benchmark.Prelude.{ℕ, suc, ◌≤◌, ◌<◌, ◌≡◌, ◌≢◌, Option, none, some, ◌⊎◌, List, [], ◌∷◌}
use smr_benchmark.Ebr.Queue.{
  Queue, Pc, idle, pushing, onto_tail, helping, linking, swinging, trying, looking, exchanging,
  popped, fixing, retiring,
}

-- The node that the thread has made and not linked
abbrev pub new_of : Pc → Option ℕ
new_of (pushing a) = some a
new_of (onto_tail _ a) = some a
new_of (helping _ _ a) = some a
new_of (linking _ a) = some a
new_of _ = none

abbrev pub In : ℕ → List ℕ → Type 0
In a [] = ⊥
In a (x ∷ xs) = (x ≡ a) ⊎ In a xs

-- What a thread knows of the nodes that it has loaded: `node i` is the `i`-th node, the head is
-- number `h`, the tail number `t`, and the last number `l`.
module _ (node : ℕ → ℕ) (h t l : ℕ) where
  abbrev pub At : Pc → Type 0
  At idle = Unit
  At (pushing _) = Unit
  At (onto_tail a _) = (i : ℕ) × (i ≤ t) × (node i ≡ a)
  At (helping a n _) = (i : ℕ) × (i < l) × (node i ≡ a) × (node (suc i) ≡ n)
  At (linking a _) = (i : ℕ) × (i ≤ t) × (node i ≡ a)
  At (swinging a n) = (i : ℕ) × (i < l) × (node i ≡ a) × (node (suc i) ≡ n)
  At trying = Unit
  At (looking a) = (i : ℕ) × (i ≤ h) × (node i ≡ a)
  At (exchanging a n) = (i : ℕ) × (i ≤ h) × (i < l) × (node i ≡ a) × (node (suc i) ≡ n)
  At (popped a n) = (i : ℕ) × (i < h) × (node i ≡ a) × (node (suc i) ≡ n)
  At (fixing a n) = (i : ℕ) × (i < h) × (node i ≡ a) × (node (suc i) ≡ n)
  At (retiring a n) = (i : ℕ) × (i < h) × (i < t) × (node i ≡ a)

module _ {ℓ} {D : Type ℓ} (node : ℕ → ℕ) (h t l : ℕ) (q : Queue D) where
  -- The queue alone
  pub record Shape : Type ℓ where
    pub head_at : q.head ≡ node h
    pub tail_at : q.tail ≡ node t
    pub head_in : h ≤ l
    pub tail_in : t ≤ l
    pub lag : l ≤ suc t
    pub linked : (i : ℕ) → i < l → (q.cell (node i)).next ≡ some (node (suc i))
    pub end : (q.cell (node l)).next ≡ none
    pub filled : (i : ℕ) → i < l → (q.cell (node (suc i))).data_slot ≢ none
    pub old : (i : ℕ) → i ≤ l → node i < q.fresh
    pub distinct : (i j : ℕ) → i ≤ l → j ≤ l → node i ≡ node j → i ≡ j
    pub gone : (a : ℕ) → In a q.retired → (i : ℕ) × (i < h) × (i < t) × (node i ≡ a)

  -- The threads
  pub record Threads (th : ℕ → Pc) : Type ℓ where
    pub at : (k : ℕ) → At node h t l (th k)
    pub private :
        (k a : ℕ)
        → new_of (th k) ≡ some a
        → (a < q.fresh) × ((q.cell a).next ≡ none) × ((q.cell a).data_slot ≢ none)
    pub apart : (k a i : ℕ) → new_of (th k) ≡ some a → i ≤ l → node i ≢ a
    pub alone : (j k a : ℕ) → new_of (th j) ≡ some a → new_of (th k) ≡ some a → j ≡ k
