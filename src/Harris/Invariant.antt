-- ===== src/Harris/Invariant.antt =====
-- list.rs: what holds of the nodes, and of what a thread knows.
use smr_benchmark.Prelude.{ℕ, ◌<◌, ◌≡◌, Bool, true, false, Option, none, some}
use smr_benchmark.Harris.{
  Harris, Op, getting, inserting, removing, key_of, Pc, idle, trying, finding, cleaning, stepping,
  skipping, walking, decided, linking, detaching, popping, marking,
}
use smr_benchmark.Harris.Paths.{Way, Run}

-- A pointer is null or leads to a node that has been linked.
abbrev pub Linked : (ℕ → Bool) → Option ℕ → Type 0
Linked linked none = Unit
Linked linked (some a) = linked a ≡ true

module _ {ℓ} {V : Type ℓ} where
  abbrev pub Below : Harris V → Option ℕ → ℕ → Type 0
  Below m none k = Unit
  Below m (some a) k = (m.node a).key < k

  abbrev pub Above : Harris V → ℕ → Option ℕ → Type 0
  Above m k none = Unit
  Above m k (some a) = k < (m.node a).key

  -- Which nodes have been linked into the list
  pub record Shape (m : Harris V) (linked : ℕ → Bool) : Type ℓ where
    pub head_clear : m.head.marked ≡ false
    pub head_linked : Linked linked m.head.target
    pub allocated : (a : ℕ) → linked a ≡ true → a < m.fresh
    pub next_linked : (a : ℕ) → linked a ≡ true → Linked linked (m.node a).next.target
    pub sorted : (a : ℕ) → linked a ≡ true → Above m (m.node a).key (m.node a).next.target
    pub reachable :
        (a : ℕ) → linked a ≡ true → (m.node a).next.marked ≡ false → Way m.node m.head.target a

  -- The link that a cursor is at belongs to the head or to a linked node with a smaller key.
  abbrev pub Before : Harris V → (ℕ → Bool) → ℕ → Option ℕ → Type 0
  Before m linked k prev = Linked linked prev × Below m prev k

  -- Where a find stops, by its result
  abbrev pub Stopped : Harris V → (ℕ → Bool) → ℕ → Bool → Option ℕ → Type 0
  Stopped m linked k false curr = Linked linked curr × Above m k curr
  Stopped m linked k true curr =
      (a : ℕ) × (curr ≡ some a) × (linked a ≡ true) × ((m.node a).key ≡ k)

  -- The new node of an insertion is not linked.
  abbrev pub Private : Harris V → (ℕ → Bool) → Op → Type 0
  Private m linked (getting _) = Unit
  Private m linked (inserting k new) =
      (new < m.fresh) × (linked new ≡ false) × ((m.node new).key ≡ k)
  Private m linked (removing _) = Unit

  abbrev pub At : Harris V → (ℕ → Bool) → Pc → Type 0
  At m l idle = Unit
  At m l (trying op) = Private m l op
  At m l (finding op prev prev_next curr) =
      Private m l op
      × Before m l (key_of op) prev
      × (prev_next.marked ≡ false)
      × (curr.marked ≡ false)
      × Linked l curr.target
      × Run m.node l prev_next.target curr.target
  At m l (cleaning op found prev prev_next curr) =
      Private m l op
      × Before m l (key_of op) prev
      × (prev_next.marked ≡ false)
      × (curr.marked ≡ false)
      × Stopped m l (key_of op) found curr.target
      × Run m.node l prev_next.target curr.target
  At m l (stepping op prev curr) =
      Private m l op × Before m l (key_of op) prev × (curr.marked ≡ false) × Linked l curr.target
  At m l (skipping op prev curr next) =
      Private m l op
      × Before m l (key_of op) prev
      × (curr.marked ≡ false)
      × (next.marked ≡ false)
      × Linked l next.target
      × Run m.node l curr.target next.target
  At m l (walking k curr) = Linked l curr.target
  At m l (decided op found prev curr) =
      Private m l op
      × Before m l (key_of op) prev
      × (curr.marked ≡ false)
      × Stopped m l (key_of op) found curr.target
  At m l (linking k new prev curr) =
      Private m l (inserting k new)
      × Before m l k prev
      × (curr.marked ≡ false)
      × Stopped m l k false curr.target
      × ((m.node new).next ≡ curr)
  At m l (detaching prev curr next) =
      Linked l prev
      × (curr.marked ≡ false)
      × (next.marked ≡ false)
      × Linked l next.target
      × Run m.node l curr.target next.target
  At m l popping = Unit
  At m l (marking a curr) = (l a ≡ true) × (curr.target ≡ some a) × (curr.marked ≡ false)

-- The new node that an operation, and that a thread has
abbrev pub own_of : Op → Option ℕ
own_of (getting _) = none
own_of (inserting _ new) = some new
own_of (removing _) = none

abbrev pub own : Pc → Option ℕ
own idle = none
own (trying op) = own_of op
own (finding op _ _ _) = own_of op
own (cleaning op _ _ _ _) = own_of op
own (stepping op _ _) = own_of op
own (skipping op _ _ _) = own_of op
own (walking _ _) = none
own (decided op _ _ _) = own_of op
own (linking _ new _ _) = some new
own (detaching _ _ _) = none
own popping = none
own (marking _ _) = none
