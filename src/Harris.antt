-- ===== src/Harris.antt =====
-- src/ds_impl/nr/list.rs: the lists of Harris, Harris and Michael, and Herlihy and Shavit, as any
-- number of threads work on one, one access to shared memory at a time.
pub mod Runs
pub mod Paths
pub mod Invariant
mod Stable
mod Links
mod Insertion
pub mod Entries
mod Changes
mod Ahead
mod Known
pub mod Moves
pub mod Linear
pub mod Lookup
mod Hindsight
pub mod Misses
mod Examples
use smr_benchmark.Prelude.{
  ℕ, zero, suc, ltb, if◌then◌else◌, ◌<◌, ◌≡◌, ◌≢◌, Bool, true, false, List, [], ◌∷◌, Option, none,
  some,
}
use smr_benchmark.Prelude.Family.{update}

-- `Shared`: a pointer to a node, by its address, and whether its tag is 1, which marks the node in
-- whose link it stands
pub record Shared : Type 0 where
  pub target : Option ℕ
  pub marked : Bool

-- `with_tag(0)`
abbrev pub untagged : Shared → Shared
untagged s = record s { marked = false }

abbrev pub null : Shared
null = record { target = none; marked = false }

module _ {ℓ} (V : Type ℓ) where
  pub record Node : Type ℓ where
    pub next : Shared
    pub key : ℕ
    pub value : V

  -- `List`, with the memory of its nodes
  pub record Harris : Type ℓ where
    pub head : Shared
    pub node : ℕ → Node
    pub fresh : ℕ

  -- What a step does to the map that the list stands for, or shows of it
  pub data Event : Type ℓ where
    inserts : ℕ → V → Event
    removes : ℕ → V → Event
    finds : ℕ → V → Event
    silent : Event

-- The operation that has called a find, with its key
pub data Op : Type 0 where
  getting : (key : ℕ) → Op
  inserting : (key new : ℕ) → Op
  removing : (key : ℕ) → Op

abbrev pub key_of : Op → ℕ
key_of (getting k) = k
key_of (inserting k _) = k
key_of (removing k) = k

-- Where a thread stands. A link is `none` for the head of the list, and else that of a node.
pub data Pc : Type 0 where
  idle : Pc
  trying : Op → Pc  -- the loop of `get`, `insert` or `remove`
  finding : Op → (prev : Option ℕ) → (prev_next curr : Shared) → Pc  -- `find_harris`
  cleaning : Op → (found : Bool) → (prev : Option ℕ) → (prev_next curr : Shared) → Pc
  stepping : Op → (prev : Option ℕ) → (curr : Shared) → Pc  -- `find_harris_michael`
  skipping : Op → (prev : Option ℕ) → (curr next : Shared) → Pc
  walking : (key : ℕ) → (curr : Shared) → Pc  -- `find_harris_herlihy_shavit`
  decided : Op → (found : Bool) → (prev : Option ℕ) → (curr : Shared) → Pc  -- the find returns
  linking : (key new : ℕ) → (prev : Option ℕ) → (curr : Shared) → Pc
  detaching : (prev : Option ℕ) → (curr next : Shared) → Pc  -- the node is marked
  popping : Pc
  marking : (a : ℕ) → (curr : Shared) → Pc  -- `pop`: the head is read

module _ {ℓ} {V : Type ℓ} where
  abbrev pub link_at : Harris V → Option ℕ → Shared
  link_at m none = m.head
  link_at m (some a) = (m.node a).next

  abbrev pub set_link : Harris V → Option ℕ → Shared → Harris V
  set_link m none x = record m { head = x }
  set_link m (some a) x = record m { node = update m.node a (record (m.node a) { next = x }) }

  -- `fetch_or(1)` on the link of a node
  abbrev pub set_mark : Harris V → ℕ → Harris V
  set_mark m a = set_link m (some a) (record (m.node a).next { marked = true })

  -- One step of a thread
  pub data Move (m : Harris V) : Pc → Event V → Harris V → Pc → Type ℓ where
    get_start : (k : ℕ) → Move m idle silent m (trying (getting k))
    insert_start :
        (k : ℕ) (v : V)
        → Move m idle silent
            (record m {
              node = update m.node m.fresh (record { next = null; key = k; value = v });
              fresh = suc m.fresh;
            })
            (trying (inserting k m.fresh))
    remove_start : (k : ℕ) → Move m idle silent m (trying (removing k))
    find_head : {op : Op} → Move m (trying op) silent m (finding op none m.head m.head)
    find_end :
        {op : Op} {prev : Option ℕ} {prev_next curr : Shared}
        → curr.target ≡ none
        → Move m (finding op prev prev_next curr) silent m (cleaning op false prev prev_next curr)
    find_marked :
        {op : Op} {prev : Option ℕ} {prev_next curr : Shared} (a : ℕ)
        → curr.target ≡ some a
        → (m.node a).next.marked ≡ true
        → Move m
            (finding op prev prev_next curr)
            silent
            m
            (finding op prev prev_next (untagged (m.node a).next))
    find_less :
        {op : Op} {prev : Option ℕ} {prev_next curr : Shared} (a : ℕ)
        → curr.target ≡ some a
        → (m.node a).next.marked ≡ false
        → (m.node a).key < key_of op
        → Move m
            (finding op prev prev_next curr)
            silent
            m
            (finding op (some a) (m.node a).next (m.node a).next)
    find_equal :
        {op : Op} {prev : Option ℕ} {prev_next curr : Shared} (a : ℕ)
        → curr.target ≡ some a
        → (m.node a).next.marked ≡ false
        → (m.node a).key ≡ key_of op
        → Move m
            (finding op prev prev_next curr)
            (finds (key_of op) (m.node a).value)
            m
            (cleaning op true prev prev_next curr)
    find_greater :
        {op : Op} {prev : Option ℕ} {prev_next curr : Shared} (a : ℕ)
        → curr.target ≡ some a
        → (m.node a).next.marked ≡ false
        → key_of op < (m.node a).key
        → Move m (finding op prev prev_next curr) silent m (cleaning op false prev prev_next curr)
    adjacent :
        {op : Op} {found : Bool} {prev : Option ℕ} {prev_next curr : Shared}
        → prev_next ≡ curr
        → Move m (cleaning op found prev prev_next curr) silent m (decided op found prev curr)
    clean :
        {op : Op} {found : Bool} {prev : Option ℕ} {prev_next curr : Shared}
        → link_at m prev ≡ prev_next
        → Move m
            (cleaning op found prev prev_next curr)
            silent
            (set_link m prev curr)
            (decided op found prev curr)
    clean_lost :
        {op : Op} {found : Bool} {prev : Option ℕ} {prev_next curr : Shared}
        → link_at m prev ≢ prev_next
        → Move m (cleaning op found prev prev_next curr) silent m (trying op)
    step_head : {op : Op} → Move m (trying op) silent m (stepping op none m.head)
    step_end :
        {op : Op} {prev : Option ℕ} {curr : Shared}
        → curr.target ≡ none
        → Move m (stepping op prev curr) silent m (decided op false prev curr)
    step_marked :
        {op : Op} {prev : Option ℕ} {curr : Shared} (a : ℕ)
        → curr.target ≡ some a
        → (m.node a).next.marked ≡ true
        → Move m (stepping op prev curr) silent m (skipping op prev curr (untagged (m.node a).next))
    skip :
        {op : Op} {prev : Option ℕ} {curr next : Shared}
        → link_at m prev ≡ curr
        → Move m (skipping op prev curr next) silent (set_link m prev next) (stepping op prev next)
    skip_lost :
        {op : Op} {prev : Option ℕ} {curr next : Shared}
        → link_at m prev ≢ curr
        → Move m (skipping op prev curr next) silent m (trying op)
    step_less :
        {op : Op} {prev : Option ℕ} {curr : Shared} (a : ℕ)
        → curr.target ≡ some a
        → (m.node a).next.marked ≡ false
        → (m.node a).key < key_of op
        → Move m (stepping op prev curr) silent m (stepping op (some a) (m.node a).next)
    step_equal :
        {op : Op} {prev : Option ℕ} {curr : Shared} (a : ℕ)
        → curr.target ≡ some a
        → (m.node a).next.marked ≡ false
        → (m.node a).key ≡ key_of op
        → Move m
            (stepping op prev curr)
            (finds (key_of op) (m.node a).value)
            m
            (decided op true prev curr)
    step_greater :
        {op : Op} {prev : Option ℕ} {curr : Shared} (a : ℕ)
        → curr.target ≡ some a
        → (m.node a).next.marked ≡ false
        → key_of op < (m.node a).key
        → Move m (stepping op prev curr) silent m (decided op false prev curr)
    walk_head : {k : ℕ} → Move m (trying (getting k)) silent m (walking k m.head)
    walk_less :
        {k : ℕ} {curr : Shared} (a : ℕ)
        → curr.target ≡ some a
        → (m.node a).key < k
        → Move m (walking k curr) silent m (walking k (untagged (m.node a).next))
    walk_found :
        {k : ℕ} {curr : Shared} (a : ℕ)
        → curr.target ≡ some a
        → (m.node a).key ≡ k
        → (m.node a).next.marked ≡ false
        → Move m (walking k curr) (finds k (m.node a).value) m idle
    walk_end : {k : ℕ} {curr : Shared} → curr.target ≡ none → Move m (walking k curr) silent m idle
    walk_greater :
        {k : ℕ} {curr : Shared} (a : ℕ)
        → curr.target ≡ some a
        → k < (m.node a).key
        → Move m (walking k curr) silent m idle
    walk_removed :
        {k : ℕ} {curr : Shared} (a : ℕ)
        → curr.target ≡ some a
        → (m.node a).key ≡ k
        → (m.node a).next.marked ≡ true
        → Move m (walking k curr) silent m idle
    get_done :
        {k : ℕ} {found : Bool} {prev : Option ℕ} {curr : Shared}
        → Move m (decided (getting k) found prev curr) silent m idle
    insert_refused :
        {k new : ℕ} {prev : Option ℕ} {curr : Shared}
        → Move m (decided (inserting k new) true prev curr) silent m idle
    insert_prepare :
        {k new : ℕ} {prev : Option ℕ} {curr : Shared}
        → Move m
            (decided (inserting k new) false prev curr)
            silent
            (set_link m (some new) curr)
            (linking k new prev curr)
    insert_link :
        {k new : ℕ} {prev : Option ℕ} {curr : Shared}
        → link_at m prev ≡ curr
        → Move m
            (linking k new prev curr)
            (inserts k (m.node new).value)
            (set_link m prev (record { target = some new; marked = false }))
            idle
    insert_lost :
        {k new : ℕ} {prev : Option ℕ} {curr : Shared}
        → link_at m prev ≢ curr
        → Move m (linking k new prev curr) silent m (trying (inserting k new))
    remove_missed :
        {k : ℕ} {prev : Option ℕ} {curr : Shared}
        → Move m (decided (removing k) false prev curr) silent m idle
    remove_mark :
        {k : ℕ} {prev : Option ℕ} {curr : Shared} (a : ℕ)
        → curr.target ≡ some a
        → (m.node a).next.marked ≡ false
        → Move m
            (decided (removing k) true prev curr)
            (removes k (m.node a).value)
            (set_mark m a)
            (detaching prev curr (m.node a).next)
    remove_lost :
        {k : ℕ} {prev : Option ℕ} {curr : Shared} (a : ℕ)
        → curr.target ≡ some a
        → (m.node a).next.marked ≡ true
        → Move m (decided (removing k) true prev curr) silent m (trying (removing k))
    detach :
        {prev : Option ℕ} {curr next : Shared}
        → link_at m prev ≡ curr
        → Move m (detaching prev curr next) silent (set_link m prev next) idle
    detach_lost :
        {prev : Option ℕ} {curr next : Shared}
        → link_at m prev ≢ curr
        → Move m (detaching prev curr next) silent m idle
    pop_start : Move m idle silent m popping
    pop_empty : m.head.target ≡ none → Move m popping silent m idle
    pop_load : (a : ℕ) → m.head.target ≡ some a → Move m popping silent m (marking a m.head)
    pop_mark :
        {a : ℕ} {curr : Shared}
        → (m.node a).next.marked ≡ false
        → Move m
            (marking a curr)
            (removes (m.node a).key (m.node a).value)
            (set_mark m a)
            (detaching none curr (m.node a).next)
    pop_lost :
        {a : ℕ} {curr : Shared}
        → (m.node a).next.marked ≡ true
        → Move m (marking a curr) silent m popping
