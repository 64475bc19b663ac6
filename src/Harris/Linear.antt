-- ===== src/Harris/Linear.antt =====
-- list.rs: the list as a map, through every interleaving.
use smr_benchmark.Prelude.{
  ℕ, ◌<◌, ◌≡◌, refl, Bool, true, false, Option, none, some, List, arith, ◌∙◌, sym, ap, subst, ◌↔◌,
}
use smr_benchmark.Harris.{Node, Harris, Event, Pc, idle}
use smr_benchmark.Harris.Runs.{System, pick, Reach, start, later, new_list, after, Legal}
use smr_benchmark.Harris.Paths.{Way, here, there}
use smr_benchmark.Harris.Invariant.{Linked, Above, Shape}
use smr_benchmark.Harris.Entries.{Inv}
use smr_benchmark.Harris.Moves.{Move-Inv}

module _ {ℓ} {V : Type ℓ} where
  pub start-Inv : (node : ℕ → Node V) → Inv (new_list node) (λ _. idle) (λ _. none)
  start-Inv node = record {
    linked = λ _. false;
    shape = record {
      head_clear = refl;
      head_linked = tt;
      allocated = λ a h. absurd (ground (arith, h));
      next_linked = λ a h. absurd (ground (arith, h));
      sorted = λ a h. absurd (ground (arith, h));
      reachable = λ a h. absurd (ground (arith, h));
    };
    at = λ k. tt;
    apart = λ j k a e. absurd (ground (arith, e));
    represents = record {
      stored = λ a h. absurd (ground (arith, h));
      entry = λ k v e. absurd (ground (arith, e));
    };
  }

  pub Reach-Inv :
      {es : List (Event V)} {s : System V} → Reach es s → Inv s.list s.thread (after es) × Legal es
  Reach-Inv (start node) = (start-Inv node, tt)
  Reach-Inv (later r (pick k mv)) =
      let (v, past) = Reach-Inv r in let (w, now) = Move-Inv v k mv refl in (w, (past, now))

  -- From one pointer the links lead to a node.
  pub data Leads (node : ℕ → Node V) : Option ℕ → ℕ → Type ℓ where
    at_node : {a : ℕ} → Leads node (some a) a
    onward : {a b : ℕ} → Leads node (node a).next.target b → Leads node (some a) b

  Leads-Linked :
      {m : Harris V} {l : ℕ → Bool} {x : Option ℕ} {a : ℕ}
      → Shape m l
      → Linked l x
      → Leads m.node x a
      → l a ≡ true
  Leads-Linked s h at_node = h
  Leads-Linked s h (onward {a} q) = Leads-Linked s (s.next_linked a h) q

  Way-Leads : {node : ℕ → Node V} {x : Option ℕ} {a : ℕ} → Way node x a → Leads node x a
  Way-Leads here = at_node
  Way-Leads (there lt q) = onward (Way-Leads q)

  -- The links from the head show an entry in a node without a mark.
  pub record Shows (m : Harris V) (k : ℕ) (d : V) : Type ℓ where
    pub address : ℕ
    pub reached : Leads m.node m.head.target address
    pub unmarked : (m.node address).next.marked ≡ false
    pub key : (m.node address).key ≡ k
    pub value : (m.node address).value ≡ d

  -- The entries of the map are those that the links from the head show.
  pub Inv-Shows :
      {m : Harris V} {th : ℕ → Pc} {map : ℕ → Option V} (k : ℕ) (d : V)
      → Inv m th map
      → (map k ≡ some d) ↔ Shows m k d
  Inv-Shows {map} k d v = (
    λ e.
        let (a, la, um, ka, va) = v.represents.entry k d e in
        record {
          address = a;
          reached = Way-Leads (v.shape.reachable a la um);
          unmarked = um;
          key = ka;
          value = va;
        },
    λ w.
        ap map (sym w.key)
        ∙ v.represents.stored w.address (Leads-Linked v.shape v.shape.head_linked w.reached)
            w.unmarked
        ∙ ap some w.value,
  )

  -- Whatever the threads do, each insertion, when it links its node, finds no entry of its key in the
  -- map that the insertions and removals before it have made, one after the other; each removal, when
  -- it marks its node, and each look-up, when it finds its node without a mark, finds there the entry
  -- that it returns; and the entries of the map are those that the links from the head show.
  pub harris_linearizable :
      {es : List (Event V)} {s : System V} (k : ℕ) (d : V)
      → Reach es s
      → Legal es × ((after es k ≡ some d) ↔ Shows s.list k d)
  harris_linearizable k d r = let (v, legal) = Reach-Inv r in (legal, Inv-Shows k d v)

  -- Whatever the threads do, the keys of the nodes ascend along the links from the head, and the
  -- nodes, marked or not, have been allocated.
  links_ascend :
      {es : List (Event V)} {s : System V} (a b : ℕ)
      → Reach es s
      → Leads s.list.node s.list.head.target a
      → (s.list.node a).next.target ≡ some b
      → ((s.list.node a).key < (s.list.node b).key) × (b < s.list.fresh)
  links_ascend {s} a b r w e =
      let (v, legal) = Reach-Inv r in
      let la = Leads-Linked v.shape v.shape.head_linked w in
      (
        subst (Above s.list (s.list.node a).key) e (v.shape.sorted a la),
        v.shape.allocated b (subst (Linked v.linked) e (v.shape.next_linked a la)),
      )
