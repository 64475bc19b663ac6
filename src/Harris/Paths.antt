-- ===== src/Harris/Paths.antt =====
-- list.rs: ways along the links.
use smr_benchmark.Prelude.{
  ℕ, ◌<◌, ◌≡◌, refl, Bool, true, false, Option, some, arith, ◌∙◌, sym, subst, ap,
}
use smr_benchmark.Harris.{Shared, Node}

module _ {ℓ} {V : Type ℓ} where
  -- The links lead from a pointer to node `u`, up the keys.
  pub data Way (node : ℕ → Node V) : Option ℕ → ℕ → Type 0 where
    here : {u : ℕ} → Way node (some u) u
    there :
        {b u : ℕ}
        → (node b).key < (node u).key
        → Way node (node b).next.target u
        → Way node (some b) u

  -- The links lead from one pointer to the other through marked nodes, up the keys.
  pub data Run (node : ℕ → Node V) (linked : ℕ → Bool) : Option ℕ → Option ℕ → Type 0 where
    stop : {x : Option ℕ} → Run node linked x x
    pass :
        {b : ℕ} {y : Option ℕ}
        → linked b ≡ true
        → (node b).next.marked ≡ true
        → Run node linked (node b).next.target y
        → Run node linked (some b) y

  -- A run can be made longer by a marked node at its end.
  pub Run-snoc :
      {node : ℕ → Node V} {linked : ℕ → Bool} {x : Option ℕ} {a : ℕ}
      → Run node linked x (some a)
      → linked a ≡ true
      → (node a).next.marked ≡ true
      → Run node linked x (node a).next.target
  Run-snoc stop l h = pass l h stop
  Run-snoc (pass k g r) l h = pass k g (Run-snoc r l h)

  -- A way to an unmarked node does not end within a run.
  pub shortcut :
      {node : ℕ → Node V} {linked : ℕ → Bool} {x y : Option ℕ} {u : ℕ}
      → Way node x u
      → (node u).next.marked ≡ false
      → Run node linked x y
      → Way node y u
  shortcut p h stop = p
  shortcut here h (pass _ g r) = absurd (ground (arith, g, h))
  shortcut (there lt p) h (pass _ g r) = shortcut p h r

  -- Of two nodes on the ways from one pointer, that with the greater key comes later.
  pub through :
      {node : ℕ → Node V} {x : Option ℕ} {p u : ℕ}
      → Way node x p
      → Way node x u
      → (node p).key < (node u).key
      → Way node (node p).next.target u
  through here here lt = absurd (omega arith)
  through here (there g q) lt = q
  through (there g q) here lt = absurd (omega arith)
  through (there g q) (there h r) lt = through q r lt

  -- Two nodes on the ways from one pointer with the same key are the same.
  pub same_key :
      {node : ℕ → Node V} {x : Option ℕ} {p u : ℕ}
      → Way node x p
      → Way node x u
      → (node p).key ≡ (node u).key
      → p ≡ u
  same_key here here e = refl
  same_key here (there g q) e = absurd (omega arith)
  same_key (there g q) here e = absurd (omega arith)
  same_key (there g q) (there h r) e = same_key q r e

  -- A way goes on in other links, if it can wherever a link on it has changed.
  pub reroute :
      {node node' : ℕ → Node V} {u : ℕ}
      → ((b : ℕ) → (node' b).key ≡ (node b).key)
      → ((b : ℕ)
          → (node b).key < (node u).key
          → Way node' (node b).next.target u
          → Way node' (node' b).next.target u)
      → {x : Option ℕ} → Way node x u
      → Way node' x u
  reroute keys f here = here
  reroute {node} {node'} {u} keys f (there {b} lt q) =
      there (omega (arith, keys b, keys u)) (f b lt (reroute keys f q))

  pub extend :
      {node : ℕ → Node V} {x : Option ℕ} {p n : ℕ}
      → Way node x p
      → (node p).next.target ≡ some n
      → (node p).key < (node n).key
      → Way node x n
  extend {node} {p} {n} here e lt = there lt (subst (λ x. Way node x n) (sym e) here)
  extend (there g q) e lt = there (omega arith) (extend q e lt)

  pub Run-map :
      {node node' : ℕ → Node V} {l l' : ℕ → Bool}
      → ((b : ℕ)
          → l b ≡ true
          → (node b).next.marked ≡ true
          → (l' b ≡ true) × ((node' b).next ≡ (node b).next))
      → {x y : Option ℕ} → Run node l x y
      → Run node' l' x y
  Run-map f stop = stop
  Run-map {node'} {l'} f {y} (pass {b} k g r) =
      let (k', e) = f b k g in
      pass k' (ap (λ (s : Shared). s.marked) e ∙ g)
        (subst (λ (s : Shared). Run node' l' s.target y) (sym e) (Run-map f r))
