-- ===== src/Harris/Ahead.antt =====
-- list.rs: what is ahead of a search, while others change the list.
use smr_benchmark.Prelude.{
  ℕ, suc, ◌≤◌, ◌<◌, ◌≡◌, ◌≢◌, refl, Bool, true, false, Option, none, some, arith, ◌∙◌, sym, ap,
}
use smr_benchmark.Prelude.Family.{update}
use smr_benchmark.Harris.{Shared, Node, Harris, link_at, set_link, set_mark}
use smr_benchmark.Harris.Paths.{Way, here, there, Run}
use smr_benchmark.Harris.Invariant.{Linked, Shape}
use smr_benchmark.Harris.Links.{
  unlink-Way, unlink-Shape, mark-Shape, prepare-Shape, alloc-Shape, stay, relink, keys_stay,
  other_next,
}
use smr_benchmark.Harris.Insertion.{Ready, link_to, insert-Shape, insert-Way}
use smr_benchmark.Harris.Entries.{Represents}
use smr_benchmark.Harris.Changes.{write-keeps}

module _ {ℓ} {V : Type ℓ} where
  not_there :
      (map : ℕ → Option V) (k : ℕ) (found : Option V)
      → map k ≡ found
      → ((d : V) → map k ≢ some d)
      → map k ≡ none
  not_there map k none e f = e
  not_there map k (some d) e f = absurd (f d e)

  -- What is still ahead of a search: every entry of the key
  abbrev pub Ahead : Harris V → ℕ → Option ℕ → Type 0
  Ahead m k x =
      (b : ℕ)
      → (m.node b).key ≡ k
      → (m.node b).next.marked ≡ false
      → Way m.node m.head.target b
      → Way m.node x b

  pub nowhere : {node : ℕ → Node V} {x : Option ℕ} {b : ℕ} → Way node x b → x ≢ none
  nowhere here e = absurd (ground (arith, e))
  nowhere (there lt q) e = absurd (ground (arith, e))

  -- A way from a node leads there, or up.
  pub not_below : {node : ℕ → Node V} {a b : ℕ} → Way node (some a) b → (node a).key ≤ (node b).key
  not_below here = omega arith
  not_below (there lt q) = omega arith

  pub same_node :
      {node : ℕ → Node V} {a b : ℕ} → Way node (some a) b → (node a).key ≡ (node b).key → a ≡ b
  same_node here e = refl
  same_node (there lt q) e = absurd (omega (arith, lt, e))

  pub past :
      {node : ℕ → Node V} {a b : ℕ}
      → Way node (some a) b
      → (node a).key < (node b).key
      → Way node (node a).next.target b
  past here lt = absurd (omega (arith, lt))
  past (there lt q) h = q

  pub past_other :
      {node : ℕ → Node V} {a b : ℕ} → Way node (some a) b → a ≢ b → Way node (node a).next.target b
  past_other here ne = absurd (ne refl)
  past_other (there lt q) ne = q

  -- There is no entry of the key if nothing is ahead.
  pub gone :
      {m : Harris V} {l : ℕ → Bool} {map : ℕ → Option V} (s : Shape m l) (r : Represents m l map)
      (k : ℕ)
      → ((b : ℕ)
          → (m.node b).key ≡ k
          → (m.node b).next.marked ≡ false
          → Way m.node m.head.target b
          → ⊥)
      → map k ≡ none
  gone {map} s r k f =
      not_there map k (map k) refl
        (λ d e. let (b, lb, um, kb, vb) = r.entry k d e in f b kb um (s.reachable b lb um))

  Way-Linked :
      {m : Harris V} {l : ℕ → Bool} {x : Option ℕ} {a : ℕ}
      → Shape m l
      → Linked l x
      → Way m.node x a
      → l a ≡ true
  Way-Linked s h here = h
  Way-Linked s h (there {b} lt q) = Way-Linked s (s.next_linked b h) q

  -- A change of the links leaves what is ahead, if it leaves the ways, and shows no node that was not
  -- there.
  carry :
      (m m' : Harris V) {l l' : ℕ → Bool} (k : ℕ)
      → Shape m l
      → Shape m' l'
      → ((b : ℕ)
          → l' b ≡ true
          → (m'.node b).key ≡ k
          → (m'.node b).next.marked ≡ false
          → (l b ≡ true) × ((m.node b).key ≡ k) × ((m.node b).next.marked ≡ false))
      → ((x : Option ℕ) (b : ℕ)
          → Linked l x
          → l b ≡ true
          → (m'.node b).next.marked ≡ false
          → Way m.node x b
          → Way m'.node x b)
      → (x : Option ℕ) → Linked l x
      → Ahead m k x
      → Ahead m' k x
  carry m m' k s s' old ways x lx ahead b key um w =
      let (lb, kb, ub) = old b (Way-Linked s' s'.head_linked w) key um in
      ways x b lx lb um (ahead b kb ub (s.reachable b lb ub))

  pub unlink-Ahead :
      (m : Harris V) {l : ℕ → Bool} (s : Shape m l) (k : ℕ) (prev : Option ℕ) (x : Shared)
      → Linked l prev
      → (link_at m prev).marked ≡ false
      → x.marked ≡ false
      → Linked l x.target
      → Run m.node l (link_at m prev).target x.target
      → (y : Option ℕ) → Linked l y
      → Ahead m k y
      → Ahead (set_link m prev x) k y
  unlink-Ahead m s k prev x h e f g r =
      carry m (set_link m prev x) k s (unlink-Shape s prev x h e f g r)
        (λ b lb key um.
          let (kb, vb, ub) = write-keeps m prev x (e ∙ sym f) b in (lb, sym kb ∙ key, sym ub ∙ um))
        (λ y b ly lb um w. unlink-Way m prev x h e r um w)

  pub mark-Ahead :
      (m : Harris V) {l : ℕ → Bool} (s : Shape m l) (k a : ℕ)
      → (m.node a).next.marked ≡ false
      → (y : Option ℕ) → Linked l y
      → Ahead m k y
      → Ahead (set_mark m a) k y
  mark-Ahead m s k a e =
      let x : Shared = record (m.node a).next { marked = true } in
      carry m (set_mark m a) k s (mark-Shape s a e)
        (λ b lb key um. (lb, sym (keys_stay m a x b) ∙ key, ground (arith, um, e)))
        (λ y b ly lb um w. relink m a x (λ _ z. z) w)

  pub prepare-Ahead :
      (m : Harris V) {l : ℕ → Bool} (s : Shape m l) (k new : ℕ) (x : Shared)
      → l new ≡ false
      → (y : Option ℕ) → Linked l y
      → Ahead m k y
      → Ahead (set_link m (some new) x) k y
  prepare-Ahead m {l} s k new x h =
      let ne : (b : ℕ) → l b ≡ true → new ≢ b = λ b lb e. ground (arith, e, h, lb) in
      carry m (set_link m (some new) x) k s (prepare-Shape s new x h)
        (λ b lb key um. (
          lb,
          sym (keys_stay m new x b) ∙ key,
          sym (ap (λ (y : Shared). y.marked) (other_next m new x b (ne b lb))) ∙ um,
        ))
        (λ y b ly lb um w.
          stay s (λ c lc. (keys_stay m new x c, other_next m new x c (ne c lc))) lb ly w)

  pub alloc-Ahead :
      (m : Harris V) {l : ℕ → Bool} (s : Shape m l) (k : ℕ) (n : Node V) (y : Option ℕ)
      → Linked l y
      → Ahead m k y
      → Ahead (record m { node = update m.node m.fresh n; fresh = suc m.fresh }) k y
  alloc-Ahead m {l} s k n =
      let m' : Harris V = record m { node = update m.node m.fresh n; fresh = suc m.fresh } in
      let old : (a : ℕ)
          → l a ≡ true
          → ((update m.node m.fresh n a).key ≡ (m.node a).key)
            × ((update m.node m.fresh n a).next ≡ (m.node a).next) =
        λ a la. (ground (arith, s.allocated a la), ground (arith, s.allocated a la)) in
      carry m m' k s (alloc-Shape s n)
        (λ b lb key um.
          (lb, sym (old b lb).0 ∙ key, sym (ap (λ (y : Shared). y.marked) (old b lb).1) ∙ um))
        (λ y b ly lb um w. stay s old lb ly w)

  -- A new node is ahead only of a search for its key.
  pub insert-Ahead :
      (m : Harris V) {l : ℕ → Bool} (s : Shape m l) (k j new : ℕ) (prev : Option ℕ) (curr : Shared)
      → Ready m l j new prev curr
      → j ≢ k
      → (y : Option ℕ) → Linked l y
      → Ahead m k y
      → Ahead (set_link m prev (link_to new)) k y
  insert-Ahead m {l} s k j new prev curr r ne =
      let clear = ap (λ (y : Shared). y.marked) r.link ∙ r.clear in
      carry m (set_link m prev (link_to new)) k s (insert-Shape prev s r)
        (λ b lb key um.
          let (kb, vb, ub) = write-keeps m prev (link_to new) clear b in
          let other : new ≢ b = λ e. ne (sym r.key ∙ ap (λ c. (m.node c).key) e ∙ sym kb ∙ key) in
          (ground (arith, lb, other), sym kb ∙ key, sym ub ∙ um))
        (λ y b ly lb um w. insert-Way m prev r w)
