-- ===== src/Harris/Stable.antt =====
-- list.rs: what a thread knows stays true while others change the list.
use smr_benchmark.Prelude.{
  ℕ, ◌≤◌, ◌<◌, ◌≡◌, refl, Bool, true, false, Option, none, some, arith, ◌∙◌, sym,
}
use smr_benchmark.Harris.{
  Harris, Op, getting, inserting, removing, key_of, Pc, idle, trying, finding, cleaning, stepping,
  skipping, walking, decided, linking, detaching, popping, marking,
}
use smr_benchmark.Harris.Paths.{Run, Run-map}
use smr_benchmark.Harris.Invariant.{Linked, Shape, Before, Stopped, Private, At, own_of, own}

module _ {ℓ} {V : Type ℓ} where
  -- What a step changes of the list, to a thread whose new node is `w`
  pub record Extends (m : Harris V) (l : ℕ → Bool) (m' : Harris V) (l' : ℕ → Bool) (w : Option ℕ)
      : Type ℓ where
    pub fresh_le : m.fresh ≤ m'.fresh
    pub grows : (a : ℕ) → l a ≡ true → l' a ≡ true
    pub keys : (a : ℕ) → a < m.fresh → (m'.node a).key ≡ (m.node a).key
    pub frozen :
        (a : ℕ) → l a ≡ true → (m.node a).next.marked ≡ true → (m'.node a).next ≡ (m.node a).next
    pub mine :
        (a : ℕ)
        → w ≡ some a
        → a < m.fresh
        → l a ≡ false
        → (l' a ≡ false) × ((m'.node a).next ≡ (m.node a).next)

  module _ {m : Harris V} {l : ℕ → Bool} {m' : Harris V} {l' : ℕ → Bool} {w : Option ℕ}
      (s : Shape m l) (x : Extends m l m' l' w) where
    Linked-stable : (t : Option ℕ) → Linked l t → Linked l' t
    Linked-stable none h = tt
    Linked-stable (some a) h = x.grows a h

    key_of_linked : (a : ℕ) → l a ≡ true → (m'.node a).key ≡ (m.node a).key
    key_of_linked a h = x.keys a (s.allocated a h)

    pub Before-stable : (k : ℕ) (t : Option ℕ) → Before m l k t → Before m' l' k t
    Before-stable k none h = (tt, tt)
    Before-stable k (some a) (h, lt) = (x.grows a h, omega (arith, key_of_linked a h))

    pub Stopped-stable :
        (k : ℕ) (found : Bool) (t : Option ℕ) → Stopped m l k found t → Stopped m' l' k found t
    Stopped-stable k false none h = (tt, tt)
    Stopped-stable k false (some a) (h, lt) = (x.grows a h, omega (arith, key_of_linked a h))
    Stopped-stable k true t (a, e, h, q) = (a, e, x.grows a h, key_of_linked a h ∙ q)

    Run-stable : {a b : Option ℕ} → Run m.node l a b → Run m'.node l' a b
    Run-stable r = Run-map (λ b h g. (x.grows b h, x.frozen b h g)) r

    new-stable :
        (k new : ℕ) → w ≡ some new → Private m l (inserting k new) → Private m' l' (inserting k new)
    new-stable k new e (lt, h, q) =
        (omega (arith, x.fresh_le), (x.mine new e lt h).0, x.keys new lt ∙ q)

    Private-stable : (op : Op) → own_of op ≡ w → Private m l op → Private m' l' op
    Private-stable (getting _) e h = tt
    Private-stable (inserting k new) e h = new-stable k new (sym e) h
    Private-stable (removing _) e h = tt

  pub At-stable :
      {m : Harris V} {l : ℕ → Bool} {m' : Harris V} {l' : ℕ → Bool} (p : Pc)
      → Shape m l
      → Extends m l m' l' (own p)
      → At m l p
      → At m' l' p
  At-stable idle s x h = tt
  At-stable (trying op) s x h = Private-stable s x op refl h
  At-stable (finding op prev n c) s x (h, b, e, f, g, r) = (
    Private-stable s x op refl h,
    Before-stable s x (key_of op) prev b,
    e,
    f,
    Linked-stable s x c.target g,
    Run-stable s x r,
  )
  At-stable (cleaning op found prev n c) s x (h, b, e, f, g, r) = (
    Private-stable s x op refl h,
    Before-stable s x (key_of op) prev b,
    e,
    f,
    Stopped-stable s x (key_of op) found c.target g,
    Run-stable s x r,
  )
  At-stable (stepping op prev c) s x (h, b, e, g) = (
    Private-stable s x op refl h,
    Before-stable s x (key_of op) prev b,
    e,
    Linked-stable s x c.target g,
  )
  At-stable (skipping op prev c n) s x (h, b, e, f, g, r) = (
    Private-stable s x op refl h,
    Before-stable s x (key_of op) prev b,
    e,
    f,
    Linked-stable s x n.target g,
    Run-stable s x r,
  )
  At-stable (walking k c) s x h = Linked-stable s x c.target h
  At-stable (decided op found prev c) s x (h, b, e, g) = (
    Private-stable s x op refl h,
    Before-stable s x (key_of op) prev b,
    e,
    Stopped-stable s x (key_of op) found c.target g,
  )
  At-stable (linking k new prev c) s x ((lt, h, q), b, e, g, f) = (
    new-stable s x k new refl (lt, h, q),
    Before-stable s x k prev b,
    e,
    Stopped-stable s x k false c.target g,
    (x.mine new refl lt h).1 ∙ f,
  )
  At-stable (detaching prev c n) s x (h, e, f, g, r) =
      (Linked-stable s x prev h, e, f, Linked-stable s x n.target g, Run-stable s x r)
  At-stable popping s x h = tt
  At-stable (marking a c) s x (h, e, f) = (x.grows a h, e, f)
