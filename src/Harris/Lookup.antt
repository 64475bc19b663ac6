-- ===== src/Harris/Lookup.antt =====
-- list.rs: the look-up without interference.
use smr_benchmark.Prelude.{
  ℕ, zero, suc, ◌+◌, ◌≤◌, ◌<◌, ◌≡◌, refl, Bool, Option, none, some, List, arith, ◌∙◌, sym, ap,
  Bool-cases, inl, inr, dec_lt,
}
use smr_benchmark.Harris.{Harris, Event}
use smr_benchmark.Harris.Runs.{System, Reach, after, walk, harris_herlihy_shavit_get}
use smr_benchmark.Harris.Invariant.{Linked, Above, Shape}
use smr_benchmark.Harris.Entries.{Represents}
use smr_benchmark.Harris.Ahead.{Ahead, gone, nowhere, not_below, same_node, past}
use smr_benchmark.Harris.Linear.{Reach-Inv}

module _ {ℓ} {V : Type ℓ} where
  -- A pointer is null, or leads to a node with a key of at least `j`.
  abbrev From : Harris V → ℕ → Option ℕ → Type 0
  From m j none = Unit
  From m j (some a) = j ≤ (m.node a).key

  From-zero : (m : Harris V) (x : Option ℕ) → From m 0 x
  From-zero m none = tt
  From-zero m (some a) = omega arith

  From-Above : (m : Harris V) (j : ℕ) (x : Option ℕ) → Above m j x → From m (suc j) x
  From-Above m j none h = tt
  From-Above m j (some a) h = omega (arith, h)

  module _ {m : Harris V} {l : ℕ → Bool} {map : ℕ → Option V} (s : Shape m l)
      (r : Represents m l map) (k : ℕ) where
    walk_lem :
        (fuel j : ℕ) (x : Option ℕ)
        → j ≤ k
        → k < fuel + j
        → Linked l x
        → From m j x
        → Ahead m k x
        → walk fuel m k x ≡ some (map k)
    unfolding walk
    walk_lem zero j x le lt lx fx ahead = absurd (omega arith)
    walk_lem (suc fuel) j none le lt lx fx ahead =
        ap some (sym (gone s r k (λ b key um way. nowhere (ahead b key um way) refl)))
    walk_lem (suc fuel) j (some a) le lt la fx ahead = elim (dec_lt (m.node a).key k) [
      | yes below ↦
          let rest =
            walk_lem fuel (suc (m.node a).key) (m.node a).next.target (omega (arith, below))
              (omega (arith, lt, fx)) (s.next_linked a la)
              (From-Above m (m.node a).key (m.node a).next.target (s.sorted a la))
              (λ b key um way. past (ahead b key um way) (omega (arith, key, below))) in
          ground (arith, below, rest)
      | no high ↦ elim (dec_lt k (m.node a).key) [
        | yes above ↦
            let lost =
              gone s r k
                (λ b key um way. omega (arith, above, key, not_below (ahead b key um way))) in
            ground (arith, above, lost)
        | no low ↦ elim (Bool-cases (m.node a).next.marked) [
          | inl mk ↦
              let lost = gone s r k (λ b key um way.
                let same = same_node (ahead b key um way) (omega (arith, high, low, key)) in
                ground (arith, same, mk, um)) in
              ground (arith, high, low, mk, lost)
          | inr um ↦
              let stored = r.stored a la um in
              let key : (m.node a).key ≡ k = omega (arith, high, low) in
              ground (arith, um, high, low, ap map (sym key) ∙ stored)
        ]
      ]
    ]

  -- In every state that the threads reach, `harris_herlihy_shavit_get` returns the value of the key in
  -- the map that the insertions and removals have made, or nothing if there is none, on fuel above the
  -- key, while no other thread takes a step.
  pub harris_herlihy_shavit_get_lem :
      {es : List (Event V)} {s : System V} (fuel k : ℕ)
      → Reach es s
      → k < fuel
      → harris_herlihy_shavit_get fuel s.list k ≡ some (after es k)
  unfolding harris_herlihy_shavit_get
  harris_herlihy_shavit_get_lem {s} fuel k r lt =
      let (v, legal) = Reach-Inv r in
      walk_lem v.shape v.represents k fuel 0 s.list.head.target (omega arith) (omega (arith, lt))
        v.shape.head_linked (From-zero s.list s.list.head.target) (λ b key um way. way)
