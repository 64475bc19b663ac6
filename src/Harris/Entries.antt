-- ===== src/Harris/Entries.antt =====
-- list.rs: the invariant of all threads and the map, and how it is carried on.
use smr_benchmark.Prelude.{ℕ, ◌≡◌, ◌≢◌, refl, Bool, true, false, Option, some, arith, ◌∙◌, sym, ap}
use smr_benchmark.Prelude.Family.{update, update-each, update-apart}
use smr_benchmark.Harris.{Harris, Pc}
use smr_benchmark.Harris.Invariant.{Shape, At, own}
use smr_benchmark.Harris.Stable.{Extends, At-stable}

module _ {ℓ} {V : Type ℓ} where
  -- The entries of the map are those of the linked nodes without a mark.
  pub record Represents (m : Harris V) (l : ℕ → Bool) (map : ℕ → Option V) : Type ℓ where
    pub stored :
        (a : ℕ)
        → l a ≡ true
        → (m.node a).next.marked ≡ false
        → map (m.node a).key ≡ some (m.node a).value
    pub entry :
        (k : ℕ) (v : V)
        → map k ≡ some v
        → (a : ℕ) × (l a ≡ true)
          × ((m.node a).next.marked ≡ false)
          × ((m.node a).key ≡ k)
          × ((m.node a).value ≡ v)

  pub record Inv (m : Harris V) (th : ℕ → Pc) (map : ℕ → Option V) : Type ℓ where
    pub linked : ℕ → Bool
    pub shape : Shape m linked
    pub at : (k : ℕ) → At m linked (th k)
    pub apart : (j k a : ℕ) → own (th j) ≡ some a → own (th k) ≡ some a → j ≡ k
    pub represents : Represents m linked map

  pub advance :
      {m m' : Harris V} {th : ℕ → Pc} {map map' : ℕ → Option V} (v : Inv m th map) (i : ℕ) (p : Pc)
      (l' : ℕ → Bool)
      → Shape m' l'
      → At m' l' p
      → ((j : ℕ) → i ≢ j → Extends m v.linked m' l' (own (th j)))
      → ((j a : ℕ) → i ≢ j → own (th j) ≡ some a → own p ≢ some a)
      → Represents m' l' map'
      → Inv m' (update th i p) map'
  advance {m} {m'} {th} v i p l' s a x o r = record {
    linked = l';
    shape = s;
    at = update-each th i p (At m' l') a (λ j ne. At-stable (th j) v.shape (x j ne) (v.at j));
    apart = update-apart own th i p v.apart o;
    represents = r;
  }

  pub same-Extends : {m : Harris V} {l : ℕ → Bool} {w : Option ℕ} → Extends m l m l w
  same-Extends = record {
    fresh_le = omega arith;
    grows = λ a k. k;
    keys = λ a lt. refl;
    frozen = λ a k g. refl;
    mine = λ a f lt k. (k, refl);
  }

  -- The node that the thread has stays its own, or it has none.
  pub kept :
      {m : Harris V} {th : ℕ → Pc} {map : ℕ → Option V} (v : Inv m th map) (i : ℕ) (p : Pc)
      → ((a : ℕ) → own p ≡ some a → own (th i) ≡ some a)
      → (j a : ℕ) → i ≢ j
      → own (th j) ≡ some a
      → own p ≢ some a
  kept v i p f j a ne g h = ne (v.apart i j a (f a h) g)

  -- A step that changes nothing but what the thread knows
  pub look :
      {m : Harris V} {th : ℕ → Pc} {map : ℕ → Option V} (v : Inv m th map) (i : ℕ) (p : Pc)
      → At m v.linked p
      → ((a : ℕ) → own p ≡ some a → own (th i) ≡ some a)
      → Inv m (update th i p) map
  look v i p a f =
      advance v i p v.linked v.shape a (λ j ne. same-Extends) (kept v i p f) v.represents

  -- What is stored in the linked nodes is not changed.
  pub still-Represents :
      {m m' : Harris V} {l : ℕ → Bool} {map : ℕ → Option V}
      → Represents m l map
      → ((a : ℕ)
          → l a ≡ true
          → ((m'.node a).key ≡ (m.node a).key)
            × ((m'.node a).value ≡ (m.node a).value)
            × ((m'.node a).next.marked ≡ (m.node a).next.marked))
      → Represents m' l map
  still-Represents {map} r f = record {
    stored =
        λ a h q. let (k, w, g) = f a h in ap map k ∙ r.stored a h (sym g ∙ q) ∙ ap some (sym w);
    entry = λ k w e.
        let (a, h, q, g, u) = r.entry k w e in
        let (k', w', g') = f a h in (a, h, g' ∙ q, k' ∙ g, w' ∙ u);
  }
