-- ===== src/Harris/Runs.antt =====
-- list.rs: runs of the threads, the map that they make, and the look-up without interference.
use smr_benchmark.Prelude.{ℕ, zero, suc, ltb, if◌then◌else◌, ◌≡◌, List, [], ◌∷◌, Option, none, some}
use smr_benchmark.Prelude.Family.{update}
use smr_benchmark.Harris.{
  null, Node, Harris, Event, inserts, removes, finds, silent, Pc, idle, Move,
}

module _ {ℓ} {V : Type ℓ} where
  -- `find_harris_herlihy_shavit` in `get`, from a pointer on, while no other thread takes a step;
  -- `none` where the fuel is used up
  unfoldable pub walk : ℕ → Harris V → ℕ → Option ℕ → Option (Option V)
  walk zero m k x = none
  walk (suc fuel) m k none = some none
  walk (suc fuel) m k (some a) =
      let rest = walk fuel m k (m.node a).next.target in
      if ltb (m.node a).key k
      then rest
      else if ltb k (m.node a).key
      then some none
      else if (m.node a).next.marked
      then some none
      else some (some (m.node a).value)

  unfoldable pub harris_herlihy_shavit_get : ℕ → Harris V → ℕ → Option (Option V)
  harris_herlihy_shavit_get fuel m k = walk fuel m k m.head.target

module _ {ℓ} (V : Type ℓ) where
  pub record System : Type ℓ where
    pub list : Harris V
    pub thread : ℕ → Pc

module _ {ℓ} {V : Type ℓ} where
  pub data Step (s : System V) : Event V → System V → Type ℓ where
    pick :
        (i : ℕ) {e : Event V} {m : Harris V} {p : Pc}
        → Move s.list (s.thread i) e m p
        → Step s e (record { list = m; thread = update s.thread i p })

  -- `List::new`
  abbrev pub new_list : (ℕ → Node V) → Harris V
  new_list node = record { head = null; node = node; fresh = 0 }

  -- The states after some steps, with their events, the latest first
  pub data Reach : List (Event V) → System V → Type ℓ where
    start : (node : ℕ → Node V) → Reach [] (record { list = new_list node; thread = λ _. idle })
    later :
        {es : List (Event V)} {s t : System V} {e : Event V}
        → Reach es s
        → Step s e t
        → Reach (e ∷ es) t

  -- What an event does to the map, and what it finds there: an insertion no entry of its key, a
  -- removal the entry that it returns, and so does a look-up.
  abbrev pub apply : Event V → (ℕ → Option V) → ℕ → Option V
  apply (inserts k v) map = update map k (some v)
  apply (removes k v) map = update map k none
  apply (finds k v) map = map
  apply silent map = map

  abbrev pub Allows : Event V → (ℕ → Option V) → Type ℓ
  Allows (inserts k v) map = map k ≡ none
  Allows (removes k v) map = map k ≡ some v
  Allows (finds k v) map = map k ≡ some v
  Allows silent map = Unit

  -- The map that the events make of the empty one, and that each of them is allowed there
  abbrev pub after : List (Event V) → ℕ → Option V
  after [] = λ _. none
  after (e ∷ es) = apply e (after es)

  abbrev pub Legal : List (Event V) → Type ℓ
  Legal [] = Unit
  Legal (e ∷ es) = Legal es × Allows e (after es)
