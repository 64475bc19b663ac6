-- ===== src/Harris/Misses.antt =====
-- list.rs: searches that find nothing.
use smr_benchmark.Prelude.{
  ℕ, ◌<◌, ◌≡◌, refl, Bool, true, false, Option, none, some, List, ◌∷◌, arith, ◌∙◌, sym, ap, subst,
  ◌⊎◌, inl, inr, ℕ_discrete,
}
use smr_benchmark.Prelude.Family.{update}
use smr_benchmark.Harris.{
  Shared, Harris, Event, Op, key_of, Pc, idle, trying, finding, cleaning, stepping, skipping,
  walking, decided, linking, detaching, popping, marking,
}
use smr_benchmark.Harris.Runs.{System, pick, Reach, Step, start, later, after}
use smr_benchmark.Harris.Paths.{Way}
use smr_benchmark.Harris.Invariant.{Linked, At}
use smr_benchmark.Harris.Ahead.{Ahead, nowhere, same_node}
use smr_benchmark.Harris.Hindsight.{
  sought, rest, Hindsight, Move-Ahead, Move-Hindsight, conclude, too_far,
}
use smr_benchmark.Harris.Linear.{Reach-Inv}

module _ {ℓ} {V : Type ℓ} where
  -- While a thread has been in its find for a key, that key was not in the map.
  pub data Missed (i k : ℕ) : (es : List (Event V)) (s : System V) → Reach es s → Type ℓ where
    now :
        {es : List (Event V)} {s : System V} {r : Reach es s}
        → sought (s.thread i) ≡ some k
        → after es k ≡ none
        → Missed i k es s r
    before :
        {es : List (Event V)} {s t : System V} {e : Event V} {r : Reach es s} {st : Step s e t}
        → sought (t.thread i) ≡ some k
        → Missed i k es s r
        → Missed i k (e ∷ es) t (later r st)

  -- While another thread takes its step
  while_other :
      (P : ℕ → Type ℓ) (m m' : Harris V) {l : ℕ → Bool} {map : ℕ → Option V} (p : Pc)
      → At m l p
      → ((k : ℕ) (x : Option ℕ) → Linked l x → Ahead m k x → Ahead m' k x ⊎ (map k ≡ none))
      → ((k : ℕ) → sought p ≡ some k → map k ≡ none → P k)
      → Hindsight P m (sought p) (rest p)
      → Hindsight P m' (sought p) (rest p)
  while_other P m m' {l} {map} p h f note q = go p h note q
    where
      one :
          (k : ℕ) (x : Option ℕ)
          → Linked l x
          → (map k ≡ none → P k)
          → P k ⊎ Ahead m k x
          → P k ⊎ Ahead m' k x
      one k x h note (inl q) = inl q
      one k x h note (inr a) = elim (f k x h a) [ inl b ↦ inr b | inr gap ↦ inl (note gap) ]

      go :
          (p : Pc)
          → At m l p
          → ((k : ℕ) → sought p ≡ some k → map k ≡ none → P k)
          → Hindsight P m (sought p) (rest p)
          → Hindsight P m' (sought p) (rest p)
      go (finding op prev n c) h note q = one (key_of op) c.target h.4 (note (key_of op) refl) q
      go (cleaning op false prev n c) h note q = q
      go (cleaning op true prev n c) h note q = tt
      go (stepping op prev c) h note q = one (key_of op) c.target h.3 (note (key_of op) refl) q
      go (skipping op prev c n) h note q = one (key_of op) n.target h.4 (note (key_of op) refl) q
      go (walking k c) h note q = one k c.target h (note k refl) q
      go (decided op false prev c) h note q = q
      go (decided op true prev c) h note q = tt
      go idle h note q = tt
      go (trying op) h note q = tt
      go (linking k new prev c) h note q = tt
      go (detaching prev c n) h note q = tt
      go popping h note q = tt
      go (marking a c) h note q = tt

  Hindsight-map :
      {P Q : ℕ → Type ℓ} (m : Harris V) (k : Option ℕ) (x : Option (Option ℕ))
      → ((j : ℕ) → k ≡ some j → P j → Q j)
      → Hindsight P m k x
      → Hindsight Q m k x
  Hindsight-map m none x f h = tt
  Hindsight-map m (some k) none f h = f k refl h
  Hindsight-map m (some k) (some x) f (inl h) = inl (f k refl h)
  Hindsight-map m (some k) (some x) f (inr a) = inr a

  Reach-Hindsight :
      {es : List (Event V)} {s : System V} (i : ℕ) (r : Reach es s)
      → Hindsight (λ k. Missed i k es s r) s.list (sought (s.thread i)) (rest (s.thread i))
  Reach-Hindsight i (start node) = tt
  Reach-Hindsight i (later {es} {s} r (pick j {m} {p} mv)) =
      let (v, legal) = Reach-Inv r in
      let old = Reach-Hindsight i r in
      let past : ℕ → Type ℓ = λ k. Missed i k es s r in
      let new : (p' : Pc)
          → update s.thread j p i ≡ p'
          → Hindsight past m (sought p') (rest p')
          → Hindsight (λ k. Missed i k _ _ (later r (pick j mv))) m (sought (update s.thread j p i))
              (rest (update s.thread j p i)) =
        λ p' e h.
          Hindsight-map m (sought (update s.thread j p i)) (rest (update s.thread j p i))
            (λ k q. before q) (subst (λ q. Hindsight past m (sought q) (rest q)) (sym e) h) in
      elim (ℕ_discrete j i) [
        | yes e ↦ new p (ground (arith, e)) (
            Move-Hindsight v j mv refl past
              (λ k q g. now (ap (λ c. sought (s.thread c)) (sym e) ∙ q) g)
              (subst (λ c. Hindsight past s.list (sought (s.thread c)) (rest (s.thread c))) (sym e)
                old))
        | no ne ↦ new (s.thread i) (ground (arith, ne)) (
            while_other past s.list m (s.thread i) (v.at i) (Move-Ahead v j mv refl)
              (λ k q g. now q g) old)
      ]

  -- What an answer that a search of thread `i` gives, of having found nothing, stands for: `find_harris`
  -- and `find_harris_michael` have decided, or `find_harris_herlihy_shavit` is at the end, at a
  -- greater key, or at a node of its key with a mark.
  pub data Misses (m : Harris V) : Pc → ℕ → Type ℓ where
    not_found :
        {op : Op} {prev : Option ℕ} {curr : Shared}
        → Misses m (decided op false prev curr) (key_of op)
    at_end : {k : ℕ} {curr : Shared} → curr.target ≡ none → Misses m (walking k curr) k
    at_greater :
        {k : ℕ} {curr : Shared} (a : ℕ)
        → curr.target ≡ some a
        → k < (m.node a).key
        → Misses m (walking k curr) k
    at_marked :
        {k : ℕ} {curr : Shared} (a : ℕ)
        → curr.target ≡ some a
        → (m.node a).key ≡ k
        → (m.node a).next.marked ≡ true
        → Misses m (walking k curr) k

  absent_at :
      {es : List (Event V)} {s : System V} (i : ℕ) (r : Reach es s) {p : Pc} {k : ℕ}
      → s.thread i ≡ p
      → Misses s.list p k
      → Hindsight (λ j. Missed i j es s r) s.list (sought p) (rest p)
      → Missed i k es s r
  absent_at i r t not_found h = h
  absent_at i r t (at_end {k} {curr} e) h =
      let (v, legal) = Reach-Inv r in
      conclude v i (λ j. Missed i j _ _ r) k curr.target (now (ap sought t)) h
        (λ b key um w. nowhere w e)
  absent_at i r t (at_greater {k} {curr} a e lt) h =
      let (v, legal) = Reach-Inv r in
      conclude v i (λ j. Missed i j _ _ r) k curr.target (now (ap sought t)) h (too_far v i e lt)
  absent_at {s} i r t (at_marked {k} {curr} a e key mk) h =
      let (v, legal) = Reach-Inv r in
      conclude v i (λ j. Missed i j _ _ r) k curr.target (now (ap sought t)) h
        (λ b kb um w.
          let same = same_node (subst (λ x. Way s.list.node x b) e w) (key ∙ sym kb) in
          ground (arith, subst (λ c. (s.list.node c).next.marked ≡ true) same mk, um))

  -- Whatever the threads do, when a find of any of the three kinds answers that a key is not there, the
  -- key was not in the map, made by the insertions and removals before, in some state since that find
  -- has loaded the head.
  pub absence_linearizable :
      {es : List (Event V)} {s : System V} (i k : ℕ) (r : Reach es s)
      → Misses s.list (s.thread i) k
      → Missed i k es s r
  absence_linearizable i k r f = absent_at i r refl f (Reach-Hindsight i r)
