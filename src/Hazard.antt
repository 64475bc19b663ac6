-- ===== src/Hazard.antt =====
-- smrs/hp-pp/src/{hazard,thread,retire,domain}.rs, plain hazard pointers: any number of threads
-- protect, retire and reclaim, one access to shared memory at a time.
pub mod Invariant
mod Moves
pub mod Safety
pub mod Local
mod Examples
use smr_benchmark.Prelude.{
  ℕ, suc, ◌+◌, ◌<◌, ◌≡◌, ◌≢◌, Bool, true, false, ◌||◌, not, List, [], ◌∷◌, ◌++◌, ◌==◌,
}
use smr_benchmark.Prelude.Family.{update}
use smr_benchmark.Prelude.Counting.{contains}

-- What all threads share. An object is a number, 0 is null; `link` is what each link of the data
-- structures points to, `retireds` the list of batches of the domain, and `gone` the objects that
-- have been unlinked and retired.
pub record Memory : Type 0 where
  pub link : ℕ → ℕ
  pub slot : ℕ → ℕ
  pub retireds : List (List ℕ)
  pub gone : ℕ → Bool
  pub freed : ℕ → Bool

-- A hazard pointer, in the course of `protect`
pub data Hazard : Type 0 where
  unused : Hazard
  loaded : (src pointer : ℕ) → Hazard  -- the link is read
  stored : (src pointer : ℕ) → Hazard  -- `protect_raw`: the slot is written
  protected : (pointer : ℕ) → Hazard  -- `validate`: the link has not changed

-- Where a thread stands in `do_reclamation`
pub data Phase : Type 0 where
  working : Phase
  -- `collect_guarded_ptrs`: the slots that have been read, and what they held
  scanning : (batch : List ℕ) (seen guarded : ℕ → Bool) → Phase
  -- the deleters run: what is left to look at, and what has to be kept
  sweeping : (rest : List ℕ) (guarded : ℕ → Bool) (not_freed : List ℕ) → Phase

pub record Thread : Type 0 where
  pub phase : Phase
  pub retired : List ℕ

abbrev pub mark : (ℕ → Bool) → ℕ → ℕ → Bool
mark f o p = o == p || f p

-- `pop_all` appends the batches, from the head of the list on.
abbrev pub concat : List (List ℕ) → List ℕ
concat [] = []
concat (b ∷ bs) = b ++ concat bs

-- One step of a hazard pointer
pub data Guard (m : Memory) (i : ℕ) : Hazard → Memory → Hazard → Type 0 where
  protect_load : {h : Hazard} (src : ℕ) → Guard m i h m (loaded src (m.link src))
  protect_raw :
      {src p : ℕ} → Guard m i (loaded src p) (record m { slot = update m.slot i p }) (stored src p)
  validate : {src p : ℕ} → m.link src ≡ p → Guard m i (stored src p) m (protected p)
  changed : {src p : ℕ} → m.link src ≢ p → Guard m i (stored src p) m (loaded src (m.link src))
  reset_protection : {h : Hazard} → Guard m i h (record m { slot = update m.slot i 0 }) unused

-- One step of a thread that retires and reclaims, among `n` slots. The client stores links, but none
-- to an object that is retired, and retires an object once, when no link points to it: the premise of
-- `validate`.
pub data Move (n : ℕ) (m : Memory) (t : Thread) : Phase → Memory → Thread → Type 0 where
  store_link :
      {p : Phase} (l o : ℕ)
      → m.gone o ≡ false
      → Move n m t p (record m { link = update m.link l o }) t
  retire :
      (o : ℕ)
      → 0 < o
      → m.gone o ≡ false
      → ((l : ℕ) → m.link l ≢ o)
      → Move n m t working
          (record m { gone = mark m.gone o })
          (record t { retired = t.retired ++ o ∷ [] })
  flush_retireds :
      Move n m t working
        (record m { retireds = t.retired ∷ m.retireds })
        (record t { retired = [] })
  pop_all :
      Move n m t working
        (record m { retireds = [] })
        (record t { phase = scanning (concat m.retireds) (λ _. false) (λ _. false) })
  scan :
      {batch : List ℕ} {seen guarded : ℕ → Bool} (k : ℕ)
      → k < n
      → Move n m t
          (scanning batch seen guarded)
          m
          (record t { phase = scanning batch (mark seen k) (mark guarded (m.slot k)) })
  scanned :
      {batch : List ℕ} {seen guarded : ℕ → Bool}
      → ((k : ℕ) → k < n → seen k ≡ true)
      → Move n m t (scanning batch seen guarded) m (record t { phase = sweeping batch guarded [] })
  keep :
      {o : ℕ} {rest not_freed : List ℕ} {guarded : ℕ → Bool}
      → guarded o ≡ true
      → Move n m t
          (sweeping (o ∷ rest) guarded not_freed)
          m
          (record t { phase = sweeping rest guarded (not_freed ++ o ∷ []) })
  free :
      {o : ℕ} {rest not_freed : List ℕ} {guarded : ℕ → Bool}
      → guarded o ≡ false
      → Move n m t
          (sweeping (o ∷ rest) guarded not_freed)
          (record m { freed = mark m.freed o })
          (record t { phase = sweeping rest guarded not_freed })
  swept :
      {not_freed : List ℕ} {guarded : ℕ → Bool}
      → Move n m t
          (sweeping [] guarded not_freed)
          (record m { retireds = not_freed ∷ m.retireds })
          (record t { phase = working })

pub record System : Type 0 where
  pub mem : Memory
  pub hazard : ℕ → Hazard
  pub thread : ℕ → Thread

-- `n` hazard pointers and `c` threads
pub data Step (n c : ℕ) (s : System) : System → Type 0 where
  pick_hazard :
      (i : ℕ) {m : Memory} {h : Hazard}
      → i < n
      → Guard s.mem i (s.hazard i) m h
      → Step n c s (record s { mem = m; hazard = update s.hazard i h })
  pick_thread :
      (i : ℕ) {m : Memory} {t : Thread}
      → i < c
      → Move n s.mem (s.thread i) (s.thread i).phase m t
      → Step n c s (record s { mem = m; thread = update s.thread i t })

abbrev pub nothing : ℕ → Bool
nothing _ = false

abbrev pub init : (ℕ → ℕ) → System
init link = record {
  mem = record { link = link; slot = λ _. 0; retireds = []; gone = nothing; freed = nothing };
  hazard = λ _. unused;
  thread = λ _. record { phase = working; retired = [] };
}

pub data Reach (n c : ℕ) (link : ℕ → ℕ) : System → Type 0 where
  start : Reach n c link (init link)
  later : {s t : System} → Reach n c link s → Step n c s t → Reach n c link t
