-- ===== src/Ebr/Race/Invariant.antt =====
-- The invariant of the interleavings of internal.rs: who is pinned where, and up to which epoch an
-- object can still be referred to.
use smr_benchmark.Prelude.{
  ℕ, ◌+◌, ◌*◌, ◌%◌, ◌≤◌, ◌≡◌, Bool, true, false, ◌⊎◌, List, [], ◌∷◌, Option, none, some, ltb,
  if◌then◌else◌,
}
use smr_benchmark.Prelude.Counting.{contains}
use smr_benchmark.Ebr.Bag.{SealedBag}
use smr_benchmark.Ebr.Race.{
  Shared, Pc, idle, loaded, published, retry, running, scanning, storing, repinning, sealing,
  popping, Thread,
}

-- The thread is between the validation of `pin` and `unpin`: it holds a guard.
abbrev pub guarded : Pc → Bool
guarded idle = false
guarded (loaded _) = false
guarded (published _) = false
guarded retry = false
guarded _ = true

-- What `try_advance` at `p` has found of local `j`, as the least word that its epoch can be.
abbrev pub passed : ℕ → Pc → ℕ → ℕ
passed n (scanning e k _) j = if ltb j k then e.bits + 1 else 0
passed n (storing e _) j = if ltb j n then e.bits + 1 else 0
passed n _ _ = 0

-- The object that waits for a place in the bag
abbrev pub next_of : Pc → Option ℕ
next_of (running next) = next
next_of (scanning _ _ next) = next
next_of (storing _ next) = next
next_of (repinning _ next) = next
next_of (sealing _ next) = next
next_of (popping _ next) = next
next_of _ = none

-- The objects that the thread has unlinked and still keeps
abbrev pub Keeps : Thread → ℕ → Type 0
Keeps t o = (contains t.bag.deferreds o ≡ true) ⊎ (next_of t.pc ≡ some o)

abbrev pub In : {A : Type 0} → A → List A → Type 0
In a [] = ⊥
In a (x ∷ xs) = (x ≡ a) ⊎ In a xs

-- Odd, and within one epoch of the global word
abbrev pub Near : ℕ → ℕ → Type 0
Near e g = (e % 2 ≡ 1) × (e ≤ g + 1) × (g ≤ e + 1)

-- The locals of a thread at `p` with local epoch `e`, against the global epoch `g`.
abbrev pub Fits : ℕ → Pc → ℕ → Type 0
Fits g idle e = e ≡ 0
Fits g (loaded x) e = (e ≡ 0) × (x.bits % 2 ≡ 0) × (x.bits ≤ g)
Fits g (published x) e = (e ≡ x.bits + 1) × (x.bits % 2 ≡ 0) × (x.bits ≤ g)
Fits g retry e = Unit
Fits g (running _) e = Near e g
Fits g (scanning x k _) e = Near e g × (x.bits % 2 ≡ 0) × (e ≤ x.bits + 1) × (x.bits ≤ g)
Fits g (storing x _) e = Near e g × (x.bits % 2 ≡ 0) × (e ≤ x.bits + 1) × (x.bits ≤ g)
Fits g (repinning x _) e = Near e g × (x.bits % 2 ≡ 0) × (e ≤ x.bits + 1) × (x.bits ≤ g)
Fits g (sealing x _) e = Near e g × (x.bits % 2 ≡ 0) × (x.bits ≤ g)
Fits g (popping x _) e = Near e g × (x.bits % 2 ≡ 0) × (x.bits ≤ g)

-- The word with which the thread is about to seal its bag
abbrev pub SealsAt : Pc → ℕ → Type 0
SealsAt (sealing x _) e = e ≤ x.bits + 1
SealsAt _ e = Unit

pub record Inv (n k : ℕ) (m : Shared) (th : ℕ → Thread) : Type 0 where
  pub even : m.global.bits % 2 ≡ 0
  pub bound : m.global.bits ≤ 2 * k
  pub fits : (i : ℕ) → Fits m.global.bits (th i).pc (th i).epoch.bits
  pub absent : (j : ℕ) → n ≤ j → (th j).pc ≡ idle
  pub scan : (i j : ℕ) → guarded (th j).pc ≡ true → passed n (th i).pc j ≤ (th j).epoch.bits
  pub under_guard : (j o : ℕ) → (th j).refs o ≡ true → guarded (th j).pc ≡ true
  pub kept : (i o : ℕ) → Keeps (th i) o → m.linked o ≡ false
  pub seals :
      (i j o : ℕ)
      → contains (th i).bag.deferreds o ≡ true
      → (th j).refs o ≡ true
      → SealsAt (th i).pc (th j).epoch.bits
  pub queued :
      (b : SealedBag ℕ) → In b m.queue → (b.epoch.bits % 2 ≡ 0) × (b.epoch.bits ≤ m.global.bits)
  pub queued_unlinked :
      (b : SealedBag ℕ) (o : ℕ)
      → In b m.queue
      → contains b.bag.deferreds o ≡ true
      → m.linked o ≡ false
  pub queued_refs :
      (b : SealedBag ℕ) (j o : ℕ)
      → In b m.queue
      → contains b.bag.deferreds o ≡ true
      → (th j).refs o ≡ true
      → (th j).epoch.bits ≤ b.epoch.bits + 1
  pub freed_unlinked : (o : ℕ) → m.freed o ≡ true → m.linked o ≡ false
  pub safe : (j o : ℕ) → m.freed o ≡ true → (th j).refs o ≡ false
