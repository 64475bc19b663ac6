-- ===== src/Vbr/Runs.antt =====
-- smrs/vbr/src/lib.rs: runs of the threads.
use smr_benchmark.Prelude.{
  ℕ, zero, suc, ◌+◌, ◌/◌, ◌%◌, ◌<◌, ◌≢◌, List, [], ◌∷◌, Option, none, some, ltb, if◌then◌else◌,
}
use smr_benchmark.Prelude.Family.{update}
use smr_benchmark.Vbr.{
  Bag, VerPtr, Memory, Thread, Event, Move, Pc, absent, retiring, retiring_raw, reading_epoch,
  storing, range,
}

-- The slot that a thread is retiring, up to its store
abbrev pub retires : Pc → Option ℕ
retires (retiring x b) = some x
retires (retiring_raw x) = some x
retires (reading_epoch x) = some x
retires (storing x c) = some x
retires _ = none

pub record System : Type 0 where
  pub mem : Memory
  pub thread : ℕ → Thread

pub data Step (threads cap : ℕ) (s : System) : Event → System → Type 0 where
  pick :
      (i : ℕ) {e : Event} {m : Memory} {t : Thread}
      → i < threads
      → Move cap (λ x. (j : ℕ) → retires (s.thread j).pc ≢ some x) s.mem (s.thread i) e m t
      → Step threads cap s e (record { mem = m; thread = update s.thread i t })

-- `Global::new`, from the number of its bags
abbrev pub new_bags : (count cap from : ℕ) → List Bag
new_bags zero cap from = []
new_bags (suc n) cap from = range from cap ∷ new_bags n cap (cap + from)

abbrev pub bag_count : (capacity cap : ℕ) → ℕ
bag_count capacity cap = capacity / cap + (if ltb 0 (capacity % cap) then 1 else 0)

abbrev pub slots : (count cap : ℕ) → ℕ
slots zero cap = 0
slots (suc n) cap = cap + slots n cap

abbrev pub new_global : (capacity cap : ℕ) → (ℕ → VerPtr) → Memory
new_global capacity cap link = record {
  epoch = 1;
  avail = new_bags (bag_count capacity cap) cap 0;
  birth = λ _. 0;
  retire = λ _. 0;
  fresh = slots (bag_count capacity cap) cap;
  link = link;
}

abbrev pub no_thread : Thread
no_thread = record { avail = []; retired = []; epoch = 0; pc = absent }

-- The states after a number of steps
pub data Reach (threads cap capacity : ℕ) : ℕ → System → Type 0 where
  start :
      (link : ℕ → VerPtr)
      → Reach threads cap capacity 0
          (record { mem = new_global capacity cap link; thread = λ _. no_thread })
  later :
      {n : ℕ} {s u : System} {e : Event}
      → Reach threads cap capacity n s
      → Step threads cap s e u
      → Reach threads cap capacity (suc n) u

-- The states from one on
pub data Steps (threads cap : ℕ) : ℕ → System → System → Type 0 where
  none_yet : {s : System} → Steps threads cap 0 s s
  one_more :
      {n : ℕ} {s u w : System} {e : Event}
      → Steps threads cap n s u
      → Step threads cap u e w
      → Steps threads cap (suc n) s w
