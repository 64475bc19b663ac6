-- ===== src/Ebr/Intrusive/Ways.antt =====
-- sync/list.rs: ways along the links.
use smr_benchmark.Prelude.{ℕ, ◌≡◌, ◌≢◌, refl, Bool, true, Option, none, some, arith}
use smr_benchmark.Ebr.Intrusive.{Shared}

-- A pointer is null or leads to an entry that has been inserted.
abbrev pub Inserted : (ℕ → Bool) → Option ℕ → Type 0
Inserted inserted none = Unit
Inserted inserted (some a) = inserted a ≡ true

-- The links lead from a pointer to entry `u`.
pub data Way (next : ℕ → Shared) : Option ℕ → ℕ → Type 0 where
  here : {u : ℕ} → Way next (some u) u
  there : {b u : ℕ} → Way next (next b).target u → Way next (some b) u

-- A way goes on in other links, if it can wherever it goes on from an entry.
pub reroute :
    {next next' : ℕ → Shared} {l : ℕ → Bool} {u : ℕ}
    → ((b : ℕ) → l b ≡ true → Inserted l (next b).target)
    → ((b : ℕ) → l b ≡ true → Way next' (next b).target u → Way next' (next' b).target u)
    → {x : Option ℕ} → Inserted l x
    → Way next x u
    → Way next' x u
reroute c f h here = here
reroute c f h (there {b} q) = there (f b h (reroute c f (c b h) q))

-- A way to another entry goes on past the first one.
pub past : {next : ℕ → Shared} {a u : ℕ} → Way next (some a) u → a ≢ u → Way next (next a).target u
past here ne = absurd (ne refl)
past (there q) ne = q

pub nowhere : {next : ℕ → Shared} {x : Option ℕ} {u : ℕ} → Way next x u → x ≢ none
nowhere here e = ground (arith, e)
nowhere (there q) e = ground (arith, e)
