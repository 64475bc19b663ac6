-- ===== src/Hazard/Moves.antt =====
-- Hazard pointers: the steps and the invariant.
use smr_benchmark.Prelude.{ℕ, ◌<◌, ◌≡◌, ◌≢◌, true, false, arith}
use smr_benchmark.Prelude.Family.{update}
use smr_benchmark.Prelude.Counting.{contains, contains-append}
use smr_benchmark.Hazard.{
  Memory, Hazard, protected, Phase, Thread, concat, Guard, validate, Move, store_link, retire,
  flush_retireds, pop_all, scan, scanned, keep, free, swept,
}
use smr_benchmark.Hazard.Invariant.{contains-concat, Fits, holds, Spares, Inv}

module _ {n : ℕ} {m : Memory} {hz : ℕ → Hazard} {th : ℕ → Thread} (inv : Inv n m hz th)
    (i : ℕ) where
  open inv use {null_stays, linked, in_hand, pooled, freed_gone, fits, absent, spares, safe}

  -- A step of a hazard pointer
  pub Guard-Inv :
      {h : Hazard} {m' : Memory} {h' : Hazard}
      → Guard m i h m' h'
      → i < n
      → hz i ≡ h
      → Inv n m' (update hz i h') th
  Guard-Inv (validate {src} {p = x} g) lt q = record {
    null_stays = null_stays;
    linked = linked;
    in_hand = in_hand;
    pooled = pooled;
    freed_gone = freed_gone;
    fits = λ j. ground (arith, fits j);
    absent = λ j le. ground (arith, absent j);
    spares = λ j r p e. ground (arith, spares j r p, g, linked src, in_hand r p);
    safe = λ j p e. ground (arith, safe j p, g, linked src, freed_gone p);
  }
  Guard-Inv mv lt q = record {
    null_stays = null_stays;
    linked = linked;
    in_hand = in_hand;
    pooled = pooled;
    freed_gone = freed_gone;
    fits = λ j. ground (arith, fits j);
    absent = λ j le. ground (arith, absent j);
    spares = λ j r p e. ground (arith, spares j r p);
    safe = λ j p e. ground (arith, safe j p);
  }

  -- The premise of a step of a thread
  abbrev Premise :
      {t : Thread} {p : Phase} {m' : Memory} {t' : Thread} → Move n m t p m' t' → Type 0
  Premise (store_link l o g) = m.gone o ≡ false
  Premise (retire o g h f) = (0 < o) × (m.gone o ≡ false) × ((l : ℕ) → m.link l ≢ o)
  Premise (scanned {seen} g) = (k : ℕ) → k < n → seen k ≡ true
  Premise (keep {o} {guarded} g) = guarded o ≡ true
  Premise (free {o} {guarded} g) = guarded o ≡ false
  Premise _ = Unit

  premise :
      {t : Thread} {p : Phase} {m' : Memory} {t' : Thread} (mv : Move n m t p m' t') → Premise mv
  premise (store_link l o g) = g
  premise (retire o g h f) = (g, h, f)
  premise (scanned g) = g
  premise (keep g) = g
  premise (free g) = g
  premise _ = tt

  Move-links :
      {p : Phase} {m' : Memory} {t' : Thread}
      → Move n m (th i) p m' t'
      → (th i).phase ≡ p
      → (m'.gone 0 ≡ false) × ((l : ℕ) → m'.gone (m'.link l) ≡ false)
  Move-links (store_link l o g) q = (null_stays, λ k. ground (arith, linked k, g))
  Move-links (retire o g h f) q = (ground (arith, null_stays), λ k. ground (arith, linked k, f k))
  Move-links mv q = (null_stays, linked)

  Move-in_hand :
      {p : Phase} {m' : Memory} {t' : Thread}
      → Move n m (th i) p m' t'
      → (th i).phase ≡ p
      → (r o : ℕ) → holds (update th i t' r) o ≡ true
      → m'.gone o ≡ true
  Move-in_hand (store_link l x g) q r o h = ground (arith, in_hand r o)
  Move-in_hand (retire x g f u) q r o h =
      ground (arith, in_hand r o, contains-append (th i).retired x o)
  Move-in_hand pop_all q r o h = ground (arith, in_hand r o, pooled o)
  Move-in_hand (keep {o = x} {not_freed = xs} g) q r o h =
      ground (arith, in_hand r o, contains-append xs x o)
  Move-in_hand mv q r o h = ground (arith, in_hand r o, premise mv)

  Move-pooled :
      {p : Phase} {m' : Memory} {t' : Thread}
      → Move n m (th i) p m' t'
      → (th i).phase ≡ p
      → (o : ℕ) → contains (concat m'.retireds) o ≡ true
      → m'.gone o ≡ true
  Move-pooled flush_retireds q o h =
      ground (arith, in_hand i o, pooled o, contains-concat (th i).retired (concat m.retireds) o)
  Move-pooled (swept {not_freed = xs}) q o h =
      ground (arith, in_hand i o, pooled o, contains-concat xs (concat m.retireds) o)
  Move-pooled mv q o h = ground (arith, pooled o)

  Move-freed_gone :
      {p : Phase} {m' : Memory} {t' : Thread}
      → Move n m (th i) p m' t'
      → (th i).phase ≡ p
      → (o : ℕ) → m'.freed o ≡ true
      → m'.gone o ≡ true
  Move-freed_gone (free {o = x} g) q o h = ground (arith, freed_gone o, in_hand i o)
  Move-freed_gone mv q o h = ground (arith, freed_gone o)

  Move-Fits :
      {p : Phase} {m' : Memory} {t' : Thread}
      → Move n m (th i) p m' t'
      → (th i).phase ≡ p
      → (j : ℕ) → Fits (m'.slot j) (hz j)
  Move-Fits (store_link l o g) q = fits
  Move-Fits mv q = fits

  Move-Spares :
      {p : Phase} {m' : Memory} {t' : Thread}
      → Move n m (th i) p m' t'
      → (th i).phase ≡ p
      → (j r o : ℕ) → hz j ≡ protected o
      → Spares j o (update th i t' r).phase
  Move-Spares (store_link l x g) q j r o e = ground (arith, spares j r o e)
  Move-Spares pop_all q j r o e = ground (arith, spares j r o e)
  Move-Spares (scan k g) q j r o e = ground (arith, spares j r o e, fits j)
  Move-Spares (scanned g) q j r o e = ground (arith, spares j r o e, g j, absent j)
  Move-Spares mv q j r o e = ground (arith, spares j r o e, premise mv)

  Move-safe :
      {p : Phase} {m' : Memory} {t' : Thread}
      → Move n m (th i) p m' t'
      → (th i).phase ≡ p
      → (j o : ℕ) → hz j ≡ protected o
      → m'.freed o ≡ false
  Move-safe (free {o = x} g) q j o e = ground (arith, safe j o e, spares j i o e, g)
  Move-safe mv q j o e = ground (arith, safe j o e)

  pub Move-Inv :
      {p : Phase} {m' : Memory} {t' : Thread}
      → Move n m (th i) p m' t'
      → (th i).phase ≡ p
      → Inv n m' hz (update th i t')
  Move-Inv mv q = record {
    null_stays = (Move-links mv q).0;
    linked = (Move-links mv q).1;
    in_hand = Move-in_hand mv q;
    pooled = Move-pooled mv q;
    freed_gone = Move-freed_gone mv q;
    fits = Move-Fits mv q;
    absent = absent;
    spares = Move-Spares mv q;
    safe = Move-safe mv q;
  }
