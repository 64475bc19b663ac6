-- ===== src/Buckets/Views.antt =====
-- michael_hash_map.rs: the hash map as one bucket sees it.
use smr_benchmark.Prelude.{
  ℕ, ◌≡◌, ◌≢◌, refl, sym, subst, Option, none, ◌==◌, if◌then◌else◌, arith, ℕ_discrete,
}
use smr_benchmark.Prelude.Family.{update, update-this, update-other}
use smr_benchmark.Harris.{
  Harris, Event, inserts, removes, finds, silent, Op, key_of, Pc, idle, trying, Move,
}
use smr_benchmark.Harris.Runs.{apply, Allows}
use smr_benchmark.Harris.Entries.{Inv}
use smr_benchmark.Harris.Moves.{Move-Inv}
use smr_benchmark.Buckets.{HashMap}
use smr_benchmark.Buckets.Keys.{For, Of, Move-For}
use mathlib.Core.Path.{fun_ext}

module _ {ℓ} {V : Type ℓ} where
  -- The threads that stand in a bucket
  abbrev pub view : HashMap V → ℕ → ℕ → Pc
  view s b j = if s.used j == b then s.thread j else idle

  -- The entries whose keys belong to a bucket
  abbrev pub part : (ℕ → ℕ) → ℕ → (ℕ → Option V) → ℕ → Option V
  part place b map k = if place k == b then map k else none

  -- An event on a key changes the part of its bucket alone.
  part-apply :
      (place : ℕ → ℕ) (b : ℕ) (e : Event V) (map : ℕ → Option V)
      → Of (λ k. place k ≡ b) e
      → (k : ℕ) → part place b (apply e map) k ≡ apply e (part place b map) k
  part-apply place b (inserts j v) map h k = ground (arith, h)
  part-apply place b (removes j v) map h k = ground (arith, h)
  part-apply place b (finds j v) map h k = refl
  part-apply place b silent map h k = refl

  part-other :
      (place : ℕ → ℕ) (b c : ℕ) (e : Event V) (map : ℕ → Option V)
      → Of (λ k. place k ≡ b) e
      → b ≢ c
      → (k : ℕ) → part place c (apply e map) k ≡ part place c map k
  part-other place b c (inserts j v) map h ne k = ground (arith, h, ne)
  part-other place b c (removes j v) map h ne k = ground (arith, h, ne)
  part-other place b c (finds j v) map h ne k = refl
  part-other place b c silent map h ne k = refl

  part-Allows :
      (place : ℕ → ℕ) (b : ℕ) (e : Event V) (map : ℕ → Option V)
      → Of (λ k. place k ≡ b) e
      → Allows e (part place b map)
      → Allows e map
  part-Allows place b (inserts j v) map h a = ground (arith, h, a)
  part-Allows place b (removes j v) map h a = ground (arith, h, a)
  part-Allows place b (finds j v) map h a = ground (arith, h, a)
  part-Allows place b silent map h a = tt

  -- The invariant asks for the threads and the entries one by one.
  pub Inv-ext :
      {m : Harris V} {th th' : ℕ → Pc} {map map' : ℕ → Option V}
      → ((j : ℕ) → th j ≡ th' j)
      → ((k : ℕ) → map k ≡ map' k)
      → Inv m th map
      → Inv m th' map'
  Inv-ext {m} {th'} {map} t e v =
      subst (λ f. Inv m th' f) (fun_ext e) (subst (λ f. Inv m f map) (fun_ext t) v)

  pub record Views (place : ℕ → ℕ) (s : HashMap V) (map : ℕ → Option V) : Type ℓ where
    pub lists : (b : ℕ) → Inv (s.bucket b) (view s b) (part place b map)
    pub keyed : (j : ℕ) → For (λ k. place k ≡ s.used j) (s.thread j)

  module _ (place : ℕ → ℕ) {s : HashMap V} {map : ℕ → Option V} (v : Views place s map) where
    -- A step in one bucket, of a thread that stands in no other
    step-Views :
        (b0 i : ℕ) (m : Harris V) (p : Pc) (used : ℕ → ℕ) (map' : ℕ → Option V)
        → used i ≡ b0
        → ((j : ℕ) → i ≢ j → used j ≡ s.used j)
        → ((b : ℕ) → b0 ≢ b → view s b i ≡ idle)
        → ((b : ℕ) → b0 ≢ b → (k : ℕ) → part place b map' k ≡ part place b map k)
        → Inv m (update (view s b0) i p) (part place b0 map')
        → For (λ k. place k ≡ b0) p
        → Views place
            (record { bucket = update s.bucket b0 m; thread = update s.thread i p; used = used })
            map'
    step-Views b0 i m p used map' here others away same w f =
        let s' : HashMap V = record {
          bucket = update s.bucket b0 m;
          thread = update s.thread i p;
          used = used;
        } in
        let seen : (j : ℕ) → update (view s b0) i p j ≡ view s' b0 j = λ j. elim (ℕ_discrete i j) [
          | yes q ↦ ground (arith, q, here)
          | no ne ↦ let o = others j ne in ground (arith, ne, o)
        ] in
        let unseen : (b : ℕ) → b0 ≢ b → (j : ℕ) → view s b j ≡ view s' b j = λ b ne j.
          elim (ℕ_discrete i j) [
            | yes q ↦ let a = away b ne in ground (arith, q, here, a, ne)
            | no nj ↦ let o = others j nj in ground (arith, nj, o)
          ] in
        record {
          lists = λ b. elim (ℕ_discrete b0 b) [
            | yes q ↦
                subst (λ c. Inv (update s.bucket b0 m c) (view s' c) (part place c map')) q
                  (subst (λ x. Inv x (view s' b0) (part place b0 map'))
                    (sym (update-this s.bucket b0 m)) (Inv-ext seen (λ k. refl) w))
            | no ne ↦
                subst (λ x. Inv x (view s' b) (part place b map'))
                  (sym (update-other s.bucket b0 m b ne))
                  (Inv-ext (unseen b ne) (λ k. sym (same b ne k)) (v.lists b))
          ];
          keyed = λ j. elim (ℕ_discrete i j) [
            | yes q ↦
                subst (λ c. For (λ k. place k ≡ used c) (update s.thread i p c)) q
                  (subst (λ x. For (λ k. place k ≡ used i) x) (sym (update-this s.thread i p))
                    (subst (λ c. For (λ k. place k ≡ c) p) (sym here) f))
            | no ne ↦
                subst (λ x. For (λ k. place k ≡ used j) x) (sym (update-other s.thread i p j ne))
                  (subst (λ c. For (λ k. place k ≡ c) (s.thread j)) (sym (others j ne)) (v.keyed j))
          ];
        }

    pub begin-Views :
        (i : ℕ) {m : Harris V} (op : Op)
        → s.thread i ≡ idle
        → Move (s.bucket (place (key_of op))) idle silent m (trying op)
        → Views place
            (record {
              bucket = update s.bucket (place (key_of op)) m;
              thread = update s.thread i (trying op);
              used = update s.used i (place (key_of op));
            })
            map
    begin-Views i {m} op e mv =
        let b0 = place (key_of op) in
        step-Views b0 i m (trying op) (update s.used i b0) map (update-this s.used i b0)
          (λ j ne. update-other s.used i b0 j ne) (λ b ne. ground (arith, e)) (λ b ne k. refl)
          (Move-Inv (v.lists b0) i mv (ground (arith, e))).0 refl

    pub go_on-Views :
        (i : ℕ) {e : Event V} {m : Harris V} {p : Pc}
        → s.thread i ≢ idle
        → Move (s.bucket (s.used i)) (s.thread i) e m p
        → Views place
            (record {
              bucket = update s.bucket (s.used i) m;
              thread = update s.thread i p;
              used = s.used;
            })
            (apply e map)
          × Allows e map
    go_on-Views i {e} {m} {p} ne mv =
        let b0 = s.used i in
        let (f, o) = Move-For (λ k. place k ≡ b0) mv ne (v.keyed i) in
        let (w, a) = Move-Inv (v.lists b0) i mv (ground arith) in
        (
          step-Views b0 i m p s.used (apply e map) refl (λ j nj. refl) (λ b nb. ground (arith, nb))
              (λ b nb. part-other place b0 b e map o nb)
              (Inv-ext (λ j. refl) (λ k. sym (part-apply place b0 e map o k)) w) f,
          part-Allows place b0 e map o a,
        )
