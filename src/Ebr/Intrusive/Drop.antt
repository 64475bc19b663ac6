-- ===== src/Ebr/Intrusive/Drop.antt =====
-- sync/list.rs: the drop of the list.
use smr_benchmark.Prelude.{
  ℕ, zero, suc, ◌+◌, ◌<◌, ◌≡◌, refl, true, false, List, [], ◌∷◌, Option, none, some, arith, subst,
  ◌⊎◌, inl, inr, ℕ_discrete, Bool-cases,
}
use smr_benchmark.Prelude.Counting.{count}
use smr_benchmark.Ebr.Intrusive.{
  EntryList, System, Reach, drops, assert_failed, drop_from, drop_list,
}
use smr_benchmark.Ebr.Intrusive.Ways.{Way, here, there, Inserted, past, nowhere}
use smr_benchmark.Ebr.Intrusive.Shape.{Shape}
use smr_benchmark.Ebr.Intrusive.Safety.{Reach-Inv, finalized_once}

-- A pointer is null, or leads to an entry that has been inserted among the first `k`.
abbrev Placed : EntryList → ℕ → Option ℕ → Type 0
Placed m k none = Unit
Placed m k (some a) = (m.inserted a ≡ true) × (m.place a < k)

next_Placed :
    {m : EntryList} (a : ℕ) → Shape m → m.inserted a ≡ true → Placed m (m.place a) (m.next a).target
next_Placed {m} a s h = go (m.next a).target refl
  where
    go : (t : Option ℕ) → (m.next a).target ≡ t → Placed m (m.place a) t
    go none e = tt
    go (some c) e = (subst (Inserted m.inserted) e (s.next_inserted a h), s.descends a c h e)

Way-Placed :
    {m : EntryList} {k u : ℕ} {x : Option ℕ}
    → Shape m
    → Placed m k x
    → Way m.next x u
    → m.place u < k
Way-Placed s h here = h.1
Way-Placed s h (there {b} w) =
    let lt = Way-Placed s (next_Placed b s h.0) w in omega (arith, h.1, lt)

-- What the loop of `drop` finalizes from a pointer on: what the links lead to from there, once
drop_from_lem :
    {m : EntryList} (fuel k : ℕ) (x : Option ℕ)
    → Shape m
    → ((b : ℕ) → m.inserted b ≡ true → (m.next b).tagged ≡ true)
    → Placed m k x
    → k < fuel
    → (entries : List ℕ) × (drop_from fuel m x ≡ drops entries)
      × ((u : ℕ)
          → (Way m.next x u × (count entries u ≡ 1)) ⊎ (¬ (Way m.next x u) × (count entries u ≡ 0)))
unfolding drop_from
drop_from_lem zero k x s all h lt = absurd (omega (arith, lt))
drop_from_lem (suc fuel) k none s all h lt = ([], refl, λ u. inr (λ w. nowhere w refl, refl))
drop_from_lem {m} (suc fuel) k (some a) s all h lt =
    let (entries, e, f) =
      drop_from_lem fuel (m.place a) (m.next a).target s all (next_Placed a s h.0)
        (omega (arith, h.1, lt)) in
    (
      a ∷ entries,
      ground (arith, all a h.0, e),
      λ u. elim (ℕ_discrete a u) [
        | yes q ↦ inl (
          subst (λ c. Way m.next (some a) c) q here,
          elim (f u) [
            | inl w ↦
                let below = Way-Placed s (next_Placed a s h.0) w.0 in
                absurd (ground (arith, below, q))
            | inr n ↦ ground (arith, n.1, q)
          ],
        )
        | no ne ↦ elim (f u) [
          | inl w ↦ inl (there w.0, ground (arith, w.1, ne))
          | inr n ↦ inr (λ w. n.0 (past w ne), ground (arith, n.1, ne))
        ]
      ],
    )

drop_from_fails :
    {m : EntryList} (fuel k u : ℕ) (x : Option ℕ)
    → Shape m
    → Way m.next x u
    → (m.next u).tagged ≡ false
    → Placed m k x
    → k < fuel
    → drop_from fuel m x ≡ assert_failed
unfolding drop_from
drop_from_fails zero k u x s w clear h lt = absurd (omega (arith, lt))
drop_from_fails (suc fuel) k u none s w clear h lt = absurd (nowhere w refl)
drop_from_fails {m} (suc fuel) k u (some a) s w clear h lt = elim (Bool-cases (m.next a).tagged) [
  | inl t ↦
      let rest =
        drop_from_fails fuel (m.place a) u (m.next a).target s
          (past w (λ e. ground (arith, e, t, clear))) clear (next_Placed a s h.0)
          (omega (arith, h.1, lt)) in
      ground (arith, t, rest)
  | inr f ↦ ground (arith, f)
]

head_Placed : {m : EntryList} → Shape m → Placed m m.insertions m.head.target
head_Placed {m} s = go m.head.target refl
  where
    go : (t : Option ℕ) → m.head.target ≡ t → Placed m m.insertions t
    go none e = tt
    go (some d) e = let h = subst (Inserted m.inserted) e s.head_inserted in (h, s.placed d h)

-- Whatever the threads have done, if every entry that was inserted has been deleted, the drop of the
-- list returns on fuel above the number of insertions, and with the calls of `C::finalize` that it
-- makes there has been exactly one for an entry that was inserted.
pub drop_list_lem :
    {s : System} (fuel a : ℕ)
    → Reach s
    → ((b : ℕ) → s.list.inserted b ≡ true → (s.list.next b).tagged ≡ true)
    → s.list.insertions < fuel
    → s.list.inserted a ≡ true
    → (entries : List ℕ) × (drop_list fuel s.list ≡ drops entries)
      × (s.list.finalized a + count entries a ≡ 1)
unfolding drop_list
drop_list_lem {s} fuel a r all lt h =
    let v = (Reach-Inv r).shape in
    let (entries, e, f) =
      drop_from_lem fuel s.list.insertions s.list.head.target v all (head_Placed v) lt in
    (
      entries,
      e,
      elim (finalized_once a r h) [
        | inl (z, w) ↦ elim (f a) [ inl c ↦ omega (arith, z, c.1) | inr n ↦ absurd (n.0 w) ]
        | inr (one, t, nw) ↦ elim (f a) [
          | inl c ↦ absurd (nw c.0)
          | inr n ↦ omega (arith, one, n.1)
        ]
      ],
    )

-- Whatever the threads have done, if some entry that was inserted has not been deleted, the drop of
-- the list fails in its assertion, on fuel above the number of insertions.
pub drop_list-assert_failed :
    {s : System} (fuel a : ℕ)
    → Reach s
    → s.list.inserted a ≡ true
    → (s.list.next a).tagged ≡ false
    → s.list.insertions < fuel
    → drop_list fuel s.list ≡ assert_failed
unfolding drop_list
drop_list-assert_failed {s} fuel a r h clear lt =
    let v = (Reach-Inv r).shape in
    drop_from_fails fuel s.list.insertions a s.list.head.target v
      (v.reachable a h (ground (arith, v.only_deleted a, clear))) clear (head_Placed v) lt
