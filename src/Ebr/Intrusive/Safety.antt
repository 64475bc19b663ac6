-- ===== src/Ebr/Intrusive/Safety.antt =====
-- sync/list.rs: what every interleaving leaves of the list and shows to an iterator.
use smr_benchmark.Prelude.{
  ℕ, ◌≡◌, refl, true, false, Option, none, some, arith, subst, ◌⊎◌, inl, inr, Bool-cases,
  ℕ_discrete, ◌≢◌,
}
use smr_benchmark.Ebr.Intrusive.{
  Shared, EntryList, new_list, Iter, link_at, idle, iterating, System, pick, Reach, start, later,
}
use smr_benchmark.Ebr.Intrusive.Ways.{Way, here, there, Inserted, nowhere}
use smr_benchmark.Ebr.Intrusive.Shape.{Live, Shape, At, Inv}
use smr_benchmark.Ebr.Intrusive.Moves.{Move-Inv}

-- A new list has no link.
no_link :
    (next : ℕ → Shared) (x : Option ℕ) (b : ℕ)
    → Live (new_list next) x
    → (link_at (new_list next) x).target ≢ some b
no_link next none b h e = ground (arith, e)
no_link next (some c) b (h, z) e = ground (arith, h)

start-Inv : (next : ℕ → Shared) → Inv (new_list next) (λ _. idle)
start-Inv next = record {
  shape = record {
    head_clear = refl;
    head_inserted = tt;
    allocated = λ a h. absurd (ground (arith, h));
    next_inserted = λ a h. absurd (ground (arith, h));
    placed = λ a h. absurd (ground (arith, h));
    descends = λ a b h. absurd (ground (arith, h));
    untouched = λ a h. refl;
    once = λ a. omega arith;
    only_deleted = λ a ne. absurd (ne refl);
    reachable = λ a h. absurd (ground (arith, h));
    live = λ x b h e. refl;
    one_link = λ x y b h k e. absurd (no_link next x b h e);
  };
  at = λ k. tt;
  apart = λ j k a e. absurd (ground (arith, e));
}

pub Reach-Inv : {s : System} → Reach s → Inv s.list s.thread
Reach-Inv (start next) = start-Inv next
Reach-Inv (later r (pick i mv)) = Move-Inv (Reach-Inv r) i mv refl

-- From a live link on, an entry is live.
Way-Live :
    {m : EntryList} {x : Option ℕ} {u : ℕ} → Shape m → Live m x → Way m.next x u → Live m (some u)
Way-Live s h here = h
Way-Live {m} s h (there {b} q) = Way-Live s (go (m.next b).target refl) q
  where
    go : (t : Option ℕ) → (m.next b).target ≡ t → Live m t
    go none e = tt
    go (some d) e = (subst (Inserted m.inserted) e (s.next_inserted b h.0), s.live (some b) d h e)

head_Live : {m : EntryList} → Shape m → Live m m.head.target
head_Live {m} s = go m.head.target refl
  where
    go : (t : Option ℕ) → m.head.target ≡ t → Live m t
    go none e = tt
    go (some d) e = (subst (Inserted m.inserted) e s.head_inserted, s.live none d tt e)

-- Whatever the threads do, an entry that has been inserted is on the way from the head, and
-- `C::finalize` has not been called on it; or it has been called once, the entry has been deleted,
-- and no way from the head leads there.
pub finalized_once :
    {s : System} (a : ℕ)
    → Reach s
    → s.list.inserted a ≡ true
    → ((s.list.finalized a ≡ 0) × Way s.list.next s.list.head.target a)
      ⊎ ((s.list.finalized a ≡ 1)
          × ((s.list.next a).tagged ≡ true)
          × ¬ (Way s.list.next s.list.head.target a))
finalized_once {s} a r h =
    let v = (Reach-Inv r).shape in
    elim (ℕ_discrete (s.list.finalized a) 0) [
      | yes z ↦ inl (z, v.reachable a h z)
      | no nz ↦
          inr (
            omega (arith, nz, v.once a),
            v.only_deleted a nz,
            λ w. nz (Way-Live v (head_Live v) w).1,
          )
    ]

-- Whatever the threads do meanwhile, an iterator that has come to the end of the list has returned
-- every entry that had been inserted when the iteration began and is not deleted yet.
pub iteration_complete :
    {s : System} {it : Iter} (i u : ℕ)
    → Reach s
    → s.thread i ≡ iterating it
    → it.curr.target ≡ none
    → it.before u ≡ true
    → (s.list.next u).tagged ≡ false
    → it.returned u ≡ true
iteration_complete {s} {it} i u r e end b clear =
    let (h, c) = subst (At s.list) e ((Reach-Inv r).at i) in
    elim (Bool-cases (it.returned u)) [
      | inl t ↦ t
      | inr f ↦ absurd (nowhere (c.curr_ahead u b clear f) end)
    ]

-- Whatever the threads do, the entry that an iterator is at has been inserted, and its pointer has no
-- tag, as `next` asserts.
curr_lem :
    {s : System} {it : Iter} (i a : ℕ)
    → Reach s
    → s.thread i ≡ iterating it
    → it.curr.target ≡ some a
    → (s.list.inserted a ≡ true) × (it.curr.tagged ≡ false)
curr_lem {s} i a r e f =
    let (h, c) = subst (At s.list) e ((Reach-Inv r).at i) in
    (subst (Inserted s.list.inserted) f c.curr_inserted, c.curr_clear)
