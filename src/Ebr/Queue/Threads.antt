-- ===== src/Ebr/Queue/Threads.antt =====
-- queue.rs: the threads under the move of one of them.
use smr_benchmark.Prelude.{ℕ, suc, ◌≤◌, ◌≡◌, none, some, ◌⊎◌, arith, refl}
use smr_benchmark.Prelude.Family.{update, update-all}
use smr_benchmark.Ebr.Queue.{
  Queue, Pc, idle, pushing, onto_tail, helping, linking, swinging, trying, looking, exchanging,
  popped, fixing, retiring, set_next,
}
use smr_benchmark.Ebr.Queue.Invariant.{new_of, At, Shape, Threads}

-- What a thread knows stays true as nodes are linked and the head and the tail move on.
At-later :
    {node node' : ℕ → ℕ} {h t l h' t' l' : ℕ} (p : Pc)
    → h ≤ l
    → t ≤ l
    → h ≤ h'
    → t ≤ t'
    → l ≤ l'
    → ((i : ℕ) → i ≤ l → node' i ≡ node i)
    → At node h t l p
    → At node' h' t' l' p
At-later idle hl tl hh tt' ll same a = tt
At-later (pushing _) hl tl hh tt' ll same a = tt
At-later (onto_tail _ _) hl tl hh tt' ll same (i, b, e) = (i, omega arith, ground (arith, same i))
At-later (helping _ _ _) hl tl hh tt' ll same (i, b, e, f) =
    (i, omega arith, ground (arith, same i), ground (arith, same (suc i)))
At-later (linking _ _) hl tl hh tt' ll same (i, b, e) = (i, omega arith, ground (arith, same i))
At-later (swinging _ _) hl tl hh tt' ll same (i, b, e, f) =
    (i, omega arith, ground (arith, same i), ground (arith, same (suc i)))
At-later trying hl tl hh tt' ll same a = tt
At-later (looking _) hl tl hh tt' ll same (i, b, e) = (i, omega arith, ground (arith, same i))
At-later (exchanging _ _) hl tl hh tt' ll same (i, b, c, e, f) =
    (i, omega arith, omega arith, ground (arith, same i), ground (arith, same (suc i)))
At-later (popped _ _) hl tl hh tt' ll same (i, b, e, f) =
    (i, omega arith, ground (arith, same i), ground (arith, same (suc i)))
At-later (fixing _ _) hl tl hh tt' ll same (i, b, e, f) =
    (i, omega arith, ground (arith, same i), ground (arith, same (suc i)))
At-later (retiring _ _) hl tl hh tt' ll same (i, b, c, e) =
    (i, omega arith, omega arith, ground (arith, same i))

module _ {ℓ} {D : Type ℓ} {node : ℕ → ℕ} {h t l : ℕ} {q : Queue D} {th : ℕ → Pc}
    (s : Shape node h t l q) (r : Threads node h t l q th) (k : ℕ) where
  open s use {head_in, tail_in, old}
  open r use {at, private, apart, alone}

  -- The move leaves the nodes alone.
  pub Threads-quiet :
      (q' : Queue D) (p : Pc) (h' t' : ℕ)
      → q'.cell ≡ q.cell
      → q'.fresh ≡ q.fresh
      → h ≤ h'
      → t ≤ t'
      → (new_of p ≡ none) ⊎ (new_of p ≡ new_of (th k))
      → At node h' t' l p
      → Threads node h' t' l q' (update th k p)
  Threads-quiet q' p h' t' c f hh tt' same own = record {
    at =
        update-all (At node h' t' l) th k p own
          (λ j. At-later (th j) head_in tail_in hh tt' (omega arith) (λ i b. refl) (at j));
    private = λ j a e. rw (c, f) (ground (arith, private j a, private k a));
    apart = λ j a i e b. ground (arith, apart j a i, apart k a i);
    alone = λ i j a e g. ground (arith, alone i j a, alone i k a, alone k j a);
  }

  -- The move makes a new node.
  pub Threads-alloc :
      (d : D)
      → Threads node h t l
          (record q {
            cell = update q.cell q.fresh (record { data_slot = some d; next = none });
            fresh = suc q.fresh;
          })
          (update th k (pushing q.fresh))
  Threads-alloc d = record {
    at = λ j. ground (arith, at j);
    private = λ j a e. ground (arith, private j a);
    apart = λ j a i e b. ground (arith, apart j a i, old i);
    alone = λ i j a e g. ground (arith, alone i j a, private i a, private j a);
  }

  -- The move links its node behind the last.
  pub Threads-link :
      (a : ℕ)
      → new_of (th k) ≡ some a
      → Threads
          (update node (suc l) a)
          h
          t
          (suc l)
          (record q { cell = set_next q.cell (node l) a })
          (update th k (swinging (node l) a))
  unfolding set_next
  Threads-link a e = record {
    at =
        update-all (At (update node (suc l) a) h t (suc l)) th k (swinging (node l) a)
          (l, omega arith, ground arith, ground arith)
          (λ j.
            At-later (th j) head_in tail_in (omega arith) (omega arith) (omega arith)
              (λ i b. ground arith) (at j));
    private = λ j b f. ground (arith, private j b, apart j b l);
    apart = λ j b i f c. ground (arith, apart j b i, alone j k b);
    alone = λ i j b f g. ground (arith, alone i j b);
  }
