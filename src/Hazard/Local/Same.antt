-- ===== src/Hazard/Local/Same.antt =====
-- hp-pp: what the hazard pointers of a thread leave alone.
use smr_benchmark.Prelude.{ℕ, ◌≡◌, refl, List, [], ◌∷◌, Bool-cases, ◌∙◌, inl, inr}
use smr_benchmark.Hazard.Local.{
  Thread, check, protect_raw, drop_hazard, drop_hazards, clear_epoched, drop_passed,
}

-- What hazard pointers do to a thread changes none of its accounts.
pub record Same (t u : Thread) : Type 0 where
  pub retireds : u.domain.retireds ≡ t.domain.retireds
  pub num_garbages : u.domain.num_garbages ≡ t.domain.num_garbages
  pub freed : u.domain.freed ≡ t.domain.freed
  pub flush_at : u.domain.counts_between_flush ≡ t.domain.counts_between_flush
  pub unlinkeds : u.unlinkeds ≡ t.unlinkeds
  pub retired : u.retired ≡ t.retired
  pub events : u.count ≡ t.count
  pub array : u.array ≡ t.array

Same-trans : {t u w : Thread} → Same t u → Same u w → Same t w
Same-trans a b = record {
  retireds = b.retireds ∙ a.retireds;
  num_garbages = b.num_garbages ∙ a.num_garbages;
  freed = b.freed ∙ a.freed;
  flush_at = b.flush_at ∙ a.flush_at;
  unlinkeds = b.unlinkeds ∙ a.unlinkeds;
  retired = b.retired ∙ a.retired;
  events = b.events ∙ a.events;
  array = b.array ∙ a.array;
}

Same-refl : (t : Thread) → Same t t
Same-refl t = record {
  retireds = refl;
  num_garbages = refl;
  freed = refl;
  flush_at = refl;
  unlinkeds = refl;
  retired = refl;
  events = refl;
  array = refl;
}

drop_hazards-Same : (hps : List ℕ) (t : Thread) → Same t (drop_hazards hps t)
unfolding drop_hazards drop_hazard protect_raw
drop_hazards-Same [] t = Same-refl t
drop_hazards-Same (i ∷ hps) t =
    Same-trans
      (record {
        retireds = refl;
        num_garbages = refl;
        freed = refl;
        flush_at = refl;
        unlinkeds = refl;
        retired = refl;
        events = refl;
        array = refl;
      })
      (drop_hazards-Same hps (drop_hazard i t))

pub clear_epoched-Same : (q : List (ℕ × List ℕ)) (t : Thread) → Same t (clear_epoched q t)
unfolding clear_epoched
clear_epoched-Same [] t = record {
  retireds = refl;
  num_garbages = refl;
  freed = refl;
  flush_at = refl;
  unlinkeds = refl;
  retired = refl;
  events = refl;
  array = refl;
}
clear_epoched-Same ((_, hps) ∷ q) t =
    Same-trans (drop_hazards-Same hps t) (clear_epoched-Same q (drop_hazards hps t))

pub drop_passed-Same : (e : ℕ) (q : List (ℕ × List ℕ)) (t : Thread) → Same t (drop_passed e q t)
unfolding drop_passed
drop_passed-Same e [] t = record {
  retireds = refl;
  num_garbages = refl;
  freed = refl;
  flush_at = refl;
  unlinkeds = refl;
  retired = refl;
  events = refl;
  array = refl;
}
drop_passed-Same e ((old, hps) ∷ q) t = elim (Bool-cases (check old e)) [
  | inl h ↦ rw h (Same-trans (drop_hazards-Same hps t) (drop_passed-Same e q (drop_hazards hps t)))
  | inr h ↦ rw h (record {
    retireds = refl;
    num_garbages = refl;
    freed = refl;
    flush_at = refl;
    unlinkeds = refl;
    retired = refl;
    events = refl;
    array = refl;
  })
]
