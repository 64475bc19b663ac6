-- ===== src/Harris/Moves.antt =====
-- list.rs: every step of a thread keeps the invariant.
use smr_benchmark.Prelude.{
  ℕ, ◌≡◌, refl, true, false, Option, none, some, arith, ◌∙◌, sym, ap, subst,
}
use smr_benchmark.Prelude.Family.{update}
use smr_benchmark.Harris.{
  Harris, Event, getting, inserting, removing, key_of, Pc, idle, trying, finding, cleaning,
  stepping, skipping, walking, decided, detaching, popping, marking, set_mark, untagged, Move,
  get_start, insert_start, remove_start, find_head, find_end, find_marked, find_less, find_equal,
  find_greater, adjacent, clean, clean_lost, step_head, step_end, step_marked, skip, skip_lost,
  step_less, step_equal, step_greater, walk_head, walk_less, walk_found, walk_end, walk_greater,
  walk_removed, get_done, insert_refused, insert_prepare, insert_link, insert_lost, remove_missed,
  remove_mark, remove_lost, detach, detach_lost, pop_start, pop_empty, pop_load, pop_mark, pop_lost,
}
use smr_benchmark.Harris.Runs.{apply, Allows}
use smr_benchmark.Harris.Paths.{Run, stop, pass, Run-snoc}
use smr_benchmark.Harris.Invariant.{own}
use smr_benchmark.Harris.Entries.{Inv, look}
use smr_benchmark.Harris.Changes.{unlink-Inv, mark-Inv, insert-Inv}
use smr_benchmark.Harris.Known.{
  Stopped-Linked, known, leads, ends, passes, found_entry, insert_start-Inv, insert_prepare-Inv,
}

module _ {ℓ} {V : Type ℓ} {m : Harris V} {th : ℕ → Pc} {map : ℕ → Option V} (v : Inv m th map)
    (i : ℕ) where
  pub Move-Inv :
      {p : Pc} {e : Event V} {m' : Harris V} {p' : Pc}
      → Move m p e m' p'
      → th i ≡ p
      → Inv m' (update th i p') (apply e map) × Allows e map
  Move-Inv (get_start k) t = (look v i (trying (getting k)) tt (λ a h. ap own t ∙ h), tt)
  Move-Inv (insert_start k d) t = (insert_start-Inv v i k d t, tt)
  Move-Inv (remove_start k) t = (look v i (trying (removing k)) tt (λ a h. ap own t ∙ h), tt)
  Move-Inv (find_head {op}) t = (
    look v i (finding op none m.head m.head)
        (known v i t, (tt, tt), v.shape.head_clear, v.shape.head_clear, v.shape.head_linked, stop)
        (λ a h. ap own t ∙ h),
    tt,
  )
  Move-Inv (find_end {op} {prev} {prev_next} {curr} e) t =
      let (h, b, nm, cm, lc, r) = known v i t in
      (
        look v i (cleaning op false prev prev_next curr) (h, b, nm, cm, ends v i (key_of op) e, r)
            (λ a q. ap own t ∙ q),
        tt,
      )
  Move-Inv (find_marked {op} {prev} {prev_next} {curr} a e mk) t =
      let (h, b, nm, cm, lc, r) = known v i t in
      let la = leads v i lc e in
      (
        look v i (finding op prev prev_next (untagged (m.node a).next))
            (
              h,
              b,
              nm,
              refl,
              v.shape.next_linked a la,
              Run-snoc (subst (Run m.node v.linked prev_next.target) e r) la mk,
            )
            (λ c q. ap own t ∙ q),
        tt,
      )
  Move-Inv (find_less {op} {prev} {prev_next} {curr} a e um lt) t =
      let (h, b, nm, cm, lc, r) = known v i t in
      let la = leads v i lc e in
      (
        look v i (finding op (some a) (m.node a).next (m.node a).next)
            (h, (la, lt), um, um, v.shape.next_linked a la, stop) (λ c q. ap own t ∙ q),
        tt,
      )
  Move-Inv (find_equal {op} {prev} {prev_next} {curr} a e um key) t =
      let (h, b, nm, cm, lc, r) = known v i t in
      let la = leads v i lc e in
      (
        look v i (cleaning op true prev prev_next curr) (h, b, nm, cm, (a, e, la, key), r)
            (λ c q. ap own t ∙ q),
        found_entry v i (key_of op) la um key,
      )
  Move-Inv (find_greater {op} {prev} {prev_next} {curr} a e um lt) t =
      let (h, b, nm, cm, lc, r) = known v i t in
      (
        look v i (cleaning op false prev prev_next curr)
            (h, b, nm, cm, passes v i (key_of op) e (leads v i lc e) lt, r) (λ c q. ap own t ∙ q),
        tt,
      )
  Move-Inv (adjacent {op} {found} {prev} {prev_next} {curr} e) t =
      let (h, b, nm, cm, st, r) = known v i t in
      (look v i (decided op found prev curr) (h, b, cm, st) (λ c q. ap own t ∙ q), tt)
  Move-Inv (clean {op} {found} {prev} {prev_next} {curr} e) t =
      let (h, b, nm, cm, st, r) = known v i t in
      (
        unlink-Inv v i (decided op found prev curr) prev curr b.0 e nm cm
            (Stopped-Linked m v.linked (key_of op) found curr.target st) r (h, b, cm, st)
            (λ c q. ap own t ∙ q),
        tt,
      )
  Move-Inv (clean_lost {op} ne) t = (look v i (trying op) (known v i t).0 (λ c q. ap own t ∙ q), tt)
  Move-Inv (step_head {op}) t = (
    look v i (stepping op none m.head)
        (known v i t, (tt, tt), v.shape.head_clear, v.shape.head_linked) (λ c q. ap own t ∙ q),
    tt,
  )
  Move-Inv (step_end {op} {prev} {curr} e) t =
      let (h, b, cm, lc) = known v i t in
      (
        look v i (decided op false prev curr) (h, b, cm, ends v i (key_of op) e)
            (λ c q. ap own t ∙ q),
        tt,
      )
  Move-Inv (step_marked {op} {prev} {curr} a e mk) t =
      let (h, b, cm, lc) = known v i t in
      let la = leads v i lc e in
      (
        look v i (skipping op prev curr (untagged (m.node a).next))
            (
              h,
              b,
              cm,
              refl,
              v.shape.next_linked a la,
              subst (λ x. Run m.node v.linked x (m.node a).next.target) (sym e) (pass la mk stop),
            )
            (λ c q. ap own t ∙ q),
        tt,
      )
  Move-Inv (skip {op} {prev} {curr} {next} e) t =
      let (h, b, cm, nm, ln, r) = known v i t in
      (
        unlink-Inv v i (stepping op prev next) prev next b.0 e cm nm ln r (h, b, nm, ln)
            (λ c q. ap own t ∙ q),
        tt,
      )
  Move-Inv (skip_lost {op} ne) t = (look v i (trying op) (known v i t).0 (λ c q. ap own t ∙ q), tt)
  Move-Inv (step_less {op} {prev} {curr} a e um lt) t =
      let (h, b, cm, lc) = known v i t in
      let la = leads v i lc e in
      (
        look v i (stepping op (some a) (m.node a).next) (h, (la, lt), um, v.shape.next_linked a la)
            (λ c q. ap own t ∙ q),
        tt,
      )
  Move-Inv (step_equal {op} {prev} {curr} a e um key) t =
      let (h, b, cm, lc) = known v i t in
      let la = leads v i lc e in
      (
        look v i (decided op true prev curr) (h, b, cm, (a, e, la, key)) (λ c q. ap own t ∙ q),
        found_entry v i (key_of op) la um key,
      )
  Move-Inv (step_greater {op} {prev} {curr} a e um lt) t =
      let (h, b, cm, lc) = known v i t in
      (
        look v i (decided op false prev curr)
            (h, b, cm, passes v i (key_of op) e (leads v i lc e) lt) (λ c q. ap own t ∙ q),
        tt,
      )
  Move-Inv (walk_head {k}) t =
      (look v i (walking k m.head) v.shape.head_linked (λ c q. ap own t ∙ q), tt)
  Move-Inv (walk_less {k} {curr} a e lt) t = (
    look v i (walking k (untagged (m.node a).next))
        (v.shape.next_linked a (leads v i (known v i t) e)) (λ c q. ap own t ∙ q),
    tt,
  )
  Move-Inv (walk_found {k} {curr} a e key um) t =
      (look v i idle tt (λ c q. ap own t ∙ q), found_entry v i k (leads v i (known v i t) e) um key)
  Move-Inv (walk_end e) t = (look v i idle tt (λ c q. ap own t ∙ q), tt)
  Move-Inv (walk_greater a e lt) t = (look v i idle tt (λ c q. ap own t ∙ q), tt)
  Move-Inv (walk_removed a e key mk) t = (look v i idle tt (λ c q. ap own t ∙ q), tt)
  Move-Inv get_done t = (look v i idle tt (λ c q. ap own t ∙ q), tt)
  Move-Inv insert_refused t = (look v i idle tt (λ c q. absurd (ground (arith, q))), tt)
  Move-Inv (insert_prepare {k} {new} {prev} {curr}) t =
      (insert_prepare-Inv v i k new prev curr t, tt)
  Move-Inv (insert_link {k} {new} {prev} {curr} e) t = insert-Inv v i k new prev curr t e
  Move-Inv (insert_lost {k} {new} ne) t =
      (look v i (trying (inserting k new)) (known v i t).0 (λ c q. ap own t ∙ q), tt)
  Move-Inv remove_missed t = (look v i idle tt (λ c q. ap own t ∙ q), tt)
  Move-Inv (remove_mark {k} {prev} {curr} a e um) t =
      let (h, b, cm, (a', e', la', key)) = known v i t in
      let same : a' ≡ a = ground (arith, e', e) in
      let la = subst (λ c. v.linked c ≡ true) same la' in
      let ka : (m.node a).key ≡ k = subst (λ c. (m.node c).key ≡ k) same key in
      (
        subst
            (λ j.
              Inv (set_mark m a) (update th i (detaching prev curr (m.node a).next))
                (update map j none))
            ka (mark-Inv v i a prev curr la um b.0 e cm),
        found_entry v i k la um ka,
      )
  Move-Inv (remove_lost {k} a e mk) t =
      (look v i (trying (removing k)) tt (λ c q. ap own t ∙ q), tt)
  Move-Inv (detach {prev} {curr} {next} e) t =
      let (lp, cm, nm, ln, r) = known v i t in
      (unlink-Inv v i idle prev next lp e cm nm ln r tt (λ c q. ap own t ∙ q), tt)
  Move-Inv (detach_lost ne) t = (look v i idle tt (λ c q. ap own t ∙ q), tt)
  Move-Inv pop_start t = (look v i popping tt (λ c q. ap own t ∙ q), tt)
  Move-Inv (pop_empty e) t = (look v i idle tt (λ c q. ap own t ∙ q), tt)
  Move-Inv (pop_load a e) t = (
    look v i (marking a m.head) (leads v i v.shape.head_linked e, e, v.shape.head_clear)
        (λ c q. ap own t ∙ q),
    tt,
  )
  Move-Inv (pop_mark {a} {curr} um) t =
      let (la, e, cm) = known v i t in
      (mark-Inv v i a none curr la um tt e cm, found_entry v i (m.node a).key la um refl)
  Move-Inv (pop_lost mk) t = (look v i popping tt (λ c q. ap own t ∙ q), tt)
