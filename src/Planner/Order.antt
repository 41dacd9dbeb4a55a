-- ===== src/Planner/Order.antt =====
-- `topological_task_ids`: the order it returns, and that it returns one.
use mystery_starter_kit.Common.{
  ℕ, zero, suc, ◌+◌, String, ◌≡◌, ap, sym, subst, ◌∙◌, inl, inr, true, not, ◌||◌, List, [], ◌∷◌,
  ◌++◌, arith, length, all-Elem, keep, mem, mem-keep, count, count-append, count_pos, Elem-of_count,
  count-keep-le, Elem, Elem-head, Elem-tail, Elem-cons, not-Elem-nil, Dict, keys, List-cases,
}
use mystery_starter_kit.Failure.{ok, ◌>>=◌, >>=-eq-ok}
use mystery_starter_kit.Runtime.{RuntimeTask}
use mystery_starter_kit.Planner.{
  dependencies, is_ready, with_gates, sort_by_gate, ids, erase_all, order_rounds,
  topological_task_ids,
}
use mystery_starter_kit.Planner.Rounds.{count_ready, Within, count-erase_all}

-- A task comes behind every task of the plan that it depends on.
abbrev pub IsOrdered : Dict RuntimeTask → List String → List String → Type 0
IsOrdered tasks seen [] = Unit
IsOrdered tasks seen (t ∷ ts) =
    ((d : String) → Elem d (dependencies tasks t) → Elem d (keys tasks) → Elem d seen)
    × IsOrdered tasks (t ∷ seen) ts

module _ (tasks : Dict RuntimeTask) where
  is_ready-seen :
      (ordered : List String) (t d : String)
      → is_ready tasks ordered t ≡ true
      → Elem d (dependencies tasks t)
      → Elem d (keys tasks)
      → Elem d ordered
  is_ready-seen ordered t d ready dep key =
      let passes =
        all-Elem (λ x. not (mem x (keys tasks)) || mem x ordered) d (dependencies tasks t) ready
          dep in
      ground arith

  all_ready-IsOrdered :
      (ordered seen ts : List String)
      → ((x : String) → Elem x ordered → Elem x seen)
      → ((t : String) → Elem t ts → is_ready tasks ordered t ≡ true)
      → IsOrdered tasks seen ts
  all_ready-IsOrdered ordered seen [] sub ready = tt
  all_ready-IsOrdered ordered seen (t ∷ ts) sub ready = (
    (λ d dep key. sub d (is_ready-seen ordered t d (ready t (Elem-head t ts)) dep key)),
    all_ready-IsOrdered ordered (t ∷ seen) ts (λ x m. Elem-tail x t seen (sub x m))
        (λ u m. ready u (Elem-tail u t ts m)),
  )

  IsOrdered-append :
      (seen xs ys : List String)
      → IsOrdered tasks seen xs
      → ((more : List String)
          → ((x : String) → Elem x seen → Elem x more)
          → ((x : String) → Elem x xs → Elem x more)
          → IsOrdered tasks more ys)
      → IsOrdered tasks seen (xs ++ ys)
  IsOrdered-append seen [] ys h rest = rest seen (λ x m. m) (λ x m. absurd (not-Elem-nil x m))
  IsOrdered-append seen (t ∷ xs) ys h rest = (
    h.0,
    IsOrdered-append (t ∷ seen) xs ys h.1 (λ more old new.
        rest more (λ x m. old x (Elem-tail x t seen m))
          (λ x m. elim (Elem-cons x t xs m) [
            | inl same ↦ subst (λ y. Elem y more) (sym same) (old t (Elem-head t seen))
            | inr later ↦ new x later
          ])),
  )

  -- The ready tasks of a round, in the order in which they are taken.
  abbrev pub waiting_ready : List String → List String → List String
  waiting_ready ordered waiting = keep (is_ready tasks ordered) waiting

  pub ready_of_round :
      (ordered waiting : List String) (keyed : List (ℕ × String))
      → with_gates tasks (waiting_ready ordered waiting) ≡ ok keyed
      → (Within (ids (sort_by_gate keyed)) waiting)
        × ((t : String) → Elem t (ids (sort_by_gate keyed)) → is_ready tasks ordered t ≡ true)
  ready_of_round ordered waiting keyed read = (
    (λ x. omega (
      arith,
      count_ready tasks (waiting_ready ordered waiting) keyed x read,
      count-keep-le (is_ready tasks ordered) x waiting,
    )),
    (λ t m.
        let kept : Elem t (waiting_ready ordered waiting) =
          Elem-of_count t (waiting_ready ordered waiting) (
            omega (
              arith,
              count_ready tasks (waiting_ready ordered waiting) keyed t read,
              count_pos t (ids (sort_by_gate keyed)) m,
            )) in
        ground (arith, mem-keep (is_ready tasks ordered) t waiting)),
  )

  -- A round that did not raise.
  round_step :
      (fuel : ℕ) (task_id : String) (pending ordered out : List String)
      → order_rounds tasks (suc fuel) (task_id ∷ pending) ordered ≡ ok out
      → (keyed : List (ℕ × String)) × (with_gates tasks (waiting_ready ordered (task_id ∷ pending))
          ≡ ok keyed)
        × (order_rounds tasks fuel
              (erase_all (ids (sort_by_gate keyed)) (task_id ∷ pending))
              (ordered ++ ids (sort_by_gate keyed))
            ≡ ok out)
  unfolding order_rounds
  round_step fuel task_id pending ordered out e =
      elim (List-cases (waiting_ready ordered (task_id ∷ pending))) [
        | inl stuck ↦ absurd (ground arith)
        | inr (first, others, some_ready) ↦
            let run : (with_gates tasks (first ∷ others) >>= λ keyed.
            order_rounds tasks fuel (erase_all (ids (sort_by_gate keyed)) (task_id ∷ pending))
              (ordered ++ ids (sort_by_gate keyed)))
                ≡ ok out =
              ground arith in
            let (keyed, read, rest) = >>=-eq-ok (with_gates tasks (first ∷ others)) _ run in
            (keyed, ap (with_gates tasks) some_ready ∙ read, rest)
      ]

  record Planned (pending ordered out : List String) : Type 0 where
    same : (x : String) → count x out ≡ count x pending + count x ordered
    in_order : IsOrdered tasks [] ordered → IsOrdered tasks [] out

  order_rounds-Planned :
      (fuel : ℕ) (pending ordered out : List String)
      → order_rounds tasks fuel pending ordered ≡ ok out
      → Planned pending ordered out
  unfolding order_rounds count
  order_rounds-Planned zero [] ordered out e =
      let same : ordered ≡ out = cc in
      subst (Planned [] ordered) same (record { same = λ x. omega arith; in_order = λ h. h })
  order_rounds-Planned (suc fuel) [] ordered out e =
      let same : ordered ≡ out = cc in
      subst (Planned [] ordered) same (record { same = λ x. omega arith; in_order = λ h. h })
  order_rounds-Planned zero (task_id ∷ pending) ordered out e = absurd (cc)
  order_rounds-Planned (suc fuel) (task_id ∷ pending) ordered out e =
      let waiting = task_id ∷ pending in
      let (keyed, read, rest) = round_step fuel task_id pending ordered out e in
      let ready = ids (sort_by_gate keyed) in
      let (within, all_ready) = ready_of_round ordered waiting keyed read in
      let later = order_rounds-Planned fuel (erase_all ready waiting) (ordered ++ ready) out rest in
      record {
        same = λ x. omega (
          arith,
          later.same x,
          count-append x ordered ready,
          count-erase_all x ready waiting within,
        );
        in_order = λ h. later.in_order (
            IsOrdered-append [] ordered ready h
              (λ more old new. all_ready-IsOrdered ordered more ready new all_ready));
      }

-- When an order is returned, it holds each task of the range, as often as the range does and no other,
-- and every task stands behind all tasks of the range that it depends on.
pub topological_task_ids_correct :
    (tasks : Dict RuntimeTask) (out : List String)
    → topological_task_ids tasks ≡ ok out
    → ((x : String) → count x out ≡ count x (keys tasks)) × IsOrdered tasks [] out
unfolding topological_task_ids count
topological_task_ids_correct tasks out e =
    let planned = order_rounds-Planned tasks (length tasks) (keys tasks) [] out e in
    ((λ x. omega (arith, planned.same x)), planned.in_order tt)
