-- ===== src/Planner/Rounds.antt =====
-- One round of `topological_task_ids` only moves task ids from the pending list to the ordered one.
use mystery_starter_kit.Common.{
  ℕ, suc, ◌+◌, ◌≤◌, String, ◌≡◌, refl, ap, sym, ◌∙◌, inl, inr, ◌==◌, eq_iff, List, [], ◌∷◌, arith,
  length, mem, count, count_pos, Elem-of_count, Elem, Elem-head, Dict, Bool-cases,
}
use mystery_starter_kit.Failure.{ok, >>=-eq-ok}
use mystery_starter_kit.Runtime.{RuntimeTask}
use mystery_starter_kit.Planner.{
  gate_of_task, with_gates, insert_by_gate, sort_by_gate, ids, erase_first, erase_all,
}

count-insert_by_gate :
    (x task_id : String) (gate : ℕ) (rest : List (ℕ × String))
    → count x (ids (insert_by_gate (gate, task_id) rest)) ≡ count x (task_id ∷ ids rest)
unfolding insert_by_gate count
count-insert_by_gate x task_id gate [] = refl
count-insert_by_gate x task_id gate ((gate', task_id') ∷ rest) =
    ground (arith, count-insert_by_gate x task_id gate rest)

pub count-sort_by_gate :
    (x : String) (keyed : List (ℕ × String))
    → count x (ids (sort_by_gate keyed)) ≡ count x (ids keyed)
unfolding sort_by_gate count
count-sort_by_gate x [] = refl
count-sort_by_gate x ((gate, task_id) ∷ keyed) =
    omega
      (arith, count-insert_by_gate x task_id gate (sort_by_gate keyed), count-sort_by_gate x keyed)

pub ids-with_gates :
    (tasks : Dict RuntimeTask) (task_ids : List String) (keyed : List (ℕ × String))
    → with_gates tasks task_ids ≡ ok keyed
    → ids keyed ≡ task_ids
unfolding with_gates
ids-with_gates tasks [] keyed h = ground arith
ids-with_gates tasks (task_id ∷ task_ids) keyed h =
    let (gate, found, more) = >>=-eq-ok (gate_of_task tasks task_id) _ h in
    let (rest, read, last) = >>=-eq-ok (with_gates tasks task_ids) _ more in
    let same : (gate, task_id) ∷ rest ≡ keyed = cc in
    sym (ap ids same) ∙ ap (λ l. task_id ∷ l) (ids-with_gates tasks task_ids rest read)

-- The sorted ready list has the tasks of the ready list, each as often.
pub count_ready :
    (tasks : Dict RuntimeTask) (task_ids : List String) (keyed : List (ℕ × String)) (x : String)
    → with_gates tasks task_ids ≡ ok keyed
    → count x (ids (sort_by_gate keyed)) ≡ count x task_ids
count_ready tasks task_ids keyed x h =
    count-sort_by_gate x keyed ∙ ap (count x) (ids-with_gates tasks task_ids keyed h)

count-erase_first :
    (x task_id : String) (pending : List String)
    → Elem task_id pending
    → count x (task_id ∷ erase_first task_id pending) ≡ count x pending
unfolding erase_first count mem
count-erase_first x task_id [] m = absurd (cc)
count-erase_first x task_id (other ∷ rest) m = elim (Bool-cases (other == task_id)) [
  | inl same ↦ ground (arith, ap (λ y. count x (y ∷ [])) ((eq_iff other task_id).0 same))
  | inr differs ↦ ground (
    arith,
    eq_iff task_id other,
    eq_iff other task_id,
    count-erase_first x task_id rest (ground (arith, eq_iff task_id other, eq_iff other task_id)),
  )
]

length-erase_first :
    (task_id : String) (pending : List String)
    → Elem task_id pending
    → suc (length (erase_first task_id pending)) ≡ length pending
unfolding erase_first mem
length-erase_first task_id [] m = absurd (cc)
length-erase_first task_id (other ∷ rest) m = elim (Bool-cases (other == task_id)) [
  | inl same ↦ ground arith
  | inr differs ↦ ground (
    arith,
    length-erase_first task_id rest (ground (arith, eq_iff task_id other, eq_iff other task_id)),
  )
]

-- `taken` can be removed from `pending`, one id at a time.
abbrev pub Within : List String → List String → Type 0
Within taken pending = (x : String) → count x taken ≤ count x pending

Within-erase :
    (task_id : String) (taken pending : List String)
    → Within (task_id ∷ taken) pending
    → Elem task_id pending × Within taken (erase_first task_id pending)
Within-erase task_id taken pending within =
    (m, λ x. unfold count in omega (arith, within x, count-erase_first x task_id pending m))
  where
    m : Elem task_id pending
    m = Elem-of_count task_id pending (
        omega
          (arith, within task_id, count_pos task_id (task_id ∷ taken) (Elem-head task_id taken)))

pub count-erase_all :
    (x : String) (taken pending : List String)
    → Within taken pending
    → count x (erase_all taken pending) + count x taken ≡ count x pending
unfolding erase_all count
count-erase_all x [] pending within = omega arith
count-erase_all x (task_id ∷ taken) pending within =
    let (m, fits) = Within-erase task_id taken pending within in
    omega (
      arith,
      count-erase_first x task_id pending m,
      count-erase_all x taken (erase_first task_id pending) fits,
    )

pub length-erase_all :
    (taken pending : List String)
    → Within taken pending
    → length (erase_all taken pending) + length taken ≡ length pending
unfolding erase_all
length-erase_all [] pending within = omega arith
length-erase_all (task_id ∷ taken) pending within =
    let (m, fits) = Within-erase task_id taken pending within in
    omega (
      arith,
      length-erase_first task_id pending m,
      length-erase_all taken (erase_first task_id pending) fits,
    )
