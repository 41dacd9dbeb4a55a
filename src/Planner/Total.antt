-- ===== src/Planner/Total.antt =====
-- `topological_task_ids` raises for cycles only: on tasks that can be ranked it returns an order.
use mystery_starter_kit.Common.{
  ℕ, zero, suc, ◌+◌, ◌≤◌, ◌<◌, String, ◌≡◌, refl, ap, ◌∙◌, inl, inr, Bool, false, not, ◌||◌, List,
  [], ◌∷◌, ◌++◌, arith, length, all-false, keep, mem, mem-keep, count, count-append, count_pos,
  Elem-of_count, count_zero, length_pos, kept_in, length-keys, Elem, Elem-head, Elem-tail, Dict,
  keys, Bool-cases, List-cases,
}
use mystery_starter_kit.Failure.{ok}
use mystery_starter_kit.Runtime.{RuntimeTask}
use mystery_starter_kit.Planner.{
  dependencies, is_ready, gate_of_task, with_gates, sort_by_gate, ids, erase_all, order_rounds,
  topological_task_ids,
}
use mystery_starter_kit.Planner.Rounds.{count_ready, count-erase_all, length-erase_all}
use mystery_starter_kit.Planner.Order.{waiting_ready, ready_of_round}

-- `rank` puts every dependency within the range below its task, so the range has no cycle.
abbrev pub IsRanked : (String → ℕ) → Dict RuntimeTask → Type 0
IsRanked rank tasks =
    (t d : String)
    → Elem t (keys tasks)
    → Elem d (dependencies tasks t)
    → Elem d (keys tasks)
    → rank d < rank t

-- Every task has a gate of the table.
abbrev pub HaveGates : Dict RuntimeTask → Type 0
HaveGates tasks = (t : String) → Elem t (keys tasks) → (gate : ℕ) × (gate_of_task tasks t ≡ ok gate)

with_gates_total :
    (tasks : Dict RuntimeTask) (task_ids : List String)
    → HaveGates tasks
    → ((t : String) → Elem t task_ids → Elem t (keys tasks))
    → (keyed : List (ℕ × String)) × (with_gates tasks task_ids ≡ ok keyed)
unfolding with_gates
with_gates_total tasks [] gated sub = ([], refl)
with_gates_total tasks (t ∷ ts) gated sub =
    let (gate, found) = gated t (sub t (Elem-head t ts)) in
    let (rest, read) = with_gates_total tasks ts gated (λ x m. sub x (Elem-tail x t ts m)) in
    ((gate, t) ∷ rest, ground arith)

keep-nil :
    (test : String → Bool) (x : String) (xs : List String)
    → keep test xs ≡ []
    → Elem x xs
    → test x ≡ false
keep-nil test x xs none_left m =
    let found : mem x (keep test xs) ≡ mem x [] = ap (mem x) none_left in
    unfold mem in ground (arith, mem-keep test x xs)

module _ (rank : String → ℕ) (tasks : Dict RuntimeTask) (ranked : IsRanked rank tasks)
    (gated : HaveGates tasks) where
  -- The pending and the ordered tasks are together those of the range.
  abbrev Split : List String → List String → Type 0
  Split pending ordered = (x : String) → count x pending + count x ordered ≡ count x (keys tasks)

  pending_key :
      (pending ordered : List String) (t : String)
      → Split pending ordered
      → Elem t pending
      → Elem t (keys tasks)
  pending_key pending ordered t split m =
      Elem-of_count t (keys tasks) (omega (arith, split t, count_pos t pending m))

  -- A pending task that is not ready waits for a pending task below it.
  waits_for :
      (pending ordered : List String) (t : String)
      → Split pending ordered
      → Elem t pending
      → is_ready tasks ordered t ≡ false
      → (d : String) × Elem d pending × (rank d < rank t)
  waits_for pending ordered t split m idle =
      let (d, dep, blocked) =
        all-false (λ x. not (mem x (keys tasks)) || mem x ordered) (dependencies tasks t) idle in
      let key : Elem d (keys tasks) = ground arith in
      let undone : mem d ordered ≡ false = ground arith in
      (d, pending_of d key undone, ranked t d (pending_key pending ordered t split m) dep key)
    where
      pending_of : (d : String) → Elem d (keys tasks) → mem d ordered ≡ false → Elem d pending
      pending_of d key undone = elim (Bool-cases (mem d pending)) [
        | inl there ↦ there
        | inr absent ↦ absurd (
            omega (
              arith,
              split d,
              count_pos d (keys tasks) key,
              count_zero d pending absent,
              count_zero d ordered undone,
            ))
      ]

  -- So with nothing ready, nothing is pending below any rank.
  descent :
      (pending ordered : List String)
      → Split pending ordered
      → waiting_ready tasks ordered pending ≡ []
      → (n : ℕ) (t : String) → Elem t pending
      → rank t < n
      → ⊥
  descent pending ordered split idle zero t m below = omega arith
  descent pending ordered split idle (suc n) t m below =
      let (d, there, less) =
        waits_for pending ordered t split m (keep-nil (is_ready tasks ordered) t pending idle m) in
      descent pending ordered split idle n d there (omega arith)

  order_rounds_total :
      (fuel : ℕ) (pending ordered : List String)
      → Split pending ordered
      → length pending ≤ fuel
      → (out : List String) × (order_rounds tasks fuel pending ordered ≡ ok out)
  unfolding order_rounds
  order_rounds_total zero [] ordered split enough = (ordered, refl)
  order_rounds_total (suc fuel) [] ordered split enough = (ordered, refl)
  order_rounds_total zero (t ∷ pending) ordered split enough = absurd (omega arith)
  order_rounds_total (suc fuel) (t ∷ pending) ordered split enough =
      let waiting = t ∷ pending in
      elim (List-cases (waiting_ready tasks ordered waiting)) [
        | inl idle ↦ absurd (
            descent waiting ordered split idle (suc (rank t)) t (Elem-head t pending) (omega arith))
        | inr (first, others, some_ready) ↦
            let (keyed, read) =
              with_gates_total tasks (waiting_ready tasks ordered waiting) gated (λ x m.
                pending_key waiting ordered x split
                  (kept_in (is_ready tasks ordered) x waiting m)) in
            let ready = ids (sort_by_gate keyed) in
            let (within, all_ready) = ready_of_round tasks ordered waiting keyed read in
            let taken : count first ready ≡ count first (first ∷ others) =
              count_ready tasks (waiting_ready tasks ordered waiting) keyed first read
              ∙ ap (count first) some_ready in
            let (out, e) =
              order_rounds_total fuel (erase_all ready waiting) (ordered ++ ready)
                (λ x. omega (
                  arith,
                  split x,
                  count-append x ordered ready,
                  count-erase_all x ready waiting within,
                ))
                (omega (
                  arith,
                  length-erase_all ready waiting within,
                  length_pos first ready (
                      omega
                        (arith, taken, count_pos first (first ∷ others) (Elem-head first others))),
                )) in
            (out, ground arith)
      ]

-- On tasks whose gates are all known, and whose dependencies within the range can be ranked, an order
-- is returned: no cycle is reported, no key is missing, and the rounds suffice.
pub topological_task_ids_total :
    (rank : String → ℕ) (tasks : Dict RuntimeTask)
    → IsRanked rank tasks
    → HaveGates tasks
    → (out : List String) × (topological_task_ids tasks ≡ ok out)
unfolding topological_task_ids count
topological_task_ids_total rank tasks ranked gated =
    order_rounds_total rank tasks ranked gated (length tasks) (keys tasks) [] (λ x. omega arith)
      (omega (arith, length-keys tasks))
