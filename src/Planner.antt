-- ===== src/Planner.antt =====
-- RUNTIME/planner.py: which tasks a run executes, in which order. `Gates` and `Order` hold what is
-- proved of it.
pub mod Gates
pub mod Rounds
pub mod Order
pub mod Total
use Prim.Native.Nat.{◌/◌, ◌%◌}
use Prim.Native.String.{◌++◌ as append}
use mystery_starter_kit.Common.{
  ℕ, zero, suc, ◌+◌, String, Bool, true, false, not, ◌&&◌, ◌||◌, ◌==◌, eqb, ltb, leb, Option, none,
  some, List, [], ◌∷◌, ◌++◌, length, all, keep, mem, Dict, get, keys, if◌then◌else◌,
}
use mystery_starter_kit.Failure.{
  Failure, Result, ok, err, configuration_error, key_error, out_of_fuel, runtime_error,
  runtime_configuration_error, or_raise, ◌>>=◌,
}
use mystery_starter_kit.Json.{Value, Fields, lookup, as_text}
use mystery_starter_kit.Requirements.{Documents, requirement_matches}
use mystery_starter_kit.StateMachine.{gate_index}
use mystery_starter_kit.Runtime.{RuntimeTask, PlannedTask, PlanStatus, ExecutionPlan}

abbrev pub run_error : Failure
run_error = runtime_error runtime_configuration_error false "RUN" none none

abbrev digit : ℕ → String
digit n =
    if eqb n 0
    then "0"
    else if eqb n 1
    then "1"
    else if eqb n 2
    then "2"
    else if eqb n 3
    then "3"
    else if eqb n 4
    then "4"
    else if eqb n 5
    then "5"
    else if eqb n 6
    then "6"
    else if eqb n 7
    then "7"
    else if eqb n 8
    then "8"
    else "9"

-- f"GATE-{index:02d}", for an index of two digits at most.
abbrev pub gate_of_index : ℕ → String
gate_of_index index = append "GATE-" (append (digit (index / 10)) (digit (index % 10)))

unfoldable pub next_gate_id : String → Result String
next_gate_id current_gate = if current_gate == "NONE" then ok "GATE-00" else do
  current ← gate_index current_gate
  last ← gate_index "GATE-13"
  if ltb last (suc current) then err run_error else ok (gate_of_index (suc current))

-- A `ConfigurationError` becomes a runtime error; any other passes.
unfoldable pub task_condition_matches : Value → Documents → Result Bool
task_condition_matches condition documents = elim (requirement_matches documents condition) [
  | ok b ↦ ok b
  | err e ↦ elim e [ configuration_error tag ↦ err run_error | other ↦ err other ]
]

-- The comprehension over `tasks.items()`.
unfoldable pub tasks_between : ℕ → ℕ → Dict RuntimeTask → Result (Dict RuntimeTask)
tasks_between start end [] = ok []
tasks_between start end ((task_id, task) ∷ tasks) = do
  index ← gate_index task.target_gate
  rest ← tasks_between start end tasks
  ok (if leb start index && leb index end then (task_id, task) ∷ rest else rest)

unfoldable pub tasks_in_gate_range : Dict RuntimeTask → String → String → Result (Dict RuntimeTask)
unfolding tasks_between
tasks_in_gate_range tasks from_gate to_gate = do
  start ← gate_index from_gate
  end ← gate_index to_gate
  tasks_between start end tasks

-- `tasks[task_id]["depends_on_tasks"]`; a missing key is refused before this is read.
abbrev pub dependencies : Dict RuntimeTask → String → List String
dependencies tasks task_id = elim (get task_id tasks) [
  | none ↦ []
  | some task ↦ task.depends_on_tasks
]

abbrev pub is_ready : Dict RuntimeTask → List String → String → Bool
is_ready tasks completed task_id =
    all (λ dependency. not (mem dependency (keys tasks)) || mem dependency completed)
      (dependencies tasks task_id)

-- `gate_index(tasks[task_id]["target_gate"])`
unfoldable pub gate_of_task : Dict RuntimeTask → String → Result ℕ
gate_of_task tasks task_id = do
  task ← or_raise key_error (get task_id tasks)
  gate_index task.target_gate

-- The sort keys of the ready tasks. `pending.index(task_id)` grows along the list, so the second part
-- of the key asks for a stable sort by the first.
unfoldable pub with_gates : Dict RuntimeTask → List String → Result (List (ℕ × String))
unfolding gate_of_task
with_gates tasks [] = ok []
with_gates tasks (task_id ∷ task_ids) = do
  gate ← gate_of_task tasks task_id
  rest ← with_gates tasks task_ids
  ok ((gate, task_id) ∷ rest)

unfoldable pub insert_by_gate : ℕ × String → List (ℕ × String) → List (ℕ × String)
insert_by_gate x [] = x ∷ []
insert_by_gate (gate, task_id) ((gate', task_id') ∷ rest) =
    let later = insert_by_gate (gate, task_id) rest in
    if leb gate gate' then (gate, task_id) ∷ (gate', task_id') ∷ rest else (gate', task_id') ∷ later

unfoldable pub sort_by_gate : List (ℕ × String) → List (ℕ × String)
unfolding insert_by_gate
sort_by_gate [] = []
sort_by_gate (x ∷ xs) = insert_by_gate x (sort_by_gate xs)

abbrev pub ids : List (ℕ × String) → List String
ids [] = []
ids ((gate, task_id) ∷ rest) = task_id ∷ ids rest

-- `pending.remove(task_id)`: the first occurrence.
unfoldable pub erase_first : String → List String → List String
erase_first task_id [] = []
erase_first task_id (other ∷ rest) =
    let later = erase_first task_id rest in if other == task_id then rest else other ∷ later

unfoldable pub erase_all : List String → List String → List String
unfolding erase_first
erase_all [] pending = pending
erase_all (task_id ∷ task_ids) pending = erase_all task_ids (erase_first task_id pending)

-- The `while pending` loop. `completed` is the set of `ordered`.
unfoldable pub order_rounds :
    Dict RuntimeTask → ℕ → List String → List String → Result (List String)
unfolding with_gates sort_by_gate erase_all
order_rounds tasks fuel [] ordered = ok ordered
order_rounds tasks zero (task_id ∷ pending) ordered = err out_of_fuel
order_rounds tasks (suc fuel) (task_id ∷ pending) ordered =
    let waiting = task_id ∷ pending in
    elim (keep (is_ready tasks ordered) waiting) [
      | [] ↦ err run_error
      | first ∷ others ↦ do
        keyed ← with_gates tasks (first ∷ others)
        let ready = ids (sort_by_gate keyed)
        order_rounds tasks fuel (erase_all ready waiting) (ordered ++ ready)
    ]

unfoldable pub topological_task_ids : Dict RuntimeTask → Result (List String)
unfolding order_rounds
topological_task_ids tasks = order_rounds tasks (length tasks) (keys tasks) []

-- One entry of the plan.
unfoldable pub plan_task : Dict RuntimeTask → Documents → String → Result PlannedTask
unfolding task_condition_matches
plan_task tasks documents task_id = do
  task ← or_raise key_error (get task_id tasks)
  runs ← task_condition_matches task.condition documents
  ok (record {
    task_id = task_id;
    target_gate = task.target_gate;
    executor = task.executor;
    status = if runs then PlanStatus.planned else PlanStatus.skipped;
  })

unfoldable pub plan_tasks : Dict RuntimeTask → Documents → List String → Result (List PlannedTask)
unfolding plan_task
plan_tasks tasks documents [] = ok []
plan_tasks tasks documents (task_id ∷ task_ids) = do
  planned ← plan_task tasks documents task_id
  rest ← plan_tasks tasks documents task_ids
  ok (planned ∷ rest)

-- `state` is project_state.json; the catalog, the channel and the artifacts, which other components
-- load behind the guards, are given as what loading them returned.
unfoldable pub build_execution_plan :
    Fields → Result (Dict RuntimeTask) → Result Documents → String → String → Result ExecutionPlan
unfolding next_gate_id plan_tasks
build_execution_plan state load_catalog load_documents from_gate to_gate = do
  project_id ←
      or_raise run_error (elim (lookup "project_id" state) [ none ↦ none | some v ↦ as_text v ])
  current_gate ←
      or_raise run_error (elim (lookup "current_gate" state) [ none ↦ none | some v ↦ as_text v ])
  expected_from ← next_gate_id current_gate
  if not (from_gate == expected_from) then err run_error else do
    end ← gate_index to_gate
    start ← gate_index from_gate
    if ltb end start then err run_error else do
      catalog ← load_catalog
      documents ← load_documents
      ranged ← tasks_in_gate_range catalog from_gate to_gate
      ordered ← topological_task_ids ranged
      planned ← plan_tasks ranged documents ordered
      ok (record {
        project_id = project_id;
        current_gate = current_gate;
        from_gate = from_gate;
        to_gate = to_gate;
        tasks = planned;
      })
