-- ===== src/Examples/Planning.antt =====
-- RUNTIME/planner.py on three tasks of two gates.
use mystery_starter_kit.Common.{
  ℕ, ◌<◌, String, ◌≡◌, refl, sym, subst, inl, inr, false, ◌==◌, none, List, [], ◌∷◌, arith, Dict,
  get, keys, count, mem, Elem, Elem-cons, not-Elem-nil, if◌then◌else◌,
}
use mystery_starter_kit.Failure.{ok}
use mystery_starter_kit.Json.{text}
use mystery_starter_kit.StateMachine.{gate_after, gate_index}
use mystery_starter_kit.Runtime.{RuntimeTask, ExecutorKind}
use mystery_starter_kit.Planner.{dependencies, gate_of_task, next_gate_id, topological_task_ids}
use mystery_starter_kit.Planner.Gates.{Agree, next_gate_id-agrees}
use mystery_starter_kit.Planner.Order.{IsOrdered, topological_task_ids_correct}
use mystery_starter_kit.Planner.Total.{IsRanked, HaveGates, topological_task_ids_total}

abbrev task : String → List String → RuntimeTask
task target_gate depends_on_tasks = record {
  agent_id = "writer";
  executor = ExecutorKind.llm;
  target_gate = target_gate;
  reads = [];
  optional_reads = [];
  writes = [];
  depends_on_tasks = depends_on_tasks;
  condition = text "ALWAYS";
  model_profile = none;
  output_contract = "json";
  commit_policy = "GATE";
  retry_policy = "default";
  budget_profile = "default";
  standard_resources = [];
  allowed_tools = [];
  required_data_classes = [];
  approval_required = false;
}

abbrev tasks : Dict RuntimeTask
tasks =
    ("review", task "GATE-03" ("write" ∷ []))
    ∷ ("write", task "GATE-03" ("plan" ∷ "brief" ∷ []))
    ∷ ("plan", task "GATE-02" [])
    ∷ []

abbrev in_order : List String
in_order = "plan" ∷ "write" ∷ "review" ∷ []

tasks_ordered : topological_task_ids tasks ≡ ok in_order
unfolding topological_task_ids get mem gate_index
tasks_ordered = refl

next_gate_id-agrees_example : Agree (gate_after "GATE-09") (next_gate_id "GATE-09")
next_gate_id-agrees_example = next_gate_id-agrees "GATE-09"

topological_task_ids_correct_example :
    ((x : String) → count x in_order ≡ count x (keys tasks)) × IsOrdered tasks [] in_order
topological_task_ids_correct_example = topological_task_ids_correct tasks in_order tasks_ordered

-- The position of each task in the chain of its dependencies.
abbrev rank : String → ℕ
rank name =
    if name == "plan" then 0 else if name == "write" then 1 else if name == "review" then 2 else 3

each_key :
    (P : String → Type 0)
    → P "review"
    → P "write"
    → P "plan"
    → (t : String) → Elem t (keys tasks)
    → P t
each_key P a b c t m = elim (Elem-cons t "review" ("write" ∷ "plan" ∷ []) m) [
  | inl e ↦ subst P (sym e) a
  | inr m1 ↦ elim (Elem-cons t "write" ("plan" ∷ []) m1) [
    | inl e ↦ subst P (sym e) b
    | inr m2 ↦ elim (Elem-cons t "plan" [] m2) [
      | inl e ↦ subst P (sym e) c
      | inr m3 ↦ absurd (not-Elem-nil t m3)
    ]
  ]
]

tasks_gated : HaveGates tasks
unfolding gate_of_task get gate_index
tasks_gated =
    each_key (λ t. (gate : ℕ) × (gate_of_task tasks t ≡ ok gate)) (3, refl) (3, refl) (2, refl)

tasks-IsRanked : IsRanked rank tasks
unfolding get mem
tasks-IsRanked t d m =
    each_key (λ t. Elem d (dependencies tasks t) → Elem d (keys tasks) → rank d < rank t)
      (λ dep key. elim (Elem-cons d "write" [] dep) [
        | inl e ↦ subst (λ x. rank x < 2) (sym e) (omega arith)
        | inr none_left ↦ absurd (not-Elem-nil d none_left)
      ])
      (λ dep. elim (Elem-cons d "plan" ("brief" ∷ []) dep) [
        | inl e ↦ λ key. subst (λ x. rank x < 1) (sym e) (omega arith)
        | inr more ↦ elim (Elem-cons d "brief" [] more) [
          | inl e ↦ λ key. absurd (not_brief (subst (λ x. Elem x (keys tasks)) e key))
          | inr none_left ↦ λ key. absurd (not-Elem-nil d none_left)
        ]
      ])
      (λ dep key. absurd (not-Elem-nil d dep)) t m
  where
    not_brief : ¬ Elem "brief" (keys tasks)
    not_brief h = cc

topological_task_ids_total_example : (out : List String) × (topological_task_ids tasks ≡ ok out)
topological_task_ids_total_example =
    topological_task_ids_total rank tasks tasks-IsRanked tasks_gated
