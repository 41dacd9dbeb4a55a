-- ===== src/Examples/Gates.antt =====
-- VALIDATORS/state_machine.py on the sample project.
use mystery_starter_kit.Common.{
  ◌≤◌, String, ◌≡◌, refl, ◌↔◌, ◌⊎◌, Bool, true, false, List, [], ◌∷◌, length, take, get, get_elem?,
  ℕ, Dict, Elem, some,
}
use mystery_starter_kit.Failure.{Failure, ok, err, state_transition_error}
use mystery_starter_kit.Project.{
  ProjectState, ProjectStatus, ArtifactCompletionStatus, ContractValidationStatus, EditorialStatus,
}
use mystery_starter_kit.StateMachine.Gates.{GateDefinition, gates}
use mystery_starter_kit.StateMachine.{
  gate_after, gate_index, expected_gate, advance_gate, gate_required_artifacts_for_project,
}
use mystery_starter_kit.StateMachine.Advance.{AllClean}
use mystery_starter_kit.StateMachine.Outcome.{
  IsSameProject, IsBlocked, IsAdvanced, advance_gate_iff,
}
use mystery_starter_kit.StateMachine.Order.{Call, run, gate_name, gate_ids, run-in-order}
use mystery_starter_kit.Examples.Samples.{project, documents, definition, to_fields}
use mystery_starter_kit.Json.{Fields, boolean, py_eq, object, field, end}
use mystery_starter_kit.Requirements.{requirement_matches}
use mystery_starter_kit.Dependency.Graph.{dependency_artifacts, artifact_required_for_project}
use mystery_starter_kit.StateMachine.Required.{IsWanted, gate_required_artifacts_for_project-Elem}

-- The project before its last gate.
abbrev nearly_done : ProjectState
nearly_done = record project { current_gate = "GATE-12" }

advance_gate_iff_example :
    let answer = advance_gate nearly_done "GATE-13" true "t1" ("facts" ∷ []) in
    (((next : ProjectState) × (answer ≡ ok next)) ↔ (
      (gate : GateDefinition) × (expected_gate nearly_done ≡ ok gate)
      × (gate.gate_id ≡ "GATE-13")
      × ((Bool.true ≡ false) ⊎ AllClean nearly_done ("facts" ∷ []))))
    × ((next : ProjectState)
        → answer ≡ ok next
        → (gate : GateDefinition) × (expected_gate nearly_done ≡ ok gate)
          × (gate.gate_id ≡ "GATE-13")
          × (next.updated_at ≡ "t1")
          × IsSameProject nearly_done next
          × ((Bool.true ≡ false) × IsBlocked nearly_done next
              ⊎ (Bool.true ≡ true) × IsAdvanced nearly_done gate next))
    × ((e : Failure) → answer ≡ err e → e ≡ state_transition_error)
advance_gate_iff_example = advance_gate_iff nearly_done "GATE-13" true "t1" ("facts" ∷ [])

done :
    (next : ProjectState) × (advance_gate nearly_done "GATE-13" true "t1" ("facts" ∷ []) ≡ ok next)
unfolding advance_gate gate_after gate_index get
done = (
  record nearly_done {
    state = ProjectStatus.editorial_review_required;
    current_gate = "GATE-13";
    updated_at = "t1";
    readiness = record (nearly_done.readiness) {
      artifact_status = ArtifactCompletionStatus.artifact_complete;
      contract_status = ContractValidationStatus.contract_validated;
      editorial_status = EditorialStatus.review_required;
    };
  },
  refl,
)

abbrev call_of : String → List String → Call
call_of gate_id required_artifacts = record {
  gate_id = gate_id;
  passed = true;
  updated_at = "t1";
  required_artifacts = required_artifacts;
}

-- The second call is out of order, and raises.
abbrev calls : List Call
calls = call_of "GATE-00" ("facts" ∷ []) ∷ call_of "GATE-03" [] ∷ call_of "GATE-01" [] ∷ []

run-in-order_example :
    let (last, log) = run project calls in
    (log ≡ take (length log) gate_ids)
    × (last.current_gate ≡ gate_name (length log))
    × (length log ≤ 14)
run-in-order_example = run-in-order project calls refl

run_two : (run project calls).1 ≡ "GATE-00" ∷ "GATE-01" ∷ []
unfolding run advance_gate gate_after gate_index get
run_two = refl

-- A project whose novelty report is never wanted.
abbrev gate_ten : Dict Fields
gate_ten =
    ("story_fingerprint", definition "fingerprint.json" [])
    ∷ (
      "novelty_report",
      field "required_when" (object (field "not" (object (field "always" (boolean true) end)) end))
          end,
    )
    ∷ []

abbrev gate_ten_graph : Fields
gate_ten_graph = field "artifacts" (object (to_fields gate_ten)) end

fingerprint_wanted :
    gate_required_artifacts_for_project "GATE-10" gate_ten_graph documents
    ≡ ok ("story_fingerprint" ∷ [])
unfolding gate_required_artifacts_for_project artifact_required_for_project requirement_matches
    dependency_artifacts get py_eq
fingerprint_wanted = refl

gate_required_artifacts_for_project-Elem_example :
    (index : ℕ) × (gate : GateDefinition) × (get_elem? gates index ≡ some gate)
    × (gate.gate_id ≡ "GATE-10")
    × ((definitions : Dict Fields) × (dependency_artifacts gate_ten_graph ≡ ok definitions)
        × ((name : String)
            → Elem name ("story_fingerprint" ∷ [])
              ↔ (Elem name gate.required_artifacts × IsWanted definitions documents name)))
gate_required_artifacts_for_project-Elem_example =
    gate_required_artifacts_for_project-Elem "GATE-10" gate_ten_graph documents fingerprint_wanted
