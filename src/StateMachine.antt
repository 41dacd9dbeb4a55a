-- ===== src/StateMachine.antt =====
-- VALIDATORS/state_machine.py: the gates of a project, in order, and the step from one to the next.
-- `Order`, `Advance`, `Outcome` and `Required` hold what is proved of it.
pub mod Gates
pub mod Order
pub mod Advance
pub mod Outcome
pub mod Required
use mystery_starter_kit.Common.{
  ℕ, suc, String, Bool, true, false, not, ◌==◌, Option, none, some, List, [], ◌∷◌, leb, length,
  get_elem?, keep, Dict, get, if◌then◌else◌,
}
use mystery_starter_kit.Failure.{
  Result, ok, err, key_error, state_transition_error, or_raise, ◌>>=◌,
}
use mystery_starter_kit.Json.{Fields}
use mystery_starter_kit.Requirements.{Documents}
use mystery_starter_kit.Project.{
  ArtifactState, ProjectState, ProjectStatus, ArtifactCompletionStatus, ContractValidationStatus,
  EditorialStatus, is_clean,
}
use mystery_starter_kit.Dependency.Graph.{dependency_artifacts, artifact_required_for_project}
use Gates.{GateDefinition, gates}

-- The loop over `enumerate(GATES)`.
unfoldable pub index_from : ℕ → List GateDefinition → String → Result ℕ
index_from index [] gate_id = err state_transition_error
index_from index (definition ∷ rest) gate_id =
    let later = index_from (suc index) rest gate_id in
    if definition.gate_id == gate_id then ok index else later

unfoldable pub gate_index : String → Result ℕ
unfolding index_from
gate_index = index_from 0 gates

-- `expected_gate`, from the state's `current_gate`.
unfoldable pub gate_after : String → Result GateDefinition
gate_after current_gate =
    if current_gate == "NONE" then or_raise state_transition_error (get_elem? gates 0) else do
      index ← gate_index current_gate
      or_raise state_transition_error (get_elem? gates (suc index))

unfoldable pub expected_gate : ProjectState → Result GateDefinition
expected_gate state = gate_after state.current_gate

abbrev pub clean_in : Dict ArtifactState → String → Bool
clean_in artifacts name = elim (get name artifacts) [
  | none ↦ false
  | some artifact ↦ is_clean artifact.status
]

unfoldable pub missing_clean_artifacts : ProjectState → List String → List String
missing_clean_artifacts state = keep (λ name. not (clean_in state.artifacts name))

-- The generator over the artifacts of a gate.
unfoldable pub required_of : Dict Fields → Documents → List String → Result (List String)
required_of definitions documents [] = ok []
required_of definitions documents (name ∷ names) = do
  definition ← or_raise key_error (get name definitions)
  needed ← artifact_required_for_project definition documents
  rest ← required_of definitions documents names
  ok (if needed then name ∷ rest else rest)

unfoldable pub gate_required_artifacts_for_project :
    String → Fields → Documents → Result (List String)
unfolding required_of gate_index
gate_required_artifacts_for_project gate_id graph documents = do
  index ← gate_index gate_id
  gate ← or_raise state_transition_error (get_elem? gates index)
  definitions ← dependency_artifacts graph
  required_of definitions documents gate.required_artifacts

-- The last gate settles the readiness of the project.
abbrev pub settle : String → ProjectState → ProjectState
settle gate_id state =
    if gate_id == "GATE-13"
    then record state {
      readiness = record (state.readiness) {
        artifact_status = ArtifactCompletionStatus.artifact_complete;
        contract_status = ContractValidationStatus.contract_validated;
        editorial_status = EditorialStatus.review_required;
      };
    }
    else state

abbrev pub enter : GateDefinition → String → String → ProjectState → ProjectState
enter gate gate_id updated_at state =
    settle gate_id
      (record state { updated_at = updated_at; current_gate = gate_id; state = gate.target_state })

unfoldable pub advance_gate :
    ProjectState → String → Bool → String → List String → Result ProjectState
unfolding expected_gate missing_clean_artifacts
advance_gate state gate_id passed updated_at required_artifacts = do
  gate ← expected_gate state
  if not (gate.gate_id == gate_id)
      then err state_transition_error
      else if not passed
      then ok (record state { updated_at = updated_at; state = ProjectStatus.blocked })
      else elim (missing_clean_artifacts state required_artifacts) [
        | [] ↦ ok (enter gate gate_id updated_at state)
        | _ ∷ _ ↦ err state_transition_error
      ]
