-- ===== src/StateMachine/Outcome.antt =====
-- What `advance_gate` answers, on every branch: when it returns, each field of the state returned, and what it
-- raises.
use mystery_starter_kit.Common.{
  String, ◌≡◌, ◌≢◌, refl, ap, sym, subst, ◌∙◌, if◌then◌else◌, false≢true, ◌↔◌, ◌⊎◌, inl, inr, Bool,
  true, false, ◌==◌, eq_iff, List, [], ◌∷◌, arith, Bool-cases, Option-cases, ℕ, suc, get_elem?,
}
use mystery_starter_kit.Failure.{Failure, ok, err, or_raise, state_transition_error, Result-cases}
use mystery_starter_kit.Project.{
  ProjectState, ProjectReadiness, ProjectStatus, artifact_complete, contract_validated,
  review_required,
}
use mystery_starter_kit.StateMachine.Gates.{GateDefinition, gates}
use mystery_starter_kit.StateMachine.{
  index_from, gate_index, gate_after, expected_gate, enter, advance_gate,
}
use mystery_starter_kit.StateMachine.Advance.{AllClean, block, advance_cases, advance_passed}

-- A step touches neither the artifacts nor what a project is called.
abbrev pub IsSameProject : ProjectState → ProjectState → Type 0
IsSameProject state next =
    (next.artifacts ≡ state.artifacts)
    × (next.project_id ≡ state.project_id)
    × (next.schema_family ≡ state.schema_family)
    × (next.schema_version ≡ state.schema_version)
    × (next.revision_trigger ≡ state.revision_trigger)

-- At the last gate artifacts, contract and editorial status are settled; the process keeps its own.
abbrev pub IsSettled : ProjectReadiness → ProjectReadiness → Type 0
IsSettled before now =
    (now.artifact_status ≡ artifact_complete)
    × (now.contract_status ≡ contract_validated)
    × (now.editorial_status ≡ review_required)
    × (now.process_status ≡ before.process_status)
    × (now.process_start_gate ≡ before.process_start_gate)
    × (now.process_revision ≡ before.process_revision)

abbrev pub IsAdvanced : ProjectState → GateDefinition → ProjectState → Type 0
IsAdvanced state gate next =
    (next.current_gate ≡ gate.gate_id)
    × (next.state ≡ gate.target_state)
    × (((gate.gate_id ≡ "GATE-13") × IsSettled state.readiness next.readiness)
        ⊎ ((gate.gate_id ≢ "GATE-13") × (next.readiness ≡ state.readiness)))

abbrev pub IsBlocked : ProjectState → ProjectState → Type 0
IsBlocked state next =
    (next.current_gate ≡ state.current_gate)
    × (next.state ≡ ProjectStatus.blocked)
    × (next.readiness ≡ state.readiness)

enter-IsAdvanced :
    (state : ProjectState) (gate : GateDefinition) (updated_at : String)
    → ((enter gate gate.gate_id updated_at state).updated_at ≡ updated_at)
      × IsSameProject state (enter gate gate.gate_id updated_at state)
      × IsAdvanced state gate (enter gate gate.gate_id updated_at state)
enter-IsAdvanced state gate updated_at = go (gate.gate_id == "GATE-13") refl
  where
    entered : Bool → ProjectState
    entered last =
        let moved : ProjectState = record state {
          updated_at = updated_at;
          current_gate = gate.gate_id;
          state = gate.target_state;
        } in
        if last
        then record moved {
          readiness = record (moved.readiness) {
            artifact_status = artifact_complete;
            contract_status = contract_validated;
            editorial_status = review_required;
          };
        }
        else moved

    go :
        (last : Bool)
        → (gate.gate_id == "GATE-13") ≡ last
        → ((entered last).updated_at ≡ updated_at)
          × IsSameProject state (entered last)
          × IsAdvanced state gate (entered last)
    go true e = (
      refl,
      (refl, refl, refl, refl, refl),
      (refl, refl, inl ((eq_iff gate.gate_id "GATE-13").0 e, (refl, refl, refl, refl, refl, refl))),
    )
    go false e = (
      refl,
      (refl, refl, refl, refl, refl),
      (refl, refl, inr (λ same. false≢true (sym e ∙ (eq_iff gate.gate_id "GATE-13").1 same), refl)),
    )

index_from-err :
    (index : ℕ) (definitions : List GateDefinition) (gate_id : String) (e : Failure)
    → index_from index definitions gate_id ≡ err e
    → e ≡ state_transition_error
unfolding index_from
index_from-err index [] gate_id e raised = ground (arith, raised)
index_from-err index (definition ∷ rest) gate_id e raised =
    let later = index_from-err (suc index) rest gate_id e in
    elim (Bool-cases (definition.gate_id == gate_id)) [
      | inl here ↦ absurd (ground (arith, here, raised))
      | inr elsewhere ↦ later (ground (arith, elsewhere, raised))
    ]

gate_at-err :
    (index : ℕ) (e : Failure)
    → or_raise state_transition_error (get_elem? gates index) ≡ err e
    → e ≡ state_transition_error
gate_at-err index e raised = elim (Option-cases (get_elem? gates index)) [
  | inl absent ↦ ground (arith, absent, raised)
  | inr (gate, found) ↦ absurd (ground (arith, found, raised))
]

gate_after-err :
    (current_gate : String) (e : Failure)
    → gate_after current_gate ≡ err e
    → e ≡ state_transition_error
unfolding gate_after gate_index
gate_after-err current_gate e raised = elim (Bool-cases (current_gate == "NONE")) [
  | inl first ↦ gate_at-err 0 e (ground (arith, first, raised))
  | inr later ↦ elim (Result-cases (index_from 0 gates current_gate)) [
    | inr (unknown, missed) ↦
        index_from-err 0 gates current_gate e (ground (arith, later, missed, raised))
    | inl (index, found) ↦ gate_at-err (suc index) e (ground (arith, later, found, raised))
  ]
]

advance_gate-err :
    (state : ProjectState) (gate_id : String) (passed : Bool) (updated_at : String)
    (required : List String) (e : Failure)
    → advance_gate state gate_id passed updated_at required ≡ err e
    → e ≡ state_transition_error
unfolding advance_gate
advance_gate-err state gate_id passed updated_at required e raised =
    elim (Result-cases (gate_after state.current_gate)) [
      | inr (first, unknown) ↦
          gate_after-err state.current_gate e (unknown ∙ ground (arith, unknown, raised))
      | inl (gate, expected) ↦ ground (arith, expected, raised)
    ]

-- advance_gate returns exactly when the gate is the one that follows the current gate and the call is for a
-- failed gate or all of its required artifacts are CLEAN; else it raises StateTransitionError. The state
-- returned carries the time of the call, and the artifacts and the identity of the project as they were. After
-- a passed gate it stands at that gate, in the gate's target state; at GATE-13 the artifact, contract and
-- editorial status are settled and the rest of the readiness is as before, at any other gate all of it. After a
-- failed gate it is BLOCKED, at the current gate and with its readiness as before.
pub advance_gate_iff :
    (state : ProjectState) (gate_id : String) (passed : Bool) (updated_at : String)
    (required : List String)
    → let answer = advance_gate state gate_id passed updated_at required in
      (((next : ProjectState) × (answer ≡ ok next)) ↔ (
        (gate : GateDefinition) × (expected_gate state ≡ ok gate)
        × (gate.gate_id ≡ gate_id)
        × ((passed ≡ false) ⊎ AllClean state required)))
      × ((next : ProjectState)
          → answer ≡ ok next
          → (gate : GateDefinition) × (expected_gate state ≡ ok gate)
            × (gate.gate_id ≡ gate_id)
            × (next.updated_at ≡ updated_at)
            × IsSameProject state next
            × ((passed ≡ false) × IsBlocked state next
                ⊎ (passed ≡ true) × IsAdvanced state gate next))
      × ((e : Failure) → answer ≡ err e → e ≡ state_transition_error)
unfolding expected_gate
advance_gate_iff state gate_id passed updated_at required = (
  (
    λ (next, e). forth (advance_cases state next gate_id passed updated_at required e),
    λ (gate, expected, in_order, fit). back gate expected in_order passed fit,
  ),
  λ next e. moved next (advance_cases state next gate_id passed updated_at required e),
  λ e raised. advance_gate-err state gate_id passed updated_at required e raised,
)
  where
    forth :
        {next : ProjectState}
        → (gate : GateDefinition) × (gate_after state.current_gate ≡ ok gate)
          × (gate.gate_id ≡ gate_id)
          × ((passed ≡ false) × (next ≡ block state updated_at)
              ⊎ (passed ≡ true)
                × AllClean state required
                × (next ≡ enter gate gate_id updated_at state))
        → (gate : GateDefinition) × (gate_after state.current_gate ≡ ok gate)
          × (gate.gate_id ≡ gate_id)
          × ((passed ≡ false) ⊎ AllClean state required)
    forth (gate, expected, in_order, inl (failed, _)) = (gate, expected, in_order, inl failed)
    forth (gate, expected, in_order, inr (_, all_clean, _)) =
        (gate, expected, in_order, inr all_clean)

    back :
        (gate : GateDefinition)
        → gate_after state.current_gate ≡ ok gate
        → gate.gate_id ≡ gate_id
        → (passed : Bool) → (passed ≡ false) ⊎ AllClean state required
        → (next : ProjectState) × (advance_gate state gate_id passed updated_at required ≡ ok next)
    back gate expected in_order false fit = (
      block state updated_at,
      unfold advance_gate in rw (expected, (eq_iff gate.gate_id gate_id).1 in_order) refl,
    )
    back gate expected in_order true (inl failed) = absurd (false≢true (sym failed))
    back gate expected in_order true (inr all_clean) = (
      enter gate gate_id updated_at state,
      (advance_passed state (enter gate gate_id updated_at state) gate_id updated_at required).1
          (gate, expected, in_order, all_clean, refl),
    )

    moved :
        (next : ProjectState)
        → (gate : GateDefinition) × (gate_after state.current_gate ≡ ok gate)
          × (gate.gate_id ≡ gate_id)
          × ((passed ≡ false) × (next ≡ block state updated_at)
              ⊎ (passed ≡ true)
                × AllClean state required
                × (next ≡ enter gate gate_id updated_at state))
        → (gate : GateDefinition) × (gate_after state.current_gate ≡ ok gate)
          × (gate.gate_id ≡ gate_id)
          × (next.updated_at ≡ updated_at)
          × IsSameProject state next
          × ((passed ≡ false) × IsBlocked state next ⊎ (passed ≡ true) × IsAdvanced state gate next)
    moved next (gate, expected, in_order, inl (failed, e)) =
        subst
          (λ n.
            (g : GateDefinition) × (gate_after state.current_gate ≡ ok g)
            × (g.gate_id ≡ gate_id)
            × (n.updated_at ≡ updated_at)
            × IsSameProject state n
            × ((passed ≡ false) × IsBlocked state n ⊎ (passed ≡ true) × IsAdvanced state g n))
          (sym e)
          (
            gate,
            expected,
            in_order,
            refl,
            (refl, refl, refl, refl, refl),
            inl (failed, (refl, refl, refl)),
          )
    moved next (gate, expected, in_order, inr (well, _, e)) =
        let (time, same, advanced) = enter-IsAdvanced state gate updated_at in
        subst
          (λ n.
            (g : GateDefinition) × (gate_after state.current_gate ≡ ok g)
            × (g.gate_id ≡ gate_id)
            × (n.updated_at ≡ updated_at)
            × IsSameProject state n
            × ((passed ≡ false) × IsBlocked state n ⊎ (passed ≡ true) × IsAdvanced state g n))
          (ap (λ id. enter gate id updated_at state) in_order ∙ sym e)
          (gate, expected, in_order, time, same, inr (well, advanced))
