-- ===== src/StateMachine/Advance.antt =====
-- Exactly when `advance_gate` moves a project, and where to.
use mystery_starter_kit.Common.{
  String, ◌≡◌, refl, ap, sym, false≢true, ◌↔◌, ◌⊎◌, inl, inr, Bool, true, false, not, ◌==◌, eq_iff,
  List, [], ◌∷◌, arith, mem, mem-keep, Elem, Elem-head, Elem-tail, Bool-cases, List-cases,
}
use mystery_starter_kit.Failure.{ok, >>=-eq-ok}
use mystery_starter_kit.Project.{ProjectState, ProjectStatus}
use mystery_starter_kit.StateMachine.Gates.{GateDefinition}
use mystery_starter_kit.StateMachine.{
  gate_after, expected_gate, clean_in, missing_clean_artifacts, enter, advance_gate,
}

-- Every required artifact of the list is CLEAN.
abbrev pub AllClean : ProjectState → List String → Type 0
AllClean state required = (x : String) → Elem x required → clean_in state.artifacts x ≡ true

missing-nil-AllClean :
    (state : ProjectState) (required : List String)
    → missing_clean_artifacts state required ≡ []
    → AllClean state required
unfolding missing_clean_artifacts
missing-nil-AllClean state required none_missing x m =
    let found : mem x (missing_clean_artifacts state required) ≡ mem x [] =
      ap (mem x) none_missing in
    unfold mem in ground (arith, mem-keep (λ name. not (clean_in state.artifacts name)) x required)

AllClean-missing-nil :
    (state : ProjectState) (required : List String)
    → AllClean state required
    → missing_clean_artifacts state required ≡ []
unfolding missing_clean_artifacts
AllClean-missing-nil state [] all_clean = refl
AllClean-missing-nil state (x ∷ required) all_clean = ground (
  arith,
  all_clean x (Elem-head x required),
  AllClean-missing-nil state required (λ y m. all_clean y (Elem-tail y x required m)),
)

-- The blocked state that a failed gate leaves.
abbrev pub block : ProjectState → String → ProjectState
block state updated_at = record state { updated_at = updated_at; state = ProjectStatus.blocked }

-- What a call that returned says of its arguments, for a failed gate and for a passed one.
pub advance_cases :
    (state next : ProjectState) (gate_id : String) (passed : Bool) (updated_at : String)
    (required : List String)
    → advance_gate state gate_id passed updated_at required ≡ ok next
    → (gate : GateDefinition) × (gate_after state.current_gate ≡ ok gate)
      × (gate.gate_id ≡ gate_id)
      × ((passed ≡ false) × (next ≡ block state updated_at)
          ⊎ (passed ≡ true)
            × AllClean state required
            × (next ≡ enter gate gate_id updated_at state))
unfolding advance_gate
advance_cases state next gate_id passed updated_at required e =
    let (gate, expected, rest) = >>=-eq-ok (gate_after state.current_gate) _ e in
    elim (Bool-cases (gate.gate_id == gate_id)) [
      | inr out_of_order ↦ absurd (ground arith)
      | inl in_order ↦ (
        gate,
        expected,
        (eq_iff gate.gate_id gate_id).0 in_order,
        elim (Bool-cases passed) [
          | inr failed ↦ inl (failed, ground arith)
          | inl well ↦ elim (List-cases (missing_clean_artifacts state required)) [
            | inl none_missing ↦
                inr (well, missing-nil-AllClean state required none_missing, ground arith)
            | inr (x, xs, some_missing) ↦ absurd (ground arith)
          ]
        ],
      )
    ]

-- A passed gate, and the state that it leaves.
pub advance_passed :
    (state next : ProjectState) (gate_id updated_at : String) (required : List String)
    → (advance_gate state gate_id true updated_at required ≡ ok next) ↔ (
        (gate : GateDefinition) × (expected_gate state ≡ ok gate)
        × (gate.gate_id ≡ gate_id)
        × AllClean state required
        × (next ≡ enter gate gate_id updated_at state))
unfolding expected_gate
advance_passed state next gate_id updated_at required = (
  λ e. forth (advance_cases state next gate_id true updated_at required e),
  λ (gate, expected, in_order, all_clean, moved). back gate expected in_order all_clean moved,
)
  where
    forth :
        (gate : GateDefinition) × (gate_after state.current_gate ≡ ok gate)
          × (gate.gate_id ≡ gate_id)
          × ((Bool.true ≡ false) × (next ≡ block state updated_at)
              ⊎ (Bool.true ≡ true)
                × AllClean state required
                × (next ≡ enter gate gate_id updated_at state))
        → (gate : GateDefinition) × (gate_after state.current_gate ≡ ok gate)
          × (gate.gate_id ≡ gate_id)
          × AllClean state required
          × (next ≡ enter gate gate_id updated_at state)
    forth (gate, expected, in_order, inl (no_pass, _)) = absurd (false≢true (sym no_pass))
    forth (gate, expected, in_order, inr (_, all_clean, moved)) =
        (gate, expected, in_order, all_clean, moved)

    back :
        (gate : GateDefinition)
        → gate_after state.current_gate ≡ ok gate
        → gate.gate_id ≡ gate_id
        → AllClean state required
        → next ≡ enter gate gate_id updated_at state
        → advance_gate state gate_id true updated_at required ≡ ok next
    back gate expected in_order all_clean moved =
        unfold advance_gate in
        rw
          (
            expected,
            (eq_iff gate.gate_id gate_id).1 in_order,
            AllClean-missing-nil state required all_clean,
          )
          (ap ok (sym moved))
