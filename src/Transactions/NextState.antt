-- ===== src/Transactions/NextState.antt =====
-- What the state behind a gate says of the artifacts that were validated for it.
use mystery_starter_kit.Common.{
  IsDistinct, String, ◌≡◌, refl, ap, sym, subst, ◌∙◌, inl, inr, true, false, ◌||◌, ◌==◌, eq_iff,
  Option, none, some, List, [], ◌∷◌, arith, Dict, get, put, get-put, keys, mem, mem-keys,
  Bool-cases,
}
use mystery_starter_kit.Failure.{Result, ok, configuration_error, or_raise, >>=-eq-ok}
use mystery_starter_kit.Json.{Value, Fields}
use mystery_starter_kit.Project.{ProjectState, ArtifactState}
use mystery_starter_kit.Dependency.Changes.{clean_artifact_state, mark_artifact_clean}
use mystery_starter_kit.StateMachine.Gates.{GateDefinition}
use mystery_starter_kit.StateMachine.{clean_in, enter, advance_gate}
use mystery_starter_kit.StateMachine.Advance.{AllClean, advance_passed}
use mystery_starter_kit.Transactions.Next.{
  Encoding, merge, output_hashes, invalidate_changed, mark_all_clean, next_project_state,
}

get_absent : {V : Type 0} (k : String) (d : Dict V) → mem k (keys d) ≡ false → get k d ≡ none
get_absent k d h = ground (arith, mem-keys k d)

-- What a dictionary of hashes makes of an artifact.
abbrev pub marked_in : Dict String → String → Option ArtifactState → Option ArtifactState
marked_in hashes name before = elim (get name hashes) [
  | none ↦ before
  | some hash ↦ some (clean_artifact_state hash)
]

marked_in-cons :
    (k name hash : String) (rest : Dict String) (artifacts : Dict ArtifactState)
    → mem k (keys rest) ≡ false
    → marked_in rest name (get name (put k (clean_artifact_state hash) artifacts))
      ≡ marked_in ((k, hash) ∷ rest) name (get name artifacts)
unfolding get
marked_in-cons k name hash rest artifacts fresh = elim (Bool-cases (k == name)) [
  | inl same ↦
      let e : k ≡ name = (eq_iff k name).0 same in
      let absent : get name rest ≡ none =
        subst (λ x. get x rest ≡ none) e (get_absent k rest fresh) in
      ground (arith, get-put k name (clean_artifact_state hash) artifacts)
  | inr other ↦ ground (arith, get-put k name (clean_artifact_state hash) artifacts)
]

-- Marking keeps the gate, and marks exactly the names of the list.
mark_all_clean-get :
    (updated_at : String) (hashes : Dict String) (state after : ProjectState)
    → IsDistinct (keys hashes)
    → mark_all_clean updated_at hashes state ≡ ok after
    → (after.current_gate ≡ state.current_gate)
      × ((name : String)
          → get name after.artifacts ≡ marked_in hashes name (get name state.artifacts))
unfolding mark_all_clean mark_artifact_clean get
mark_all_clean-get updated_at [] state after distinct e =
    let same : state ≡ after = cc in
    (
      ap (λ (s : ProjectState). s.current_gate) (sym same),
      λ name. ap (λ (s : ProjectState). get name s.artifacts) (sym same),
    )
mark_all_clean-get updated_at ((k, hash) ∷ rest) state after distinct e =
    let (next, marked, more) = >>=-eq-ok (mark_artifact_clean state k hash updated_at) _ e in
    let (old, there, made) =
      >>=-eq-ok (or_raise (configuration_error "artifact") (get k state.artifacts)) _ marked in
    let (gate, rests) = mark_all_clean-get updated_at rest next after distinct.1 more in
    let artifacts : next.artifacts ≡ put k (clean_artifact_state hash) state.artifacts =
      ground arith in
    let gate_kept : next.current_gate ≡ state.current_gate = ground arith in
    (
      gate ∙ gate_kept,
      λ name.
          rests name
          ∙ (ap (λ a. marked_in rest name (get name a)) artifacts
              ∙ marked_in-cons k name hash rest state.artifacts distinct.0),
    )

keys_absent-put :
    {V : Type 0} (k x : String) (v : V) (d : Dict V)
    → mem x (keys (put k v d)) ≡ (x == k || mem x (keys d))
unfolding put mem
keys_absent-put k x v [] = ground arith
keys_absent-put k x v ((j, w) ∷ d) =
    ground (arith, keys_absent-put k x v d, eq_iff j k, eq_iff x k, eq_iff x j)

pub IsDistinct-put :
    {V : Type 0} (k : String) (v : V) (d : Dict V)
    → IsDistinct (keys d)
    → IsDistinct (keys (put k v d))
unfolding put mem
IsDistinct-put k v [] h = (refl, tt)
IsDistinct-put k v ((j, w) ∷ d) h = elim (Bool-cases (j == k)) [
  | inl same ↦ rw (same) h
  | inr other ↦
      rw (other) (ground (arith, keys_absent-put k j v d, eq_iff j k), IsDistinct-put k v d h.1)
]

merge-IsDistinct :
    (first second : Dict String) → IsDistinct (keys first) → IsDistinct (keys (merge first second))
unfolding merge
merge-IsDistinct first [] h = h
merge-IsDistinct first ((k, v) ∷ second) h =
    merge-IsDistinct (put k v first) second (IsDistinct-put k v first h)

-- When the new state is returned, and the names of the validated inputs are distinct: the project
-- stands at the gate; every input and every output that was validated is CLEAN with its hash; and every
-- artifact that the gate requires is CLEAN.
pub next_project_state-clean :
    (encoding : Encoding) (state after : ProjectState) (gate_id updated_at : String)
    (input_hashes : Dict String) (outputs : Dict Value) (graph : Fields)
    (required_artifacts : List String)
    → IsDistinct (keys input_hashes)
    → next_project_state encoding state gate_id input_hashes outputs graph updated_at
        required_artifacts
      ≡ ok after
    → (after.current_gate ≡ gate_id)
      × ((hashes : Dict String) × (output_hashes encoding outputs ≡ ok hashes)
          × ((name hash : String)
              → get name (merge input_hashes hashes) ≡ some hash
              → get name after.artifacts ≡ some (clean_artifact_state hash)))
      × AllClean after required_artifacts
unfolding next_project_state
next_project_state-clean encoding state after gate_id updated_at input_hashes outputs graph required
      distinct e =
    let (hashes, hashed, e1) = >>=-eq-ok (output_hashes encoding outputs) _ e in
    let validated = merge input_hashes hashes in
    let (invalidated, run, e2) =
      >>=-eq-ok (invalidate_changed graph updated_at validated state) _ e1 in
    let (marked, marks, e3) = >>=-eq-ok (mark_all_clean updated_at validated invalidated) _ e2 in
    let (advanced, moved, e4) =
      >>=-eq-ok (advance_gate marked gate_id true updated_at required) _ e3 in
    let (gate, expected, named, all_clean, entered) =
      (advance_passed marked advanced gate_id updated_at required).0 moved in
    let (kept, get_marked) =
      mark_all_clean-get updated_at validated invalidated marked
        (merge-IsDistinct input_hashes hashes distinct) marks in
    let same_artifacts : after.artifacts ≡ marked.artifacts =
      ap (λ (s : ProjectState). s.artifacts) (sym (ok_eq e4))
      ∙ (ap (λ (s : ProjectState). s.artifacts) entered
          ∙ artifacts-enter gate gate_id updated_at marked) in
    let at_gate : after.current_gate ≡ gate_id =
      ap (λ (s : ProjectState). s.current_gate) (sym (ok_eq e4))
      ∙ (ap (λ (s : ProjectState). s.current_gate) entered
          ∙ current-enter gate gate_id updated_at marked) in
    (
      at_gate,
      (
        hashes,
        hashed,
        λ name hash found. ap (get name) same_artifacts ∙ (get_marked name ∙ ground (arith, found)),
      ),
      λ x m. ap (λ a. clean_in a x) same_artifacts ∙ all_clean x m,
    )
  where
    ok_eq : {a b : ProjectState} → Result.ok a ≡ ok b → a ≡ b
    ok_eq h = cc

    artifacts-enter :
        (gate : GateDefinition) (gate_id updated_at : String) (s : ProjectState)
        → (enter gate gate_id updated_at s).artifacts ≡ s.artifacts
    artifacts-enter gate gate_id updated_at s = ground arith

    current-enter :
        (gate : GateDefinition) (gate_id updated_at : String) (s : ProjectState)
        → (enter gate gate_id updated_at s).current_gate ≡ gate_id
    current-enter gate gate_id updated_at s = ground arith
