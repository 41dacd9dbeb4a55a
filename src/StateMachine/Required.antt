-- ===== src/StateMachine/Required.antt =====
-- Which artifacts a gate of VALIDATORS/state_machine.py wants of a project.
use mystery_starter_kit.Common.{
  ℕ, suc, ◌+◌, String, true, Bool-cases, ◌≡◌, refl, sym, ap, subst, ◌∙◌, ◌↔◌, inl, inr, ◌==◌,
  Option, none, some, List, [], ◌∷◌, Elem, Elem-head, Elem-tail, Elem-cons, not-Elem-nil, get_elem?,
  Dict, get, eq_iff, arith,
}
use mystery_starter_kit.Failure.{ok, >>=-eq-ok, or_raise, key_error, state_transition_error}
use mystery_starter_kit.Json.{Fields}
use mystery_starter_kit.Requirements.{Documents}
use mystery_starter_kit.Dependency.Graph.{dependency_artifacts, artifact_required_for_project}
use mystery_starter_kit.StateMachine.Gates.{GateDefinition, gates}
use mystery_starter_kit.StateMachine.{
  index_from, gate_index, required_of, gate_required_artifacts_for_project,
}

-- The dependency graph defines the artifact, and its condition holds of the project.
abbrev pub IsWanted : Dict Fields → Documents → String → Type 0
IsWanted definitions documents name =
    (definition : Fields) × (get name definitions ≡ some definition)
    × (artifact_required_for_project definition documents ≡ ok true)

or_raise-ok {ℓ} : {V : Type ℓ} (o : Option V) {v : V} → or_raise key_error o ≡ ok v → o ≡ some v
or_raise-ok none h = absurd (cc)
or_raise-ok (some v) h = cc

required_of-Elem :
    (definitions : Dict Fields) (documents : Documents) (names : List String) {out : List String}
    → required_of definitions documents names ≡ ok out
    → (name : String) → Elem name out ↔ (Elem name names × IsWanted definitions documents name)
unfolding required_of
required_of-Elem definitions documents [] {out} h name =
    let e : [] ≡ out = cc in
    (
      λ m. absurd (not-Elem-nil name (subst (Elem name) (sym e) m)),
      λ w. absurd (not-Elem-nil name (w.0)),
    )
required_of-Elem definitions documents (first ∷ names) {out} h name =
    let (definition, found, h1) = >>=-eq-ok (or_raise key_error (get first definitions)) _ h in
    let (needed, tested, h2) =
      >>=-eq-ok (artifact_required_for_project definition documents) _ h1 in
    let (rest, read, h3) = >>=-eq-ok (required_of definitions documents names) _ h2 in
    let defined = or_raise-ok (get first definitions) found in
    let later = required_of-Elem definitions documents names read name in
    elim (Bool-cases needed) [
      | inl wants ↦
          let e : first ∷ rest ≡ out = ground arith in
          (
            λ m. elim (Elem-cons name first rest (subst (Elem name) (sym e) m)) [
              | inl same ↦
                  subst (λ n. Elem n (first ∷ names) × IsWanted definitions documents n) (sym same)
                    (Elem-head first names, (definition, defined, tested ∙ ap (λ b. ok b) wants))
              | inr in_rest ↦
                  let (m2, wanted) = later.0 in_rest in (Elem-tail name first names m2, wanted)
            ],
            λ w. subst (Elem name) e (elim (Elem-cons name first names (w.0)) [
              | inl same ↦ subst (λ n. Elem n (first ∷ rest)) (sym same) (Elem-head first rest)
              | inr in_names ↦ Elem-tail name first rest (later.1 (in_names, w.1))
            ]),
          )
      | inr spares ↦
          let e : rest ≡ out = ground arith in
          (
            λ m.
                let (m2, wanted) = later.0 (subst (Elem name) (sym e) m) in
                (Elem-tail name first names m2, wanted),
            λ w. subst (Elem name) e (elim (Elem-cons name first names (w.0)) [
              | inl same ↦ absurd (
                  let (other, at_name, passes) = w.1 in
                  let at_first = sym at_name ∙ ap (λ n. get n definitions) same ∙ defined in
                  let alike : other ≡ definition = cc in
                  let clash =
                    sym passes
                    ∙ ap (λ d. artifact_required_for_project d documents) alike
                    ∙ tested
                    ∙ ap (λ b. ok b) spares in
                  cc)
              | inr in_names ↦ later.1 (in_names, w.1)
            ]),
          )
    ]

index_from-get_elem? :
    (n : ℕ) (table : List GateDefinition) (gate_id : String) {index : ℕ}
    → index_from n table gate_id ≡ ok index
    → (k : ℕ) × (index ≡ n + k)
      × ((gate : GateDefinition) × (get_elem? table k ≡ some gate) × (gate.gate_id ≡ gate_id))
unfolding index_from
index_from-get_elem? n [] gate_id h = absurd (cc)
index_from-get_elem? n (gate ∷ table) gate_id {index} h =
    elim (Bool-cases (gate.gate_id == gate_id)) [
      | inl same ↦ (0, ground arith, (gate, refl, (eq_iff gate.gate_id gate_id).0 same))
      | inr other ↦
          let (k, e, found) =
            index_from-get_elem? (suc n) table gate_id {index = index} (ground arith) in
          (suc k, omega arith, found)
    ]

gate_index-get_elem? :
    (gate_id : String) {index : ℕ}
    → gate_index gate_id ≡ ok index
    → (gate : GateDefinition) × (get_elem? gates index ≡ some gate) × (gate.gate_id ≡ gate_id)
unfolding gate_index
gate_index-get_elem? gate_id {index} h =
    let (k, e, (gate, found, same)) = index_from-get_elem? 0 gates gate_id {index = index} h in
    let at : index ≡ k = omega arith in (gate, ap (get_elem? gates) at ∙ found, same)

-- When gate_required_artifacts_for_project returns for a gate, GATES has a gate of that name, the graph can
-- be read, and the artifacts returned are exactly those that the table lists for the gate, that the graph
-- defines, and whose condition holds of the project.
pub gate_required_artifacts_for_project-Elem :
    (gate_id : String) (graph : Fields) (documents : Documents) {out : List String}
    → gate_required_artifacts_for_project gate_id graph documents ≡ ok out
    → (index : ℕ) × (gate : GateDefinition) × (get_elem? gates index ≡ some gate)
      × (gate.gate_id ≡ gate_id)
      × ((definitions : Dict Fields) × (dependency_artifacts graph ≡ ok definitions)
          × ((name : String)
              → Elem name out
                ↔ (Elem name gate.required_artifacts × IsWanted definitions documents name)))
unfolding gate_required_artifacts_for_project
gate_required_artifacts_for_project-Elem gate_id graph documents {out} h =
    let (index, found, h1) = >>=-eq-ok (gate_index gate_id) _ h in
    let (row, at_row, h2) =
      >>=-eq-ok (or_raise state_transition_error (get_elem? gates index)) _ h1 in
    let (definitions, read, h3) = >>=-eq-ok (dependency_artifacts graph) _ h2 in
    let (gate, at_index, named) = gate_index-get_elem? gate_id found in
    let same : row ≡ gate =
      (let e = sym (ap (or_raise state_transition_error) at_index) ∙ at_row in cc) in
    (
      index,
      gate,
      at_index,
      named,
      (
        definitions,
        read,
        required_of-Elem definitions documents gate.required_artifacts
            (subst (λ g. required_of definitions documents g.required_artifacts ≡ ok out) same h3),
      ),
    )
