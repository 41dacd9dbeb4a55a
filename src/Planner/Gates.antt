-- ===== src/Planner/Gates.antt =====
-- The planner and the state machine agree on the gate that comes next.
use mystery_starter_kit.Common.{
  ℕ, zero, suc, ◌+◌, ◌<◌, String, ◌≡◌, refl, sym, inl, inr, ◌==◌, eq_iff, List, [], ◌∷◌, arith,
  length, get_elem?, ltb, Bool-cases, if◌then◌else◌,
}
use mathlib.Core.Path.{subst₂}
use mystery_starter_kit.Failure.{Result, ok, err, state_transition_error, or_raise, Result-cases}
use mystery_starter_kit.StateMachine.Gates.{GateDefinition, gates}
use mystery_starter_kit.StateMachine.{gate_after, gate_index, index_from}
use mystery_starter_kit.Planner.{run_error, next_gate_id, gate_of_index}

-- The two answers are the same gate, or both are errors.
abbrev pub Agree : Result GateDefinition → Result String → Type 0
Agree (ok gate) (ok gate_id) = gate_id ≡ gate.gate_id
Agree (err e) (err f) = Unit
Agree _ _ = ⊥

-- Where a gate was found.
index_from-lt :
    (n : ℕ) (table : List GateDefinition) (gate_id : String) (i : ℕ)
    → index_from n table gate_id ≡ ok i
    → i < n + length table
unfolding index_from
index_from-lt n [] gate_id i h = absurd (cc)
index_from-lt n (gate ∷ table) gate_id i h = ground (arith, index_from-lt (suc n) table gate_id i)

-- The answers behind gate number `i`.
abbrev after_state : ℕ → Result GateDefinition
after_state i = or_raise state_transition_error (get_elem? gates (suc i))

abbrev after_plan : ℕ → Result String
after_plan i = if ltb 13 (suc i) then err run_error else ok (gate_of_index (suc i))

Agree-at : (i : ℕ) → i < 14 → Agree (after_state i) (after_plan i)
Agree-at zero h = refl
Agree-at (suc zero) h = refl
Agree-at (suc (suc zero)) h = refl
Agree-at (suc (suc (suc zero))) h = refl
Agree-at (suc (suc (suc (suc zero)))) h = refl
Agree-at (suc (suc (suc (suc (suc zero))))) h = refl
Agree-at (suc (suc (suc (suc (suc (suc zero)))))) h = refl
Agree-at (suc (suc (suc (suc (suc (suc (suc zero))))))) h = refl
Agree-at (suc (suc (suc (suc (suc (suc (suc (suc zero)))))))) h = refl
Agree-at (suc (suc (suc (suc (suc (suc (suc (suc (suc zero))))))))) h = refl
Agree-at (suc (suc (suc (suc (suc (suc (suc (suc (suc (suc zero)))))))))) h = refl
Agree-at (suc (suc (suc (suc (suc (suc (suc (suc (suc (suc (suc zero))))))))))) h = refl
Agree-at (suc (suc (suc (suc (suc (suc (suc (suc (suc (suc (suc (suc zero)))))))))))) h = refl
Agree-at (suc (suc (suc (suc (suc (suc (suc (suc (suc (suc (suc (suc (suc zero))))))))))))) h = tt
Agree-at (suc (suc (suc (suc (suc (suc (suc (suc (suc (suc (suc (suc (suc (suc i)))))))))))))) h =
    absurd (omega arith)

-- Whatever text stands as the current gate, the planner starts at the gate that the state machine
-- expects next; both raise for an unknown gate, and both raise behind the last one.
pub next_gate_id-agrees :
    (current_gate : String) → Agree (gate_after current_gate) (next_gate_id current_gate)
next_gate_id-agrees current_gate = elim (Bool-cases (current_gate == "NONE")) [
  | inl fresh ↦
      let e : current_gate ≡ "NONE" = (eq_iff current_gate "NONE").0 fresh in
      rw e (unfold gate_after next_gate_id in refl)
  | inr later ↦ elim (Result-cases (gate_index current_gate)) [
    | inl (i, found) ↦
        let expected : gate_after current_gate ≡ after_state i =
          unfold gate_after in rw (later, found) refl in
        let planned : next_gate_id current_gate ≡ after_plan i =
          unfold next_gate_id gate_index in rw (later, found) refl in
        let room : i < 14 =
          unfold gate_index in omega (arith, index_from-lt 0 gates current_gate i found) in
        subst₂ Agree (sym expected) (sym planned) (Agree-at i room)
    | inr (e, unknown) ↦
        let expected : gate_after current_gate ≡ err e =
          unfold gate_after in rw (later, unknown) refl in
        let planned : next_gate_id current_gate ≡ err e =
          unfold next_gate_id in rw (later, unknown) refl in
        subst₂ Agree (sym expected) (sym planned) tt
  ]
]
