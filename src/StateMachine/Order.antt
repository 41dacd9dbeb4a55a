-- ===== src/StateMachine/Order.antt =====
-- No gate is skipped and none is passed twice, over any sequence of calls of `advance_gate`.
use mystery_starter_kit.Common.{
  ℕ, zero, suc, ◌+◌, ◌≤◌, String, ◌≡◌, refl, ap, sym, subst, ◌∙◌, ◌⊎◌, inl, inr, Bool, true, false,
  Option, none, some, List, [], ◌∷◌, map, arith, length, get_elem?, take, drop, drop-get_elem?,
  get_elem?-lt, get_elem?-map, if◌then◌else◌,
}
use mystery_starter_kit.Failure.{Result, ok, err, state_transition_error, or_raise, Result-cases}
use mystery_starter_kit.Project.{ProjectState}
use mystery_starter_kit.StateMachine.Gates.{GateDefinition, gates}
use mystery_starter_kit.StateMachine.{gate_after, gate_index, enter, advance_gate}
use mystery_starter_kit.StateMachine.Advance.{advance_cases}

-- The `current_gate` of a project that has passed `n` gates.
abbrev pub gate_name : ℕ → String
gate_name zero = "NONE"
gate_name (suc n) = elim (get_elem? gates n) [ none ↦ "" | some gate ↦ gate.gate_id ]

-- Behind `n` gates the next one is number `n` of the table, and behind the last there is none.
pub gate_after-gate_name :
    (n : ℕ) → gate_after (gate_name n) ≡ or_raise state_transition_error (get_elem? gates n)
unfolding gate_after gate_index
gate_after-gate_name zero = refl
gate_after-gate_name (suc zero) = refl
gate_after-gate_name (suc (suc zero)) = refl
gate_after-gate_name (suc (suc (suc zero))) = refl
gate_after-gate_name (suc (suc (suc (suc zero)))) = refl
gate_after-gate_name (suc (suc (suc (suc (suc zero))))) = refl
gate_after-gate_name (suc (suc (suc (suc (suc (suc zero)))))) = refl
gate_after-gate_name (suc (suc (suc (suc (suc (suc (suc zero))))))) = refl
gate_after-gate_name (suc (suc (suc (suc (suc (suc (suc (suc zero)))))))) = refl
gate_after-gate_name (suc (suc (suc (suc (suc (suc (suc (suc (suc zero))))))))) = refl
gate_after-gate_name (suc (suc (suc (suc (suc (suc (suc (suc (suc (suc zero)))))))))) = refl
gate_after-gate_name (suc (suc (suc (suc (suc (suc (suc (suc (suc (suc (suc zero))))))))))) = refl
gate_after-gate_name (suc (suc (suc (suc (suc (suc (suc (suc (suc (suc (suc (suc zero)))))))))))) =
    refl
gate_after-gate_name
      (suc (suc (suc (suc (suc (suc (suc (suc (suc (suc (suc (suc (suc zero))))))))))))) =
    refl
gate_after-gate_name
      (suc (suc (suc (suc (suc (suc (suc (suc (suc (suc (suc (suc (suc (suc zero)))))))))))))) =
    refl
gate_after-gate_name
      (suc (suc (suc (suc (suc (suc (suc (suc (suc (suc (suc (suc (suc (suc (suc n))))))))))))))) =
    refl

-- One call of `advance_gate`.
pub record Call : Type 0 where
  pub gate_id : String
  pub passed : Bool
  pub updated_at : String
  pub required_artifacts : List String

abbrev pub call : ProjectState → Call → Result ProjectState
call state c = advance_gate state c.gate_id c.passed c.updated_at c.required_artifacts

-- A history of calls, with the gates that were passed. A call that raises leaves the state as it was.
unfoldable pub run : ProjectState → List Call → ProjectState × List String
run state [] = (state, [])
run state (c ∷ calls) = elim (call state c) [
  | err e ↦ run state calls
  | ok next ↦ let (last, log) = run next calls in (last, if c.passed then c.gate_id ∷ log else log)
]

abbrev pub gate_ids : List String
gate_ids = map (λ (gate : GateDefinition). gate.gate_id) gates

-- A call that returns keeps the gate, or passes the next one of the table.
call_moves :
    (n : ℕ) (state next : ProjectState) (c : Call)
    → state.current_gate ≡ gate_name n
    → call state c ≡ ok next
    → (c.passed ≡ false) × (next.current_gate ≡ gate_name n)
      ⊎ (c.passed ≡ true)
        × (get_elem? gate_ids n ≡ some c.gate_id)
        × (c.gate_id ≡ gate_name (suc n))
        × (next.current_gate ≡ gate_name (suc n))
call_moves n state next c here e =
    let (gate, expected, named, moved) =
      advance_cases state next c.gate_id c.passed c.updated_at c.required_artifacts e in
    elim moved [
      | inl (failed, kept) ↦ inl (failed, ap (λ (s : ProjectState). s.current_gate) kept ∙ here)
      | inr (well, all_clean, entered) ↦
          let found : get_elem? gates n ≡ some gate =
            found_of (get_elem? gates n) gate
              (sym (gate_after-gate_name n) ∙ (sym (ap gate_after here) ∙ expected)) in
          let name : gate_name (suc n) ≡ c.gate_id = rw found named in
          inr (
            well,
            get_elem?-map (λ (g : GateDefinition). g.gate_id) gates n found ∙ ap some named,
            sym name,
            ap (λ (s : ProjectState). s.current_gate) entered
                ∙ (current-enter gate c.gate_id c.updated_at state ∙ sym name),
          )
    ]
  where
    found_of :
        (o : Option GateDefinition) (gate : GateDefinition)
        → or_raise state_transition_error o ≡ ok gate
        → o ≡ some gate
    found_of none gate h = absurd (cc)
    found_of (some g) gate h = cc

    current-enter :
        (gate : GateDefinition) (gate_id updated_at : String) (s : ProjectState)
        → (enter gate gate_id updated_at s).current_gate ≡ gate_id
    current-enter gate gate_id updated_at s = ground arith

-- The log is the part of the table that starts at gate number `n`, and the state stands behind it.
abbrev InOrder : ℕ → ProjectState × List String → Type 0
InOrder n (last, log) =
    (log ≡ take (length log) (drop n gate_ids))
    × (last.current_gate ≡ gate_name (n + length log))
    × (n + length log ≤ 14)

InOrder-cons :
    (n : ℕ) (gate_id : String) (last : ProjectState) (log : List String)
    → get_elem? gate_ids n ≡ some gate_id
    → InOrder (suc n) (last, log)
    → InOrder n (last, gate_id ∷ log)
InOrder-cons n gate_id last log found (same, stands, room) =
    let shift : suc n + length log ≡ n + suc (length log) = omega arith in
    (
      ap (λ l. gate_id ∷ l) same
          ∙ sym (ap (take (suc (length log))) (drop-get_elem? gate_ids n found)),
      stands ∙ ap gate_name shift,
      omega arith,
    )

run_from :
    (n : ℕ) (state : ProjectState) (calls : List Call)
    → state.current_gate ≡ gate_name n
    → n ≤ 14
    → InOrder n (run state calls)
unfolding run
run_from n state [] here le =
    let none_passed : n ≡ n + 0 = omega arith in
    (refl, here ∙ ap gate_name none_passed, omega arith)
run_from n state (c ∷ calls) here le = elim (Result-cases (call state c)) [
  | inr (e, raised) ↦
      let same : run state (c ∷ calls) ≡ run state calls = ground arith in
      subst (InOrder n) (sym same) (run_from n state calls here le)
  | inl (next, moved) ↦ elim (call_moves n state next c here moved) [
    | inl (failed, stays) ↦
        let same : run state (c ∷ calls) ≡ ((run next calls).0, (run next calls).1) =
          ground arith in
        subst (InOrder n) (sym same) (run_from n next calls stays le)
    | inr (well, found, named, there) ↦
        let same : run state (c ∷ calls) ≡ ((run next calls).0, c.gate_id ∷ (run next calls).1) =
          ground arith in
        subst (InOrder n) (sym same) (
          InOrder-cons n c.gate_id (run next calls).0 (run next calls).1 found
            (run_from (suc n) next calls there (omega (arith, get_elem?-lt gate_ids n found))))
  ]
]

-- From a project that has passed no gate, and whatever calls follow, the gates that were passed are
-- the first ones of the table, in its order and each once; the project stands at the last of them, and
-- at most fourteen are passed. Calls that raise, or that report a failed gate, do not count.
pub run-in-order :
    (state : ProjectState) (calls : List Call)
    → state.current_gate ≡ "NONE"
    → let (last, log) = run state calls in
      (log ≡ take (length log) gate_ids)
      × (last.current_gate ≡ gate_name (length log))
      × (length log ≤ 14)
run-in-order state calls fresh =
    let (same, stands, room) = run_from 0 state calls fresh (omega arith) in
    let none_before : 0 + length (run state calls).1 ≡ length (run state calls).1 = omega arith in
    (same, stands ∙ ap gate_name none_before, omega arith)
