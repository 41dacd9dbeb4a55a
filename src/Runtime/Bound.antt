-- ===== src/Runtime/Bound.antt =====
-- What an approval of RUNTIME/approvals.py is worth: the inputs that it was given for.
use mystery_starter_kit.Common.{
  String, Bool, true, false, not, Bool-cases, Option-cases, ◌≡◌, refl, sym, ap, subst, ◌∙◌, inl,
  inr, ◌&&◌, ◌||◌, Option, none, some, List, IsDistinct, Dict, get, keys, arith, if◌then◌else◌,
}
use mystery_starter_kit.Failure.{Result, ok, err}
use mystery_starter_kit.Runtime.Records.{RuntimeApproval, ApprovalDecision, Schemas}
use mystery_starter_kit.Runtime.Store.{
  JsonFile, whole, torn, WriteOutcome, Store, next_write, later_writes, write_json_object,
  load_json_object,
}
use mystery_starter_kit.Runtime.Saved.{IsWritten, write_json_object-IsWritten}
use mystery_starter_kit.Runtime.Approvals.{
  approval_path, decision_of, is_approved, is_empty, dict_eq, ApprovalRequest, new_approval,
  save_approval, create_approval, current_approval, approval_error,
}
use mystery_starter_kit.Runtime.Equal.{dict_eq-get}

module _ (schemas : Schemas) (is_blank : String → Bool) where
  open schemas use {approval_is_valid}

  -- The answer of `current_approval` for an approval that stands whole on disk.
  abbrev answer : RuntimeApproval → String → Dict String → Result (Option RuntimeApproval)
  answer approval task_id input_hashes =
      if not (approval_is_valid approval)
      then err (approval_error task_id)
      else if is_approved approval.decision && dict_eq approval.bound_input_hashes input_hashes
      then ok (some approval)
      else ok none

  current_approval_stored :
      (store : Store) (run_id task_id : String) (input_hashes : Dict String)
      (found : RuntimeApproval)
      → get (approval_path run_id task_id) store.approvals ≡ some (whole found)
      → current_approval schemas is_blank store run_id task_id input_hashes
        ≡ answer found task_id input_hashes
  unfolding current_approval load_json_object
  current_approval_stored store run_id task_id input_hashes found e = rw e refl

  is_approved-true :
      (decision : ApprovalDecision)
      → is_approved decision ≡ true
      → decision ≡ ApprovalDecision.approved
  is_approved-true ApprovalDecision.approved h = refl
  is_approved-true ApprovalDecision.rejected h = absurd (cc)

  answer-bound :
      (found approval : RuntimeApproval) (task_id : String) (input_hashes : Dict String)
      → IsDistinct (keys approval.bound_input_hashes)
      → answer found task_id input_hashes ≡ ok (some approval)
      → (found ≡ approval)
        × (approval_is_valid approval ≡ true)
        × (approval.decision ≡ ApprovalDecision.approved)
        × ((name : String) → get name approval.bound_input_hashes ≡ get name input_hashes)
  answer-bound found approval task_id input_hashes d h =
      elim (Bool-cases (approval_is_valid found)) [
        | inr invalid ↦ absurd (ground arith)
        | inl valid ↦
            elim (Bool-cases
              (is_approved found.decision && dict_eq found.bound_input_hashes input_hashes)) [
                | inr other ↦ absurd (ground arith)
                | inl agrees ↦
                    let same : found ≡ approval = ground arith in
                    let agreed =
                      subst
                        (λ a.
                          (is_approved a.decision && dict_eq a.bound_input_hashes input_hashes)
                          ≡ true)
                        same agrees in
                    (
                      same,
                      subst (λ a. approval_is_valid a ≡ true) same valid,
                      is_approved-true approval.decision (ground arith),
                      dict_eq-get approval.bound_input_hashes input_hashes d (ground arith),
                    )
              ]
      ]

  -- An approval that current_approval returns stands whole on disk, meets the schema, is APPROVED, and
  -- binds every artifact to the hash that it has among the current inputs, if the names bound are distinct;
  -- an artifact that is not among the inputs is not bound.
  pub current_approval-bound :
      (store : Store) (run_id task_id : String) (input_hashes : Dict String)
      (approval : RuntimeApproval)
      → IsDistinct (keys approval.bound_input_hashes)
      → current_approval schemas is_blank store run_id task_id input_hashes ≡ ok (some approval)
      → (get (approval_path run_id task_id) store.approvals ≡ some (whole approval))
        × (approval_is_valid approval ≡ true)
        × (approval.decision ≡ ApprovalDecision.approved)
        × ((name : String) → get name approval.bound_input_hashes ≡ get name input_hashes)
  unfolding current_approval load_json_object
  current_approval-bound store run_id task_id input_hashes approval d h =
      elim (Option-cases (get (approval_path run_id task_id) store.approvals)) [
        | inl missing ↦ absurd (ground arith)
        | inr (torn, e) ↦ absurd (ground arith)
        | inr (whole found, e) ↦
            let (same, valid, approved, bound) =
              answer-bound found approval task_id input_hashes d
                (sym (current_approval_stored store run_id task_id input_hashes found e) ∙ h) in
            (e ∙ ap (λ a. some (whole a)) same, valid, approved, bound)
      ]

  written_approval :
      (approval : RuntimeApproval) (store : Store) (writes : List WriteOutcome)
      (written : Dict (JsonFile RuntimeApproval) × Result (Unit {0})) {later : Store}
      {returned : RuntimeApproval}
      → IsWritten
          (approval_path approval.run_id approval.task_id)
          approval
          store.approvals
          written.0
          written.1
      → (elim written.1 as (λ result. Store × Result RuntimeApproval) [
        | ok _ ↦ (record store { approvals = written.0; writes = writes }, ok approval)
        | err failure ↦ (record store { approvals = written.0; writes = writes }, err failure)
      ])
        ≡ (later, ok returned)
      → (returned ≡ approval)
        × (get (approval_path approval.run_id approval.task_id) later.approvals
            ≡ some (whole approval))
  written_approval approval store writes (files, ok _) {later = later} kept h =
      let here : files ≡ later.approvals = ap (λ o. o.0.approvals) h in
      (cc, ap (get (approval_path approval.run_id approval.task_id)) (sym here) ∙ kept.0)
  written_approval approval store writes (files, err failure) kept h = absurd (cc)

  save_approval-kept :
      (approval : RuntimeApproval) (store : Store) {later : Store} {returned : RuntimeApproval}
      → save_approval schemas is_blank approval store ≡ (later, ok returned)
      → (returned ≡ approval)
        × (get (approval_path approval.run_id approval.task_id) later.approvals
            ≡ some (whole approval))
  unfolding save_approval
  save_approval-kept approval store h =
      written_approval approval store (later_writes store.writes)
        (write_json_object (next_write store.writes)
          (approval_path approval.run_id approval.task_id) approval store.approvals)
        (write_json_object-IsWritten (next_write store.writes)
          (approval_path approval.run_id approval.task_id) approval store.approvals)
        h

  answer_valid :
      (approval : RuntimeApproval) (task_id : String) (input_hashes : Dict String)
      → approval_is_valid approval ≡ true
      → answer approval task_id input_hashes
        ≡ ok (
            if is_approved approval.decision && dict_eq approval.bound_input_hashes input_hashes
            then some approval
            else none)
  answer_valid approval task_id input_hashes valid =
      elim (Bool-cases
        (is_approved approval.decision && dict_eq approval.bound_input_hashes input_hashes)) [
          | inl agrees ↦ rw (valid, agrees) refl
          | inr other ↦ rw (valid, other) refl
        ]

  -- When create_approval returns, the decision was one of the two texts, the actor and the reason were not
  -- blank and there were input hashes; and for every set of current hashes, current_approval on the files
  -- left behind answers the approval if it is APPROVED and these hashes equal the bound ones, and none
  -- otherwise.
  pub create_approval-current :
      (approval_id now : String) (request : ApprovalRequest) (store : Store) {later : Store}
      {approval : RuntimeApproval}
      → create_approval schemas is_blank approval_id now request store ≡ (later, ok approval)
      → (decision_of request.decision ≡ some approval.decision)
        × ((is_blank request.actor || is_blank request.reason || is_empty request.input_hashes)
            ≡ false)
        × ((input_hashes : Dict String)
            → current_approval schemas is_blank later request.run_id request.task_id input_hashes
              ≡ ok (
                  if is_approved approval.decision && dict_eq request.input_hashes input_hashes
                  then some approval
                  else none))
  unfolding create_approval
  create_approval-current approval_id now request store {later} {approval} h =
      elim (Option-cases (decision_of request.decision)) [
        | inl unknown ↦ absurd (ground arith)
        | inr (decision, known) ↦
            elim (Bool-cases (
              is_blank request.actor || is_blank request.reason || is_empty request.input_hashes)) [
                | inl blank ↦ absurd (ground arith)
                | inr full ↦
                    elim (Bool-cases
                      (approval_is_valid (new_approval approval_id now request decision))) [
                        | inr invalid ↦ absurd (ground arith)
                        | inl valid ↦
                            let (same, stored) =
                              save_approval-kept (new_approval approval_id now request decision)
                                store {returned = approval}
                                (sym (rw (create_approval, known, full, valid) refl) ∙ h) in
                            let made = new_approval approval_id now request decision in
                            subst
                              (λ a.
                                (decision_of request.decision ≡ some a.decision)
                                × ((is_blank request.actor
                                      || is_blank request.reason
                                      || is_empty request.input_hashes)
                                    ≡ false)
                                × ((input_hashes : Dict String)
                                    → current_approval schemas is_blank later request.run_id
                                        request.task_id input_hashes
                                      ≡ ok (
                                          if is_approved a.decision
                                            && dict_eq request.input_hashes input_hashes
                                          then some a
                                          else none)))
                              (sym same)
                              (
                                known,
                                full,
                                λ input_hashes.
                                    current_approval_stored later request.run_id request.task_id
                                      input_hashes made stored
                                    ∙ answer_valid made request.task_id input_hashes valid,
                              )
                      ]
              ]
      ]
