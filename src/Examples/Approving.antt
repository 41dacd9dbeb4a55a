-- ===== src/Examples/Approving.antt =====
-- RUNTIME/approvals.py: a person approves a task for one input, and the approval is read back.
use mystery_starter_kit.Common.{
  String, true, false, ◌≡◌, refl, ◌&&◌, ◌||◌, ◌==◌, none, some, [], ◌∷◌, mem, Dict, get, put,
  if◌then◌else◌,
}
use mystery_starter_kit.Failure.{ok}
use mystery_starter_kit.Runtime.Records.{RuntimeApproval, ApprovalDecision, Schemas}
use mystery_starter_kit.Runtime.Store.{whole, Store}
use mystery_starter_kit.Runtime.Approvals.{
  ApprovalRequest, approval_path, decision_of, is_approved, is_empty, dict_eq, new_approval,
  create_approval, current_approval,
}
use mystery_starter_kit.Runtime.Bound.{current_approval-bound, create_approval-current}

abbrev lenient : Schemas
lenient = record {
  run_is_valid = λ run. true;
  event_is_valid = λ event. true;
  approval_is_valid = λ approval. true;
}

abbrev request : ApprovalRequest
request = record {
  run_id = "RUN-1";
  task_id = "review";
  decision = "APPROVED";
  actor = "editor";
  reason = "read";
  input_hashes = ("script", "c1") ∷ [];
}

abbrev given : RuntimeApproval
given = new_approval "APR-1" "t0" request ApprovalDecision.approved

abbrev untouched : Store
untouched = record { runs = []; events = []; approvals = []; writes = [] }

abbrev approved_store : Store
approved_store = record untouched { approvals = (approval_path "RUN-1" "review", whole given) ∷ [] }

approval_created :
    create_approval lenient (λ s. s == "") "APR-1" "t0" request untouched
    ≡ (approved_store, ok given)
unfolding create_approval get put
approval_created = refl

create_approval-current_example :
    (decision_of request.decision ≡ some given.decision)
    × ((request.actor == "" || request.reason == "" || is_empty request.input_hashes) ≡ false)
    × ((input_hashes : Dict String)
        → current_approval lenient (λ s. s == "") approved_store "RUN-1" "review" input_hashes
          ≡ ok (
              if is_approved given.decision && dict_eq request.input_hashes input_hashes
              then some given
              else none))
create_approval-current_example =
    create_approval-current lenient (λ s. s == "") "APR-1" "t0" request untouched approval_created

approval_found :
    current_approval lenient (λ s. s == "") approved_store "RUN-1" "review" (("script", "c1") ∷ [])
    ≡ ok (some given)
unfolding current_approval get
approval_found = refl

current_approval-bound_example :
    (get (approval_path "RUN-1" "review") approved_store.approvals ≡ some (whole given))
    × (true ≡ true)
    × (given.decision ≡ ApprovalDecision.approved)
    × ((name : String) → get name given.bound_input_hashes ≡ get name (("script", "c1") ∷ []))
current_approval-bound_example =
    current_approval-bound lenient (λ s. s == "") approved_store "RUN-1" "review"
      (("script", "c1") ∷ []) given (unfold mem in (refl, tt)) approval_found
