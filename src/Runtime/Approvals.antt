-- ===== src/Runtime/Approvals.antt =====
-- RUNTIME/approvals.py: a human decision on a task, bound to the hashes of its inputs.
use Prim.Native.String.{◌++◌ as append}
use mystery_starter_kit.Common.{
  String, Bool, true, false, not, ◌&&◌, ◌||◌, ◌==◌, eqb, Option, none, some, List, [], ◌∷◌, length,
  Dict, get, is_some, if◌then◌else◌,
}
use mystery_starter_kit.Failure.{
  Failure, Result, ok, err, runtime_error, runtime_configuration_error,
}
use mystery_starter_kit.Runtime.Records.{RuntimeApproval, ApprovalDecision, Schemas}
use mystery_starter_kit.Runtime.Store.{
  Store, Action, raise, next_write, later_writes, write_json_object, load_json_object,
}

abbrev pub approval_error : String → Failure
approval_error task_id =
    runtime_error runtime_configuration_error false "APPROVAL" (some task_id) none

-- A place below the directory of runs. Identifiers of runs hold no slash.
abbrev pub approval_path : String → String → String
approval_path run_id task_id = append run_id (append "/approvals/" task_id)

abbrev pub decision_of : String → Option ApprovalDecision
decision_of decision =
    if decision == "APPROVED"
    then some ApprovalDecision.approved
    else if decision == "REJECTED"
    then some ApprovalDecision.rejected
    else none

abbrev pub is_approved : ApprovalDecision → Bool
is_approved ApprovalDecision.approved = true
is_approved ApprovalDecision.rejected = false

abbrev pub is_empty {ℓ} : {A : Type ℓ} → List A → Bool
is_empty [] = true
is_empty (x ∷ xs) = false

-- `==` of two dictionaries: as many keys, and every key of the first with its value in the second.
unfoldable pub includes : Dict String → Dict String → Bool
includes [] hashes = true
includes ((name, hash) ∷ rest) hashes = elim (get name hashes) [
  | none ↦ false
  | some other ↦ hash == other && includes rest hashes
]

unfoldable pub dict_eq : Dict String → Dict String → Bool
unfolding includes
dict_eq first second = eqb (length first) (length second) && includes first second

-- What a caller of `create_approval` states.
pub record ApprovalRequest : Type 0 where
  pub run_id : String
  pub task_id : String
  pub decision : String
  pub actor : String
  pub reason : String
  pub input_hashes : Dict String

abbrev pub new_approval : String → String → ApprovalRequest → ApprovalDecision → RuntimeApproval
new_approval approval_id now request decision = record {
  approval_id = approval_id;
  run_id = request.run_id;
  task_id = request.task_id;
  decision = decision;
  actor = request.actor;
  reason = request.reason;
  bound_input_hashes = request.input_hashes;
  created_at = now;
}

-- `is_blank` says that `strip` leaves nothing of a text; it is Python's.
module _ (schemas : Schemas) (is_blank : String → Bool) where
  open schemas use {approval_is_valid}

  unfoldable pub save_approval : RuntimeApproval → Action RuntimeApproval
  unfolding write_json_object
  save_approval approval store =
      let (approvals, result) =
        write_json_object (next_write store.writes) (approval_path approval.run_id approval.task_id)
          approval store.approvals in
      elim result [
        | ok _ ↦ (
          record store { approvals = approvals; writes = later_writes store.writes },
          ok approval,
        )
        | err failure ↦ (
          record store { approvals = approvals; writes = later_writes store.writes },
          err failure,
        )
      ]

  unfoldable pub create_approval : String → String → ApprovalRequest → Action RuntimeApproval
  unfolding save_approval
  create_approval approval_id now request = elim (decision_of request.decision) [
    | none ↦ raise (approval_error request.task_id)
    | some decision ↦
        if is_blank request.actor || is_blank request.reason || is_empty request.input_hashes
        then raise (approval_error request.task_id)
        else if approval_is_valid (new_approval approval_id now request decision)
        then save_approval (new_approval approval_id now request decision)
        else raise (approval_error request.task_id)
  ]

  -- `path.is_file()`, then the reading, the schema, the decision and the hashes.
  unfoldable pub current_approval :
      Store → String → String → Dict String → Result (Option RuntimeApproval)
  unfolding load_json_object dict_eq
  current_approval store run_id task_id input_hashes =
      if not (is_some (get (approval_path run_id task_id) store.approvals))
      then ok none
      else elim (load_json_object (approval_path run_id task_id) store.approvals) [
        | err failure ↦ err failure
        | ok approval ↦
            if not (approval_is_valid approval)
            then err (approval_error task_id)
            else if is_approved approval.decision
                && dict_eq approval.bound_input_hashes input_hashes
            then ok (some approval)
            else ok none
      ]

  unfoldable pub approval_is_current : Store → String → String → Dict String → Result Bool
  unfolding current_approval
  approval_is_current store run_id task_id input_hashes =
      elim (current_approval store run_id task_id input_hashes) [
        | err failure ↦ err failure
        | ok found ↦ ok (is_some found)
      ]
