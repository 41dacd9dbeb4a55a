-- ===== src/Transactions/Commit.antt =====
-- RUNTIME/transactions.py: `commit_gate_transaction`, `restore_transaction_backups` and
-- `recover_prepared_transactions`. What `pathlib` makes of paths, the serialised project state, the clock
-- and the new identifier are arguments.
use Prim.Native.String.{◌++◌ as append}
use mystery_starter_kit.Common.{
  ℕ, suc, String, Bool, true, false, not, Option, none, some, List, [], ◌∷◌, if◌then◌else◌,
}
use mystery_starter_kit.Failure.{
  Failure, Result, ok, err, runtime_error, transaction_error, or_raise,
}
use mystery_starter_kit.Transactions.Next.{Encoding}
use mystery_starter_kit.Transactions.Disk.{
  TransactionStatus, Target, TransactionRecord, Outcome, returned, os_error, crashed, raised, World,
  Action, after, ◌>>=◌, ◌>>◌, give, raise, on_os_error, read_bytes, write_bytes, copy2, replace,
  unlink, write_record,
}

-- `project` is `project_path`; `within path root` says that `path.relative_to(root)` raises nothing, and
-- `index_text` is f"{index:03d}".
pub record Paths : Type 0 where
  pub project : String
  pub join : String → String → String
  pub resolve : String → String
  pub within : String → String → Bool
  pub name : String → String
  pub with_name : String → String → String
  pub index_text : ℕ → String

pub record Spec (B : Type 0) : Type 0 where
  pub target : String
  pub content : B
  pub artifact_name : String

-- The identifiers, paths and times of one commit.
pub record Ticket : Type 0 where
  pub transaction_id : String
  pub run_id : String
  pub gate_id : String
  pub overlay_path : String
  pub prepared_at : String
  pub settled_at : String

abbrev pub commit_error : Bool → Option String → Failure
commit_error retryable name = runtime_error transaction_error retryable "TRANSACTION" none name

abbrev pub is_prepared : TransactionStatus → Bool
is_prepared TransactionStatus.prepared = true
is_prepared _ = false

abbrev pub backwards : List Target → List Target → List Target
backwards [] done = done
backwards (entry ∷ entries) done = backwards entries (entry ∷ done)

abbrev pub new_record : Ticket → List Target → TransactionRecord
new_record ticket targets = record {
  transaction_id = ticket.transaction_id;
  run_id = ticket.run_id;
  gate_id = ticket.gate_id;
  status = TransactionStatus.prepared;
  prepared_at = ticket.prepared_at;
  committed_at = none;
  rolled_back_at = none;
  overlay_path = ticket.overlay_path;
  targets = targets;
}

module _ (paths : Paths) where
  open paths use {project, join, resolve, within, name, with_name, index_text}

  abbrev pub transaction_root : String → String
  transaction_root transaction_id = join project (append ".runtime/transactions/" transaction_id)

  abbrev pub backup_root : String → String
  backup_root transaction_id = join (transaction_root transaction_id) "backups"

  -- Where a commit backs up the target of an index, and the temporary files beside a target.
  abbrev pub backup_of : String → ℕ → String → String
  backup_of transaction_id index target =
      join (backup_root transaction_id) (append (index_text index) (append "-" (name target)))

  abbrev pub temporary_of : String → String → String
  temporary_of transaction_id target =
      with_name target
        (append "." (append (name target) (append "." (append transaction_id ".tmp"))))

  abbrev pub rollback_of : String → String
  rollback_of target = with_name target (append "." (append (name target) ".rollback.tmp"))

  unfoldable pub transaction_member_path : String → String → Result String
  transaction_member_path path root =
      if within (resolve path) (resolve root)
      then ok (resolve path)
      else err (commit_error false none)

  module _ {B : Type 0} where
    abbrev pub lifted : {D : Type 0} → Result D → Action B D
    lifted (ok value) = give value
    lifted (err failure) = raise failure

    -- The body of the loop over `reversed(targets)`.
    unfoldable pub restore_target : String → Target → Action B (Unit {0})
    unfolding transaction_member_path
    restore_target transaction_id entry = do
      target ← lifted (transaction_member_path entry.target_path project)
      if not entry.existed_before then on_os_error (commit_error false none) (unlink target) else do
        recorded ← lifted (or_raise (commit_error false none) entry.backup_path)
        backup ← lifted (transaction_member_path recorded (backup_root transaction_id))
        on_os_error (commit_error false none)
            (do copy2 backup (rollback_of target); replace (rollback_of target) target)

    unfoldable pub restore_each : String → List Target → Action B (Unit {0})
    restore_each transaction_id [] = give tt
    restore_each transaction_id (entry ∷ entries) = do
      restore_target transaction_id entry
      restore_each transaction_id entries

    unfoldable pub restore_transaction_backups : TransactionRecord → Action B (Unit {0})
    unfolding restore_each
    restore_transaction_backups document =
        restore_each document.transaction_id (backwards document.targets [])

    -- `temporary_path.write_bytes(…)` and `os.replace(…)`, for each target.
    unfoldable pub install_one : String → Spec B → Action B (Unit {0})
    install_one transaction_id spec = do
      write_bytes (temporary_of transaction_id spec.target) spec.content
      replace (temporary_of transaction_id spec.target) spec.target

    unfoldable pub install_each : String → List (Spec B) → Action B (Unit {0})
    unfolding install_one
    install_each transaction_id [] = give tt
    install_each transaction_id (spec ∷ specs) = do
      install_one transaction_id spec
      install_each transaction_id specs

    -- The `except OSError` of the commit: all is restored, and then the failure raised.
    unfoldable pub roll_back : TransactionRecord → String → Action B String
    unfolding restore_transaction_backups
    roll_back document settled_at = do
      restore_transaction_backups document
      write_record (record document {
        status = TransactionStatus.rolled_back;
        rolled_back_at = some settled_at;
      })
      raise (commit_error true none)

    abbrev pub settle :
        TransactionRecord → String → World B × Outcome (Unit {0}) → World B × Outcome String
    settle document settled_at (world, returned _) =
        (do
          write_record (record document {
            status = TransactionStatus.committed;
            committed_at = some settled_at;
          })
          give document.transaction_id)
          world
    settle document settled_at (world, os_error) = roll_back document settled_at world
    settle document settled_at (world, crashed) = (world, crashed)
    settle document settled_at (world, raised failure) = (world, raised failure)

  module _ (encoding : Encoding) where
    open encoding use {Bytes, sha256}

    abbrev pub absent_entry : Spec Bytes → Target
    absent_entry spec = record {
      artifact_name = spec.artifact_name;
      target_path = spec.target;
      backup_path = none;
      existed_before = false;
      before_hash = none;
      after_hash = sha256 spec.content;
    }

    abbrev pub saved_entry : String → ℕ → Spec Bytes → Bytes → Target
    saved_entry transaction_id index spec before = record {
      artifact_name = spec.artifact_name;
      target_path = spec.target;
      backup_path = some (backup_of transaction_id index spec.target);
      existed_before = true;
      before_hash = some (sha256 before);
      after_hash = sha256 spec.content;
    }

    -- The `try` around the reading and the copy.
    unfoldable pub copy_before : String → ℕ → Spec Bytes → Action Bytes Bytes
    copy_before transaction_id index spec =
        on_os_error (commit_error false (some spec.artifact_name)) (do
          before ← read_bytes spec.target
          copy2 spec.target (backup_of transaction_id index spec.target)
          give before)

    -- The backup of one target.
    unfoldable pub back_up : String → ℕ → Spec Bytes → Action Bytes Target
    unfolding copy_before
    back_up transaction_id index spec world = elim (world.files spec.target) [
      | none ↦ (world, returned (absent_entry spec))
      | some _ ↦
          after (copy_before transaction_id index spec world)
            (λ before. give (saved_entry transaction_id index spec before))
    ]

    unfoldable pub back_up_each : String → ℕ → List (Spec Bytes) → Action Bytes (List Target)
    unfolding back_up
    back_up_each transaction_id index [] = give []
    back_up_each transaction_id index (spec ∷ specs) = do
      target ← back_up transaction_id index spec
      targets ← back_up_each transaction_id (suc index) specs
      give (target ∷ targets)

    -- From the list of targets on.
    unfoldable pub commit_targets : Ticket → List (Spec Bytes) → Action Bytes String
    unfolding back_up_each install_each roll_back
    commit_targets ticket specs = do
      targets ← back_up_each ticket.transaction_id 0 specs
      write_record (new_record ticket targets)
      λ world.
          settle (new_record ticket targets) ticket.settled_at
            (install_each ticket.transaction_id specs world)
