-- ===== src/Examples/Committing.antt =====
-- RUNTIME/transactions.py: a commit of one output and the project state. In the first run the process
-- dies between the two files, in the second nothing fails.
use mystery_starter_kit.Common.{
  String, true, ◌≡◌, ◌≢◌, refl, sym, subst, ◌⊎◌, inl, inr, ◌==◌, none, some, List, [], ◌∷◌, mem,
  Elem, Elem-cons, not-Elem-nil, All, Dict, get, put, if◌then◌else◌,
}
use mystery_starter_kit.Failure.{ok, invalid_json_document_error}
use mystery_starter_kit.Json.{Value, text}
use mystery_starter_kit.Runtime.Store.{whole, torn}
use mystery_starter_kit.Dependency.Graph.{dependency_artifacts}
use mystery_starter_kit.Transactions.Next.{Encoding}
use mystery_starter_kit.Transactions.Hashes.{relative_path}
use mystery_starter_kit.Transactions.Disk.{
  World, TransactionRecord, TransactionStatus, Outcome, returned, crashed, raised, Fault, fine,
  crashes, passed, read_bytes, write_bytes, copy2, replace, write_record,
}
use mystery_starter_kit.Transactions.Sat.{Sat}
use mystery_starter_kit.Transactions.Commit.{Paths, Spec, Ticket}
use mystery_starter_kit.Transactions.Install.{spec_paths, AllInstalled}
use mystery_starter_kit.Transactions.Backup.{backups_from}
use mystery_starter_kit.Transactions.Atomic.{IsStart}
use mystery_starter_kit.Transactions.Recover.{recover_prepared_transactions}
use mystery_starter_kit.Transactions.AllOrNothing.{restarted, AllQuiet}
use mystery_starter_kit.Transactions.Torn.{recover_prepared_transactions_torn}
use mystery_starter_kit.Transactions.Recovery.{IsQuiet}
use mystery_starter_kit.Transactions.Targets.{target_specs}
use mystery_starter_kit.Transactions.GateCommit.{
  commit_gate_transaction, commit_gate_transaction-AllOrNone, commit_gate_transaction_returned,
}
use mystery_starter_kit.Examples.Samples.{graph}
use Prim.Native.String.{◌++◌ as append}

abbrev plain : Encoding
plain = record { Bytes = String; dumps = λ fs. "{}"; utf8 = λ s. s; sha256 = λ s. s }

-- Temporary files lie in a directory of their own.
abbrev layout : Paths
layout = record {
  project = "p";
  join = λ a b. append a (append "/" b);
  resolve = λ path. path;
  within = λ path root. true;
  name = λ path. path;
  with_name = λ path name. append "tmp/" name;
  index_text = λ index. "0";
}

abbrev ticket : Ticket
ticket = record {
  transaction_id = "TX-1";
  run_id = "RUN-1";
  gate_id = "GATE-00";
  overlay_path = "p/overlay";
  prepared_at = "t1";
  settled_at = "t2";
}

abbrev outputs : Dict Value
outputs = ("facts", text "f2") ∷ []

abbrev specs : List (Spec String)
specs =
    (record { target = "p/facts.json"; content = "f2"; artifact_name = "facts" })
    ∷ (record {
      target = "p/00_PROJECT/project_state.json";
      content = "s2";
      artifact_name = "project_state";
    })
    ∷ []

abbrev with_faults : List (Fault String) → World String
with_faults faults = record {
  files = λ path.
      if path == "p/facts.json"
      then some "f1"
      else if path == "p/00_PROJECT/project_state.json"
      then some "s1"
      else none;
  transactions = [];
  faults = faults;
}

-- The ninth operation writes the temporary file of the project state.
abbrev dying : World String
dying =
    with_faults (fine ∷ fine ∷ fine ∷ fine ∷ fine ∷ fine ∷ fine ∷ fine ∷ crashes (some "s") ∷ [])

specs_built : target_specs layout plain graph outputs "s2" [] ≡ ok specs
unfolding target_specs dependency_artifacts relative_path get mem
specs_built = refl

All-Elem :
    (P : String → Type 0) (names : List String)
    → All P names
    → (name : String) → Elem name names
    → P name
All-Elem P [] h name m = absurd (not-Elem-nil name m)
All-Elem P (first ∷ names) (h, hs) name m = elim (Elem-cons name first names m) [
  | inl same ↦ subst P (sym same) h
  | inr later ↦ All-Elem P names hs name later
]

specs-IsStart :
    (faults : List (Fault String)) → IsStart plain layout ticket specs (passed (with_faults faults))
unfolding mem get
specs-IsStart faults = record {
  fresh = refl;
  targets_distinct = (refl, (refl, tt));
  backups_distinct = (refl, (refl, tt));
  apart = record {
    temporary = All-Elem _ (spec_paths specs) ((refl, refl), ((refl, refl), tt));
    rollback = All-Elem _ (spec_paths specs) ((refl, refl), ((refl, refl), tt));
    target_inside = All-Elem _ (spec_paths specs) ((refl, refl), ((refl, refl), tt));
    backup_inside =
        All-Elem _ (backups_from layout plain "TX-1" 0 specs)
          ((refl, refl, refl), ((refl, refl, refl), tt));
  };
}

no_records : (faults : List (Fault String)) → AllQuiet (with_faults faults)
unfolding mem
no_records faults name m = absurd (cc)

abbrev stopped : World String × Outcome String
stopped = commit_gate_transaction layout plain ticket graph outputs "s2" [] dying

-- One target is new and the other old.
stopped_midway :
    (stopped.1 ≡ crashed)
    × (stopped.0.files "p/facts.json" ≡ some "f2")
    × (stopped.0.files "p/00_PROJECT/project_state.json" ≡ some "s1")
unfolding commit_gate_transaction dependency_artifacts relative_path get put mem read_bytes
    write_bytes copy2 replace write_record
stopped_midway = (refl, refl, refl)

stopped_not_torn : get "TX-1" stopped.0.transactions ≢ some torn
unfolding commit_gate_transaction dependency_artifacts relative_path get put mem read_bytes
    write_bytes copy2 replace write_record
stopped_not_torn e = cc

commit_gate_transaction-AllOrNone_example :
    Sat
      (recover_prepared_transactions layout "t3" (restarted stopped.0))
      (λ later. ⊥)
      (λ _ later.
        ((path : String) → Elem path (spec_paths specs) → later.files path ≡ dying.files path)
        ⊎ AllInstalled specs later.files)
commit_gate_transaction-AllOrNone_example =
    commit_gate_transaction-AllOrNone layout plain ticket graph outputs "s2" [] specs dying
      specs_built (specs-IsStart dying.faults) (no_records dying.faults) "t3" {world = stopped.0}
      {outcome = stopped.1} refl stopped_not_torn

abbrev finished : World String × Outcome String
finished = commit_gate_transaction layout plain ticket graph outputs "s2" [] (with_faults [])

finished_returned : finished ≡ (finished.0, returned "TX-1")
unfolding commit_gate_transaction dependency_artifacts relative_path get put mem read_bytes
    write_bytes copy2 replace write_record
finished_returned = refl

commit_gate_transaction_returned_example :
    AllInstalled specs finished.0.files
    × ((document : TransactionRecord) × (get "TX-1" finished.0.transactions ≡ some (whole document))
        × (document.status ≡ TransactionStatus.committed))
    × Sat
        (recover_prepared_transactions layout "t3" (restarted finished.0))
        (λ later. ⊥)
        (λ _ later. AllInstalled specs later.files)
commit_gate_transaction_returned_example =
    commit_gate_transaction_returned layout plain ticket graph outputs "s2" [] specs
      (with_faults []) specs_built (specs-IsStart []) (no_records []) "t3" finished_returned

-- A process that died while it wrote the first record of the project.
abbrev cut_off : World String
cut_off = record (with_faults []) { transactions = ("TX-1", torn) ∷ [] }

only_torn :
    (name : String)
    → Elem name ("TX-1" ∷ [])
    → (IsQuiet cut_off name) ⊎ (get name cut_off.transactions ≡ some torn)
unfolding get
only_torn name m = elim (Elem-cons name "TX-1" [] m) [
  | inl same ↦ inr (subst (λ n. get n cut_off.transactions ≡ some torn) (sym same) refl)
  | inr later ↦ absurd (not-Elem-nil name later)
]

recover_prepared_transactions_torn_example :
    recover_prepared_transactions layout "t3" cut_off
    ≡ (cut_off, raised invalid_json_document_error)
recover_prepared_transactions_torn_example =
    recover_prepared_transactions_torn layout "t3" cut_off "TX-1" only_torn (unfold get in refl)
