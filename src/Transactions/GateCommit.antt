-- ===== src/Transactions/GateCommit.antt =====
-- `commit_gate_transaction` of RUNTIME/transactions.py as a whole: the directory of the backups, the list
-- of targets, and the commit of these.
use mystery_starter_kit.Common.{
  String, ◌≡◌, ◌≢◌, refl, sym, subst, ◌⊎◌, inl, some, List, Dict, get, Elem,
}
use mystery_starter_kit.Failure.{ok}
use mystery_starter_kit.Json.{Value, Fields}
use mystery_starter_kit.Runtime.Store.{torn, whole}
use mystery_starter_kit.Transactions.Next.{Encoding}
use mystery_starter_kit.Transactions.Disk.{
  World, TransactionRecord, TransactionStatus, Outcome, returned, Action, after, pass, passed,
  ◌>>=◌, ◌>>◌,
}
use mystery_starter_kit.Transactions.Sat.{Sat, Sat-after, pass-Sat}
use mystery_starter_kit.Transactions.Commit.{Paths, Spec, Ticket, lifted, commit_targets}
use mystery_starter_kit.Transactions.Recover.{recover_prepared_transactions}
use mystery_starter_kit.Transactions.Targets.{target_specs}
use mystery_starter_kit.Transactions.Install.{spec_paths, AllInstalled}
use mystery_starter_kit.Transactions.Settled.{IsIdle}
use mystery_starter_kit.Transactions.Atomic.{Left, Committed, IsStart, backups, commit_targets-Sat}
use mystery_starter_kit.Transactions.AllOrNothing.{
  restarted, AllQuiet, outcome_recovered, Committed-recovered,
}

module _ (paths : Paths) (encoding : Encoding) where
  open encoding use {Bytes}

  unfoldable pub commit_gate_transaction :
      Ticket → Fields → Dict Value → Bytes → Dict Bytes → Action Bytes String
  unfolding pass target_specs commit_targets
  commit_gate_transaction ticket graph outputs state_bytes additional = do
    pass
    specs ← lifted paths (target_specs paths encoding graph outputs state_bytes additional)
    commit_targets paths encoding ticket specs

-- The targets of a commit are `specs`. It starts on a disk with no PREPARED and no torn record, with a new
-- identifier, and with paths that do not clash.
module _ (paths : Paths) (encoding : Encoding) (ticket : Ticket) (graph : Fields)
    (outputs : Dict Value) (state_bytes : encoding.Bytes) (additional : Dict encoding.Bytes)
    (specs : List (Spec encoding.Bytes)) (start : World encoding.Bytes)
    (built : target_specs paths encoding graph outputs state_bytes additional ≡ ok specs)
    (ready : IsStart encoding paths ticket specs (passed start)) (quiet : AllQuiet start)
    (recovered_at : String) where
  abbrev LeftBehind : World encoding.Bytes → Type 0
  LeftBehind =
      Left paths ticket.transaction_id specs
        (backups paths encoding ticket specs (passed start) ready) (passed start) ready.apart

  abbrev Installed : String → World encoding.Bytes → Type 0
  Installed _ =
      Committed paths ticket.transaction_id specs
        (backups paths encoding ticket specs (passed start) ready) (passed start) ready.apart

  commit_gate_transaction_built :
      commit_gate_transaction paths encoding ticket graph outputs state_bytes additional start
      ≡ after (pass start) (λ _. commit_targets paths encoding ticket specs)
  unfolding commit_gate_transaction
  commit_gate_transaction_built = rw built refl

  commit_gate_transaction-Sat :
      Sat
        (commit_gate_transaction paths encoding ticket graph outputs state_bytes additional start)
        LeftBehind
        Installed
  commit_gate_transaction-Sat =
      subst (λ o. Sat o LeftBehind Installed) (sym commit_gate_transaction_built)
        (Sat-after (pass start) (λ _. commit_targets paths encoding ticket specs) LeftBehind
          (λ _ world. world ≡ passed start) Installed
          (pass-Sat ⊥ start (λ c. absurd c) LeftBehind (λ _ world. world ≡ passed start)
            (λ fault.
              (inl (λ path m. refl, subst IsIdle (sym ready.fresh) tt), λ other differs. refl))
            refl)
          (λ _ world e.
            subst (λ w. Sat (commit_targets paths encoding ticket specs w) LeftBehind Installed)
              (sym e) (commit_targets-Sat paths encoding ticket specs (passed start) ready)))

  -- All or nothing. The targets of the commit are `specs`; it starts on a disk with no PREPARED and no torn
  -- record, with a new identifier and with paths that do not clash, and runs under any schedule of faults.
  -- Wherever it stops, if its own record is not torn, recovery by a new process with no fault due returns,
  -- and then all targets are as before the commit, or all have the content intended for them.
  pub commit_gate_transaction-AllOrNone :
      {world : World encoding.Bytes} {outcome : Outcome String}
      → commit_gate_transaction paths encoding ticket graph outputs state_bytes additional start
        ≡ (world, outcome)
      → get ticket.transaction_id world.transactions ≢ some torn
      → Sat
          (recover_prepared_transactions paths recovered_at (restarted world))
          (λ later. ⊥)
          (λ _ later.
            ((path : String) → Elem path (spec_paths specs) → later.files path ≡ start.files path)
            ⊎ AllInstalled specs later.files)
  commit_gate_transaction-AllOrNone {world} {outcome} h whole_file =
      outcome_recovered paths encoding ticket specs (passed start) ready quiet recovered_at world
        outcome (subst (λ o. Sat o LeftBehind Installed) h commit_gate_transaction-Sat) whole_file

  -- When a commit returns, with the same assumptions and under any schedule of faults, all targets have the
  -- content intended for them, its record is COMMITTED, and recovery by a new process with no fault due
  -- returns and keeps them so.
  pub commit_gate_transaction_returned :
      {world : World encoding.Bytes} {name : String}
      → commit_gate_transaction paths encoding ticket graph outputs state_bytes additional start
        ≡ (world, returned name)
      → AllInstalled specs world.files
        × ((document : TransactionRecord) × (get ticket.transaction_id world.transactions
              ≡ some (whole document))
            × (document.status ≡ TransactionStatus.committed))
        × Sat
            (recover_prepared_transactions paths recovered_at (restarted world))
            (λ later. ⊥)
            (λ _ later. AllInstalled specs later.files)
  commit_gate_transaction_returned {world} h =
      let (installed, recorded, same) =
        subst (λ o. Sat o LeftBehind Installed) h commit_gate_transaction-Sat in
      (
        installed,
        recorded,
        Committed-recovered paths encoding ticket specs (passed start) ready quiet recovered_at
            world (installed, recorded, same),
      )
