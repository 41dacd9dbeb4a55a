-- ===== src/Transactions/Atomic.antt =====
-- `commit_gate_transaction` of RUNTIME/transactions.py from the list of its targets on: whatever fails,
-- and wherever the process dies, the project is settled.
use mystery_starter_kit.Common.{
  String, true, Bool-cases, ◌≡◌, refl, sym, ap, subst, ◌∙◌, ◌⊎◌, inl, inr, none, some, List, mem,
  Elem, All, IsDistinct, get,
}
use mystery_starter_kit.Runtime.Store.{JsonFile, whole, torn}
use mystery_starter_kit.Transactions.Next.{Encoding}
use mystery_starter_kit.Transactions.Disk.{
  TransactionRecord, TransactionStatus, Outcome, returned, os_error, crashed, raised, World,
  recorded, passed, write_record, give, raise, ◌>>=◌, ◌>>◌,
}
use mystery_starter_kit.Transactions.Sat.{Sat, Sat-after, Sat-weaken, write_record-Sat}
use mystery_starter_kit.Transactions.Commit.{
  Paths, Spec, Ticket, commit_error, is_prepared, new_record, settle, roll_back,
  restore_transaction_backups, install_each, back_up_each, commit_targets,
}
use mystery_starter_kit.Transactions.Saved.{
  IsApart, target_paths, IsSaved, SameBackups, All-IsSaved-SameBackups,
}
use mystery_starter_kit.Transactions.Restore.{Broken, AllRestored, restore_transaction_backups-Sat}
use mystery_starter_kit.Transactions.Install.{spec_paths, AllInstalled, Onward, install_each-Sat}
use mystery_starter_kit.Transactions.Backup.{backups_from, OnlyWrites, AllTaken, back_up_each-Sat}
use mystery_starter_kit.Transactions.Settled.{
  IsIdle, AllAsBefore, IsPending, IsSettled, SameOthers, IsPending-SameBackups, SameOthers-same,
  SameOthers-recorded, get-recorded, IsIdle-recorded,
}

module _ {B : Type 0} (paths : Paths) (transaction_id : String) (specs : List (Spec B))
    (K : List String) (start : World B)
    (apart : IsApart paths transaction_id (spec_paths specs) K) where
  -- The state of a commit that did not return.
  abbrev pub Left : World B → Type 0
  Left world =
      IsSettled transaction_id specs K start world × SameOthers transaction_id specs K start world

  -- The state of a commit that returned.
  abbrev pub Committed : World B → Type 0
  Committed world =
      AllInstalled specs world.files
      × ((document : TransactionRecord) × (get transaction_id world.transactions
            ≡ some (whole document))
          × (document.status ≡ TransactionStatus.committed))
      × SameOthers transaction_id specs K start world

  -- What holds once the record is PREPARED.
  abbrev Ready : World B → TransactionRecord → Type 0
  Ready world document =
      (get transaction_id world.transactions ≡ some (whole document))
      × (is_prepared document.status ≡ true)
      × (document.transaction_id ≡ transaction_id)
      × All (λ e. IsSaved (spec_paths specs) K start.files e world.files) document.targets
      × (target_paths document.targets ≡ spec_paths specs)

  Ready-IsPending :
      (world : World B) (document : TransactionRecord)
      → Ready world document
      → IsPending transaction_id specs K start world
  Ready-IsPending world document (at, status, named, saved, listed) =
      (document, at, status, named, saved, listed)

  -- A write to the record of the transaction, under the name that its document has.
  recorded-Left :
      (world : World B) (name : String) (file : JsonFile TransactionRecord)
      → name ≡ transaction_id
      → IsIdle (some file)
      → SameOthers transaction_id specs K start world
      → AllAsBefore transaction_id specs K start world.files ⊎ AllInstalled specs world.files
      → Left (recorded name file world)
  recorded-Left world name file named idle others (inl before) =
      subst (λ n. Left (recorded n file world)) (sym named)
        (
          inl (before, IsIdle-recorded transaction_id specs K start world file idle),
          SameOthers-recorded transaction_id specs K start world file others,
        )
  recorded-Left world name file named idle others (inr installed) =
      subst (λ n. Left (recorded n file world)) (sym named)
        (
          inr (inl (installed, IsIdle-recorded transaction_id specs K start world file idle)),
          SameOthers-recorded transaction_id specs K start world file others,
        )

  pending-Left :
      (world later : World B)
      → SameBackups K world.files later.files
      → later.transactions ≡ world.transactions
      → IsPending transaction_id specs K start world
      → SameOthers transaction_id specs K start world
      → Left later
  pending-Left world later same kept pending others = (
    inr (inr (IsPending-SameBackups transaction_id specs K start world later same kept pending)),
    SameOthers-same transaction_id specs K start world later kept others,
  )

  roll_back-Sat :
      (world : World B) (document : TransactionRecord) (settled_at : String)
      → Ready world document
      → SameOthers transaction_id specs K start world
      → Sat (roll_back paths document settled_at world) Left (λ _. Committed)
  unfolding roll_back
  roll_back-Sat world document settled_at (at, status, named, saved, listed) others =
      let pending = Ready-IsPending world document (at, status, named, saved, listed) in
      let T = spec_paths specs in
      let settled = record document {
        status = TransactionStatus.rolled_back;
        rolled_back_at = some settled_at;
      } in
      Sat-after (restore_transaction_backups paths document world)
        (λ _. write_record settled >> raise (commit_error true none)) Left
        (λ _. AllRestored ⊥ paths transaction_id T K start.files apart world document.targets)
        (λ _. Committed)
        (Sat-weaken (restore_transaction_backups paths document world)
          (Broken ⊥ paths transaction_id T K start.files apart world) Left
          (λ _. AllRestored ⊥ paths transaction_id T K start.files apart world document.targets)
          (λ _. AllRestored ⊥ paths transaction_id T K start.files apart world document.targets)
          (restore_transaction_backups-Sat ⊥ paths transaction_id T K start.files apart world
            document named (λ c. absurd c) saved)
          (λ later (fault, (toward, same, kept)). pending-Left world later same kept pending others)
          (λ _ later h. h))
        (λ _ later ((toward, same, kept), calm, there).
          let before : AllAsBefore transaction_id specs K start later.files =
            λ path m. there path (subst (Elem path) (sym listed) m) in
          let others_later = SameOthers-same transaction_id specs K start world later kept others in
          Sat-after (write_record settled later) (λ _. raise (commit_error true none)) Left
            (λ _. Left) (λ _. Committed)
            (write_record-Sat ⊥ later (λ c. absurd c) Left (λ _. Left) settled
              (λ fault. pending-Left world (passed later) same kept pending others)
              (λ fault.
                recorded-Left later document.transaction_id torn named tt others_later (inl before))
              (λ fault.
                recorded-Left later document.transaction_id (whole settled) named refl others_later
                  (inl before))
              (recorded-Left later document.transaction_id (whole settled) named refl others_later
                (inl before)))
            (λ _ last h. h))

  settle-Sat :
      (world : World B) (document : TransactionRecord) (settled_at : String)
      (out : World B × Outcome (Unit {0}))
      → Ready world document
      → SameOthers transaction_id specs K start world
      → Sat out (Onward paths transaction_id (spec_paths specs) K apart specs world) (λ _ later.
        Onward paths transaction_id (spec_paths specs) K apart specs world later
        × AllInstalled specs later.files)
      → Sat (settle paths document settled_at out) Left (λ _. Committed)
  settle-Sat world document settled_at (later, crashed) ready others (same, kept, rest) =
      pending-Left world later same kept (Ready-IsPending world document ready) others
  settle-Sat world document settled_at (later, raised failure) ready others (same, kept, rest) =
      pending-Left world later same kept (Ready-IsPending world document ready) others
  settle-Sat world document settled_at (later, os_error) ready others (same, kept, rest) =
      roll_back-Sat later document settled_at
        (
          ap (get transaction_id) kept ∙ ready.0,
          ready.1,
          ready.2,
          All-IsSaved-SameBackups (spec_paths specs) K start.files document.targets world.files
              later.files same (ready.3),
          ready.4,
        )
        (SameOthers-same transaction_id specs K start world later kept others)
  settle-Sat world document settled_at (later, returned _) (at, status, named, saved, listed) others
        ((same, kept, rest), installed) =
      let settled = record document {
        status = TransactionStatus.committed;
        committed_at = some settled_at;
      } in
      let others_later = SameOthers-same transaction_id specs K start world later kept others in
      let pending = Ready-IsPending world document (at, status, named, saved, listed) in
      Sat-after (write_record settled later) (λ _. give document.transaction_id) Left
        (λ _. Committed) (λ _. Committed)
        (write_record-Sat ⊥ later (λ c. absurd c) Left (λ _. Committed) settled
          (λ fault. pending-Left world (passed later) same kept pending others)
          (λ fault.
            recorded-Left later document.transaction_id torn named tt others_later (inr installed))
          (λ fault.
            recorded-Left later document.transaction_id (whole settled) named refl others_later
              (inr installed))
          (subst (λ n. Committed (recorded n (whole settled) later)) (sym named)
            (
              installed,
              (settled, get-recorded transaction_id specs K start later (whole settled), refl),
              SameOthers-recorded transaction_id specs K start later (whole settled) others_later,
            )))
        (λ _ last h. h)

-- What a commit assumes of the world that it starts in: the identifier is new, the targets are different
-- files, as are the backups, and the paths lie as `IsApart` says.
pub record IsStart (encoding : Encoding) (paths : Paths) (ticket : Ticket)
    (specs : List (Spec encoding.Bytes)) (start : World encoding.Bytes) : Type 0 where
  pub fresh : get ticket.transaction_id start.transactions ≡ none
  pub targets_distinct : IsDistinct (spec_paths specs)
  pub backups_distinct : IsDistinct (backups_from paths encoding ticket.transaction_id 0 specs)
  pub apart :
      IsApart paths ticket.transaction_id
        (spec_paths specs)
        (backups_from paths encoding ticket.transaction_id 0 specs)

module _ (paths : Paths) (encoding : Encoding) (ticket : Ticket)
    (specs : List (Spec encoding.Bytes)) (start : World encoding.Bytes)
    (ready : IsStart encoding paths ticket specs start) where
  abbrev pub backups : List String
  backups = backups_from paths encoding ticket.transaction_id 0 specs

  written-AllAsBefore :
      (world : World encoding.Bytes)
      → OnlyWrites paths encoding ticket.transaction_id backups start world
      → AllAsBefore ticket.transaction_id specs backups start world.files
  written-AllAsBefore world (only, kept) = λ path m.
      only path (elim (Bool-cases (mem path backups)) [
        | inr outside ↦ outside
        | inl inside ↦ absurd (let e = sym m ∙ (ready.apart.backup_inside path inside).0 in cc)
      ])

  still_fresh :
      (world : World encoding.Bytes)
      → world.transactions ≡ start.transactions
      → IsIdle (get ticket.transaction_id world.transactions)
  still_fresh world kept = subst IsIdle (sym (ap (get ticket.transaction_id) kept ∙ ready.fresh)) tt

  start_others : SameOthers ticket.transaction_id specs backups start start
  start_others other differs = refl

  written-Left :
      (world : World encoding.Bytes)
      → OnlyWrites paths encoding ticket.transaction_id backups start world
      → Left paths ticket.transaction_id specs backups start ready.apart world
  written-Left world (only, kept) = (
    inl (written-AllAsBefore world (only, kept), still_fresh world kept),
    SameOthers-same ticket.transaction_id specs backups start start world kept start_others,
  )

  pub commit_targets-Sat :
      Sat
        (commit_targets paths encoding ticket specs start)
        (Left paths ticket.transaction_id specs backups start ready.apart)
        (λ _. Committed paths ticket.transaction_id specs backups start ready.apart)
  unfolding commit_targets
  commit_targets-Sat =
      let id = ticket.transaction_id in
      let T = spec_paths specs in
      let P = Left paths id specs backups start ready.apart in
      let Q = λ (name : String) (world : World encoding.Bytes).
        Committed paths id specs backups start ready.apart world in
      let apart = ready.apart in
      Sat-after (back_up_each paths encoding id 0 specs start)
        (λ targets. write_record (new_record ticket targets) >>= λ _ world.
          settle paths (new_record ticket targets) ticket.settled_at
            (install_each paths id specs world))
        P (AllTaken paths encoding id T backups start.files apart 0 specs start) Q
        (Sat-weaken (back_up_each paths encoding id 0 specs start)
          (OnlyWrites paths encoding id backups start) P
          (AllTaken paths encoding id T backups start.files apart 0 specs start)
          (AllTaken paths encoding id T backups start.files apart 0 specs start)
          (back_up_each-Sat paths encoding id T backups start.files apart start 0 specs
            ready.backups_distinct (λ path m. m) (λ path m. m) (λ path m. refl))
          (λ later only. written-Left later only) (λ targets later h. h))
        (λ targets middle ((only, kept), saved, listed).
          let document = new_record ticket targets in
          let others = SameOthers-same id specs backups start start middle kept start_others in
          Sat-after (write_record document middle)
            (λ _ world. settle paths document ticket.settled_at (install_each paths id specs world))
            P
            (λ _ world.
              Ready paths id specs backups start apart world document
              × SameOthers id specs backups start world)
            Q
            (write_record-Sat ⊥ middle (λ c. absurd c) P
              (λ _ world.
                Ready paths id specs backups start apart world document
                × SameOthers id specs backups start world)
              document (λ fault. written-Left (passed middle) (only, kept))
              (λ fault.
                recorded-Left paths id specs backups start apart middle id torn refl tt others
                  (inl (written-AllAsBefore middle (only, kept))))
              (λ fault. (
                inr (
                    inr (
                      document,
                      get-recorded id specs backups start middle (whole document),
                      refl,
                      refl,
                      saved,
                      listed,
                    )),
                SameOthers-recorded id specs backups start middle (whole document) others,
              ))
              (
                (
                  get-recorded id specs backups start middle (whole document),
                  refl,
                  refl,
                  saved,
                  listed,
                ),
                SameOthers-recorded id specs backups start middle (whole document) others,
              ))
            (λ _ world (at_record, same).
              settle-Sat paths id specs backups start apart world document ticket.settled_at
                (install_each paths id specs world) at_record same
                (install_each-Sat paths id T backups apart world specs ready.targets_distinct
                  (λ path m. m))))
