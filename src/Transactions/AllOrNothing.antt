-- ===== src/Transactions/AllOrNothing.antt =====
-- A commit and the recovery behind it, RUNTIME/transactions.py: all targets are installed or none is.
use mystery_starter_kit.Common.{
  String, text_cases, is_some, ◌≡◌, ◌≢◌, refl, sym, ap, subst, ◌∙◌, ◌⊎◌, inl, inr, Option, none,
  some, List, [], Elem, get, keys, mem-keys, arith,
}
use mystery_starter_kit.Runtime.Store.{JsonFile, whole, torn}
use mystery_starter_kit.Dependency.Changes.{sorted_set}
use mystery_starter_kit.Dependency.Invalidation.{mem-sorted_set}
use mystery_starter_kit.Transactions.Next.{Encoding}
use mystery_starter_kit.Transactions.Disk.{
  TransactionRecord, Outcome, returned, os_error, crashed, raised, World,
}
use mystery_starter_kit.Transactions.Sat.{Sat, Sat-weaken}
use mystery_starter_kit.Transactions.Commit.{Paths, Spec, Ticket, is_prepared}
use mystery_starter_kit.Transactions.Recover.{recover_prepared_transactions}
use mystery_starter_kit.Transactions.Install.{AllInstalled}
use mystery_starter_kit.Transactions.Settled.{IsIdle, AllAsBefore, IsPending, SameOthers}
use mystery_starter_kit.Transactions.Atomic.{Left, Committed, IsStart, backups}
use mystery_starter_kit.Transactions.Recovery.{IsQuiet, recover_each_quiet, recover_each_pending}

-- A new process on the same disk, with no fault due.
abbrev pub restarted : {B : Type 0} → World B → World B
restarted world = record world { faults = [] }

module _ {B : Type 0} where
  -- Every record can be read, and none is PREPARED.
  abbrev pub AllQuiet : World B → Type 0
  AllQuiet world = (name : String) → Elem name (keys world.transactions) → IsQuiet world name

  idle-IsQuiet :
      (world : World B) (name : String) (file : Option (JsonFile TransactionRecord))
      → get name world.transactions ≡ file
      → IsIdle file
      → file ≢ some torn
      → Elem name (keys world.transactions)
      → IsQuiet world name
  idle-IsQuiet world name none at idle whole_file m =
      absurd (ground (arith, mem-keys name world.transactions))
  idle-IsQuiet world name (some torn) at idle whole_file m = absurd (whole_file refl)
  idle-IsQuiet world name (some (whole document)) at idle whole_file m = (document, at, idle)

module _ (paths : Paths) (encoding : Encoding) (ticket : Ticket)
    (specs : List (Spec encoding.Bytes)) (start : World encoding.Bytes)
    (ready : IsStart encoding paths ticket specs start) (quiet : AllQuiet start)
    (recovered_at : String) where
  others-IsQuiet :
      (world : World encoding.Bytes)
      → SameOthers ticket.transaction_id specs
          (backups paths encoding ticket specs start ready)
          start
          world
      → (name : String) → ticket.transaction_id ≢ name
      → Elem name (keys world.transactions)
      → IsQuiet (restarted world) name
  others-IsQuiet world same name differs m =
      let there : Elem name (keys start.transactions) =
        mem-keys name start.transactions
        ∙ ap is_some (sym (same name differs))
        ∙ sym (mem-keys name world.transactions)
        ∙ m in
      let (document, at, idle) = quiet name there in (document, same name differs ∙ at, idle)

  all-IsQuiet :
      (world : World encoding.Bytes)
      → SameOthers ticket.transaction_id specs
          (backups paths encoding ticket specs start ready)
          start
          world
      → IsIdle (get ticket.transaction_id world.transactions)
      → get ticket.transaction_id world.transactions ≢ some torn
      → (name : String) → Elem name (sorted_set (keys world.transactions))
      → IsQuiet (restarted world) name
  all-IsQuiet world same idle whole_file name m =
      let there : Elem name (keys world.transactions) =
        sym (mem-sorted_set name (keys world.transactions)) ∙ m in
      elim (text_cases ticket.transaction_id name) [
        | inr differs ↦ others-IsQuiet world same name differs there
        | inl this ↦
            subst (λ n. Elem n (keys world.transactions) → IsQuiet (restarted world) n) this
              (λ k.
                idle-IsQuiet (restarted world) ticket.transaction_id
                  (get ticket.transaction_id world.transactions) refl idle whole_file k)
              there
      ]

  quiet-Sat :
      (world : World encoding.Bytes)
      → SameOthers ticket.transaction_id specs
          (backups paths encoding ticket specs start ready)
          start
          world
      → IsIdle (get ticket.transaction_id world.transactions)
      → get ticket.transaction_id world.transactions ≢ some torn
      → Sat
          (recover_prepared_transactions paths recovered_at (restarted world))
          (λ later. ⊥)
          (λ _ later. later ≡ restarted world)
  unfolding recover_prepared_transactions
  quiet-Sat world same idle whole_file =
      recover_each_quiet paths recovered_at (restarted world) (sorted_set (keys world.transactions))
        (all-IsQuiet world same idle whole_file)

  pending-Sat :
      (world : World encoding.Bytes)
      → SameOthers ticket.transaction_id specs
          (backups paths encoding ticket specs start ready)
          start
          world
      → IsPending ticket.transaction_id specs
          (backups paths encoding ticket specs start ready)
          start
          world
      → Sat
          (recover_prepared_transactions paths recovered_at (restarted world))
          (λ later. ⊥)
          (λ _ later.
            AllAsBefore ticket.transaction_id specs
              (backups paths encoding ticket specs start ready)
              start
              later.files)
  unfolding recover_prepared_transactions
  pending-Sat world same (document, at, status, named, saved, listed) =
      let here : Elem ticket.transaction_id (keys world.transactions) =
        mem-keys ticket.transaction_id world.transactions ∙ ap is_some at in
      recover_each_pending paths recovered_at ticket.transaction_id specs
        (backups paths encoding ticket specs start ready) start ready.apart (restarted world)
        (sorted_set (keys world.transactions)) refl (document, at, status, named, saved, listed)
        (mem-sorted_set ticket.transaction_id (keys world.transactions) ∙ here)
        (λ name m differs.
          others-IsQuiet world same name differs
            (sym (mem-sorted_set name (keys world.transactions)) ∙ m))

  -- All targets are as before the commit, or all have the content intended for them.
  abbrev pub AllOrNone : World encoding.Bytes → Type 0
  AllOrNone world =
      AllAsBefore ticket.transaction_id specs (backups paths encoding ticket specs start ready)
        start world.files
      ⊎ AllInstalled specs world.files

  -- Recovery without a PREPARED record keeps what holds of the files.
  quiet_kept :
      (P : World encoding.Bytes → Type 0) (world : World encoding.Bytes)
      → SameOthers ticket.transaction_id specs
          (backups paths encoding ticket specs start ready)
          start
          world
      → IsIdle (get ticket.transaction_id world.transactions)
      → get ticket.transaction_id world.transactions ≢ some torn
      → P (restarted world)
      → Sat
          (recover_prepared_transactions paths recovered_at (restarted world))
          (λ later. ⊥)
          (λ _. P)
  quiet_kept P world same idle whole_file holds =
      Sat-weaken (recover_prepared_transactions paths recovered_at (restarted world)) (λ later. ⊥)
        (λ later. ⊥) (λ _ later. later ≡ restarted world) (λ _. P)
        (quiet-Sat world same idle whole_file) (λ later h. h) (λ _ later e. subst P (sym e) holds)

  Left-recovered :
      (world : World encoding.Bytes)
      → Left paths ticket.transaction_id specs
          (backups paths encoding ticket specs start ready)
          start
          ready.apart
          world
      → get ticket.transaction_id world.transactions ≢ some torn
      → Sat
          (recover_prepared_transactions paths recovered_at (restarted world))
          (λ later. ⊥)
          (λ _. AllOrNone)
  Left-recovered world (inl (before, idle), same) whole_file =
      quiet_kept AllOrNone world same idle whole_file (inl before)
  Left-recovered world (inr (inl (installed, idle)), same) whole_file =
      quiet_kept AllOrNone world same idle whole_file (inr installed)
  Left-recovered world (inr (inr pending), same) whole_file =
      Sat-weaken (recover_prepared_transactions paths recovered_at (restarted world)) (λ later. ⊥)
        (λ later. ⊥)
        (λ _ later.
          AllAsBefore ticket.transaction_id specs (backups paths encoding ticket specs start ready)
            start later.files)
        (λ _. AllOrNone) (pending-Sat world same pending) (λ later h. h)
        (λ _ later before. inl before)

  pub Committed-recovered :
      (world : World encoding.Bytes)
      → Committed paths ticket.transaction_id specs
          (backups paths encoding ticket specs start ready)
          start
          ready.apart
          world
      → Sat
          (recover_prepared_transactions paths recovered_at (restarted world))
          (λ later. ⊥)
          (λ _ later. AllInstalled specs later.files)
  Committed-recovered world (installed, (document, at, status), same) =
      quiet_kept (λ later. AllInstalled specs later.files) world same
        (subst IsIdle (sym at) (ap is_prepared status)) (λ cut. (let e = sym at ∙ cut in cc))
        installed

  pub outcome_recovered :
      (world : World encoding.Bytes) (outcome : Outcome String)
      → Sat
          (world, outcome)
          (Left paths ticket.transaction_id specs
            (backups paths encoding ticket specs start ready)
            start
            ready.apart)
          (λ _.
            Committed paths ticket.transaction_id specs
              (backups paths encoding ticket specs start ready)
              start
              ready.apart)
      → get ticket.transaction_id world.transactions ≢ some torn
      → Sat
          (recover_prepared_transactions paths recovered_at (restarted world))
          (λ later. ⊥)
          (λ _. AllOrNone)
  outcome_recovered world os_error h whole_file = Left-recovered world h whole_file
  outcome_recovered world crashed h whole_file = Left-recovered world h whole_file
  outcome_recovered world (raised failure) h whole_file = Left-recovered world h whole_file
  outcome_recovered world (returned name) h whole_file =
      Sat-weaken (recover_prepared_transactions paths recovered_at (restarted world)) (λ later. ⊥)
        (λ later. ⊥) (λ _ later. AllInstalled specs later.files) (λ _. AllOrNone)
        (Committed-recovered world h) (λ later k. k) (λ _ later installed. inr installed)
