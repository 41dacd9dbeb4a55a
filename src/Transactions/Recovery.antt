-- ===== src/Transactions/Recovery.antt =====
-- `recover_prepared_transactions` of RUNTIME/transactions.py behind a commit that stopped anywhere: a
-- calm disk, and all is as before the commit or all is installed.
use mystery_starter_kit.Common.{
  String, true, false, text_cases, ◌≡◌, ◌≢◌, refl, sym, ap, subst, ◌∙◌, inl, inr, some, List, [],
  ◌∷◌, ◌++◌, Elem, Elem-head, Elem-tail, Elem-cons, not-Elem-nil, get,
}
use mystery_starter_kit.Runtime.Store.{whole}
use mystery_starter_kit.Transactions.Disk.{
  TransactionRecord, TransactionStatus, returned, World, after, recorded, write_record, give, ◌>>=◌,
  ◌>>◌,
}
use mystery_starter_kit.Transactions.Sat.{Sat, Sat-after, Sat-weaken, write_record-Sat}
use mystery_starter_kit.Transactions.Commit.{Paths, Spec, is_prepared, restore_transaction_backups}
use mystery_starter_kit.Transactions.Recover.{load_record, recover_one, recover_each}
use mystery_starter_kit.Transactions.Saved.{IsApart}
use mystery_starter_kit.Transactions.Restore.{Broken, AllRestored, restore_transaction_backups-Sat}
use mystery_starter_kit.Transactions.Install.{spec_paths}
use mystery_starter_kit.Transactions.Settled.{
  AllAsBefore, IsPending, SameOthers-recorded, get-recorded,
}

-- The record can be read and is not PREPARED.
abbrev pub IsQuiet : {B : Type 0} → World B → String → Type 0
IsQuiet world name =
    (document : TransactionRecord) × (get name world.transactions ≡ some (whole document))
    × (is_prepared document.status ≡ false)

module _ (paths : Paths) {B : Type 0} (recovered_at : String) where
  pub recover_one_quiet :
      (world : World B) (name : String)
      → IsQuiet world name
      → recover_one paths recovered_at name world ≡ (world, returned [])
  unfolding recover_one load_record
  recover_one_quiet world name (document, at, idle) = rw (load_record, at, idle) refl

  recover_one_prepared :
      (world : World B) (name : String) (document : TransactionRecord)
      → get name world.transactions ≡ some (whole document)
      → is_prepared document.status ≡ true
      → recover_one paths recovered_at name world
        ≡ after (restore_transaction_backups paths document world) (λ _.
          write_record (record document {
            status = TransactionStatus.rolled_back;
            rolled_back_at = some recovered_at;
          })
          >> give (document.transaction_id ∷ []))
  unfolding recover_one load_record
  recover_one_prepared world name document at status = rw (load_record, at, status) refl

  -- Where no record is PREPARED, recovery returns and changes no file.
  pub recover_each_quiet :
      (world : World B) (names : List String)
      → ((name : String) → Elem name names → IsQuiet world name)
      → Sat (recover_each paths recovered_at names world) (λ later. ⊥) (λ _ later. later ≡ world)
  unfolding recover_each
  recover_each_quiet world [] quiet = refl
  recover_each_quiet world (name ∷ names) quiet =
      subst
        (λ o.
          Sat
            (after o
              (λ first. recover_each paths recovered_at names >>= λ rest. give (first ++ rest)))
            (λ later. ⊥) (λ _ later. later ≡ world))
        (sym (recover_one_quiet world name (quiet name (Elem-head name names))))
        (Sat-after (recover_each paths recovered_at names world) (λ rest. give ([] ++ rest))
          (λ later. ⊥) (λ _ later. later ≡ world) (λ _ later. later ≡ world)
          (recover_each_quiet world names (λ n m. quiet n (Elem-tail n name names m)))
          (λ rest later h. h))

module _ {B : Type 0} (paths : Paths) (recovered_at transaction_id : String) (specs : List (Spec B))
    (K : List String) (start : World B)
    (apart : IsApart paths transaction_id (spec_paths specs) K) where
  -- Behind the recovery of a pending transaction all is as before it, and its record is not PREPARED.
  abbrev Recovered : World B → World B → Type 0
  Recovered world later =
      AllAsBefore transaction_id specs K start later.files
      × IsQuiet later transaction_id
      × ((other : String)
          → transaction_id ≢ other
          → get other later.transactions ≡ get other world.transactions)

  recover_one_pending :
      (world : World B)
      → world.faults ≡ []
      → IsPending transaction_id specs K start world
      → Sat
          (recover_one paths recovered_at transaction_id world)
          (λ later. ⊥)
          (λ _. Recovered world)
  recover_one_pending world calm (document, at, status, named, saved, listed) =
      let settled = record document {
        status = TransactionStatus.rolled_back;
        rolled_back_at = some recovered_at;
      } in
      let rest =
        λ (_ : Unit {0}). write_record {B = B} settled >> give (document.transaction_id ∷ []) in
      subst (λ o. Sat o (λ later. ⊥) (λ _. Recovered world))
        (sym (recover_one_prepared paths recovered_at world transaction_id document at status))
        (Sat-after (restore_transaction_backups paths document world) rest (λ later. ⊥)
          (λ _.
            AllRestored Unit paths transaction_id (spec_paths specs) K start.files apart world
              document.targets)
          (λ _. Recovered world)
          (Sat-weaken (restore_transaction_backups paths document world)
            (Broken Unit paths transaction_id (spec_paths specs) K start.files apart world)
            (λ later. ⊥)
            (λ _.
              AllRestored Unit paths transaction_id (spec_paths specs) K start.files apart world
                document.targets)
            (λ _.
              AllRestored Unit paths transaction_id (spec_paths specs) K start.files apart world
                document.targets)
            (restore_transaction_backups-Sat Unit paths transaction_id (spec_paths specs) K
              start.files apart world document named (λ _. calm) saved)
            (λ later (fault, h). fault tt) (λ _ later h. h))
          (λ _ later ((toward, same, kept), still, there).
            let before : AllAsBefore transaction_id specs K start later.files =
              λ path m. there path (subst (Elem path) (sym listed) m) in
            Sat-after (write_record settled later) (λ _. give (document.transaction_id ∷ []))
              (λ later. ⊥) (λ _. Recovered world) (λ _. Recovered world)
              (write_record-Sat Unit later still (λ later. ⊥) (λ _. Recovered world) settled
                (λ fault. fault tt) (λ fault. fault tt) (λ fault. fault tt)
                (subst (λ n. Recovered world (recorded n (whole settled) later)) (sym named)
                  (
                    before,
                    (
                      settled,
                      get-recorded transaction_id specs K start later (whole settled),
                      refl,
                    ),
                    λ other differs.
                        SameOthers-recorded transaction_id specs K later later (whole settled)
                          (λ o d. refl) other differs
                        ∙ ap (get other) kept,
                  )))
              (λ _ last h. h)))

  pub recover_each_pending :
      (world : World B) (names : List String)
      → world.faults ≡ []
      → IsPending transaction_id specs K start world
      → Elem transaction_id names
      → ((name : String) → Elem name names → transaction_id ≢ name → IsQuiet world name)
      → Sat
          (recover_each paths recovered_at names world)
          (λ later. ⊥)
          (λ _ later. AllAsBefore transaction_id specs K start later.files)
  unfolding recover_each
  recover_each_pending world [] calm pending m quiet = absurd (not-Elem-nil transaction_id m)
  recover_each_pending world (name ∷ names) calm pending m quiet =
      let P = λ (later : World B). ⊥ in
      let Q = λ (done : List String) (later : World B).
        AllAsBefore transaction_id specs K start later.files in
      let next = λ (first : List String).
        recover_each paths {B = B} recovered_at names >>= λ rest. give (first ++ rest) in
      elim (text_cases transaction_id name) [
        | inl same ↦
            subst (λ n. Sat (after (recover_one paths recovered_at n world) next) P Q) same
              (Sat-after (recover_one paths recovered_at transaction_id world) next P
                (λ _. Recovered world) Q (recover_one_pending world calm pending)
                (λ first middle (before, quiet_now, others).
                  Sat-after (recover_each paths recovered_at names middle)
                    (λ rest. give (first ++ rest)) P (λ _ later. later ≡ middle) Q
                    (recover_each_quiet paths recovered_at middle names (λ n k.
                      elim (text_cases transaction_id n) [
                        | inl this ↦ subst (IsQuiet middle) this quiet_now
                        | inr other ↦
                            let (document, at, idle) = quiet n (Elem-tail n name names k) other in
                            (document, others n other ∙ at, idle)
                      ]))
                    (λ rest later e. subst (λ w. Q rest w) (sym e) before)))
        | inr differs ↦
            subst (λ o. Sat (after o next) P Q)
              (sym (
                recover_one_quiet paths recovered_at world name
                  (quiet name (Elem-head name names) differs)))
              (Sat-after (recover_each paths recovered_at names world) (λ rest. give ([] ++ rest)) P
                Q Q
                (recover_each_pending world names calm pending
                  (elim (Elem-cons transaction_id name names m) [
                    | inl same ↦ absurd (differs same)
                    | inr later ↦ later
                  ])
                  (λ n k other. quiet n (Elem-tail n name names k) other))
                (λ rest later h. h))
      ]
