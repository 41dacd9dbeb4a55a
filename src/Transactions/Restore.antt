-- ===== src/Transactions/Restore.antt =====
-- `restore_transaction_backups` of RUNTIME/transactions.py, under any schedule of faults.
use mystery_starter_kit.Common.{
  String, true, false, Bool-cases, ◌≡◌, refl, sym, ap, subst, ◌∙◌, inl, inr, ◌==◌, eq_iff, eq_refl,
  Option, none, some, List, [], ◌∷◌, Elem, Elem-head, Elem-tail, Elem-cons, not-Elem-nil, All,
}
use mystery_starter_kit.Failure.{ok}
use mystery_starter_kit.Transactions.Disk.{
  Target, TransactionRecord, Files, World, after, translated, changed, passed, moved, copy2,
  replace, unlink,
}
use mystery_starter_kit.Transactions.Sat.{
  Sat, Sat-after, Sat-translated, Sat-weaken, IsCalm, IsCalm-later, copy2-Sat, replace-Sat,
  unlink-Sat,
}
use mystery_starter_kit.Transactions.Commit.{
  Paths, backup_root, rollback_of, commit_error, transaction_member_path, restore_target,
  restore_each, backwards, restore_transaction_backups,
}
use mystery_starter_kit.Transactions.Saved.{
  target_paths, IsApart, eq-absent, eq-absent_right, IsSaved, Toward, Toward-trans, Toward-old,
  All-IsSaved-SameBackups,
}

All-backwards :
    (P : Target → Type 0) (entries done : List Target)
    → All P entries
    → All P done
    → All P (backwards entries done)
All-backwards P [] done h d = d
All-backwards P (entry ∷ entries) done (h, hs) d = All-backwards P entries (entry ∷ done) hs (h, d)

Elem-backwards_done :
    (path : String) (entries done : List Target)
    → Elem path (target_paths done)
    → Elem path (target_paths (backwards entries done))
Elem-backwards_done path [] done m = m
Elem-backwards_done path (entry ∷ entries) done m =
    Elem-backwards_done path entries (entry ∷ done)
      (Elem-tail path entry.target_path (target_paths done) m)

Elem-backwards :
    (path : String) (entries done : List Target)
    → Elem path (target_paths entries)
    → Elem path (target_paths (backwards entries done))
Elem-backwards path [] done m = absurd (not-Elem-nil path m)
Elem-backwards path (entry ∷ entries) done m =
    elim (Elem-cons path entry.target_path (target_paths entries) m) [
      | inr later ↦ Elem-backwards path entries (entry ∷ done) later
      | inl same ↦ Elem-backwards_done path entries (entry ∷ done) (
          subst (λ p. Elem p (target_paths (entry ∷ done))) (sym same)
            (Elem-head entry.target_path (target_paths done)))
    ]

transaction_member_path-inside :
    (paths : Paths) (path root : String)
    → paths.resolve path ≡ path
    → paths.within path (paths.resolve root) ≡ true
    → transaction_member_path paths path root ≡ ok path
unfolding transaction_member_path
transaction_member_path-inside paths path root same inside = rw (same, inside) refl

module _ {B : Type 0} (Calm : Type 0) (paths : Paths) (transaction_id : String) (T K : List String)
    (before : Files B) (apart : IsApart paths transaction_id T K) where
  -- What an interrupted restoration leaves.
  abbrev pub Broken : World B → World B → Type 0
  Broken world later = ¬ Calm × Toward T K before world later

  -- The world behind a restoration of `path`.
  abbrev Restored : World B → String → World B → Type 0
  Restored world path later =
      Toward T K before world later × IsCalm Calm later × (later.files path ≡ before path)

  changed_rollback :
      (world : World B) (t : String) (content : Option B)
      → Elem t T
      → Toward T K before world (changed (rollback_of paths t) content world)
  changed_rollback world t content m = (
    λ path k. inl (rw (eq-absent (rollback_of paths t) path T ((apart.rollback t m).0) k) refl),
    λ path k. rw (eq-absent (rollback_of paths t) path K ((apart.rollback t m).1) k) refl,
    refl,
  )

  passed_Toward : (world : World B) → Toward T K before world (passed world)
  passed_Toward world = (λ path k. inl refl, λ path k. refl, refl)

  target-backup : (t path : String) → Elem t T → Elem path K → (t == path) ≡ false
  target-backup t path m k = eq-absent_right t path T m ((apart.backup_inside path k).0)

  moved_rollback :
      (world : World B) (t : String) (content : B)
      → Elem t T
      → before t ≡ some content
      → Toward T K before world (moved (rollback_of paths t) t content world)
        × ((moved (rollback_of paths t) t content world).files t ≡ before t)
  moved_rollback world t content m old =
      let at_target : (moved (rollback_of paths t) t content world).files t ≡ before t =
        rw (eq-absent (rollback_of paths t) t T ((apart.rollback t m).0) m, eq_refl t) (sym old) in
      (
        (
          λ path k. elim (Bool-cases (t == path)) [
            | inl same ↦
                let e : t ≡ path = (eq_iff t path).0 same in
                inr (
                  subst (λ p. (moved (rollback_of paths t) t content world).files p ≡ before p) e
                    at_target)
            | inr other ↦
                inl (
                  rw (eq-absent (rollback_of paths t) path T ((apart.rollback t m).0) k, other)
                    refl)
          ],
          λ path k.
              rw
                (
                  eq-absent (rollback_of paths t) path K ((apart.rollback t m).1) k,
                  target-backup t path m k,
                )
                refl,
          refl,
        ),
        at_target,
      )

  unlinked :
      (world : World B) (t : String)
      → Elem t T
      → before t ≡ none
      → Toward T K before world (changed t none world) × ((changed t none world).files t ≡ before t)
  unlinked world t m old =
      let at_target : (changed t none world).files t ≡ before t = rw (eq_refl t) (sym old) in
      (
        (
          λ path k. elim (Bool-cases (t == path)) [
            | inl same ↦
                let e : t ≡ path = (eq_iff t path).0 same in
                inr (subst (λ p. (changed t none world).files p ≡ before p) e at_target)
            | inr other ↦ inl (rw other refl)
          ],
          λ path k. rw (target-backup t path m k) refl,
          refl,
        ),
        at_target,
      )

  copied_back :
      (world : World B) (entry : Target) (backup : String)
      → entry.existed_before ≡ true
      → entry.backup_path ≡ some backup
      → Elem entry.target_path T
      → Elem backup K
      → restore_target paths transaction_id entry world
        ≡ translated (commit_error false none) (
            after
              (copy2 backup (rollback_of paths entry.target_path) world)
              (λ _. replace (rollback_of paths entry.target_path) entry.target_path))
  unfolding restore_target
  copied_back world entry backup existed at m k =
      rw
        (
          transaction_member_path-inside paths entry.target_path paths.project
              ((apart.target_inside entry.target_path m).0)
              ((apart.target_inside entry.target_path m).1),
          existed,
          at,
          transaction_member_path-inside paths backup (backup_root paths transaction_id)
              ((apart.backup_inside backup k).1) ((apart.backup_inside backup k).2),
        )
        refl

  removed :
      (world : World B) (entry : Target)
      → entry.existed_before ≡ false
      → Elem entry.target_path T
      → restore_target paths transaction_id entry world
        ≡ translated (commit_error false none) (unlink entry.target_path world)
  unfolding restore_target
  removed world entry existed m =
      rw
        (
          transaction_member_path-inside paths entry.target_path paths.project
              ((apart.target_inside entry.target_path m).0)
              ((apart.target_inside entry.target_path m).1),
          existed,
        )
        refl

  restore_target-Sat :
      (world : World B) (entry : Target)
      → IsCalm Calm world
      → IsSaved T K before entry world.files
      → Sat
          (restore_target paths transaction_id entry world)
          (Broken world)
          (λ _. Restored world entry.target_path)
  restore_target-Sat world entry calm (m, inr (existed, old)) =
      subst (λ o. Sat o (Broken world) (λ _. Restored world entry.target_path))
        (sym (removed world entry existed m))
        (Sat-translated (commit_error false none) (unlink entry.target_path world) (Broken world)
          (λ _. Restored world entry.target_path)
          (unlink-Sat Calm world calm (Broken world) (λ _. Restored world entry.target_path)
            entry.target_path (λ fault. (fault, passed_Toward world))
            (let (toward, there) = unlinked world entry.target_path m old in
              (toward, IsCalm-later Calm world calm, there))))
  restore_target-Sat world entry calm (m, inl (existed, (backup, at, k, (content, old, held)))) =
      let t = entry.target_path in
      let temporary = rollback_of paths t in
      let copied = changed temporary (some content) world in
      subst (λ o. Sat o (Broken world) (λ _. Restored world t))
        (sym (copied_back world entry backup existed at m k))
        (Sat-translated (commit_error false none)
          (after (copy2 backup temporary world) (λ _. replace temporary t)) (Broken world)
          (λ _. Restored world t)
          (Sat-after (copy2 backup temporary world) (λ _. replace temporary t) (Broken world)
            (λ _ later. later ≡ copied) (λ _. Restored world t)
            (copy2-Sat Calm world calm (Broken world) (λ _ later. later ≡ copied) backup temporary
              (λ fault left. (fault, changed_rollback world t left m))
              (λ missing. absurd (let e = sym missing ∙ held in cc))
              (λ bytes e.
                let same : bytes ≡ content = (let f = sym e ∙ held in cc) in
                ap (λ c. changed temporary (some c) world) same))
            (λ _ later is_copied.
              subst (λ l. Sat (replace temporary t l) (Broken world) (λ _. Restored world t))
                (sym is_copied)
                (replace-Sat Calm copied (IsCalm-later Calm world calm) (Broken world)
                  (λ _. Restored world t) temporary t
                  (λ fault. (
                    fault,
                    Toward-trans T K before world copied (passed copied)
                        (changed_rollback world t (some content) m) (passed_Toward copied),
                  ))
                  (λ missing. absurd (
                    let here : copied.files temporary ≡ some content =
                      rw (eq_refl temporary) refl in
                    let e = sym missing ∙ here in cc))
                  (λ bytes e.
                    let here : copied.files temporary ≡ some content =
                      rw (eq_refl temporary) refl in
                    let same : content ≡ bytes = (let f = sym here ∙ e in cc) in
                    let (toward, there) =
                      moved_rollback copied t bytes m (old ∙ ap (λ c. some c) same) in
                    (
                      Toward-trans T K before world copied (moved temporary t bytes copied)
                          (changed_rollback world t (some content) m) toward,
                      IsCalm-later Calm copied (IsCalm-later Calm world calm),
                      there,
                    ))))))

  -- The world behind a restoration of `entries`.
  abbrev pub AllRestored : World B → List Target → World B → Type 0
  AllRestored world entries later =
      Toward T K before world later
      × IsCalm Calm later
      × ((path : String) → Elem path (target_paths entries) → later.files path ≡ before path)

  pub restore_each-Sat :
      (world : World B) (entries : List Target)
      → IsCalm Calm world
      → All (λ e. IsSaved T K before e world.files) entries
      → Sat
          (restore_each paths transaction_id entries world)
          (Broken world)
          (λ _. AllRestored world entries)
  unfolding restore_each
  restore_each-Sat world [] calm saved =
      ((λ path k. inl refl, λ path k. refl, refl), calm, λ path m. absurd (not-Elem-nil path m))
  restore_each-Sat world (entry ∷ entries) calm (saved, rest) =
      Sat-after (restore_target paths transaction_id entry world)
        (λ _. restore_each paths transaction_id entries) (Broken world)
        (λ _. Restored world entry.target_path) (λ _. AllRestored world (entry ∷ entries))
        (restore_target-Sat world entry calm saved)
        (λ _ middle (toward, still_calm, there).
          Sat-weaken (restore_each paths transaction_id entries middle) (Broken middle)
            (Broken world) (λ _. AllRestored middle entries)
            (λ _. AllRestored world (entry ∷ entries))
            (restore_each-Sat middle entries still_calm
              (All-IsSaved-SameBackups T K before entries world.files middle.files (toward.1) rest))
            (λ later (fault, onward).
              (fault, Toward-trans T K before world middle later toward onward))
            (λ _ later (onward, calm_still, all_there). (
              Toward-trans T K before world middle later toward onward,
              calm_still,
              λ path m. elim (Elem-cons path entry.target_path (target_paths entries) m) [
                | inr in_rest ↦ all_there path in_rest
                | inl same ↦
                    subst (λ p. later.files p ≡ before p) (sym same)
                      (Toward-old T K before middle later entry.target_path onward (saved.0) there)
              ],
            )))

  pub restore_transaction_backups-Sat :
      (world : World B) (document : TransactionRecord)
      → document.transaction_id ≡ transaction_id
      → IsCalm Calm world
      → All (λ e. IsSaved T K before e world.files) document.targets
      → Sat
          (restore_transaction_backups paths document world)
          (Broken world)
          (λ _. AllRestored world document.targets)
  unfolding restore_transaction_backups
  restore_transaction_backups-Sat world document named calm saved =
      let entries = backwards document.targets [] in
      subst
        (λ i.
          Sat (restore_each paths i entries world) (Broken world)
            (λ _. AllRestored world document.targets))
        (sym named)
        (Sat-weaken (restore_each paths transaction_id entries world) (Broken world) (Broken world)
          (λ _. AllRestored world entries) (λ _. AllRestored world document.targets)
          (restore_each-Sat world entries calm
            (All-backwards (λ e. IsSaved T K before e world.files) document.targets [] saved tt))
          (λ later h. h)
          (λ _ later (toward, still, there).
            (toward, still, λ path m. there path (Elem-backwards path document.targets [] m))))
