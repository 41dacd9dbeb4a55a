-- ===== src/Lock/Stale.antt =====
-- RUNTIME/transactions.py: what the functions of the lock do to a lock that is there, alone and when another
-- process comes between two of their steps.
use mystery_starter_kit.Common.{
  ℕ, String, true, false, ◌≡◌, ◌≢◌, refl, ap, sym, ◌∙◌, subst, ◌⊎◌, inl, inr, eqb, eq_refl,
  eq_false, Option, none, some, List, [], ◌∷◌, arith,
}
use mystery_starter_kit.Transactions.Disk.{Outcome, returned, crashed, raised}
use mystery_starter_kit.Json.{Value, lookup}
use mystery_starter_kit.Lock.Machine.{
  LockFile, Event, Turn, Machine, after, created, mkdir, exists, stat, read_document, unlink,
  open_exclusive, write, quiet_turn,
}
use mystery_starter_kit.Failure.{Failure, overflow_error}
use mystery_starter_kit.Lock.Held.{next_round, IsPolite, ArePolite}
use mystery_starter_kit.Lock.Exclusive.{acquire_project_lock-holds}
use mystery_starter_kit.Lock.Project.{
  Signal, delivered, no_such_process, not_permitted, refused, too_large, owner_of, lock_document,
  lock_owner_is_running, remove_stale_lock, acquire_rounds, acquire_project_lock,
  release_project_lock, locked,
}

-- Nobody interferes, and nothing breaks.
abbrev pub alone : Option LockFile → Machine
alone lock = record { lock = lock; turns = [] }

eqb_refl : (n : ℕ) → eqb n n ≡ true
eqb_refl n = ground arith

abbrev refusal_of : Signal → Failure
refusal_of delivered = locked true
refusal_of no_such_process = locked true
refusal_of not_permitted = locked true
refusal_of refused = locked false
refusal_of too_large = overflow_error

module _ (kill : ℕ → Signal) (run_id : String) (pid : ℕ) (acquired_at : String) where
  -- The lock that the call makes.
  abbrev pub own : LockFile
  own = record { inode = 0; content = some (lock_document run_id pid acquired_at) }

  -- There is no lock, or one whose owner is known not to run.
  abbrev pub IsFree : Option LockFile → Type 0
  IsFree none = Unit
  IsFree (some file) =
      (owner : ℕ) × (owner_of file.content ≡ some owner) × (kill owner ≡ no_such_process)

  -- The owner of a lock: it cannot be told, it runs or may run, or it does not.
  judged :
      (owner : Option ℕ)
      → ((owner ≡ none)
          ⊎ ((n : ℕ) × (owner ≡ some n)
              × ((kill n ≡ delivered)
                  ⊎ (kill n ≡ not_permitted)
                  ⊎ (kill n ≡ refused)
                  ⊎ (kill n ≡ too_large))))
        ⊎ ((n : ℕ) × (owner ≡ some n) × (kill n ≡ no_such_process))
  judged none = inl (inl refl)
  judged (some n) = go (kill n) refl
    where
      go :
          (signal : Signal)
          → kill n ≡ signal
          → ((some n ≡ none)
              ⊎ ((m : ℕ) × (some n ≡ some m)
                  × ((kill m ≡ delivered)
                      ⊎ (kill m ≡ not_permitted)
                      ⊎ (kill m ≡ refused)
                      ⊎ (kill m ≡ too_large))))
            ⊎ ((m : ℕ) × (some n ≡ some m) × (kill m ≡ no_such_process))
      go delivered e = inl (inr (n, refl, inl e))
      go not_permitted e = inl (inr (n, refl, inr (inl e)))
      go refused e = inl (inr (n, refl, inr (inr (inl e))))
      go too_large e = inl (inr (n, refl, inr (inr (inr e))))
      go no_such_process e = inr (n, refl, e)

  acquire_free :
      (lock : Option LockFile)
      → IsFree lock
      → acquire_project_lock kill run_id pid acquired_at (alone lock)
        ≡ (alone (some own), returned tt)
  unfolding acquire_project_lock acquire_rounds remove_stale_lock lock_owner_is_running mkdir stat
      read_document unlink open_exclusive write
  acquire_free none free = refl
  acquire_free (some file) (owner, named, gone) = rw (named, gone, eqb_refl (file.inode)) refl

  -- What the call raises for the lock of a file: the OverflowError of `os.kill`, or PROJECT_LOCKED, which is
  -- retryable exactly when the owner runs or may run.
  abbrev pub refusal : Option ℕ → Failure
  refusal none = locked false
  refusal (some owner) = refusal_of (kill owner)

  -- The call raises and leaves the lock.
  abbrev pub IsRefused : LockFile → Type 0
  IsRefused file =
      acquire_project_lock kill run_id pid acquired_at (alone (some file))
      ≡ (alone (some file), raised (refusal (owner_of file.content)))

  acquire_taken :
      (file : LockFile)
      → (owner_of file.content ≡ none)
        ⊎ ((n : ℕ) × (owner_of file.content ≡ some n)
            × ((kill n ≡ delivered)
                ⊎ (kill n ≡ not_permitted)
                ⊎ (kill n ≡ refused)
                ⊎ (kill n ≡ too_large)))
      → IsRefused file
  unfolding acquire_project_lock acquire_rounds remove_stale_lock lock_owner_is_running mkdir stat
      read_document unlink open_exclusive write
  acquire_taken file (inl unknown) = rw unknown refl
  acquire_taken file (inr (n, named, inl runs)) = rw (named, runs) refl
  acquire_taken file (inr (n, named, inr (inl runs))) = rw (named, runs) refl
  acquire_taken file (inr (n, named, inr (inr (inl runs)))) = rw (named, runs) refl
  acquire_taken file (inr (n, named, inr (inr (inr runs)))) = rw (named, runs) refl

  -- With no other process and nothing that breaks, acquire_project_lock either finds no lock or one whose
  -- owner does not run, and then returns and has put its own lock there; or it finds another lock and leaves
  -- it as it is: it raises PROJECT_LOCKED, as retryable when the owner runs or belongs to somebody else and as
  -- not retryable when no owner can be read or `os.kill` raises an OSError, and lets the OverflowError of
  -- `os.kill` pass.
  pub acquire_project_lock-alone :
      (lock : Option LockFile)
      → (IsFree lock
          × (acquire_project_lock kill run_id pid acquired_at (alone lock)
              ≡ (alone (some own), returned tt)))
        ⊎ ((file : LockFile) × (lock ≡ some file) × (¬ IsFree lock) × IsRefused file)
  acquire_project_lock-alone none = inl (tt, acquire_free none tt)
  acquire_project_lock-alone (some file) = elim (judged (owner_of file.content)) [
    | inr free ↦ inl (free, acquire_free (some file) free)
    | inl taken ↦ inr (file, refl, λ free. not_free file taken free, acquire_taken file taken)
  ]
    where
      not_free :
          (file : LockFile)
          → (owner_of file.content ≡ none)
            ⊎ ((n : ℕ) × (owner_of file.content ≡ some n)
                × ((kill n ≡ delivered)
                    ⊎ (kill n ≡ not_permitted)
                    ⊎ (kill n ≡ refused)
                    ⊎ (kill n ≡ too_large)))
          → ¬ IsFree (some file)
      not_free file (inl unknown) (owner, named, gone) = cc
      not_free file (inr (n, named, inl runs)) (owner, named', gone) = cc
      not_free file (inr (n, named, inr (inl runs))) (owner, named', gone) = cc
      not_free file (inr (n, named, inr (inr (inl runs)))) (owner, named', gone) = cc
      not_free file (inr (n, named, inr (inr (inr runs)))) (owner, named', gone) = cc

  -- A lock that acquire_project_lock has put there, with no other process and nothing that breaks, is
  -- removed when release_project_lock is called for the same run; for any other run, the call raises
  -- PROJECT_LOCKED and leaves the lock.
  pub release_project_lock-acquire_project_lock :
      (lock : Option LockFile) (held : Machine)
      → acquire_project_lock kill run_id pid acquired_at (alone lock) ≡ (held, returned tt)
      → (release_project_lock run_id held ≡ (alone none, returned tt))
        × ((other : String)
            → run_id ≢ other
            → release_project_lock other held ≡ (held, raised (locked false)))
  unfolding release_project_lock exists read_document unlink lookup
  release_project_lock-acquire_project_lock lock held h = elim (acquire_project_lock-alone lock) [
    | inl (free, acquired) ↦
        let same : alone (some own) ≡ held = ground (arith, acquired, h) in
        subst
          (λ machine.
            (release_project_lock run_id machine ≡ (alone none, returned tt))
            × ((other : String)
                → run_id ≢ other
                → release_project_lock other machine ≡ (machine, raised (locked false))))
          same (rw (eq_refl run_id) refl, λ other differs. rw (eq_false run_id other differs) refl)
    | inr (file, there, taken, refusal_stands) ↦ absurd (
        ground (
          arith,
          ap (λ l. acquire_project_lock kill run_id pid acquired_at (alone l)) there,
          refusal_stands,
          h,
        ))
  ]

-- The turns of a call, of which the sixth operation, the `unlink` of remove_stale_lock, finds a lock that
-- another process has made since the operation before.
abbrev pub overtaken : LockFile → List Turn
overtaken other =
    quiet_turn
    ∷ quiet_turn
    ∷ quiet_turn
    ∷ quiet_turn
    ∷ quiet_turn
    ∷ record { meanwhile = λ lock. some other; event = Event.fine; new_inode = 0 }
    ∷ []

-- Two calls that find the same lock of a process that does not run both return, if the second runs as a whole
-- between the last look of the first at the inode and its unlink: the first removes the lock that the second
-- has just made, and puts its own there.
pub acquire_project_lock-overtaken :
    (kill : ℕ → Signal) (first second : String) (pid other_pid : ℕ) (acquired_at : String)
    (stale : LockFile)
    → IsFree kill first pid acquired_at (some stale)
    → (acquire_project_lock kill second other_pid acquired_at (alone (some stale))
        ≡ (alone (some (own kill second other_pid acquired_at)), returned tt))
      × (acquire_project_lock kill first pid acquired_at (record {
        lock = some stale;
        turns = overtaken (own kill second other_pid acquired_at);
      })
          ≡ (alone (some (own kill first pid acquired_at)), returned tt))
unfolding acquire_project_lock acquire_rounds remove_stale_lock lock_owner_is_running mkdir stat
    read_document unlink open_exclusive write
acquire_project_lock-overtaken kill first second pid other_pid acquired_at stale
      (owner, named, gone) =
    (rw (named, gone, eqb_refl (stale.inode)) refl, rw (named, gone, eqb_refl (stale.inode)) refl)

-- The file that a call has made and not yet written.
abbrev pub empty_lock : ℕ → LockFile
empty_lock inode = record { inode = inode; content = none }

events :
    (a b c : Event)
    → a ≡ Event.fine
    → b ≡ Event.fine
    → c ≡ Event.crashes
    → ◌≡◌ {A = Event × Event × Event} (a, b, c) (Event.fine, Event.fine, Event.crashes)
events a b c first second third = rw (first, second, third) refl

-- The call that dies, on turns whose events are known.
dies_in_write :
    (kill : ℕ → Signal) (run_id : String) (pid : ℕ) (acquired_at : String)
    (first second third : Turn) (rest : List Turn)
    → first.meanwhile none ≡ none
    → second.meanwhile none ≡ none
    → IsPolite third
    → acquire_project_lock kill run_id pid acquired_at (record {
      lock = none;
      turns =
          record first { event = Event.fine }
          ∷ record second { event = Event.fine }
          ∷ record third { event = Event.crashes }
          ∷ rest;
    })
      ≡ (record { lock = some (empty_lock second.new_inode); turns = rest }, crashed)
unfolding acquire_project_lock acquire_rounds mkdir open_exclusive write
dies_in_write kill run_id pid acquired_at first second third rest first_none second_none polite =
    let behind : List Turn =
      record second { event = Event.fine } ∷ record third { event = Event.crashes } ∷ rest in
    let content : Value = lock_document run_id pid acquired_at in
    let done : Machine × Outcome (Unit {0}) =
      (record { lock = some (empty_lock second.new_inode); turns = rest }, crashed) in
    subst
      (λ lock.
        after (acquire_rounds kill 2 (record { lock = lock; turns = behind }))
          (λ descriptor. write descriptor content)
        ≡ done)
      (sym first_none)
      (subst
        (λ lock.
          after
            (after (created second.new_inode lock (record { lock = none; turns = behind }))
              (next_round kill 1))
            (λ descriptor. write descriptor content)
          ≡ done)
        (sym second_none)
        (ap (λ lock. (record { lock = lock; turns = rest }, crashed))
          (polite (empty_lock second.new_inode))))

-- When there is no lock and other processes make none in the first two operations of acquire_project_lock,
-- which are fine, and the process of the run dies in the third, the write of its document, the lock stays
-- without a document. From any such lock, whatever the other processes and the steps that break, as long as
-- the others leave a lock that is there as it is, every later call leaves it there and does not return; with no
-- other process and nothing that breaks it raises PROJECT_LOCKED as not retryable.
pub acquire_project_lock-cut_off :
    (kill : ℕ → Signal) (run_id : String) (pid : ℕ) (acquired_at : String)
    (first second third : Turn) (rest : List Turn)
    → (first.event ≡ Event.fine) × (second.event ≡ Event.fine) × (third.event ≡ Event.crashes)
    → (first.meanwhile none ≡ none) × (second.meanwhile none ≡ none) × IsPolite third
    → let left = empty_lock second.new_inode in
      (acquire_project_lock kill run_id pid acquired_at
          (record { lock = none; turns = first ∷ second ∷ third ∷ rest })
        ≡ (record { lock = some left; turns = rest }, crashed))
      × ((later : String) (later_pid : ℕ) (at : String)
          → ((turns : List Turn)
              → ArePolite turns
              → let (last, outcome) =
                  acquire_project_lock kill later later_pid at
                    (record { lock = some left; turns = turns }) in
                (last.lock ≡ some left) × (outcome ≢ returned tt))
            × (acquire_project_lock kill later later_pid at (alone (some left))
                ≡ (alone (some left), raised (locked false))))
acquire_project_lock-cut_off kill run_id pid acquired_at first second third rest
      (first_fine, second_fine, dies) (first_none, second_none, third_polite) =
    (
      ap
            (λ (a, b, c). acquire_project_lock kill run_id pid acquired_at (record {
              lock = none;
              turns =
                  record first { event = a }
                  ∷ record second { event = b }
                  ∷ record third { event = c }
                  ∷ rest;
            }))
            (events first.event second.event third.event first_fine second_fine dies)
          ∙ dies_in_write kill run_id pid acquired_at first second third rest first_none second_none
              third_polite,
      λ later later_pid at. (
        λ turns polite.
            (acquire_project_lock-holds kill later later_pid at
                (record { lock = some (empty_lock second.new_inode); turns = turns }) polite).1
              (empty_lock second.new_inode) refl (λ (owner, named, gone). cc),
        unfold acquire_project_lock acquire_rounds remove_stale_lock lock_owner_is_running mkdir
              stat read_document unlink open_exclusive write in
            refl,
      ),
    )
