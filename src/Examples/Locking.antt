-- ===== src/Examples/Locking.antt =====
-- RUNTIME/transactions.py: the lock of a project whose last owner, process 7, does not run any more.
use mystery_starter_kit.Common.{
  ℕ, String, false, ◌≡◌, ◌≢◌, refl, ◌⊎◌, eqb, Option, List, [], ◌∷◌, arith, none, some,
  if◌then◌else◌,
}
use mystery_starter_kit.Transactions.Disk.{returned, raised, crashed}
use mystery_starter_kit.Json.{lookup}
use mystery_starter_kit.Lock.Machine.{
  LockFile, Machine, Event, Turn, quiet_turn, mkdir, stat, read_document, unlink, open_exclusive,
  write,
}
use mystery_starter_kit.Lock.Project.{
  Signal, lock_document, lock_owner_is_running, remove_stale_lock, acquire_rounds,
  acquire_project_lock, release_project_lock, locked,
}
use mystery_starter_kit.Lock.Exclusive.{IsGone, acquire_project_lock-holds}
use mystery_starter_kit.Lock.Held.{ArePolite}
use mystery_starter_kit.Lock.Stale.{
  alone, own, IsFree, IsRefused, overtaken, empty_lock, acquire_project_lock-alone,
  release_project_lock-acquire_project_lock, acquire_project_lock-overtaken,
  acquire_project_lock-cut_off,
}

abbrev kill : ℕ → Signal
kill pid = if eqb pid 7 then Signal.no_such_process else Signal.delivered

abbrev stale : LockFile
stale = record { inode = 3; content = some (lock_document "RUN-A" 7 "09:00") }

acquired :
    acquire_project_lock kill "RUN-B" 8 "10:00" (alone (some stale))
    ≡ (alone (some (own kill "RUN-B" 8 "10:00")), returned tt)
unfolding acquire_project_lock acquire_rounds remove_stale_lock lock_owner_is_running mkdir stat
    read_document unlink open_exclusive write lookup
acquired = refl

-- The lock of process 9, which runs.
abbrev fresh : LockFile
fresh = record { inode = 4; content = some (lock_document "RUN-C" 9 "09:30") }

-- Another call that has found the lock of process 7 and made its own, between the steps of this one.
abbrev takes_over : Option LockFile → Option LockFile
takes_over none = some fresh
takes_over (some file) = some file

abbrev contended : Machine
contended = record {
  lock = some fresh;
  turns = record { meanwhile = takes_over; event = Event.fine; new_inode = 5 } ∷ [];
}

acquire_project_lock-holds_example :
    let (later, outcome) = acquire_project_lock kill "RUN-B" 8 "10:00" contended in
    (outcome ≡ returned tt
      → (inode : ℕ) × (later.lock
          ≡ some (record { inode = inode; content = some (lock_document "RUN-B" 8 "10:00") })))
    × ((file : LockFile)
        → contended.lock ≡ some file
        → ¬ IsGone kill file
        → (later.lock ≡ some file) × (outcome ≢ returned tt))
acquire_project_lock-holds_example =
    acquire_project_lock-holds kill "RUN-B" 8 "10:00" contended (λ file. refl, tt)

fresh-IsHeld : ¬ IsGone kill fresh
unfolding lookup
fresh-IsHeld (owner, named, gone) = ground (arith, named, gone)

acquire_project_lock-alone_example :
    (IsFree kill "RUN-B" 8 "10:00" (some stale)
      × (acquire_project_lock kill "RUN-B" 8 "10:00" (alone (some stale))
          ≡ (alone (some (own kill "RUN-B" 8 "10:00")), returned tt)))
    ⊎ ((file : LockFile) × (some stale ≡ some file)
        × (¬ IsFree kill "RUN-B" 8 "10:00" (some stale))
        × IsRefused kill "RUN-B" 8 "10:00" file)
acquire_project_lock-alone_example = acquire_project_lock-alone kill "RUN-B" 8 "10:00" (some stale)

release_project_lock-acquire_project_lock_example :
    (release_project_lock "RUN-B" (alone (some (own kill "RUN-B" 8 "10:00")))
      ≡ (alone none, returned tt))
    × ((other : String)
        → "RUN-B" ≢ other
        → release_project_lock other (alone (some (own kill "RUN-B" 8 "10:00")))
          ≡ (alone (some (own kill "RUN-B" 8 "10:00")), raised (locked false)))
release_project_lock-acquire_project_lock_example =
    release_project_lock-acquire_project_lock kill "RUN-B" 8 "10:00" (some stale)
      (alone (some (own kill "RUN-B" 8 "10:00"))) acquired

stale-IsFree : IsFree kill "RUN-B" 8 "10:00" (some stale)
unfolding lookup
stale-IsFree = (7, refl, refl)

acquire_project_lock-overtaken_example :
    (acquire_project_lock kill "RUN-C" 9 "10:00" (alone (some stale))
      ≡ (alone (some (own kill "RUN-C" 9 "10:00")), returned tt))
    × (acquire_project_lock kill "RUN-B" 8 "10:00"
          (record { lock = some stale; turns = overtaken (own kill "RUN-C" 9 "10:00") })
        ≡ (alone (some (own kill "RUN-B" 8 "10:00")), returned tt))
acquire_project_lock-overtaken_example =
    acquire_project_lock-overtaken kill "RUN-B" "RUN-C" 8 9 "10:00" stale stale-IsFree

abbrev dying : Turn
dying = record { meanwhile = takes_over; event = Event.crashes; new_inode = 0 }

abbrev making : Turn
making = record { meanwhile = λ lock. lock; event = Event.fine; new_inode = 6 }

acquire_project_lock-cut_off_example :
    (acquire_project_lock kill "RUN-B" 8 "10:00"
        (record { lock = none; turns = quiet_turn ∷ making ∷ dying ∷ [] })
      ≡ (alone (some (empty_lock 6)), crashed))
    × ((later : String) (later_pid : ℕ) (at : String)
        → ((turns : List Turn)
            → ArePolite turns
            → let (last, outcome) =
                acquire_project_lock kill later later_pid at
                  (record { lock = some (empty_lock 6); turns = turns }) in
              (last.lock ≡ some (empty_lock 6)) × (outcome ≢ returned tt))
          × (acquire_project_lock kill later later_pid at (alone (some (empty_lock 6)))
              ≡ (alone (some (empty_lock 6)), raised (locked false))))
acquire_project_lock-cut_off_example =
    acquire_project_lock-cut_off kill "RUN-B" 8 "10:00" quiet_turn making dying []
      (refl, refl, refl) (refl, refl, λ file. refl)
