-- ===== src/Lock/Exclusive.antt =====
-- RUNTIME/transactions.py: `acquire_project_lock` does not take a lock away from an owner that may run, while
-- other processes come between any two steps, and while steps break.
use mystery_starter_kit.Common.{
  ℕ, zero, suc, String, Bool, true, false, ◌≡◌, ◌≢◌, refl, ap, sym, false≢true, ◌∙◌, eqb, Option,
  none, some, if◌then◌else◌,
}
use mystery_starter_kit.Transactions.Disk.{Outcome, returned, os_error, crashed, raised}
use mystery_starter_kit.Failure.{Failure}
use mystery_starter_kit.Json.{Value}
use mystery_starter_kit.Lock.Machine.{
  LockFile, Event, fine, breaks, crashes, Machine, Step, after, ◌>>=◌, ◌>>◌, raise, found, under,
  next_turn, mkdir, stat, read_document, open_exclusive, write, translated,
}
use mystery_starter_kit.Lock.Project.{
  Signal, delivered, no_such_process, not_permitted, refused, too_large, running, ask, owner_of,
  lock_document, lock_owner_is_running, remove_stale_lock, acquire_rounds, acquire_project_lock,
  locked,
}
use mystery_starter_kit.Lock.Held.{
  ArePolite, later-ArePolite, next-IsPolite, last_look, next_round, acquired-Holds,
}

-- The lock is still the file, and what is returned, if Anything is, has a property.
abbrev pub Keeps : {D : Type 0} → LockFile → (D → Type 0) → Machine × Outcome D → Type 0
Keeps file P (machine, returned value) =
    (machine.lock ≡ some file) × ArePolite machine.turns × P value
Keeps file P (machine, os_error) = (machine.lock ≡ some file) × ArePolite machine.turns
Keeps file P (machine, crashed) = (machine.lock ≡ some file) × ArePolite machine.turns
Keeps file P (machine, raised failure) = (machine.lock ≡ some file) × ArePolite machine.turns

-- The lock is the file, and the others leave it.
abbrev Stands : LockFile → Machine → Type 0
Stands file machine = (machine.lock ≡ some file) × ArePolite machine.turns

abbrev Anything : {D : Type 0} → D → Type 0
Anything value = Unit

Keeps-after :
    {D E : Type 0} (file : LockFile) (outcome : Machine × Outcome D) (next : D → Step E)
    (P : D → Type 0) (Q : E → Type 0)
    → Keeps file P outcome
    → ((value : D) (machine : Machine)
        → Stands file machine
        → P value
        → Keeps file Q (next value machine))
    → Keeps file Q (after outcome next)
Keeps-after file (machine, returned value) next P Q (stands, polite, p) k =
    k value machine (stands, polite) p
Keeps-after file (machine, os_error) next P Q h k = h
Keeps-after file (machine, crashed) next P Q h k = h
Keeps-after file (machine, raised failure) next P Q h k = h

Keeps-translated :
    {D : Type 0} (file : LockFile) (failure : Failure) (outcome : Machine × Outcome D)
    (P : D → Type 0)
    → Keeps file P outcome
    → Keeps file P (translated failure outcome)
Keeps-translated file failure (machine, returned value) P h = h
Keeps-translated file failure (machine, os_error) P h = h
Keeps-translated file failure (machine, crashed) P h = h
Keeps-translated file failure (machine, raised other) P h = h

Stands-found :
    (file : LockFile) (machine : Machine) → Stands file machine → found machine ≡ some file
Stands-found file machine (stands, polite) =
    ap (next_turn machine.turns).meanwhile stands ∙ next-IsPolite machine.turns polite file

Keeps-under :
    {D : Type 0} (file : LockFile) (event : Event) (done : Machine × Outcome D) (machine : Machine)
    (P : D → Type 0)
    → Stands file machine
    → Keeps file P done
    → Keeps file P (under event done machine)
Keeps-under file fine done machine P h k = k
Keeps-under file breaks done machine P h k =
    (Stands-found file machine h, later-ArePolite machine.turns h.1)
Keeps-under file crashes done machine P h k =
    (Stands-found file machine h, later-ArePolite machine.turns h.1)

mkdir-Keeps :
    (file : LockFile) (machine : Machine)
    → Stands file machine
    → Keeps file Anything (mkdir machine)
unfolding mkdir
mkdir-Keeps file machine h =
    Keeps-under file (next_turn machine.turns).event _ machine Anything h
      (Stands-found file machine h, later-ArePolite machine.turns h.1, tt)

stat-Keeps :
    (file : LockFile) (machine : Machine) → Stands file machine → Keeps file Anything (stat machine)
unfolding stat
stat-Keeps file machine h =
    Keeps-under file (next_turn machine.turns).event _ machine Anything h
      (rw (Stands-found file machine h) (refl, later-ArePolite machine.turns h.1, tt))

abbrev IsContent : LockFile → Option Value → Type 0
IsContent file content = content ≡ file.content

read_document-Keeps :
    (file : LockFile) (machine : Machine)
    → Stands file machine
    → Keeps file (IsContent file) (read_document machine)
unfolding read_document
read_document-Keeps file machine h =
    Keeps-under file (next_turn machine.turns).event _ machine (IsContent file) h
      (rw (Stands-found file machine h) (refl, later-ArePolite machine.turns h.1, refl))

abbrev IsNone : Option ℕ → Type 0
IsNone opened = opened ≡ none

open_exclusive-Keeps :
    (file : LockFile) (machine : Machine)
    → Stands file machine
    → Keeps file IsNone (open_exclusive machine)
unfolding open_exclusive
open_exclusive-Keeps file machine h =
    Keeps-under file (next_turn machine.turns).event _ machine IsNone h
      (rw (Stands-found file machine h) (refl, later-ArePolite machine.turns h.1, refl))

abbrev Never : {D : Type 0} → D → Type 0
Never value = ⊥

module _ (kill : ℕ → Signal) where
  -- The lock names its owner, and that process is known not to run.
  abbrev pub IsGone : LockFile → Type 0
  IsGone file = (owner : ℕ) × (owner_of file.content ≡ some owner) × (kill owner ≡ no_such_process)

  abbrev IsTrue : Bool → Type 0
  IsTrue alive = alive ≡ true

  running-Keeps :
      (file : LockFile) (signal : Signal) (machine : Machine)
      → signal ≢ no_such_process
      → Stands file machine
      → Keeps file IsTrue (running signal machine)
  running-Keeps file delivered machine runs (stands, polite) = (stands, polite, refl)
  running-Keeps file no_such_process machine runs h = absurd (runs refl)
  running-Keeps file not_permitted machine runs (stands, polite) = (stands, polite, refl)
  running-Keeps file refused machine runs h = h
  running-Keeps file too_large machine runs h = h

  ask-Keeps :
      (file : LockFile) (owner : Option ℕ) (machine : Machine)
      → owner ≡ owner_of file.content
      → ¬ IsGone file
      → Stands file machine
      → Keeps file IsTrue (ask kill owner machine)
  ask-Keeps file none machine e held h = h
  ask-Keeps file (some pid) machine e held h =
      running-Keeps file (kill pid) machine (λ gone. held (pid, sym e, gone)) h

  lock_owner_is_running-Keeps :
      (file : LockFile) (machine : Machine)
      → ¬ IsGone file
      → Stands file machine
      → Keeps file IsTrue (lock_owner_is_running kill machine)
  unfolding lock_owner_is_running
  lock_owner_is_running-Keeps file machine held h =
      Keeps-after file (translated (locked false) (read_document machine))
        (λ document. ask kill (owner_of document)) (IsContent file) IsTrue
        (Keeps-translated file (locked false) (read_document machine) (IsContent file)
          (read_document-Keeps file machine h))
        (λ document later k read.
          ask-Keeps file (owner_of document) later (ap owner_of read) held k)

  alive-Keeps :
      (file : LockFile) (alive : Bool) (original : ℕ) (machine : Machine)
      → alive ≡ true
      → Stands file machine
      → Keeps file Never ((if alive then raise (locked true) else last_look kill original) machine)
  alive-Keeps file true original machine e h = h
  alive-Keeps file false original machine e h = absurd (false≢true e)

  remove_stale_lock-Keeps :
      (file : LockFile) (machine : Machine)
      → ¬ IsGone file
      → Stands file machine
      → Keeps file Never (remove_stale_lock kill machine)
  unfolding remove_stale_lock
  remove_stale_lock-Keeps file machine held h =
      Keeps-after file (translated (locked true) (stat machine))
        (λ original. lock_owner_is_running kill >>= λ alive.
          if alive then raise (locked true) else last_look kill original)
        Anything Never
        (Keeps-translated file (locked true) (stat machine) Anything (stat-Keeps file machine h))
        (λ original later k _.
          Keeps-after file (lock_owner_is_running kill later)
            (λ alive. if alive then raise (locked true) else last_look kill original) IsTrue Never
            (lock_owner_is_running-Keeps file later held k)
            (λ alive last l runs. alive-Keeps file alive original last runs l))

  round-Keeps :
      (file : LockFile) (last : Bool) (rounds : ℕ) (machine : Machine)
      → ¬ IsGone file
      → Stands file machine
      → Keeps file Never (
          (if last
              then raise (locked true)
              else (remove_stale_lock kill >> acquire_rounds kill rounds))
            machine)
  round-Keeps file true rounds machine held h = h
  round-Keeps file false rounds machine held h =
      Keeps-after file (remove_stale_lock kill machine) (λ _. acquire_rounds kill rounds) Never
        Never (remove_stale_lock-Keeps file machine held h) (λ _ later k returns. absurd returns)

  opened-Keeps :
      (file : LockFile) (rounds : ℕ) (opened : Option ℕ) (machine : Machine)
      → ¬ IsGone file
      → Stands file machine
      → opened ≡ none
      → Keeps file Never (next_round kill rounds opened machine)
  opened-Keeps file rounds none machine held h e =
      round-Keeps file (eqb rounds 0) rounds machine held h
  opened-Keeps file rounds (some descriptor) machine held h e = absurd (cc)

  acquire_rounds-Keeps :
      (file : LockFile) (rounds : ℕ) (machine : Machine)
      → ¬ IsGone file
      → Stands file machine
      → Keeps file Never (acquire_rounds kill rounds machine)
  unfolding acquire_rounds
  acquire_rounds-Keeps file zero machine held h = h
  acquire_rounds-Keeps file (suc rounds) machine held h =
      Keeps-after file (open_exclusive machine) (next_round kill rounds) IsNone Never
        (open_exclusive-Keeps file machine h)
        (λ opened later k e. opened-Keeps file rounds opened later held k e)

  acquire_project_lock-Keeps :
      (run_id : String) (pid : ℕ) (acquired_at : String) (file : LockFile) (machine : Machine)
      → ¬ IsGone file
      → Stands file machine
      → Keeps file Never (acquire_project_lock kill run_id pid acquired_at machine)
  unfolding acquire_project_lock
  acquire_project_lock-Keeps run_id pid acquired_at file machine held h =
      Keeps-after file (mkdir machine)
        (λ _. acquire_rounds kill 2 >>= λ descriptor.
          write descriptor (lock_document run_id pid acquired_at))
        Anything Never (mkdir-Keeps file machine h)
        (λ _ next k _.
          Keeps-after file (acquire_rounds kill 2 next)
            (λ descriptor. write descriptor (lock_document run_id pid acquired_at)) Never Never
            (acquire_rounds-Keeps file 2 next held k) (λ _ later l returns. absurd returns))

  -- What is left of a call that kept a lock and Never returns.
  Never-Keeps :
      (file : LockFile) (outcome : Machine × Outcome (Unit {0}))
      → Keeps file Never outcome
      → (outcome.0.lock ≡ some file) × (outcome.1 ≢ returned tt)
  Never-Keeps file (machine, returned value) (stands, polite, returns) = absurd returns
  Never-Keeps file (machine, os_error) h = (h.0, λ e. cc)
  Never-Keeps file (machine, crashed) h = (h.0, λ e. cc)
  Never-Keeps file (machine, raised failure) h = (h.0, λ e. cc)

  -- Whatever breaks in acquire_project_lock, and as long as other processes leave a lock that is there as it is
  -- and only make one where there is none: if it returns, the lock is there and its document is the one of
  -- this run; and if it finds a lock that does not name a process which is known not to run, it does not
  -- return, and the lock is left as it was.
  pub acquire_project_lock-holds :
      (run_id : String) (pid : ℕ) (acquired_at : String) (machine : Machine)
      → ArePolite machine.turns
      → let (later, outcome) = acquire_project_lock kill run_id pid acquired_at machine in
        (outcome ≡ returned tt
          → (inode : ℕ) × (later.lock
              ≡ some (record {
                inode = inode;
                content = some (lock_document run_id pid acquired_at);
              })))
        × ((file : LockFile)
            → machine.lock ≡ some file
            → ¬ IsGone file
            → (later.lock ≡ some file) × (outcome ≢ returned tt))
  acquire_project_lock-holds run_id pid acquired_at machine polite = (
    λ returns.
        acquired-Holds kill run_id pid acquired_at machine _ polite
          (ap (λ o. ((acquire_project_lock kill run_id pid acquired_at machine).0, o)) returns),
    λ file stands held.
        Never-Keeps file (acquire_project_lock kill run_id pid acquired_at machine)
          (acquire_project_lock-Keeps run_id pid acquired_at file machine held (stands, polite)),
  )
