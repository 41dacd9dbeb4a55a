-- ===== src/Lock/Held.antt =====
-- RUNTIME/transactions.py: the lock of a project while other processes come between any two steps, and while
-- steps break.
use mystery_starter_kit.Common.{
  ℕ, zero, suc, String, Bool, true, false, not, ◌≡◌, refl, ap, subst, ◌∙◌, eqb, Option, none, some,
  List, [], ◌∷◌, All, arith, if◌then◌else◌,
}
use mystery_starter_kit.Transactions.Disk.{Outcome, returned, os_error, crashed, raised}
use mystery_starter_kit.Failure.{Failure}
use mystery_starter_kit.Json.{Value}
use mystery_starter_kit.Lock.Machine.{
  LockFile, Event, fine, breaks, crashes, Turn, Machine, Step, after, ◌>>=◌, ◌>>◌, raise, give,
  found, under, on_file, created, written, next_turn, later_turns, on_os_error, mkdir, stat,
  read_document, unlink, open_exclusive, write, translated,
}
use mystery_starter_kit.Lock.Project.{
  Signal, delivered, no_such_process, not_permitted, refused, too_large, running, ask, owner_of,
  lock_document, lock_owner_is_running, remove_stale_lock, acquire_rounds, acquire_project_lock,
  locked,
}

-- What holds of the value returned and of what is left, if anything is returned.
abbrev pub Sat : {D : Type 0} → Machine × Outcome D → (D → Machine → Type 0) → Type 0
Sat (machine, returned value) P = P value machine
Sat (machine, os_error) P = Unit
Sat (machine, crashed) P = Unit
Sat (machine, raised failure) P = Unit

Sat-after :
    {D E : Type 0} (outcome : Machine × Outcome D) (next : D → Step E) (P : D → Machine → Type 0)
    (Q : E → Machine → Type 0)
    → Sat outcome P
    → ((value : D) (machine : Machine) → P value machine → Sat (next value machine) Q)
    → Sat (after outcome next) Q
Sat-after (machine, returned value) next P Q h k = k value machine h
Sat-after (machine, os_error) next P Q h k = tt
Sat-after (machine, crashed) next P Q h k = tt
Sat-after (machine, raised failure) next P Q h k = tt

Sat-on_os_error :
    {D : Type 0} (failure : Failure) (outcome : Machine × Outcome D) (P : D → Machine → Type 0)
    → Sat outcome P
    → Sat (translated failure outcome) P
Sat-on_os_error failure (machine, returned value) P h = h
Sat-on_os_error failure (machine, os_error) P h = tt
Sat-on_os_error failure (machine, crashed) P h = tt
Sat-on_os_error failure (machine, raised other) P h = tt

Sat-under :
    {D : Type 0} (event : Event) (done : Machine × Outcome D) (machine : Machine)
    (P : D → Machine → Type 0)
    → Sat done P
    → Sat (under event done machine) P
Sat-under fine done machine P h = h
Sat-under breaks done machine P h = tt
Sat-under crashes done machine P h = tt

Sat-on_file :
    {D : Type 0} (machine : Machine) (lock : Option LockFile)
    (done : LockFile → Machine × Outcome D) (P : D → Machine → Type 0)
    → ((file : LockFile) → Sat (done file) P)
    → Sat (on_file machine lock done) P
Sat-on_file machine none done P h = tt
Sat-on_file machine (some file) done P h = h file

-- The other processes leave a lock that is there as it is; they may make one where there is none.
abbrev pub IsPolite : Turn → Type 0
IsPolite turn = (file : LockFile) → turn.meanwhile (some file) ≡ some file

abbrev pub ArePolite : List Turn → Type 0
ArePolite turns = All IsPolite turns

pub later-ArePolite : (turns : List Turn) → ArePolite turns → ArePolite (later_turns turns)
later-ArePolite [] h = tt
later-ArePolite (turn ∷ later) h = h.1

pub next-IsPolite : (turns : List Turn) → ArePolite turns → IsPolite (next_turn turns)
next-IsPolite [] h = λ file. refl
next-IsPolite (turn ∷ later) h = h.0

abbrev Kept : {D : Type 0} → D → Machine → Type 0
Kept value machine = ArePolite machine.turns

mkdir-Sat : (machine : Machine) → ArePolite machine.turns → Sat (mkdir machine) Kept
unfolding mkdir
mkdir-Sat machine h =
    Sat-under (next_turn machine.turns).event _ machine Kept (later-ArePolite machine.turns h)

stat-Sat : (machine : Machine) → ArePolite machine.turns → Sat (stat machine) Kept
unfolding stat
stat-Sat machine h =
    Sat-under (next_turn machine.turns).event _ machine Kept
      (Sat-on_file machine (found machine) _ Kept (λ file. later-ArePolite machine.turns h))

read_document-Sat : (machine : Machine) → ArePolite machine.turns → Sat (read_document machine) Kept
unfolding read_document
read_document-Sat machine h =
    Sat-under (next_turn machine.turns).event _ machine Kept
      (Sat-on_file machine (found machine) _ Kept (λ file. later-ArePolite machine.turns h))

unlink-Sat : (machine : Machine) → ArePolite machine.turns → Sat (unlink machine) Kept
unfolding unlink
unlink-Sat machine h =
    Sat-under (next_turn machine.turns).event _ machine Kept
      (Sat-on_file machine (found machine) _ Kept (λ file. later-ArePolite machine.turns h))

-- The lock is a new file, which only its descriptor names.
abbrev IsNew : Option ℕ → Machine → Type 0
IsNew none machine = Unit
IsNew (some descriptor) machine =
    machine.lock ≡ some (record { inode = descriptor; content = none })

open_exclusive-Sat :
    (machine : Machine)
    → ArePolite machine.turns
    → Sat (open_exclusive machine) (λ opened later. ArePolite later.turns × IsNew opened later)
unfolding open_exclusive
open_exclusive-Sat machine h =
    Sat-under (next_turn machine.turns).event _ machine _ (go (found machine))
  where
    go :
        (lock : Option LockFile)
        → Sat
            (created (next_turn machine.turns).new_inode lock machine)
            (λ opened later. ArePolite later.turns × IsNew opened later)
    go none = (later-ArePolite machine.turns h, refl)
    go (some file) = (later-ArePolite machine.turns h, tt)

module _ (kill : ℕ → Signal) where
  running-Sat :
      (signal : Signal) (machine : Machine)
      → ArePolite machine.turns
      → Sat (running signal machine) Kept
  running-Sat delivered machine h = h
  running-Sat no_such_process machine h = h
  running-Sat not_permitted machine h = h
  running-Sat refused machine h = tt
  running-Sat too_large machine h = tt

  ask-Sat :
      (owner : Option ℕ) (machine : Machine)
      → ArePolite machine.turns
      → Sat (ask kill owner machine) Kept
  ask-Sat none machine h = tt
  ask-Sat (some pid) machine h = running-Sat (kill pid) machine h

  lock_owner_is_running-Sat :
      (machine : Machine) → ArePolite machine.turns → Sat (lock_owner_is_running kill machine) Kept
  unfolding lock_owner_is_running
  lock_owner_is_running-Sat machine h =
      Sat-after (translated (locked false) (read_document machine))
        (λ document. ask kill (owner_of document)) Kept Kept
        (Sat-on_os_error (locked false) (read_document machine) Kept (read_document-Sat machine h))
        (λ document later k. ask-Sat (owner_of document) later k)

  same_inode-Sat :
      (same : Bool) (machine : Machine)
      → ArePolite machine.turns
      → Sat ((if not same then raise (locked true) else unlink) machine) Kept
  same_inode-Sat true machine h = unlink-Sat machine h
  same_inode-Sat false machine h = tt

  abbrev pub last_look : ℕ → Step (Unit {0})
  last_look original =
      on_os_error (locked true)
        (do current ← stat; if not (eqb current original) then raise (locked true) else unlink)

  last_look-Sat :
      (original : ℕ) (machine : Machine)
      → ArePolite machine.turns
      → Sat (last_look original machine) Kept
  last_look-Sat original machine h =
      Sat-on_os_error (locked true)
        (after (stat machine)
          (λ current. if not (eqb current original) then raise (locked true) else unlink))
        Kept
        (Sat-after (stat machine)
          (λ current. if not (eqb current original) then raise (locked true) else unlink) Kept Kept
          (stat-Sat machine h) (λ current later k. same_inode-Sat (eqb current original) later k))

  alive-Sat :
      (alive : Bool) (original : ℕ) (machine : Machine)
      → ArePolite machine.turns
      → Sat ((if alive then raise (locked true) else last_look original) machine) Kept
  alive-Sat true original machine h = tt
  alive-Sat false original machine h = last_look-Sat original machine h

  remove_stale_lock-Sat :
      (machine : Machine) → ArePolite machine.turns → Sat (remove_stale_lock kill machine) Kept
  unfolding remove_stale_lock
  remove_stale_lock-Sat machine h =
      Sat-after (translated (locked true) (stat machine))
        (λ original. lock_owner_is_running kill >>= λ alive.
          if alive then raise (locked true) else last_look original)
        Kept Kept (Sat-on_os_error (locked true) (stat machine) Kept (stat-Sat machine h))
        (λ original later k.
          Sat-after (lock_owner_is_running kill later)
            (λ alive. if alive then raise (locked true) else last_look original) Kept Kept
            (lock_owner_is_running-Sat later k) (λ alive last l. alive-Sat alive original last l))

  -- The lock is the new file of a descriptor.
  abbrev IsOpened : ℕ → Machine → Type 0
  IsOpened descriptor machine =
      ArePolite machine.turns
      × (machine.lock ≡ some (record { inode = descriptor; content = none }))

  abbrev pub next_round : ℕ → Option ℕ → Step ℕ
  next_round rounds (some descriptor) = give descriptor
  next_round rounds none =
      if eqb rounds 0
      then raise (locked true)
      else (remove_stale_lock kill >> acquire_rounds kill rounds)

  round-Sat :
      (last : Bool) (rounds : ℕ)
      → ((machine : Machine)
          → ArePolite machine.turns
          → Sat (acquire_rounds kill rounds machine) IsOpened)
      → (machine : Machine) → ArePolite machine.turns
      → Sat
          ((if last
              then raise (locked true)
              else (remove_stale_lock kill >> acquire_rounds kill rounds))
            machine)
          IsOpened
  round-Sat true rounds recursive machine h = tt
  round-Sat false rounds recursive machine h =
      Sat-after (remove_stale_lock kill machine) (λ _. acquire_rounds kill rounds) Kept IsOpened
        (remove_stale_lock-Sat machine h) (λ _ later k. recursive later k)

  acquire_rounds-Sat :
      (rounds : ℕ) (machine : Machine)
      → ArePolite machine.turns
      → Sat (acquire_rounds kill rounds machine) IsOpened
  unfolding acquire_rounds
  acquire_rounds-Sat zero machine h = tt
  acquire_rounds-Sat (suc rounds) machine h =
      let recursive = acquire_rounds-Sat rounds in
      Sat-after (open_exclusive machine) (next_round rounds)
        (λ opened later. ArePolite later.turns × IsNew opened later) IsOpened
        (open_exclusive-Sat machine h)
        (λ opened later k.
          elim opened as (λ o. IsNew o later → Sat (next_round rounds o later) IsOpened) [
            | some descriptor ↦ λ new. (k.0, new)
            | none ↦ λ new. round-Sat (eqb rounds 0) rounds recursive later (k.0)
          ]
            (k.1))

  eqb_refl : (n : ℕ) → eqb n n ≡ true
  eqb_refl n = ground arith

  -- The lock holds a document.
  abbrev Holds : Value → Machine → Type 0
  Holds content machine =
      (inode : ℕ) × (machine.lock ≡ some (record { inode = inode; content = some content }))

  write-Sat :
      (descriptor : ℕ) (content : Value) (machine : Machine)
      → IsOpened descriptor machine
      → Sat (write descriptor content machine) (λ _ later. Holds content later)
  unfolding write
  write-Sat descriptor content machine (polite, stands) =
      let file : LockFile = record { inode = descriptor; content = none } in
      Sat-under (next_turn machine.turns).event _ machine (λ _ later. Holds content later)
        (
          descriptor,
          ap (written descriptor content) (
                ap (next_turn machine.turns).meanwhile stands
                ∙ next-IsPolite machine.turns polite file)
              ∙ rw (eqb_refl descriptor) refl,
        )

  -- What a call that returned has left.
  pub acquired-Holds :
      (run_id : String) (pid : ℕ) (acquired_at : String) (machine later : Machine)
      → ArePolite machine.turns
      → acquire_project_lock kill run_id pid acquired_at machine ≡ (later, returned tt)
      → (inode : ℕ) × (later.lock
          ≡ some (record { inode = inode; content = some (lock_document run_id pid acquired_at) }))
  unfolding acquire_project_lock
  acquired-Holds run_id pid acquired_at machine later polite h =
      subst (λ outcome. Sat outcome (λ _ last. Holds (lock_document run_id pid acquired_at) last)) h
        (Sat-after (mkdir machine)
          (λ _. acquire_rounds kill 2 >>= λ descriptor.
            write descriptor (lock_document run_id pid acquired_at))
          Kept (λ _ last. Holds (lock_document run_id pid acquired_at) last)
          (mkdir-Sat machine polite)
          (λ _ next k.
            Sat-after (acquire_rounds kill 2 next)
              (λ descriptor. write descriptor (lock_document run_id pid acquired_at)) IsOpened
              (λ _ last. Holds (lock_document run_id pid acquired_at) last)
              (acquire_rounds-Sat 2 next k)
              (λ descriptor last l.
                write-Sat descriptor (lock_document run_id pid acquired_at) last l)))
