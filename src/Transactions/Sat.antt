-- ===== src/Transactions/Sat.antt =====
-- Postconditions of actions on the disk: one of the world behind an action that returned, and one of
-- the world behind an action that raised or died.
use mystery_starter_kit.Common.{String, ◌≡◌, ◌≢◌, refl, ap, Option, none, some, []}
use mystery_starter_kit.Failure.{Failure, output_file_write_error}
use mystery_starter_kit.Runtime.Store.{whole, torn}
use mystery_starter_kit.Transactions.Disk.{
  TransactionRecord, Outcome, returned, os_error, crashed, raised, Fault, fine, breaks, crashes,
  breaks_late, crashes_late, World, next_fault, later_faults, Action, after, translated, changed,
  passed, pass, under, found, moved, cut_short, interrupted, read_bytes, write_bytes, copy2,
  replace, unlink, write_record, recorded,
}

module _ {B : Type 0} where
  abbrev pub Sat :
      {D : Type 0} → World B × Outcome D → (World B → Type 0) → (D → World B → Type 0) → Type 0
  Sat (world, returned value) P Q = Q value world
  Sat (world, os_error) P Q = P world
  Sat (world, crashed) P Q = P world
  Sat (world, raised failure) P Q = P world

  pub Sat-after :
      {D E : Type 0} (out : World B × Outcome D) (next : D → Action B E) (P : World B → Type 0)
      (Q : D → World B → Type 0) (R : E → World B → Type 0)
      → Sat out P Q
      → ((value : D) (world : World B) → Q value world → Sat (next value world) P R)
      → Sat (after out next) P R
  Sat-after (world, returned value) next P Q R h k = k value world h
  Sat-after (world, os_error) next P Q R h k = h
  Sat-after (world, crashed) next P Q R h k = h
  Sat-after (world, raised failure) next P Q R h k = h

  pub Sat-translated :
      {D : Type 0} (failure : Failure) (out : World B × Outcome D) (P : World B → Type 0)
      (Q : D → World B → Type 0)
      → Sat out P Q
      → Sat (translated failure out) P Q
  Sat-translated failure (world, returned value) P Q h = h
  Sat-translated failure (world, os_error) P Q h = h
  Sat-translated failure (world, crashed) P Q h = h
  Sat-translated failure (world, raised other) P Q h = h

  pub Sat-weaken :
      {D : Type 0} (out : World B × Outcome D) (P P' : World B → Type 0)
      (Q Q' : D → World B → Type 0)
      → Sat out P Q
      → ((world : World B) → P world → P' world)
      → ((value : D) (world : World B) → Q value world → Q' value world)
      → Sat out P' Q'
  Sat-weaken (world, returned value) P P' Q Q' h p q = q value world h
  Sat-weaken (world, os_error) P P' Q Q' h p q = p world h
  Sat-weaken (world, crashed) P P' Q Q' h p q = p world h
  Sat-weaken (world, raised failure) P P' Q Q' h p q = p world h

-- `Calm` stands for the claim that no fault is due. Where it holds no action raises or dies, so what
-- is to be shown of that case may assume that it does not.
module _ {B : Type 0} (Calm : Type 0) where
  abbrev pub IsCalm : World B → Type 0
  IsCalm world = Calm → world.faults ≡ []

  pub IsCalm-later : (world : World B) → IsCalm world → Calm → later_faults world.faults ≡ []
  IsCalm-later world calm c = ap later_faults (calm c)

  fault_due : (world : World B) → IsCalm world → next_fault world.faults ≢ fine → ¬ Calm
  fault_due world calm fault c = fault (ap next_fault (calm c))

  module _ (world : World B) (calm : IsCalm world) (P : World B → Type 0) where
    under-Sat :
        {D : Type 0} (Q : D → World B → Type 0) (done : World B × Outcome D)
        (left : Option B → World B)
        → (¬ Calm → (content : Option B) → P (left content))
        → Sat done P Q
        → Sat (under (next_fault world.faults) done left) P Q
    under-Sat Q done left p q = go (next_fault world.faults) (λ f. p (fault_due world calm f))
      where
        go :
            (fault : Fault B)
            → (fault ≢ fine → (content : Option B) → P (left content))
            → Sat (under fault done left) P Q
        go fine h = q
        go (breaks content) h = h (λ e. cc) content
        go (crashes content) h = h (λ e. cc) content
        go breaks_late h = h (λ e. cc) none
        go crashes_late h = h (λ e. cc) none

    found-Sat :
        {D : Type 0} (Q : D → World B → Type 0) (content : Option B)
        (done : B → World B × Outcome D)
        → (content ≡ none → P (passed world))
        → ((bytes : B) → content ≡ some bytes → Sat (done bytes) P Q)
        → Sat (found world content done) P Q
    found-Sat Q none done p q = p refl
    found-Sat Q (some bytes) done p q = q bytes refl

    pub read_bytes-Sat :
        (Q : B → World B → Type 0) (path : String)
        → (¬ Calm → P (passed world))
        → (world.files path ≡ none → P (passed world))
        → ((bytes : B) → world.files path ≡ some bytes → Q bytes (passed world))
        → Sat (read_bytes path world) P Q
    unfolding read_bytes
    read_bytes-Sat Q path p n q =
        under-Sat Q _ (λ left. passed world) (λ fault content. p fault)
          (found-Sat Q (world.files path) _ n q)

    module _ (Q : Unit {0} → World B → Type 0) where
      pub pass-Sat : (¬ Calm → P (passed world)) → Q tt (passed world) → Sat (pass world) P Q
      unfolding pass
      pass-Sat p q =
          under-Sat Q (passed world, returned tt) (λ left. passed world) (λ fault content. p fault)
            q

      pub write_bytes-Sat :
          (path : String) (content : B)
          → (¬ Calm → (left : Option B) → P (changed path left world))
          → Q tt (changed path (some content) world)
          → Sat (write_bytes path content world) P Q
      unfolding write_bytes
      write_bytes-Sat path content p q =
          under-Sat Q (changed path (some content) world, returned tt)
            (λ left. changed path left world) p q

      pub copy2-Sat :
          (source path : String)
          → (¬ Calm → (left : Option B) → P (changed path left world))
          → (world.files source ≡ none → P (passed world))
          → ((bytes : B) → world.files source ≡ some bytes → Q tt (changed path (some bytes) world))
          → Sat (copy2 source path world) P Q
      unfolding copy2
      copy2-Sat source path p n q =
          under-Sat Q _ (λ left. changed path left world) p (found-Sat Q (world.files source) _ n q)

      pub replace-Sat :
          (source path : String)
          → (¬ Calm → P (passed world))
          → (world.files source ≡ none → P (passed world))
          → ((bytes : B) → world.files source ≡ some bytes → Q tt (moved source path bytes world))
          → Sat (replace source path world) P Q
      unfolding replace
      replace-Sat source path p n q =
          under-Sat Q _ (λ left. passed world) (λ fault content. p fault)
            (found-Sat Q (world.files source) _ n q)

      pub unlink-Sat :
          (path : String)
          → (¬ Calm → P (passed world))
          → Q tt (changed path none world)
          → Sat (unlink path world) P Q
      unfolding unlink
      unlink-Sat path p q =
          under-Sat Q (changed path none world, returned tt) (λ left. passed world)
            (λ fault content. p fault) q

      pub write_record-Sat :
          (document : TransactionRecord)
          → (¬ Calm → P (passed world))
          → (¬ Calm → P (recorded document.transaction_id torn world))
          → (¬ Calm → P (recorded document.transaction_id (whole document) world))
          → Q tt (recorded document.transaction_id (whole document) world)
          → Sat (write_record document world) P Q
      unfolding write_record
      write_record-Sat document old cut new q = Sat-translated output_file_write_error _ P Q (
          under-Sat Q (recorded document.transaction_id (whole document) world, returned tt)
            (interrupted (next_fault world.faults) document world)
            (λ fault content. go fault (next_fault world.faults) content) q)
        where
          short :
              ¬ Calm → (content : Option B) → P (cut_short document.transaction_id world content)
          short fault none = old fault
          short fault (some left) = cut fault

          go :
              ¬ Calm
              → (due : Fault B) (content : Option B) → P (interrupted due document world content)
          go fault fine content = short fault content
          go fault (breaks _) content = short fault content
          go fault (crashes _) content = short fault content
          go fault breaks_late content = new fault
          go fault crashes_late content = new fault
