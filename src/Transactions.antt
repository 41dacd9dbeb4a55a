-- ===== src/Transactions.antt =====
-- RUNTIME/transactions.py. `Next` has the state that a commit writes, with what is proved of it in
-- `NextState`; `Hashes` the input hashes that are taken before a provider runs and verified before the
-- commit, with what is proved of them in `Drift`.
pub mod Next
pub mod NextState
pub mod Hashes
pub mod Drift
pub mod Disk
pub mod Sat
pub mod Saved
pub mod Restore
pub mod Install
pub mod Backup
pub mod Settled
pub mod Atomic
pub mod Recovery
pub mod AllOrNothing
pub mod Torn
pub mod Targets
pub mod GateCommit
pub mod Commit
pub mod Recover
