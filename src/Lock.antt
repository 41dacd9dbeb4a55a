-- ===== src/Lock.antt =====
-- RUNTIME/transactions.py: the lock that lets one run at a time write to a project.
pub mod Machine
pub mod Project
pub mod Held
pub mod Exclusive
pub mod Stale
