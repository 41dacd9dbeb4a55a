-- ===== src/Dependency.antt =====
-- VALIDATORS/dependency.py: the graph of artifacts, its validation, and what a change of one artifact
-- invalidates. `Graph`, `Dependents` and `Changes` hold the code, the others what is proved of it.
pub mod Graph
pub mod Dependents
pub mod Changes
pub mod Paths
pub mod Reversal
pub mod Accepted
pub mod Reach
pub mod Propagation
pub mod Acyclic
pub mod Search
pub mod Cycles
pub mod Invalidation
