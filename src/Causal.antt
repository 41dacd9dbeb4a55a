-- ===== src/Causal.antt =====
-- VALIDATORS/causal_validation.py: the graph of causes of a story, and the issues that its validation reports.
pub mod Graph
pub mod Cycles
pub mod Paths
pub mod Adjacency
pub mod Sound
