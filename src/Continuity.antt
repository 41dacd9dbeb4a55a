-- ===== src/Continuity.antt =====
-- VALIDATORS/continuity.py: what the characters of a story know, and when, and where they are.
pub mod Float
pub mod Document
pub mod Knowledge
pub mod Learned
pub mod Boundaries
pub mod Timeline
pub mod Places
