-- ===== src/Compatibility.antt =====
-- VALIDATORS/compatibility.py: whether a channel's DNA meets the contract of the production standard, and
-- whether a project is bound to the very DNA that the channel's manifest registers.
pub mod Report
pub mod Negotiation
pub mod Binding
pub mod Versions
pub mod Errors
pub mod Verdict
pub mod Resolution
pub mod Pinned
