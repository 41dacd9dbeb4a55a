-- ===== src/Examples.antt =====
-- Small documents and runs, and each theorem of the library at one of them.
mod Samples
mod Dependency
mod Gates
mod Conditions
mod Planning
mod Routing
mod Progress
mod Storing
mod Approving
mod Drifting
mod Committing
mod Negotiating
mod Locking
mod Causing
mod Knowing
mod Placing
