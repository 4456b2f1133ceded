-- ===== src/Fair.antt =====
-- The fair scheduling class, sched_fair.c.
pub mod Data
pub mod Weight
pub mod Clock
pub mod Timeline
pub mod Slice
pub mod Entities
pub mod Pick
pub mod Tasks
pub mod Matching
pub mod Advance
pub mod Accounting
