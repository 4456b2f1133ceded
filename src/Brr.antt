-- ===== src/Brr.antt =====
-- The bucketed round-robin class, sched_brr.c.
pub mod Buckets
pub mod Enqueue
pub mod Pick
pub mod Tasks
pub mod Counting
pub mod Keeps
pub mod Faults
pub mod Choice
pub mod Ticking
