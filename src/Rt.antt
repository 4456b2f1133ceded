-- ===== src/Rt.antt =====
-- The real-time scheduling class, sched_rt.c.
pub mod Lists
pub mod Entities
pub mod Migration
pub mod Prio
pub mod Counts
pub mod Walk
pub mod Enqueue
pub mod Bandwidth
pub mod Borrowing
pub mod Conservation
pub mod Timer
pub mod Account
pub mod Queueing
pub mod Pick
pub mod Tick
pub mod Tasks
pub mod Core
pub mod Keeps
pub mod Choice
pub mod Descent
pub mod Release
pub mod Online
pub mod Init
pub mod Unwind
