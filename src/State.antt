-- ===== src/State.antt =====
-- The data of sched.c and sched.h that the real-time and the BRR scheduling class work on.
-- An object in memory is a number, and `Sys` maps each number to its fields.
pub mod Data
pub mod Setters
