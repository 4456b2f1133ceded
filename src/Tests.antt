-- ===== src/Tests.antt =====
-- Runs of the model on a small machine, and each theorem with hypotheses at such an input.
pub mod Machine
pub mod RtClass
pub mod BrrClass
pub mod Policies
pub mod FairClass
pub mod Grouped
pub mod Changes
pub mod Runs
pub mod Constraints
pub mod Waits
pub mod Balances
pub mod Wakeups
