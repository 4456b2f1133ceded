-- ===== src/Balance.antt =====
-- Balancing between cpus, sched.c: the topology that it reads. A group of cpus and a domain are
-- set up elsewhere; here they are given.
pub mod Loads
pub mod Moves
pub mod Settling
pub mod Least
pub mod Tallies
pub mod Self
pub mod Idlest
pub mod Stats
pub mod Busiest
pub mod Find
pub mod Imbalance
pub mod Remote
pub mod Heaviest
pub mod Measured
pub mod Pulled
use cmsc421prj.Base.{ℕ, Bool, List, Option}

-- `struct sched_group`: which one it is, and its cpus in the order of their numbers.
pub record SchedGroup : Type 0 where
  pub number : ℕ
  pub cpus : List ℕ
  pub cpu_power : ℕ
  pub reciprocal_cpu_power : ℕ

-- `struct sched_domain`. The groups are in a circle, from `groups` on; the list has one at least.
pub record SchedDomain : Type 0 where
  pub first : SchedGroup
  pub others : List SchedGroup
  pub span : List ℕ
  pub imbalance_pct : ℕ
  pub cache_nice_tries : ℕ
  pub busy_idx : ℕ
  pub idle_idx : ℕ
  pub newidle_idx : ℕ
  pub forkexec_idx : ℕ
  pub flags : ℕ
  pub nr_balance_failed : ℕ

-- `enum cpu_idle_type`
pub data CpuIdleType : Type 0 where
  cpu_idle cpu_not_idle cpu_newly_idle : CpuIdleType
