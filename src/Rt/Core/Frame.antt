-- ===== src/Rt/Core/Frame.antt =====
-- What leaves the core of every runqueue alone: the next priority, cpupri, the migration and boost
-- counts, the period timer.
use cmsc421prj.Base.{ℕ, arith}
use cmsc421prj.State.Data.{Sys}
use cmsc421prj.Rt.Migration.{update_rt_migration, inc_rt_migration, dec_rt_migration}
use cmsc421prj.Rt.Counts.{inc_rt_group, dec_rt_group}
use cmsc421prj.Rt.Prio.{inc_rt_prio_smp, dec_rt_prio_smp}
use cmsc421prj.Rt.Core.{SameCores}

pub inc_rt_prio_smp-SameCores :
    (s : Sys) (q prio prev : ℕ) → SameCores s (inc_rt_prio_smp s q prio prev)
unfolding inc_rt_prio_smp
inc_rt_prio_smp-SameCores s q prio prev j = ground arith

pub dec_rt_prio_smp-SameCores :
    (s : Sys) (q prio prev : ℕ) → SameCores s (dec_rt_prio_smp s q prio prev)
unfolding dec_rt_prio_smp
dec_rt_prio_smp-SameCores s q prio prev j = ground arith

update_rt_migration-SameCores : (s : Sys) (q : ℕ) → SameCores s (update_rt_migration s q)
unfolding update_rt_migration
update_rt_migration-SameCores s q j = ground arith

pub inc_rt_migration-SameCores : (s : Sys) (e q : ℕ) → SameCores s (inc_rt_migration s e q)
unfolding inc_rt_migration
inc_rt_migration-SameCores s e q j = ground arith

pub dec_rt_migration-SameCores : (s : Sys) (e q : ℕ) → SameCores s (dec_rt_migration s e q)
unfolding dec_rt_migration
dec_rt_migration-SameCores s e q j = ground arith

pub inc_rt_group-SameCores : (s : Sys) (e q : ℕ) → SameCores s (inc_rt_group s e q)
unfolding inc_rt_group
inc_rt_group-SameCores s e q j = ground arith

pub dec_rt_group-SameCores : (s : Sys) (e q : ℕ) → SameCores s (dec_rt_group s e q)
unfolding dec_rt_group
dec_rt_group-SameCores s e q j = ground arith
