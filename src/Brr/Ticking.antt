-- ===== src/Brr/Ticking.antt =====
-- The timer tick of sched_brr.c for a task of policy SCHED_BRR.
use cmsc421prj.Base.{ℕ, ◌≡◌, some, arith}
use cmsc421prj.Policy.{sched_brr, task_has_rt_policy}
use cmsc421prj.State.Data.{Sys}
use cmsc421prj.Rt.Account.{update_curr}
use cmsc421prj.Rt.Tick.{watchdog, round_robin, task_tick}
use cmsc421prj.Brr.Tasks.{update_curr_rt_brr, task_tick_rt_brr}

-- The running time of a current task of policy SCHED_BRR is not charged to anything.
pub update_curr_rt_brr-brr :
    (s : Sys) (c : ℕ) → (s.task (s.rq c).curr).policy ≡ sched_brr → update_curr_rt_brr s c ≡ some s
unfolding update_curr_rt_brr update_curr task_has_rt_policy
update_curr_rt_brr-brr s c h = ground arith

watchdog_policy :
    (usec : ℕ) (s : Sys) (p : ℕ) → ((watchdog usec s p).task p).policy ≡ (s.task p).policy
unfolding watchdog
watchdog_policy usec s p = ground arith

-- The tick of a running task of policy SCHED_BRR does what the watchdog does, and no more: its slice
-- does not run down, it is not moved to the end of its queue, and nothing asks for a reschedule.
pub task_tick_rt_brr-brr :
    (usec : ℕ) (s : Sys) (c : ℕ)
    → (s.task (s.rq c).curr).policy ≡ sched_brr
    → task_tick_rt_brr usec s c (s.rq c).curr ≡ some (watchdog usec s (s.rq c).curr)
unfolding task_tick_rt_brr task_tick round_robin
task_tick_rt_brr-brr usec s c h =
    ground (arith, update_curr_rt_brr-brr s c h, watchdog_policy usec s (s.rq c).curr)
