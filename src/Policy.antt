-- ===== src/Policy.antt =====
-- The scheduling policies and the priorities that follow from them, sched.c and sched.h.
use cmsc421prj.Base.{ℕ, ◌-◌, Bool, ◌||◌, ◌==◌, if◌then◌else◌}
use cmsc421prj.Base.Int.{ℤ, pos, negsuc}
use cmsc421prj.State.Data.{Task, max_rt_prio}
use cmsc421prj.Rt.Entities.{rt_prio}

abbrev pub sched_normal : ℕ
sched_normal = 0

abbrev pub sched_fifo : ℕ
sched_fifo = 1

abbrev pub sched_rr : ℕ
sched_rr = 2

abbrev pub sched_batch : ℕ
sched_batch = 3

abbrev pub sched_idle : ℕ
sched_idle = 5

abbrev pub sched_brr : ℕ
sched_brr = 6

unfoldable pub rt_policy : ℕ → Bool
rt_policy policy = policy == sched_fifo || policy == sched_rr

unfoldable pub task_has_rt_policy : Task → Bool
unfolding rt_policy
task_has_rt_policy p = rt_policy p.policy

unfoldable pub brr_policy : ℕ → Bool
brr_policy policy = policy == sched_brr

-- `rt_priority` is at most `MAX_RT_PRIO - 1`, as `__sched_setscheduler` sees to.
unfoldable pub normal_prio : Task → ℕ
unfolding task_has_rt_policy
normal_prio p = if task_has_rt_policy p then max_rt_prio - 1 - p.rt_priority else p.static_prio

unfoldable pub effective_prio : Task → ℕ × Task
unfolding normal_prio rt_prio
effective_prio p =
    (if rt_prio p.prio then p.prio else normal_prio p, record p { normal_prio = normal_prio p })

-- `-EINVAL` is -22.
abbrev pub einval : ℤ
einval = negsuc 21

unfoldable pub sched_get_priority_max : ℕ → ℤ
sched_get_priority_max policy =
    if policy == sched_fifo || (policy == sched_rr || policy == sched_brr)
    then pos (max_rt_prio - 1)
    else (if policy == sched_normal || (policy == sched_batch || policy == sched_idle)
        then pos 0
        else einval)

unfoldable pub sched_get_priority_min : ℕ → ℤ
sched_get_priority_min policy =
    if policy == sched_brr || (policy == sched_fifo || policy == sched_rr)
    then pos 1
    else (if policy == sched_normal || (policy == sched_batch || policy == sched_idle)
        then pos 0
        else einval)
