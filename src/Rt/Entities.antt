-- ===== src/Rt/Entities.antt =====
-- What sched_rt.c reads of an entity and of its runqueues, with CONFIG_RT_GROUP_SCHED.
use cmsc421prj.Base.{ℕ, Bool, true, false, not, ◌&&◌, Option, none, some, ◌==◌, is_some, ltb}
use cmsc421prj.Base.Int.{ℤ, pos, negsuc}
use cmsc421prj.State.Data.{RtRq, Sys, runtime_inf, max_rt_prio}

unfoldable pub rt_prio : ℕ → Bool
rt_prio prio = ltb prio max_rt_prio

unfoldable pub rt_entity_is_task : Sys → ℕ → Bool
rt_entity_is_task s e = not (is_some (s.ent e).my_q)

-- `rq_of_rt_rq(rt_rq)`, as the number of its cpu.
abbrev pub rq_of_rt_rq : Sys → ℕ → ℕ
rq_of_rt_rq s q = (s.rtq q).cpu

abbrev pub rt_rq_of_se : Sys → ℕ → ℕ
rt_rq_of_se s e = (s.ent e).rt_rq

abbrev pub group_rt_rq : Sys → ℕ → Option ℕ
group_rt_rq s e = (s.ent e).my_q

unfoldable pub on_rt_rq : Sys → ℕ → Bool
on_rt_rq s e = is_some (s.ent e).run_list

unfoldable pub rt_rq_throttled : RtRq → Bool
rt_rq_throttled q = q.rt_throttled && (q.rt_nr_boosted == 0)

boosted_by : Sys → ℕ → Option ℕ → Bool
boosted_by s e (some g) = not ((s.rtq g).rt_nr_boosted == 0)
boosted_by s e none = not ((s.task e).prio == (s.task e).normal_prio)

unfoldable pub rt_se_boosted : Sys → ℕ → Bool
unfolding boosted_by
rt_se_boosted s e = boosted_by s e (group_rt_rq s e)

prio_by : Sys → ℕ → Option ℕ → ℕ
prio_by s e (some g) = (s.rtq g).highest_curr
prio_by s e none = (s.task e).prio

unfoldable pub rt_se_prio : Sys → ℕ → ℕ
unfolding prio_by
rt_se_prio s e = prio_by s e (group_rt_rq s e)

runtime_by : RtRq → Option ℕ → ℕ
runtime_by q none = runtime_inf
runtime_by q (some g) = q.rt_runtime

unfoldable pub sched_rt_runtime : Sys → ℕ → ℕ
unfolding runtime_by
sched_rt_runtime s q = runtime_by (s.rtq q) (s.rtq q).tg

period_by : Sys → Option ℕ → Option ℕ
period_by s none = none
period_by s (some g) = some (s.group g).rt_period

-- The read goes through `rt_rq->tg`, and faults if that is null.
unfoldable pub sched_rt_period : Sys → ℕ → Option ℕ
unfolding period_by
sched_rt_period s q = period_by s (s.rtq q).tg

abbrev non_negative : ℤ → Bool
non_negative (pos n) = true
non_negative (negsuc n) = false

unfoldable pub rt_bandwidth_enabled : Sys → Bool
rt_bandwidth_enabled s = non_negative s.sysctl_sched_rt_runtime

abbrev pub task_current : Sys → ℕ → ℕ → Bool
task_current s c p = (s.rq c).curr == p
