-- ===== src/Rt/Account.antt =====
-- `update_curr_rt` and `update_curr_rt_brr`: the running time of the current task is charged to it
-- and to the runqueues above it. The accounting of sched_stats.h and of cpuacct is not part of it.
use cmsc421prj.Base.{
  ℕ, zero, suc, Bool, Option, none, some, ◌>>=◌, ◌==◌, ltb, if◌then◌else◌, add64, sub64, neg64,
}
use cmsc421prj.State.Data.{Sys, Task, runtime_inf}
use cmsc421prj.State.Setters.{set_rtq, set_task}
use cmsc421prj.Rt.Entities.{rt_bandwidth_enabled, sched_rt_runtime, rt_rq_of_se}
use cmsc421prj.Rt.Bandwidth.{resched_task}
use cmsc421prj.Policy.{task_has_rt_policy}

-- A clock that went back charges nothing.
unfoldable pub delta_exec : ℕ → ℕ → ℕ
delta_exec clock start = if neg64 (sub64 clock start) then 0 else sub64 clock start

abbrev max : ℕ → ℕ → ℕ
max a b = if ltb a b then b else a

unfoldable pub charge_task : Task → ℕ → Task
unfolding delta_exec
charge_task p clock = record p {
  exec_max = max p.exec_max (delta_exec clock p.exec_start);
  sum_exec_runtime = add64 p.sum_exec_runtime (delta_exec clock p.exec_start);
  exec_start = clock;
}

module _ (exceeded : Sys → ℕ → Option (Sys × Bool)) where
  charge_rt_rq : Sys → ℕ → ℕ → ℕ → Option Sys
  charge_rt_rq s curr q delta =
      if sched_rt_runtime s q == runtime_inf
      then some s
      else (exceeded (set_rtq s q (record (s.rtq q) { rt_time = add64 (s.rtq q).rt_time delta })) q
          >>= λ (s', over). some (if over then resched_task s' curr else s'))

  -- `for_each_sched_rt_entity`: the parent is read after the body has run.
  charge_up : ℕ → Sys → ℕ → ℕ → Option ℕ → Option Sys
  unfolding charge_rt_rq
  charge_up fuel s curr delta none = some s
  charge_up zero s curr delta (some e) = none
  charge_up (suc fuel) s curr delta (some e) = charge_rt_rq s curr (rt_rq_of_se s e) delta >>= λ s'.
      charge_up fuel s' curr delta (s'.ent e).parent

  unfoldable pub update_curr : Sys → ℕ → Option Sys
  unfolding charge_up
  update_curr s c =
      if task_has_rt_policy (s.task curr)
      then (if rt_bandwidth_enabled s
          then charge_up s.depth s1 curr (delta_exec (s.rq c).clock (s.task curr).exec_start)
              (some curr)
          else some s1)
      else some s
    where
      curr : ℕ
      curr = (s.rq c).curr

      s1 : Sys
      s1 = set_task s curr (charge_task (s.task curr) (s.rq c).clock)
