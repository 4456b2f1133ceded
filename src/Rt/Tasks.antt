-- ===== src/Rt/Tasks.antt =====
-- sched_rt.c, the functions of `rt_sched_class` on a task.
use cmsc421prj.Base.{ℕ, Bool, not, ◌&&◌, Option, some, ◌>>=◌, ltb, if◌then◌else◌, add64, sub64}
use cmsc421prj.State.Data.{Sys}
use cmsc421prj.State.Setters.{set_ent, set_task, set_rq}
use cmsc421prj.Rt.Entities.{task_current}
use cmsc421prj.Rt.Migration.{enqueue_pushable_task, dequeue_pushable_task}
use cmsc421prj.Rt.Enqueue.{enqueue_rt_entity, dequeue_rt_entity}
use cmsc421prj.Rt.Bandwidth.{rt_rq_dequeue, runtime_exceeded}
use cmsc421prj.Rt.Timer.{do_period_timer, rt_rq_enqueue}
use cmsc421prj.Rt.Account.{update_curr}
use cmsc421prj.Rt.Tick

-- `inc_cpu_load` and `dec_cpu_load`, sched.c.
unfoldable pub inc_cpu_load : Sys → ℕ → ℕ → Sys
inc_cpu_load s c w = set_rq s c (record (s.rq c) { load = add64 (s.rq c).load w; load_inv = 0 })

unfoldable pub dec_cpu_load : Sys → ℕ → ℕ → Sys
dec_cpu_load s c w = set_rq s c (record (s.rq c) { load = sub64 (s.rq c).load w; load_inv = 0 })

-- `if (wakeup) rt_se->timeout = 0`
abbrev pub reset_timeout : Sys → ℕ → Bool → Sys
reset_timeout s p wakeup = if wakeup then set_ent s p (record (s.ent p) { timeout = 0 }) else s

abbrev pub push_if_waiting : Sys → ℕ → ℕ → Sys
push_if_waiting s c p =
    if not (task_current s c p) && ltb 1 (s.ent p).nr_cpus_allowed
    then enqueue_pushable_task s c p
    else s

-- Both classes have a copy of these, with their own walks.
unfoldable pub enqueue_task_by : (Sys → ℕ → Option Sys) → Sys → ℕ → ℕ → Bool → Option Sys
unfolding inc_cpu_load
enqueue_task_by enqueue_entity s c p wakeup = enqueue_entity (reset_timeout s p wakeup) p >>= λ s1.
    some (inc_cpu_load (push_if_waiting s1 c p) c (s1.task p).weight)

unfoldable pub dequeue_task_by :
    (Sys → ℕ → Option Sys) → (Sys → ℕ → Option Sys) → Sys → ℕ → ℕ → Option Sys
unfolding dec_cpu_load
dequeue_task_by update dequeue_entity s c p = update s c >>= λ s1. dequeue_entity s1 p >>= λ s2.
    some (dec_cpu_load (dequeue_pushable_task s2 c p) c (s2.task p).weight)

unfoldable pub put_prev_by : (Sys → ℕ → Option Sys) → Sys → ℕ → ℕ → Option Sys
put_prev_by update s c p = update s c >>= λ s1.
    (let s2 = set_task s1 p (record (s1.task p) { exec_start = 0 }) in
      some (
        if (s2.task p).on_rq && ltb 1 (s2.ent p).nr_cpus_allowed
        then enqueue_pushable_task s2 c p
        else s2))

unfoldable pub sched_rt_rq_enqueue : Sys → ℕ → Option Sys
unfolding rt_rq_enqueue
sched_rt_rq_enqueue = rt_rq_enqueue enqueue_rt_entity

unfoldable pub sched_rt_rq_dequeue : Sys → ℕ → Option Sys
unfolding rt_rq_dequeue
sched_rt_rq_dequeue = rt_rq_dequeue dequeue_rt_entity

unfoldable pub sched_rt_runtime_exceeded : Sys → ℕ → Option (Sys × Bool)
sched_rt_runtime_exceeded = runtime_exceeded dequeue_rt_entity

unfoldable pub do_sched_rt_period_timer : Sys → ℕ → ℕ → Option (Sys × Bool)
unfolding do_period_timer
do_sched_rt_period_timer = do_period_timer enqueue_rt_entity

unfoldable pub update_curr_rt : Sys → ℕ → Option Sys
update_curr_rt = update_curr sched_rt_runtime_exceeded

unfoldable pub enqueue_task_rt : Sys → ℕ → ℕ → Bool → Option Sys
enqueue_task_rt = enqueue_task_by enqueue_rt_entity

unfoldable pub dequeue_task_rt : Sys → ℕ → ℕ → Option Sys
dequeue_task_rt = dequeue_task_by update_curr_rt dequeue_rt_entity

unfoldable pub put_prev_task_rt : Sys → ℕ → ℕ → Option Sys
put_prev_task_rt = put_prev_by update_curr_rt

unfoldable pub task_tick_rt : ℕ → Sys → ℕ → ℕ → Option Sys
task_tick_rt = Tick.task_tick update_curr_rt

unfoldable pub set_curr_task_rt : Sys → ℕ → Sys
set_curr_task_rt s c =
    dequeue_pushable_task (set_task s curr (record (s.task curr) { exec_start = (s.rq c).clock })) c
      curr
  where
    curr : ℕ
    curr = (s.rq c).curr
