-- ===== src/Brr/Tasks.antt =====
-- sched_brr.c, the functions of `brr_sched_class` on a task, and its copies of the bandwidth code.
use cmsc421prj.Base.{ℕ, Bool, Option}
use cmsc421prj.State.Data.{Sys}
use cmsc421prj.Rt.Bandwidth.{rt_rq_dequeue, runtime_exceeded}
use cmsc421prj.Rt.Timer.{do_period_timer, rt_rq_enqueue}
use cmsc421prj.Rt.Account.{update_curr}
use cmsc421prj.Rt.Tick
use cmsc421prj.Rt.Tasks.{enqueue_task_by, dequeue_task_by, put_prev_by}
use cmsc421prj.Brr.Enqueue.{enqueue_rt_entity_brr, dequeue_rt_entity_brr}

unfoldable pub sched_rt_rq_enqueue_brr : Sys → ℕ → Option Sys
unfolding rt_rq_enqueue
sched_rt_rq_enqueue_brr = rt_rq_enqueue enqueue_rt_entity_brr

unfoldable pub sched_rt_rq_dequeue_brr : Sys → ℕ → Option Sys
unfolding rt_rq_dequeue
sched_rt_rq_dequeue_brr = rt_rq_dequeue dequeue_rt_entity_brr

unfoldable pub sched_rt_runtime_exceeded_brr : Sys → ℕ → Option (Sys × Bool)
sched_rt_runtime_exceeded_brr = runtime_exceeded dequeue_rt_entity_brr

unfoldable pub do_sched_rt_period_timer_brr : Sys → ℕ → ℕ → Option (Sys × Bool)
unfolding do_period_timer
do_sched_rt_period_timer_brr = do_period_timer enqueue_rt_entity_brr

unfoldable pub update_curr_rt_brr : Sys → ℕ → Option Sys
update_curr_rt_brr = update_curr sched_rt_runtime_exceeded_brr

unfoldable pub enqueue_task_rt_brr : Sys → ℕ → ℕ → Bool → Option Sys
enqueue_task_rt_brr = enqueue_task_by enqueue_rt_entity_brr

unfoldable pub dequeue_task_rt_brr : Sys → ℕ → ℕ → Option Sys
dequeue_task_rt_brr = dequeue_task_by update_curr_rt_brr dequeue_rt_entity_brr

unfoldable pub put_prev_task_rt_brr : Sys → ℕ → ℕ → Option Sys
put_prev_task_rt_brr = put_prev_by update_curr_rt_brr

unfoldable pub task_tick_rt_brr : ℕ → Sys → ℕ → ℕ → Option Sys
task_tick_rt_brr = Tick.task_tick update_curr_rt_brr
