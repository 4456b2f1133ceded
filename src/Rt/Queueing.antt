-- ===== src/Rt/Queueing.antt =====
-- sched_rt.c, a queued entity moves to the head or the tail of its queue.
use cmsc421prj.Base.{
  ℕ, zero, suc, Bool, false, Option, none, some, ◌>>=◌, check, ltb, if◌then◌else◌,
}
use cmsc421prj.State.Data.{Sys, max_rt_prio}
use cmsc421prj.Rt.Entities.{on_rt_rq, rt_se_prio, rt_rq_of_se}
use cmsc421prj.Rt.Lists.{list_add, list_add_tail, list_del_init}

-- `list_move` and `list_move_tail` take the entity out of its list and add it to the queue.
unfoldable pub requeue_rt_entity : Sys → ℕ → ℕ → Bool → Option Sys
requeue_rt_entity s q e head =
    if on_rt_rq s e
    then (check (ltb (rt_se_prio s e) max_rt_prio) >>= λ _. some (
        if head
        then list_add (list_del_init s e) e q (rt_se_prio s e)
        else list_add_tail (list_del_init s e) e q (rt_se_prio s e)))
    else some s

requeue_up : ℕ → Sys → Bool → Option ℕ → Option Sys
unfolding requeue_rt_entity
requeue_up fuel s head none = some s
requeue_up zero s head (some e) = none
requeue_up (suc fuel) s head (some e) =
    requeue_rt_entity s (rt_rq_of_se s e) e head >>= λ s'. requeue_up fuel s' head (s'.ent e).parent

unfoldable pub requeue_task_rt : Sys → ℕ → Bool → Option Sys
unfolding requeue_up
requeue_task_rt s p head = requeue_up s.depth s head (some p)

unfoldable pub yield_task_rt : Sys → ℕ → Option Sys
unfolding requeue_task_rt
yield_task_rt s c = requeue_task_rt s (s.rq c).curr false
