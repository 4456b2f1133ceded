-- ===== src/Rt/Enqueue.antt =====
-- sched_rt.c, adding an entity to the queue of its priority and taking it off.
use cmsc421prj.Base.{
  ℕ, Bool, true, false, ◌||◌, Option, none, some, ◌>>=◌, check, ◌==◌, ltb, if◌then◌else◌,
}
use cmsc421prj.State.Data.{Sys, max_rt_prio}
use cmsc421prj.State.Setters.{set_rtq}
use cmsc421prj.Rt.Entities.{rt_rq_throttled, rt_se_prio, rt_rq_of_se, group_rt_rq}
use cmsc421prj.Rt.Lists.{list_add_tail, list_del_init, put_bit, is_empty}
use cmsc421prj.Rt.Counts.{inc_rt_tasks, dec_rt_tasks}
use cmsc421prj.Rt.Walk.{enqueue_entity, dequeue_entity, dequeue_stack}

blocked_by : Sys → Option ℕ → Bool
unfolding rt_rq_throttled
blocked_by s none = false
blocked_by s (some g) = rt_rq_throttled (s.rtq g) || (s.rtq g).rt_nr_running == 0

-- `group_rq && (rt_rq_throttled(group_rq) || !group_rq->rt_nr_running)`
unfoldable pub is_group_blocked : Sys → ℕ → Bool
unfolding blocked_by
is_group_blocked s e = blocked_by s (group_rt_rq s e)

unfoldable pub set_bit : Sys → ℕ → ℕ → Sys
set_bit s q i = set_rtq s q (put_bit (s.rtq q) i true)

unfoldable pub clear_bit : Sys → ℕ → ℕ → Sys
clear_bit s q i = set_rtq s q (put_bit (s.rtq q) i false)

-- The entity joins the queue `i` of the runqueue `q`.
abbrev pub link : Sys → ℕ → ℕ → ℕ → Sys
link s e q i = set_bit (list_add_tail s e q i) q i

-- The end of `__enqueue_rt_entity`; a write to a queue that the array does not have is a fault.
unfoldable pub add_to_queue : Sys → ℕ → Option Sys
unfolding set_bit
add_to_queue s e =
    let q = rt_rq_of_se s e in
    let prio = rt_se_prio s e in
    check (ltb prio max_rt_prio) >>= λ _. some (inc_rt_tasks (link s e q prio) e q)

unfoldable pub enqueue_one : Sys → ℕ → Option Sys
unfolding is_group_blocked add_to_queue
enqueue_one s e = if is_group_blocked s e then some s else add_to_queue s e

-- The bit of a queue goes with its last entity.
unfoldable pub clear_if_empty : Sys → ℕ → ℕ → Sys
unfolding clear_bit
clear_if_empty s q i = if is_empty ((s.rtq q).queue i) then clear_bit s q i else s

-- The end of `__dequeue_rt_entity`.
unfoldable pub take_off_queue : Sys → ℕ → Option Sys
unfolding clear_if_empty
take_off_queue s e =
    let q = rt_rq_of_se s e in
    let prio = rt_se_prio s e in
    check (ltb prio max_rt_prio) >>= λ _.
    some (dec_rt_tasks (clear_if_empty (list_del_init s e) q prio) e q)

unfoldable pub dequeue_one : Sys → ℕ → Option Sys
unfolding take_off_queue
dequeue_one s e = take_off_queue s e

unfoldable pub dequeue_rt_stack : Sys → ℕ → Option Sys
unfolding dequeue_one dequeue_stack
dequeue_rt_stack = dequeue_stack dequeue_one

unfoldable pub enqueue_rt_entity : Sys → ℕ → Option Sys
unfolding enqueue_one dequeue_one enqueue_entity
enqueue_rt_entity = enqueue_entity dequeue_one enqueue_one

unfoldable pub dequeue_rt_entity : Sys → ℕ → Option Sys
unfolding enqueue_one dequeue_one dequeue_entity
dequeue_rt_entity = dequeue_entity dequeue_one enqueue_one
