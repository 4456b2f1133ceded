-- ===== src/Rt/Pick.antt =====
-- sched_rt.c, the choice of the next task, and the preemption of the current one.
use cmsc421prj.Base.{
  ℕ, zero, suc, Bool, true, not, ◌&&◌, ◌||◌, Option, none, some, List, [], ◌∷◌, ◌>>=◌, check, ltb,
  ◌==◌, if◌then◌else◌,
}
use cmsc421prj.State.Data.{Sys, max_rt_prio}
use cmsc421prj.State.Setters.{set_task}
use cmsc421prj.Rt.Entities.{rt_rq_throttled}
use cmsc421prj.Rt.Lists.{sched_find_first_bit}
use cmsc421prj.Rt.Migration.{dequeue_pushable_task}
use cmsc421prj.Rt.Queueing.{requeue_task_rt}
use cmsc421prj.Rt.Bandwidth.{resched_task}

-- `list_entry(queue->next, …)`, which is no entity if the queue is empty.
first_of_queue : List ℕ → Option ℕ
first_of_queue [] = none
first_of_queue (e ∷ es) = some e

unfoldable pub pick_next_rt_entity : Sys → ℕ → Option ℕ
unfolding first_of_queue
pick_next_rt_entity s q = check (ltb (sched_find_first_bit (s.rtq q).bitmap) max_rt_prio) >>= λ _.
    first_of_queue ((s.rtq q).queue (sched_find_first_bit (s.rtq q).bitmap))

-- `do … while (rt_rq)`: down through the groups to a task.
unfoldable pub descend : ℕ → Sys → Option ℕ → Option ℕ
descend fuel s none = none
descend zero s (some q) = none
descend (suc fuel) s (some q) = pick_next_rt_entity s q >>= λ e.
    (let below = descend fuel s (s.ent e).my_q in
      elim (s.ent e).my_q [ none ↦ some e | some g ↦ below ])

abbrev pub start_exec : Sys → ℕ → ℕ → Sys
start_exec s c p = set_task s p (record (s.task p) { exec_start = (s.rq c).clock })

abbrev pub root_q : Sys → ℕ → ℕ
root_q s c = (s.rq c).rt

-- The guards that both classes pick behind.
unfoldable pub nothing_to_pick : Sys → ℕ → Bool
nothing_to_pick s c =
    (s.rtq (root_q s c)).rt_nr_running == 0 || rt_rq_throttled (s.rtq (root_q s c))

-- A fault, or no task, or a task that starts to run.
unfoldable pub pick_task : Sys → ℕ → Option (Sys × Option ℕ)
pick_task s c =
    if nothing_to_pick s c
    then some (s, none)
    else (descend s.depth s (some (root_q s c)) >>= λ p. some (start_exec s c p, some p))

no_longer_pushable : ℕ → Sys × Option ℕ → Sys × Option ℕ
unfolding dequeue_pushable_task
no_longer_pushable c (s, none) = (s, none)
no_longer_pushable c (s, some p) = (dequeue_pushable_task s c p, some p)

unfoldable pub unpush : ℕ → Option (Sys × Option ℕ) → Option (Sys × Option ℕ)
unfolding no_longer_pushable
unpush c picked = picked >>= λ r. some (no_longer_pushable c r)

unfoldable pub pick_next_task_rt : Sys → ℕ → Option (Sys × Option ℕ)
pick_next_task_rt s c = unpush c (pick_task s c)

-- `find` is `cpupri_find` of sched_cpupri.c: whether some cpu can take the task, by the calls of
-- `cpupri_set` so far.
module _ (find : List (ℕ × ℕ) → ℕ → Bool) where
  abbrev finds : Sys → ℕ → ℕ → Bool
  finds s c p = find (s.rd (s.rq c).rd).cpupri p

  unfoldable pub check_preempt_equal_prio : Sys → ℕ → ℕ → Option Sys
  check_preempt_equal_prio s c p =
      if (s.ent (s.rq c).curr).nr_cpus_allowed == 1
      then some s
      else (if not ((s.ent p).nr_cpus_allowed == 1) && finds s c p
          then some s
          else (if finds s c (s.rq c).curr
              then (requeue_task_rt s p true >>= λ s'. some (resched_task s' (s'.rq c).curr))
              else some s))

  -- `need_resched()` is the flag of the task that runs on this cpu.
  unfoldable pub check_preempt_curr_rt : Sys → ℕ → ℕ → Option Sys
  unfolding check_preempt_equal_prio
  check_preempt_curr_rt s c p =
      if ltb (s.task p).prio (s.task (s.rq c).curr).prio
      then some (resched_task s (s.rq c).curr)
      else (if (s.task p).prio == (s.task (s.rq c).curr).prio
            && not (s.task (s.rq s.this_cpu).curr).need_resched
          then check_preempt_equal_prio s c p
          else some s)
