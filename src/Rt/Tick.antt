-- ===== src/Rt/Tick.antt =====
-- sched_rt.c, the timer tick of the current task: `watchdog`, and `task_tick_rt` with its copy
-- `task_tick_rt_brr`.
use cmsc421prj.Base.{
  ℕ, ◌+◌, ◌-◌, ◌/◌, Bool, false, not, ◌&&◌, Option, none, some, List, [], ◌>>=◌, ltb, ◌==◌,
  if◌then◌else◌, add64, dec32, length,
}
use cmsc421prj.Policy.{sched_rr}
use cmsc421prj.State.Data.{Sys, runtime_inf}
use cmsc421prj.State.Setters.{set_ent, set_task}
use cmsc421prj.Rt.Queueing.{requeue_task_rt}
use cmsc421prj.Rt.Bandwidth.{resched_task}

-- `DIV_ROUND_UP(min(soft, hard), usec)`, where `usec` is `USEC_PER_SEC/HZ`.
abbrev next_timeout : ℕ → ℕ → ℕ → ℕ
next_timeout usec soft hard = ((if ltb hard soft then hard else soft) + usec - 1) / usec

abbrev pub count_timeout : Sys → ℕ → Sys
count_timeout s p = set_ent s p (record (s.ent p) { timeout = add64 (s.ent p).timeout 1 })

unfoldable pub watchdog : ℕ → Sys → ℕ → Sys
watchdog usec s p =
    if (s.task p).signal && not ((s.task p).rttime_soft == runtime_inf)
    then (if ltb (next_timeout usec (s.task p).rttime_soft (s.task p).rttime_hard)
          (add64 (s.ent p).timeout 1)
        then set_task (count_timeout s p) p
            (record (s.task p) { sched_exp = (s.task p).sum_exec_runtime })
        else count_timeout s p)
    else s

queue_of : Sys → Option (ℕ × ℕ) → List ℕ
queue_of s none = []
queue_of s (some (q, i)) = (s.rtq q).queue i

-- `run_list.prev != run_list.next`: another entity is in the same queue.
unfoldable pub is_not_alone : Sys → ℕ → Bool
unfolding queue_of
is_not_alone s e = ltb 1 (length (queue_of s (s.ent e).run_list))

abbrev pub set_slice : Sys → ℕ → ℕ → Sys
set_slice s p n = set_ent s p (record (s.ent p) { time_slice = n })

-- The slice has run out.
unfoldable pub new_slice : Sys → ℕ → Option Sys
unfolding is_not_alone
new_slice s p =
    let s1 = set_slice s p s.def_timeslice in
    if is_not_alone s1 p
    then (requeue_task_rt s1 p false >>= λ s2. some (resched_task s2 p))
    else some s1

-- `time_slice` is an `unsigned int`.
unfoldable pub round_robin : Sys → ℕ → Option Sys
round_robin s p =
    if (s.task p).policy == sched_rr
    then (if dec32 (s.ent p).time_slice == 0
        then new_slice (set_slice s p (dec32 (s.ent p).time_slice)) p
        else some (set_slice s p (dec32 (s.ent p).time_slice)))
    else some s

unfoldable pub task_tick : (Sys → ℕ → Option Sys) → ℕ → Sys → ℕ → ℕ → Option Sys
task_tick update_curr usec s c p = update_curr s c >>= λ s1. round_robin (watchdog usec s1 p) p
