-- ===== src/Rt/Timer.antt =====
-- sched_rt.c, the period timer: `do_sched_rt_period_timer` and `sched_rt_rq_enqueue`, of which both
-- classes have a copy. `overrun` is the number of periods that have gone by.
use cmsc421prj.Base.{
  ℕ, ◌*◌, ◌-◌, ◌%◌, Bool, true, false, ◌||◌, ◌&&◌, not, Option, none, some, List, [], ◌∷◌, ◌>>=◌,
  ◌==◌, ltb, if◌then◌else◌, word,
}
use cmsc421prj.State.Data.{Sys, RtRq, runtime_inf}
use cmsc421prj.State.Setters.{set_rtq}
use cmsc421prj.Rt.Entities.{on_rt_rq, rt_bandwidth_enabled, rq_of_rt_rq}
use cmsc421prj.Rt.Bandwidth.{resched_task, balance_runtime}

-- `min(rt_rq->rt_time, overrun*runtime)`
unfoldable pub worked_off : ℕ → ℕ → ℕ → ℕ
worked_off time overrun runtime =
    if ltb ((overrun * runtime) % word) time then (overrun * runtime) % word else time

-- The time that is left once the gone periods are paid for.
unfoldable pub settle : RtRq → ℕ → RtRq
unfolding worked_off
settle q overrun = record q { rt_time = q.rt_time - worked_off q.rt_time overrun q.rt_runtime }

-- The lift of the throttle, with `enqueue`.
unfoldable pub unthrottle : RtRq → RtRq × Bool
unthrottle q =
    if q.rt_throttled && ltb q.rt_time q.rt_runtime
    then (record q { rt_throttled = false }, true)
    else (q, false)

module _ (enqueue_rt : Sys → ℕ → Option Sys) where
  enqueue_group : Sys → Option ℕ → Option Sys
  unfolding on_rt_rq
  enqueue_group s none = some s
  enqueue_group s (some e) = if on_rt_rq s e then some s else enqueue_rt s e

  abbrev curr_of : Sys → ℕ → ℕ
  curr_of s q = (s.rq (rq_of_rt_rq s q)).curr

  -- `curr` is read before the entity is queued.
  unfoldable pub rt_rq_enqueue : Sys → ℕ → Option Sys
  unfolding enqueue_group
  rt_rq_enqueue s q =
      if (s.rtq q).rt_nr_running == 0
      then some s
      else (enqueue_group s (s.rtq q).rt_se >>= λ s'. some (
          if ltb (s'.rtq q).highest_curr (s'.task (curr_of s q)).prio
          then resched_task s' (curr_of s q)
          else s'))

  unfoldable pub balance_if_throttled : Sys → ℕ → Option Sys
  balance_if_throttled s q =
      if (s.rtq q).rt_throttled then (balance_runtime s q >>= λ (s', more). some s') else some s

  unfoldable pub settle_time : Sys → ℕ → ℕ → Option (Sys × Bool × Bool)
  unfolding balance_if_throttled settle unthrottle
  settle_time s q overrun = balance_if_throttled s q >>= λ s1.
      (let (r, enqueue) = unthrottle (settle (s1.rtq q) overrun) in
        some (set_rtq s1 q r, enqueue, not (r.rt_time == 0) || not (r.rt_nr_running == 0)))

  -- One cpu's runqueue, with `true` where it clears `idle`.
  unfoldable pub period_tick : Sys → ℕ → ℕ → Option (Sys × Bool)
  unfolding settle_time rt_rq_enqueue
  period_tick s q overrun =
      if (s.rtq q).rt_time == 0
      then some (s, not ((s.rtq q).rt_nr_running == 0))
      else (settle_time s q overrun >>= λ (s', enqueue, busy).
          (if enqueue then (rt_rq_enqueue s' q >>= λ s''. some (s'', busy)) else some (s', busy)))

  period_loop : Sys → ℕ → ℕ → Bool → List ℕ → Option (Sys × Bool)
  unfolding period_tick
  period_loop s g overrun idle [] = some (s, idle)
  period_loop s g overrun idle (c ∷ cs) =
      period_tick s ((s.group g).rt_rq_of c) overrun >>= λ (s', busy).
      period_loop s' g overrun (idle && not busy) cs

  -- The result is `idle`.
  unfoldable pub do_period_timer : Sys → ℕ → ℕ → Option (Sys × Bool)
  unfolding period_loop
  do_period_timer s g overrun =
      if not (rt_bandwidth_enabled s) || (s.group g).rt_runtime == runtime_inf
      then some (s, true)
      else period_loop s g overrun true (s.rd (s.rq s.this_cpu).rd).span
