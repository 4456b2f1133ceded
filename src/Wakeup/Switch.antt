-- ===== src/Wakeup/Switch.antt =====
-- `__schedule` and the timer tick, sched.c.
use cmsc421prj.Base.{
  ℕ, Bool, true, false, not, ◌&&◌, ◌||◌, Option, some, ◌>>=◌, ◌==◌, if◌then◌else◌, add64, sub64,
  bit_and, min, ◌*◌, word, ◌%◌,
}
use cmsc421prj.State.Data.{SchedClass}
use cmsc421prj.State.Setters.{set_rq}
use cmsc421prj.Fair.Data.{FairSys, set_sys, set_se}
use cmsc421prj.Fair.Tasks.{set_clock}
use cmsc421prj.Balance.Loads.{update_cpu_load}
use cmsc421prj.Dispatch.{ClassOps, write_task, update_avg, class_of, deactivate_task}
use cmsc421prj.Wakeup.{set_state}

-- What `__schedule` takes from elsewhere: the clock; whether PREEMPT_ACTIVE is set; the signals of a
-- task, and whether one of them kills; `pre_schedule` of the class; `idle_balance`; the choice of the
-- next task.
pub record Site : Type 0 where
  pub clock : ℕ → ℕ
  pub preempt_active : Bool
  pub signal_pending : ℕ → Bool
  pub fatal_signal_pending : ℕ → Bool
  pub pre_schedule : FairSys → ℕ → ℕ → Option FairSys
  pub idle_balance : FairSys → ℕ → Option FairSys
  pub pick_next : FairSys → ℕ → Option (FairSys × ℕ)

-- For the state of the task: TASK_INTERRUPTIBLE is 1 and TASK_WAKEKILL is 128.
unfoldable pub signal_pending_state : Site → ℕ → ℕ → Bool
signal_pending_state site state p =
    if bit_and state 129 == 0
    then false
    else site.signal_pending p && (not (bit_and state 1 == 0) || site.fatal_signal_pending p)

module _ (ops : SchedClass → ClassOps) (site : Site) where
  -- The first part of `put_prev_task`.
  unfoldable pub grow_overlap : FairSys → ℕ → FairSys
  unfolding update_avg
  grow_overlap s prev =
      let ran = sub64 (s.sys.task prev).sum_exec_runtime (s.se prev).prev_sum_exec_runtime in
      let runtime = min ran ((2 * s.tunables.migration_cost) % word) in
      if (s.sys.task prev).state == 0
      then set_se s prev
          (record (s.se prev) { avg_overlap = update_avg (s.se prev).avg_overlap runtime })
      else s

  unfoldable pub put_prev_task : FairSys → ℕ → ℕ → Option FairSys
  unfolding grow_overlap
  put_prev_task s c prev = let s1 = grow_overlap s prev in (class_of ops s1 prev).put_prev s1 c prev

  -- Whether the task gives up the processor to sleep.
  abbrev pub goes_to_sleep : FairSys → ℕ → Bool
  goes_to_sleep s prev = not ((s.sys.task prev).state == 0) && not site.preempt_active

  unfoldable pub leave_or_stay : FairSys → ℕ → ℕ → Option FairSys
  unfolding deactivate_task signal_pending_state
  leave_or_stay s c prev =
      if goes_to_sleep s prev
      then (if signal_pending_state site (s.sys.task prev).state prev
          then some (set_state s prev 0)
          else deactivate_task ops s c prev true)
      else some s

  -- `nvcsw` if the task has given up the processor itself, else `nivcsw`.
  unfoldable pub count_switch : Bool → FairSys → ℕ → FairSys
  count_switch voluntary s prev =
      let x = s.sys.task prev in
      write_task s prev (
        if voluntary
        then record x { nvcsw = add64 x.nvcsw 1 }
        else record x { nivcsw = add64 x.nivcsw 1 })

  unfoldable pub switch_to : Bool → FairSys → ℕ → ℕ → ℕ → FairSys
  unfolding count_switch
  switch_to voluntary s c prev next =
      let r = s.sys.rq c in
      let s1 =
        set_sys s
          (set_rq s.sys c (record r { nr_switches = add64 r.nr_switches 1; curr = next })) in
      if prev == next then s else count_switch voluntary s1 prev

  -- `__schedule`, on the cpu `c`; the switch of the stack comes after it.
  unfoldable pub schedule : FairSys → ℕ → Option FairSys
  unfolding leave_or_stay put_prev_task switch_to
  schedule s0 c =
      let prev = (s0.sys.rq c).curr in
      let s1 = set_clock s0 c (site.clock c) in
      let s2 = write_task s1 prev (record (s1.sys.task prev) { need_resched = false }) in
      let voluntary = goes_to_sleep s2 prev in
      leave_or_stay s2 c prev >>= λ s3. site.pre_schedule s3 c prev >>= λ s4.
      (if (s4.sys.rq c).nr_running == 0 then site.idle_balance s4 c else some s4) >>= λ s5.
      put_prev_task s5 c prev >>= λ s6.
      site.pick_next s6 c >>= λ (s7, next). some (switch_to voluntary s7 c prev next)

  -- `scheduler_tick`; `trigger_load_balance` comes after it.
  unfoldable pub scheduler_tick :
      (SchedClass → FairSys → ℕ → ℕ → Option FairSys) → FairSys → ℕ → Option FairSys
  unfolding update_cpu_load
  scheduler_tick task_tick s0 c =
      let curr = (s0.sys.rq c).curr in
      let s1 = set_clock s0 c (site.clock c) in
      let s2 = set_sys s1 (update_cpu_load s1.sys c) in
      task_tick (s2.sys.task curr).sched_class s2 c curr
