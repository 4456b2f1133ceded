-- ===== src/Wakeup.antt =====
-- A task wakes up, is forked, and gives up the processor, sched.c. The classes are an interface, as in
-- Dispatch, with the functions that are called here.
pub mod Awake
pub mod Switch
pub mod Sleeps
use cmsc421prj.Base.{
  ℕ, Bool, true, false, not, ◌&&◌, ◌||◌, Option, none, some, ◌>>=◌, ◌==◌, if◌then◌else◌, add64,
  sub64, bit_and, check, ◌+◌,
}
use cmsc421prj.State.Data.{Sys, Task, SchedClass, fair_class}
use cmsc421prj.State.Setters.{set_rq, set_ent, set_task}
use cmsc421prj.Rt.Entities.{task_current, rt_prio}
use cmsc421prj.Policy.{effective_prio}
use cmsc421prj.Fair.Data.{FairSys, set_sys, set_se}
use cmsc421prj.Fair.Tasks.{set_clock}
use cmsc421prj.Dispatch.{ClassOps, write_task, update_avg, activate_task, inc_nr_running}
use cmsc421prj.Pulling.{set_task_cpu}
use cmsc421prj.Waiting.{WaitEntry, WakeCall, WakeFunction}

-- The functions of a class for a task that wakes up. A null `task_wake_up` changes nothing, and a null
-- `task_new` is `none`.
pub record WakeOps : Type 0 where
  pub select_task_rq : FairSys → ℕ → Bool → ℕ
  pub check_preempt : FairSys → ℕ → ℕ → Bool → Option FairSys
  pub task_wake_up : FairSys → ℕ → ℕ → Option FairSys
  pub task_new : Option (FairSys → ℕ → ℕ → Option FairSys)

-- What the functions take from elsewhere: the clock of a cpu, the feature SYNC_WAKEUPS, the update of
-- the shares of the groups before a task wakes up, what other cpus do while the runqueue is unlocked,
-- and whether an interrupt wakes the task.
pub record Around : Type 0 where
  pub clock : ℕ → ℕ
  pub sync_wakeups : Bool
  pub update_shares : FairSys → ℕ → FairSys
  pub others : FairSys → FairSys
  pub in_interrupt : Bool

-- `TASK_ALL`
abbrev pub task_all : ℕ
task_all = 15

abbrev pub set_state : FairSys → ℕ → ℕ → FairSys
set_state s p x = write_task s p (record (s.sys.task p) { state = x })

-- `old_state & state`
abbrev pub matches : FairSys → ℕ → ℕ → Bool
matches s p state = not (bit_and (s.sys.task p).state state == 0)

-- The wakeup is credited to the task that runs here.
unfoldable pub credit : Bool → FairSys → FairSys
unfolding update_avg
credit in_interrupt s =
    let cur = (s.sys.rq s.sys.this_cpu).curr in
    let sum = (s.sys.task cur).sum_exec_runtime in
    let last = (s.se cur).last_wakeup in
    let since = if last == 0 then (s.sys.task cur).start_runtime else last in
    if in_interrupt
    then s
    else set_se s cur (record (s.se cur) {
      avg_wakeup = update_avg (s.se cur).avg_wakeup (sub64 sum since);
      last_wakeup = sum;
    })

module _ (ops : SchedClass → ClassOps) (wakes : SchedClass → WakeOps) (around : Around) where
  -- `check_preempt_curr`, by the class of the task that runs.
  abbrev pub check_preempt_curr : FairSys → ℕ → ℕ → Bool → Option FairSys
  check_preempt_curr s c p sync =
      (wakes (s.sys.task (s.sys.rq c).curr).sched_class).check_preempt s c p sync

  abbrev pub run_task_wake_up : FairSys → ℕ → ℕ → Option FairSys
  run_task_wake_up s c p = (wakes (s.sys.task p).sched_class).task_wake_up s c p

  -- From `out_running` on.
  unfoldable pub out_running : FairSys → ℕ → ℕ → Bool → Bool → Option (FairSys × Bool)
  out_running s c p sync success = check_preempt_curr s c p sync >>= λ s1.
      run_task_wake_up (set_state s1 p 0) c p >>= λ s2. some (s2, success)

  -- From `out_activate` on.
  unfoldable pub out_activate : FairSys → ℕ → ℕ → Bool → Option (FairSys × Bool)
  unfolding out_running activate_task credit
  out_activate s c p sync = activate_task ops s c p true >>= λ s1.
      out_running (credit around.in_interrupt s1) c p sync true

  -- The choice of a cpu. If it is another one the runqueue is unlocked, so the state is tested again.
  unfoldable pub on_selected : FairSys → ℕ → ℕ → ℕ → Bool → Option (FairSys × Bool)
  unfolding out_activate set_task_cpu
  on_selected s c p state sync =
      let cpu = (wakes (s.sys.task p).sched_class).select_task_rq s p sync in
      let s1 = around.others (set_task_cpu s p cpu) in
      let here = (s1.sys.task p).cpu in
      if cpu == c
      then out_activate s c p sync
      else (if not (matches s1 p state)
          then some (s1, false)
          else (if (s1.sys.task p).on_rq
              then out_running s1 here p sync false
              else out_activate s1 here p sync))

  unfoldable pub try_to_wake_up : FairSys → ℕ → ℕ → Bool → Option (FairSys × Bool)
  unfolding on_selected
  try_to_wake_up s0 p state wanted =
      let sync = wanted && around.sync_wakeups in
      let s1 = around.update_shares s0 p in
      let c = (s1.sys.task p).cpu in
      let s = set_clock s1 c (around.clock c) in
      if not (matches s p state)
      then some (s, false)
      else (if (s.sys.task p).on_rq
          then out_running s c p sync false
          else (if task_current s.sys c p
              then out_activate s c p sync
              else on_selected s c p state sync))

  unfoldable pub wake_up_process : FairSys → ℕ → Option (FairSys × Bool)
  unfolding try_to_wake_up
  wake_up_process s p = try_to_wake_up s p task_all false

  unfoldable pub wake_up_state : FairSys → ℕ → ℕ → Option (FairSys × Bool)
  unfolding try_to_wake_up
  wake_up_state s p state = try_to_wake_up s p state false

  -- As the function of an entry of a wait queue; a fault stays one.
  unfoldable pub default_wake_function : WakeFunction (Option FairSys)
  unfolding try_to_wake_up
  default_wake_function call none e = (none, false)
  default_wake_function call (some s) e = elim (try_to_wake_up s e.waiter call.mode call.sync) [
    | none ↦ (none, false)
    | some (s1, success) ↦ (some s1, success)
  ]

  -- `__sched_fork`
  unfoldable pub basic_fork : FairSys → ℕ → FairSys
  basic_fork s p =
      let s1 = set_se s p (record (s.se p) {
        prev_sum_exec_runtime = 0;
        last_wakeup = 0;
        avg_overlap = 0;
        avg_wakeup = s.tunables.wakeup_granularity;
      }) in
      let s2 = set_sys s1 (set_ent s1.sys p (record (s1.sys.ent p) { run_list = none })) in
      write_task s2 p (record (s2.sys.task p) {
        exec_start = 0;
        sum_exec_runtime = 0;
        start_runtime = 0;
        on_rq = false;
        state = 0;
      })

  -- `balance` is `sched_balance_self` for the cpu, with SD_BALANCE_FORK.
  unfoldable pub sched_fork : (FairSys → ℕ → Option (FairSys × ℕ)) → FairSys → ℕ → Option FairSys
  unfolding basic_fork set_task_cpu rt_prio
  sched_fork balance s p = balance (basic_fork s p) s.sys.this_cpu >>= λ (s1, cpu).
      let s2 = set_task_cpu s1 p cpu in
      let prio = (s2.sys.task (s2.sys.rq s2.sys.this_cpu).curr).normal_prio in
      let x = record (s2.sys.task p) { prio = prio } in
      some (write_task s2 p (if rt_prio prio then x else record x { sched_class = fair_class }))

  unfoldable pub wake_up_new_task : FairSys → ℕ → Option FairSys
  unfolding effective_prio activate_task inc_nr_running
  wake_up_new_task s0 p =
      let c = (s0.sys.task p).cpu in
      let s = set_clock s0 c (around.clock c) in
      let (prio, x) = effective_prio (s.sys.task p) in
      let s1 = write_task s p (record x { prio = prio }) in
      let cur = (s1.sys.rq s1.sys.this_cpu).curr in
      let plain = activate_task ops s1 c p false in
      check ((s0.sys.task p).state == 0) >>= λ _.
      elim (wakes (s1.sys.task p).sched_class).task_new [
        | none ↦ plain
        | some new ↦
            if (s1.sys.task cur).on_rq
            then (new s1 c p >>= λ s2. some (inc_nr_running s2 c))
            else plain
      ]
      >>= λ s3. check_preempt_curr s3 c p false >>= λ s4. run_task_wake_up s4 c p
