-- ===== src/Dispatch.antt =====
-- The calls through `p->sched_class`, sched.c: a task enters and leaves its runqueue, and its class
-- or priority changes. The classes are an interface, as sched_idletask.c is not in the repository.
use cmsc421prj.Base.{
  ◌&&◌, bit_and, not, ℕ, Bool, true, false, Option, some, ◌>>=◌, ◌==◌, ◌/◌, ◌+◌, ◌-◌, ◌^◌,
  if◌then◌else◌, add64, sub64, neg64,
}
use cmsc421prj.State.Data.{Task, SchedClass, rt_class, brr_class, fair_class, idle_class}
use cmsc421prj.State.Setters.{set_task, set_rq}
use cmsc421prj.Fair.Data.{FairSys, set_sys, set_se}

-- The table of a class, `struct sched_class`, for the functions called here: on the state, a cpu and
-- a task. A null `switched_from` is the function that changes nothing.
pub record ClassOps : Type 0 where
  pub enqueue : FairSys → ℕ → ℕ → Bool → Option FairSys
  pub dequeue : FairSys → ℕ → ℕ → Bool → Option FairSys
  pub put_prev : FairSys → ℕ → ℕ → Option FairSys
  pub set_curr : FairSys → ℕ → Option FairSys
  pub switched_from : FairSys → ℕ → ℕ → Bool → Option FairSys
  pub switched_to : FairSys → ℕ → ℕ → Bool → Option FairSys
  pub prio_changed : FairSys → ℕ → ℕ → ℕ → Bool → Option FairSys

abbrev pub write_task : FairSys → ℕ → Task → FairSys
write_task s p x = set_sys s (set_task s.sys p x)

-- `p->state & TASK_UNINTERRUPTIBLE`, and the task is not being frozen.
abbrev pub task_contributes_to_load : Task → Bool
task_contributes_to_load p = not (bit_and p.state 2 == 0) && not p.freezing

-- `diff >> 3` for a signed `diff`.
abbrev pub eighth : ℕ → ℕ
eighth diff = if neg64 diff then diff / 8 + (2 ^ 64 - 2 ^ 61) else diff / 8

unfoldable pub update_avg : ℕ → ℕ → ℕ
update_avg avg sample = add64 avg (eighth (sub64 sample avg))

-- What `dequeue_task` records of a task that goes to sleep.
unfoldable pub going_to_sleep : FairSys → ℕ → FairSys
unfolding update_avg
going_to_sleep s p =
    if (s.se p).last_wakeup == 0
    then set_se s p (record (s.se p) {
      avg_wakeup = update_avg (s.se p).avg_wakeup s.tunables.wakeup_granularity;
    })
    else set_se s p (record (s.se p) {
      avg_overlap =
          update_avg (s.se p).avg_overlap
            (sub64 (s.sys.task p).sum_exec_runtime (s.se p).last_wakeup);
      last_wakeup = 0;
    })

abbrev pub set_on_rq : FairSys → ℕ → Bool → FairSys
set_on_rq s p b = write_task s p (record (s.sys.task p) { on_rq = b })

abbrev start_run : FairSys → ℕ → FairSys
start_run s p =
    write_task s p (record (s.sys.task p) { start_runtime = (s.sys.task p).sum_exec_runtime })

-- `inc_nr_running` and `dec_nr_running`
unfoldable pub inc_nr_running : FairSys → ℕ → FairSys
inc_nr_running s c =
    set_sys s
      (set_rq s.sys c (record (s.sys.rq c) { nr_running = add64 (s.sys.rq c).nr_running 1 }))

unfoldable pub dec_nr_running : FairSys → ℕ → FairSys
dec_nr_running s c =
    set_sys s
      (set_rq s.sys c (record (s.sys.rq c) { nr_running = sub64 (s.sys.rq c).nr_running 1 }))

abbrev pub set_uninterruptible : FairSys → ℕ → ℕ → FairSys
set_uninterruptible s c n =
    set_sys s (set_rq s.sys c (record (s.sys.rq c) { nr_uninterruptible = n }))

abbrev pub same_class : SchedClass → SchedClass → Bool
same_class rt_class rt_class = true
same_class rt_class brr_class = false
same_class rt_class fair_class = false
same_class rt_class idle_class = false
same_class brr_class rt_class = false
same_class brr_class brr_class = true
same_class brr_class fair_class = false
same_class brr_class idle_class = false
same_class fair_class rt_class = false
same_class fair_class brr_class = false
same_class fair_class fair_class = true
same_class fair_class idle_class = false
same_class idle_class rt_class = false
same_class idle_class brr_class = false
same_class idle_class fair_class = false
same_class idle_class idle_class = true

module _ (ops : SchedClass → ClassOps) where
  abbrev pub class_of : FairSys → ℕ → ClassOps
  class_of s p = ops (s.sys.task p).sched_class

  unfoldable pub enqueue_task : FairSys → ℕ → ℕ → Bool → Option FairSys
  enqueue_task s c p wakeup =
      let s1 = if wakeup then start_run s p else s in
      (class_of s1 p).enqueue s1 c p wakeup >>= λ s2. some (set_on_rq s2 p true)

  unfoldable pub dequeue_task : FairSys → ℕ → ℕ → Bool → Option FairSys
  unfolding going_to_sleep
  dequeue_task s c p sleep =
      let s1 = if sleep then going_to_sleep s p else s in
      (class_of s1 p).dequeue s1 c p sleep >>= λ s2. some (set_on_rq s2 p false)

  unfoldable pub activate_task : FairSys → ℕ → ℕ → Bool → Option FairSys
  unfolding enqueue_task inc_nr_running
  activate_task s c p wakeup =
      let s1 =
        if task_contributes_to_load (s.sys.task p)
        then set_uninterruptible s c (sub64 (s.sys.rq c).nr_uninterruptible 1)
        else s in
      enqueue_task s1 c p wakeup >>= λ s2. some (inc_nr_running s2 c)

  unfoldable pub deactivate_task : FairSys → ℕ → ℕ → Bool → Option FairSys
  unfolding dequeue_task dec_nr_running
  deactivate_task s c p sleep =
      let s1 =
        if task_contributes_to_load (s.sys.task p)
        then set_uninterruptible s c (add64 (s.sys.rq c).nr_uninterruptible 1)
        else s in
      dequeue_task s1 c p sleep >>= λ s2. some (dec_nr_running s2 c)

  unfoldable pub check_class_changed : FairSys → ℕ → ℕ → SchedClass → ℕ → Bool → Option FairSys
  check_class_changed s c p prev oldprio running =
      if same_class prev (s.sys.task p).sched_class
      then (class_of s p).prio_changed s c p oldprio running
      else ((ops prev).switched_from s c p running >>= λ s1.
          (class_of s1 p).switched_to s1 c p running)
