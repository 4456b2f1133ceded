-- ===== src/Setscheduler/Change.antt =====
-- Changing the class or the priority of a task that may be on a runqueue, sched.c: it leaves its
-- runqueue, is changed, and comes back. `__sched_setscheduler` from its checks on, and
-- `rt_mutex_setprio`.
use cmsc421prj.Base.{ℕ, Bool, false, not, Option, none, some, ◌>>=◌, check, if◌then◌else◌, ltb}
use cmsc421prj.Base.Int.{ℤ, pos, negsuc, eq_ℤ}
use cmsc421prj.State.Data.{Task, SchedClass, rt_class, fair_class}
use cmsc421prj.Rt.Entities.{task_current, rt_prio}
use cmsc421prj.Fair.Data.{FairSys}
use cmsc421prj.Fair.Tasks.{set_clock}
use cmsc421prj.Dispatch.{
  ClassOps, class_of, write_task, enqueue_task, dequeue_task, activate_task, deactivate_task,
  check_class_changed,
}
use cmsc421prj.Setscheduler.{
  SchedParam, Caller, requested_policy, setscheduler_check, set_scheduler,
}

-- `MAX_PRIO`
abbrev max_prio : ℕ
max_prio = 140

-- What other parts of the kernel do: `sched_clock_cpu`, `rt_mutex_getprio`, `rt_mutex_adjust_pi`.
pub record Outside : Type 0 where
  pub clock : ℕ → ℕ
  pub getprio : Task → ℕ
  pub adjust_pi : FairSys → ℕ → Option FairSys

-- A priority that has passed the checks is not negative.
abbrev pub unsigned : ℤ → ℕ
unsigned (pos n) = n
unsigned (negsuc k) = 0

module _ (ops : SchedClass → ClassOps) where
  -- Off the runqueue by `take`, and off the cpu.
  unfoldable pub step_off :
      (FairSys → ℕ → ℕ → Bool → Option FairSys) → FairSys → ℕ → ℕ → Option FairSys
  step_off take s c p = (if (s.sys.task p).on_rq then take s c p false else some s) >>= λ s1.
      if task_current s.sys c p then (class_of ops s1 p).put_prev s1 c p else some s1

  -- And back, by `put`, as the task was before: on its runqueue and running or not, with the class
  -- `prev` and the priority `oldprio`.
  unfoldable pub step_on :
      (FairSys → ℕ → ℕ → Bool → Option FairSys)
      → FairSys
      → ℕ
      → ℕ
      → Bool
      → Bool
      → SchedClass
      → ℕ
      → Option FairSys
  unfolding check_class_changed
  step_on put s c p on_rq running prev oldprio =
      (if running then (class_of ops s p).set_curr s c else some s) >>= λ s1.
      if on_rq
      then (put s1 c p false >>= λ s2. check_class_changed ops s2 c p prev oldprio running)
      else some s1

  -- `new` is the change of the task between the two.
  unfoldable pub change_policy : (Task → Option Task) → FairSys → ℕ → ℕ → Option FairSys
  unfolding step_off step_on activate_task deactivate_task
  change_policy new s c p = step_off (deactivate_task ops) s c p >>= λ s1.
      new (s1.sys.task p) >>= λ t.
      step_on (activate_task ops) (write_task s1 p t) c p (s.sys.task p).on_rq
        (task_current s.sys c p) (s.sys.task p).sched_class (s1.sys.task p).prio

  -- `__sched_setscheduler`: the state and the value returned. The policy cannot have changed since the
  -- checks, as nothing else runs, so there is no second check.
  unfoldable pub sched_setscheduler :
      Outside → FairSys → Caller → ℕ → ℤ → SchedParam → Option (FairSys × ℤ)
  unfolding setscheduler_check requested_policy set_scheduler change_policy
  sched_setscheduler out s caller p wanted param =
      let t = s.sys.task p in
      let e = setscheduler_check s.sys t caller wanted param in
      let new : Task → Option Task = λ t1.
        set_scheduler out.getprio t1 (requested_policy t wanted) (unsigned param.sched_priority)
          param.bucket_id in
      if eq_ℤ e (pos 0)
      then (change_policy new (set_clock s t.cpu (out.clock t.cpu)) t.cpu p >>= λ s1.
          out.adjust_pi s1 p >>= λ s2. some (s2, pos 0))
      else some (s, e)

  abbrev lent : Task → ℕ → Task
  lent t prio = record t {
    sched_class = if rt_prio prio then rt_class else fair_class;
    prio = prio;
  }

  change_prio : FairSys → ℕ → ℕ → ℕ → Option FairSys
  unfolding step_off step_on enqueue_task dequeue_task
  change_prio s c p prio = step_off (dequeue_task ops) s c p >>= λ s1.
      step_on (enqueue_task ops) (write_task s1 p (lent (s1.sys.task p) prio)) c p
        (s.sys.task p).on_rq (task_current s.sys c p) (s.sys.task p).sched_class (s.sys.task p).prio

  -- With its BUG_ON.
  unfoldable pub rt_mutex_setprio : Outside → FairSys → ℕ → ℤ → Option FairSys
  unfolding change_prio rt_prio
  rt_mutex_setprio out s p (negsuc k) = none
  rt_mutex_setprio out s p (pos prio) =
      let c = (s.sys.task p).cpu in
      check (not (ltb max_prio prio)) >>= λ _. change_prio (set_clock s c (out.clock c)) c p prio
