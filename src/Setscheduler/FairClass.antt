-- ===== src/Setscheduler/FairClass.antt =====
-- The table of the fair class, sched_fair.c, with the laws that a wakeup and a change of policy need.
use mathlib.Core.Path.{subst}
use mathlib.Core.Option.{some-injective}
use cmsc421prj.Base.{ℕ, Bool, false, Option, some, refl, ◌∙◌, ltb}
use cmsc421prj.Fair.Data.{FairSys, RbTree}
use cmsc421prj.Fair.Tasks.{
  enqueue_task_fair, dequeue_task_fair, put_prev_task_fair, set_curr_task_fair, switched_to_fair,
  prio_changed_fair, task_new_fair, resched_curr,
}
use cmsc421prj.Fair.Tasks.Staying.{put_prev_task_fair-Stays, set_curr_task_fair-Stays}
use cmsc421prj.Fair.Matching.{check_preempt_wakeup}
use cmsc421prj.Fair.Matching.Staying.{
  StaysIf, done-StaysIf, branch-StaysIf, resched-StaysIf, check_preempt_wakeup-StaysIf,
}
use cmsc421prj.Dispatch.{ClassOps}
use cmsc421prj.Wakeup.{WakeOps}
use cmsc421prj.Wakeup.Awake.{IsAwake, IsWakeLawful}
use cmsc421prj.Setscheduler.Requeue.{IsLawful, StaysOn}

-- `fair_sched_class`; its `switched_from` is null. `check_preempt` is `check_preempt_curr`.
unfoldable pub fair_ops : RbTree → (FairSys → ℕ → ℕ → Bool → Option FairSys) → ClassOps
unfolding enqueue_task_fair dequeue_task_fair put_prev_task_fair set_curr_task_fair switched_to_fair
    prio_changed_fair
fair_ops rb check_preempt = record {
  enqueue = λ s c p w. enqueue_task_fair rb s p w;
  dequeue = λ s c p w. dequeue_task_fair rb s p;
  put_prev = λ s c p. put_prev_task_fair rb s p;
  set_curr = λ s c. set_curr_task_fair rb s c;
  switched_from = λ s c p r. some s;
  switched_to = λ s c p r. switched_to_fair check_preempt s c p r;
  prio_changed = λ s c p o r. prio_changed_fair check_preempt s c p o r;
}

-- The part of it that a wakeup calls; its `task_wake_up` is null. `select` is `select_task_rq_fair`.
unfoldable pub fair_wakes : RbTree → (FairSys → ℕ → Bool → ℕ) → WakeOps
unfolding check_preempt_wakeup task_new_fair
fair_wakes rb select = record {
  select_task_rq = select;
  check_preempt = λ s c p sync. check_preempt_wakeup s c p sync (s.sys.rq c).idle;
  task_wake_up = λ s c p. some s;
  task_new = some (task_new_fair rb);
}

-- The fair class has the laws of a wakeup.
pub fair_wakes-IsWakeLawful :
    (rb : RbTree) (select : FairSys → ℕ → Bool → ℕ) → IsWakeLawful (fair_wakes rb select)
unfolding fair_wakes
fair_wakes-IsWakeLawful rb select = record {
  check_preempt = λ s c p sync. check_preempt_wakeup-StaysIf s c p sync (s.sys.rq c).idle p;
  task_wake_up = λ s c p s' awake h. subst (λ x. IsAwake x p) (some-injective s s' h) awake;
}

StaysIf-StaysOn : (s : FairSys) (o : Option FairSys) (p : ℕ) → StaysIf s o p → StaysOn s o p
StaysIf-StaysOn s o p k on s' h = k s' h ∙ on

-- And those of a change of policy, if the test for preemption moves no task.
pub fair_ops-IsLawful :
    (rb : RbTree) (check_preempt : FairSys → ℕ → ℕ → Bool → Option FairSys)
    → ((s : FairSys) (c e p : ℕ) (sync : Bool) → StaysIf s (check_preempt s c e sync) p)
    → IsLawful (fair_ops rb check_preempt)
unfolding fair_ops switched_to_fair prio_changed_fair
fair_ops-IsLawful rb check_preempt keeps = record {
  put_prev = λ s c p. put_prev_task_fair-Stays rb p s p;
  set_curr = λ s c p. set_curr_task_fair-Stays rb p s c;
  switched_from = λ s c p r. StaysIf-StaysOn s _ p (done-StaysIf s s p refl);
  switched_to = λ s c p r. StaysIf-StaysOn s _ p (
      branch-StaysIf s r (some (resched_curr s c)) _ p (resched-StaysIf s c p)
        (keeps s c p p false));
  prio_changed = λ s c p o r. StaysIf-StaysOn s _ p (
      branch-StaysIf s r _ _ p
        (branch-StaysIf s (ltb o (s.sys.task p).prio) (some (resched_curr s c)) (some s) p
          (resched-StaysIf s c p) (done-StaysIf s s p refl))
        (keeps s c p p false));
}
