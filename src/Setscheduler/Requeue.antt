-- ===== src/Setscheduler/Requeue.antt =====
-- A task whose policy or priority changes is off its runqueue in between, and back afterwards if it
-- was on it.
use cmsc421prj.Rt.Entities.{task_current}
use cmsc421prj.Setscheduler.Change.{change_policy, step_on, step_off}
use cmsc421prj.Base.{
  Option-cases, sym, if◌then◌else◌, ◌∙◌, inr, inl, Bool-cases, ℕ, Bool, true, false, Option, some,
  ◌≡◌, refl, arith, >>=-eq-some,
}
use cmsc421prj.Base.Int.{ℤ}
use cmsc421prj.State.Data.{Task, SchedClass}
use cmsc421prj.Fair.Data.{FairSys}
use cmsc421prj.Dispatch.{
  write_task, class_of, same_class, check_class_changed, ClassOps, enqueue_task, dequeue_task,
  activate_task, deactivate_task, inc_nr_running, dec_nr_running,
}
use cmsc421prj.Setscheduler.{set_scheduler, set_load_weight, set_prio, switch_class}

-- Where the step returns, the task is on its runqueue if it was before, and only then.
abbrev pub Keeps : FairSys → Option FairSys → ℕ → Type 0
Keeps s o p = (s' : FairSys) → o ≡ some s' → (s'.sys.task p).on_rq ≡ (s.sys.task p).on_rq

-- Where the step returns, a task that was on its runqueue is on one.
abbrev pub StaysOn : FairSys → Option FairSys → ℕ → Type 0
StaysOn s o p =
    (s.sys.task p).on_rq ≡ true → (s' : FairSys) → o ≡ some s' → (s'.sys.task p).on_rq ≡ true

-- The laws of a class. Stopping or starting to run moves no task. The functions that hear of a change
-- may move the task to another runqueue, but not off the runqueues.
pub record IsLawful (o : ClassOps) : Type 0 where
  pub put_prev : (s : FairSys) (c p : ℕ) → Keeps s (o.put_prev s c p) p
  pub set_curr : (s : FairSys) (c p : ℕ) → Keeps s (o.set_curr s c) p
  pub switched_from : (s : FairSys) (c p : ℕ) (r : Bool) → StaysOn s (o.switched_from s c p r) p
  pub switched_to : (s : FairSys) (c p : ℕ) (r : Bool) → StaysOn s (o.switched_to s c p r) p
  pub prio_changed :
      (s : FairSys) (c p prio : ℕ) (r : Bool) → StaysOn s (o.prio_changed s c p prio r) p

-- `__setscheduler` without its BUG_ON.
abbrev pub no_bug : (Task → ℕ) → ℕ → ℕ → ℤ → Task → Option Task
no_bug getprio policy prio bucket p =
    set_load_weight (set_prio getprio (switch_class (record p { policy = policy }) bucket) prio)

set_scheduler-no_bug :
    (getprio : Task → ℕ) (p : Task) (policy prio : ℕ) (bucket : ℤ)
    → p.on_rq ≡ false
    → set_scheduler getprio p policy prio bucket ≡ no_bug getprio policy prio bucket p
unfolding set_scheduler
set_scheduler-no_bug getprio p policy prio bucket h = rw h refl

module _ (ops : SchedClass → ClassOps) where
  dequeued_off :
      (s : FairSys) (c p : ℕ) (b : Bool) (s' : FairSys)
      → dequeue_task ops s c p b ≡ some s'
      → (s'.sys.task p).on_rq ≡ false
  unfolding dequeue_task
  dequeued_off s c p b s' h = ground arith

  pub deactivated_off :
      (s : FairSys) (c p : ℕ) (b : Bool) (s' : FairSys)
      → deactivate_task ops s c p b ≡ some s'
      → (s'.sys.task p).on_rq ≡ false
  unfolding deactivate_task dec_nr_running dequeue_task
  deactivated_off s c p b s' h = ground arith

  enqueued_on :
      (s : FairSys) (c p : ℕ) (b : Bool) (s' : FairSys)
      → enqueue_task ops s c p b ≡ some s'
      → (s'.sys.task p).on_rq ≡ true
  unfolding enqueue_task
  enqueued_on s c p b s' h = ground arith

  pub activated_on :
      (s : FairSys) (c p : ℕ) (b : Bool) (s' : FairSys)
      → activate_task ops s c p b ≡ some s'
      → (s'.sys.task p).on_rq ≡ true
  unfolding activate_task inc_nr_running enqueue_task
  activated_on s c p b s' h = ground arith

  module _ (laws : (k : SchedClass) → IsLawful (ops k)) where
    step_off-on_rq :
        (s : FairSys) (c p : ℕ) (s' : FairSys)
        → step_off ops (deactivate_task ops) s c p ≡ some s'
        → (s'.sys.task p).on_rq ≡ false
    unfolding step_off
    step_off-on_rq s c p s' h =
        let (s1, f, g) =
          >>=-eq-some (if (s.sys.task p).on_rq then deactivate_task ops s c p false else some s) _
            h in
        let off : (s1.sys.task p).on_rq ≡ false = elim (Bool-cases (s.sys.task p).on_rq) [
          | inl y ↦ deactivated_off s c p false s1 (rw y at f)
          | inr n ↦ ground arith
        ] in
        elim (Bool-cases (task_current s.sys c p)) [
          | inl y ↦ (laws (s1.sys.task p).sched_class).put_prev s1 c p s' (rw y at g) ∙ off
          | inr n ↦ ground arith
        ]

    class_changed-StaysOn :
        (s : FairSys) (c p : ℕ) (k : SchedClass) (prio : ℕ) (r : Bool)
        → StaysOn s (check_class_changed ops s c p k prio r) p
    unfolding check_class_changed
    class_changed-StaysOn s c p k prio r on s' h =
        elim (Bool-cases (same_class k (s.sys.task p).sched_class)) [
          | inl y ↦ (laws (s.sys.task p).sched_class).prio_changed s c p prio r on s' (rw y at h)
          | inr n ↦
              let (s1, f, g) = >>=-eq-some ((ops k).switched_from s c p r) _ (rw n at h) in
              (laws (s1.sys.task p).sched_class).switched_to s1 c p r
                ((laws k).switched_from s c p r on s1 f) s' g
        ]

    step_on-on_rq :
        (s : FairSys) (c p : ℕ) (b r : Bool) (k : SchedClass) (prio : ℕ) (s' : FairSys)
        → (s.sys.task p).on_rq ≡ false
        → step_on ops (activate_task ops) s c p b r k prio ≡ some s'
        → (s'.sys.task p).on_rq ≡ b
    unfolding step_on
    step_on-on_rq s c p b r k prio s' off h =
        let (s1, f, g) = >>=-eq-some (if r then (class_of ops s p).set_curr s c else some s) _ h in
        let still : (s1.sys.task p).on_rq ≡ false = elim (Bool-cases r) [
          | inl y ↦ (laws (s.sys.task p).sched_class).set_curr s c p s1 (rw y at f) ∙ off
          | inr n ↦ ground arith
        ] in
        elim (Bool-cases b) [
          | inl y ↦
              let (s2, f2, g2) = >>=-eq-some (activate_task ops s1 c p false) _ (rw y at g) in
              class_changed-StaysOn s2 c p k prio r (activated_on s1 c p false s2 f2) s' g2 ∙ sym y
          | inr n ↦ ground arith
        ]

    pub change_policy-no_bug :
        (s : FairSys) (c p : ℕ) (getprio : Task → ℕ) (policy prio : ℕ) (bucket : ℤ)
        → change_policy ops (λ t. set_scheduler getprio t policy prio bucket) s c p
          ≡ change_policy ops (no_bug getprio policy prio bucket) s c p
    unfolding change_policy
    change_policy-no_bug s c p getprio policy prio bucket =
        elim (Option-cases (step_off ops (deactivate_task ops) s c p)) [
          | inl n ↦ rw n refl
          | inr (s1, f) ↦
              let off = step_off-on_rq s c p s1 f in
              rw (f, set_scheduler-no_bug getprio (s1.sys.task p) policy prio bucket off) refl
        ]

    pub change_policy-on_rq :
        (new : Task → Option Task) (s : FairSys) (c p : ℕ) (s' : FairSys)
        → ((t t' : Task) → new t ≡ some t' → t'.on_rq ≡ t.on_rq)
        → change_policy ops new s c p ≡ some s'
        → (s'.sys.task p).on_rq ≡ (s.sys.task p).on_rq
    unfolding change_policy
    change_policy-on_rq new s c p s' keeps h =
        let (s1, f, g) = >>=-eq-some (step_off ops (deactivate_task ops) s c p) _ h in
        let (t, f2, g2) = >>=-eq-some (new (s1.sys.task p)) _ g in
        let off = step_off-on_rq s c p s1 f in
        let still = keeps (s1.sys.task p) t f2 in
        step_on-on_rq (write_task s1 p t) c p (s.sys.task p).on_rq (task_current s.sys c p)
          (s.sys.task p).sched_class (s1.sys.task p).prio s' (ground arith) g2
