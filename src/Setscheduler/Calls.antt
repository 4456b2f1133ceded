-- ===== src/Setscheduler/Calls.antt =====
-- The whole of `__sched_setscheduler`, on a task that may be on a runqueue and may be running.
use cmsc421prj.Base.{
  check, not, ℕ, Option, some, ◌>>=◌, ◌≡◌, refl, ◌∙◌, if◌then◌else◌, arith, >>=-eq-some, Bool-cases,
  inl, inr,
}
use cmsc421prj.Base.Int.{ℤ, pos, eq_ℤ}
use cmsc421prj.State.Data.{Task, SchedClass}
use cmsc421prj.Fair.Data.{FairSys}
use cmsc421prj.Fair.Tasks.{set_clock}
use cmsc421prj.Dispatch.{ClassOps}
use cmsc421prj.Setscheduler.{
  switch_class, set_prio, SchedParam, Caller, requested_policy, setscheduler_check, set_scheduler,
  set_load_weight,
}
use cmsc421prj.Setscheduler.Change.{Outside, unsigned, change_policy, sched_setscheduler}
use cmsc421prj.Setscheduler.Requeue.{
  Keeps, IsLawful, no_bug, change_policy-no_bug, change_policy-on_rq,
}

weight-on_rq : (p p' : Task) → set_load_weight p ≡ some p' → p'.on_rq ≡ p.on_rq
unfolding set_load_weight
weight-on_rq p p' h = ground arith

switch_class-on_rq : (p : Task) (bucket : ℤ) → (switch_class p bucket).on_rq ≡ p.on_rq
unfolding switch_class
switch_class-on_rq p bucket = ground arith

set_scheduler-on_rq :
    (getprio : Task → ℕ) (policy prio : ℕ) (bucket : ℤ) (p p' : Task)
    → set_scheduler getprio p policy prio bucket ≡ some p'
    → p'.on_rq ≡ p.on_rq
unfolding set_scheduler set_prio
set_scheduler-on_rq getprio policy prio bucket p p' h =
    let w = (>>=-eq-some (check (not p.on_rq)) _ h).2 in
    weight-on_rq (set_prio getprio (switch_class (record p { policy = policy }) bucket) prio) p' w
    ∙ switch_class-on_rq (record p { policy = policy }) bucket

-- The call without the BUG_ON: an error of the checks and the state as it was, or the change.
abbrev pub call_no_bug :
    (SchedClass → ClassOps) → Outside → FairSys → Caller → ℕ → ℤ → SchedParam → Option (FairSys × ℤ)
call_no_bug ops out s caller p wanted param =
    let t = s.sys.task p in
    let e = setscheduler_check s.sys t caller wanted param in
    if eq_ℤ e (pos 0)
    then (change_policy ops
          (no_bug out.getprio (requested_policy t wanted) (unsigned param.sched_priority)
            param.bucket_id)
          (set_clock s t.cpu (out.clock t.cpu)) t.cpu p
        >>= λ s1. out.adjust_pi s1 p >>= λ s2. some (s2, pos 0))
    else some (s, e)

-- `__sched_setscheduler` never meets the BUG_ON of `__setscheduler`, for a task that waits, runs or
-- does neither: it does as the code without it does. Where it returns, the task is on its runqueue if
-- it was before, and only then. This needs the laws of the classes, which the fair class
-- has, and that the adjustment of mutexes leaves the task on its runqueue or off it.
pub sched_setscheduler-on_rq :
    (ops : SchedClass → ClassOps) (out : Outside)
    → ((k : SchedClass) → IsLawful (ops k))
    → ((s : FairSys) (p : ℕ) → Keeps s (out.adjust_pi s p) p)
    → (s : FairSys) (caller : Caller) (p : ℕ) (wanted : ℤ) (param : SchedParam)
    → (sched_setscheduler ops out s caller p wanted param
        ≡ call_no_bug ops out s caller p wanted param)
      × ((s' : FairSys) (r : ℤ)
          → sched_setscheduler ops out s caller p wanted param ≡ some (s', r)
          → (s'.sys.task p).on_rq ≡ (s.sys.task p).on_rq)
unfolding sched_setscheduler
sched_setscheduler-on_rq ops out laws adjusts s caller p wanted param =
    let t = s.sys.task p in
    let e = setscheduler_check s.sys t caller wanted param in
    let c = t.cpu in
    let s0 = set_clock s c (out.clock c) in
    let policy = requested_policy t wanted in
    let prio = unsigned param.sched_priority in
    let same = change_policy-no_bug ops laws s0 c p out.getprio policy prio param.bucket_id in
    elim (Bool-cases (eq_ℤ e (pos 0))) [
      | inl y ↦ (
        rw (y, same) refl,
        λ s' r h.
            let new : Task → Option Task =
              λ t1. set_scheduler out.getprio t1 policy prio param.bucket_id in
            let (s1, f, g) = >>=-eq-some (change_policy ops new s0 c p) _ (rw y at h) in
            let (s2, f2, g2) = >>=-eq-some (out.adjust_pi s1 p) _ g in
            let kept =
              change_policy-on_rq ops laws new s0 c p s1
                (set_scheduler-on_rq out.getprio policy prio param.bucket_id) f in
            let last = adjusts s1 p s2 f2 in ground (arith, g2, last, kept),
      )
      | inr n ↦ (rw n refl, λ s' r h. ground (arith))
    ]
