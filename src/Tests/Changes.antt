-- ===== src/Tests/Changes.antt =====
-- A change of policy on the small machine with the fair class.
use cmsc421prj.Policy.{task_has_rt_policy, normal_prio, rt_policy}
use cmsc421prj.Fair.Entities.{enqueue_fair_entity, dequeue_fair_entity}
use cmsc421prj.Base.{Bool, ℕ, none, refl, true, false, Option, some, ◌≡◌, arith}
use cmsc421prj.Base.Int.{ℤ, pos}
use cmsc421prj.Fair.Data.{FairSys}
use cmsc421prj.Dispatch.{set_on_rq, ClassOps}
use cmsc421prj.Setscheduler.{
  set_load_weight, switch_class, set_prio, set_scheduler, is_policy, requested_policy,
  setscheduler_check, SchedParam, Caller,
}
use cmsc421prj.Setscheduler.Change.{step_on, step_off, change_policy, Outside, sched_setscheduler}
use cmsc421prj.Setscheduler.Requeue.{IsLawful, Keeps}
use cmsc421prj.Setscheduler.Calls.{sched_setscheduler-on_rq, call_no_bug}
use cmsc421prj.Tests.FairClass.{fair, plain}
use cmsc421prj.State.Data.{SchedClass}
use cmsc421prj.Setscheduler.FairClass.{fair_ops, fair_ops-IsLawful}
use cmsc421prj.Fair.Matching.{check_preempt_wakeup}
use cmsc421prj.Fair.Matching.Staying.{check_preempt_wakeup-StaysIf}

-- All classes are the fair one here, with a search tree that is not balanced.
abbrev preempts : FairSys → ℕ → ℕ → Bool → Option FairSys
preempts s c p sync = check_preempt_wakeup s c p sync (s.sys.rq c).idle

abbrev tables : SchedClass → ClassOps
tables k = fair_ops plain preempts

tables-IsLawful : (k : SchedClass) → IsLawful (tables k)
tables-IsLawful k =
    fair_ops-IsLawful plain preempts
      (λ s c e p sync. check_preempt_wakeup-StaysIf s c e sync (s.sys.rq c).idle p)

same-Keeps : (s : FairSys) (p : ℕ) → Keeps s (some s) p
same-Keeps s p s' h = ground arith

abbrev outside : Outside
outside = record { clock = λ c. 2000; getprio = λ t. t.normal_prio; adjust_pi = λ s p. some s }

abbrev root : Caller
root = record { user = false; has_sighand = true; same_owner = true; security = pos 0 }

abbrev request : SchedParam
request = record { sched_priority = pos 0; bucket_id = pos 3 }

-- Task 1 on its queue; it asks for SCHED_BATCH.
abbrev on_queue : FairSys
on_queue = set_on_rq fair 1 true

sched_setscheduler-on_rq_example :
    (sched_setscheduler tables outside on_queue root 1 (pos 3) request
      ≡ call_no_bug tables outside on_queue root 1 (pos 3) request)
    × ((s' : FairSys) (r : ℤ)
        → sched_setscheduler tables outside on_queue root 1 (pos 3) request ≡ some (s', r)
        → (s'.sys.task 1).on_rq ≡ (on_queue.sys.task 1).on_rq)
sched_setscheduler-on_rq_example =
    sched_setscheduler-on_rq tables outside tables-IsLawful same-Keeps on_queue root 1 (pos 3)
      request

policy_after : Option (FairSys × ℤ) → ℕ
policy_after none = 0
policy_after (some (s, r)) = (s.sys.task 1).policy

-- The request is granted.
granted : policy_after (sched_setscheduler tables outside on_queue root 1 (pos 3) request) ≡ 3
unfolding policy_after sched_setscheduler setscheduler_check requested_policy is_policy rt_policy
    set_scheduler set_prio switch_class set_load_weight change_policy step_off step_on normal_prio
    task_has_rt_policy fair_ops dequeue_fair_entity enqueue_fair_entity
granted = refl
