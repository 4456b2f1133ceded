-- ===== src/Tests/Policies.antt =====
-- The theorems on changes of policy at the small machine.
use cmsc421prj.Setscheduler.Checks.{setscheduler_check-ok, setscheduler_check-brr}
use cmsc421prj.Rt.Entities.{rt_bandwidth_enabled}
use cmsc421prj.State.Setters.{set_task}
use cmsc421prj.Setscheduler.Brr.{enqueue_one_brr-set_scheduler}
use cmsc421prj.Brr.Enqueue.{enqueue_one_brr}
use cmsc421prj.Policy.{task_has_rt_policy, normal_prio, einval, sched_get_priority_min, rt_policy}
use cmsc421prj.Base.{◌⊎◌, ◌≢◌, ◌↔◌, ◌<◌, ℕ, ◌≡◌, refl, true, Option, none, some, arith}
use cmsc421prj.Base.Int.{pos, negsuc}
use cmsc421prj.State.Data.{max_rt_prio, Task}
use cmsc421prj.Tests.Machine.{machine, fifo_task}
use cmsc421prj.Setscheduler.{
  is_unknown, switch_class, set_prio, set_load_weight, check_user, is_policy, setscheduler_check,
  requested_policy, set_scheduler, Caller,
}

abbrev someone : Caller
someone = record { user = true; has_sighand = true; same_owner = true; security = pos 0 }

-- The call that the test drivers make.
setscheduler_check-brr_example :
    (setscheduler_check machine fifo_task someone
        (pos 6)
        (record { sched_priority = pos 50; bucket_id = pos 3 })
      ≡ einval)
    × (sched_get_priority_min 6 ≡ pos 1)
setscheduler_check-brr_example =
    setscheduler_check-brr machine fifo_task someone (pos 50) (pos 3) (λ h. ground arith)

fifo_55 :
    setscheduler_check machine fifo_task someone
      (pos 1)
      (record { sched_priority = pos 55; bucket_id = pos 0 })
    ≡ pos 0
unfolding setscheduler_check is_unknown requested_policy is_policy rt_policy check_user
    rt_bandwidth_enabled
fifo_55 = refl

setscheduler_check-ok_example :
    (((k : ℕ) × (pos 1 ≡ negsuc k) × (requested_policy fifo_task (pos 1) ≡ fifo_task.policy))
      ⊎ ((k : ℕ) × (pos 1 ≡ pos k)
          × (requested_policy fifo_task (pos 1) ≡ k)
          × (is_policy k ≡ true)))
    × ((n : ℕ) × (pos 55 ≡ pos n)
        × (n < max_rt_prio)
        × ((rt_policy (requested_policy fifo_task (pos 1)) ≡ true) ↔ (n ≢ 0)))
setscheduler_check-ok_example =
    setscheduler_check-ok machine fifo_task someone (pos 1) (pos 0) (pos 55) fifo_55

-- No task waits for a lock of this one.
abbrev unboosted : Task → ℕ
unboosted p = p.normal_prio

or_task : Option Task → Task
or_task none = fifo_task
or_task (some p) = p

became_brr : Task
unfolding or_task
became_brr = or_task (set_scheduler unboosted fifo_task 6 0 (pos 3))

became_brr_lem : set_scheduler unboosted fifo_task 6 0 (pos 3) ≡ some became_brr
unfolding became_brr set_scheduler set_load_weight set_prio switch_class normal_prio
    task_has_rt_policy rt_policy
became_brr_lem = refl

enqueue_one_brr-set_scheduler_example : enqueue_one_brr (set_task machine 1 became_brr) 1 ≡ none
enqueue_one_brr-set_scheduler_example =
    enqueue_one_brr-set_scheduler unboosted machine 1 0 (pos 3) became_brr (λ q. refl) refl
      (omega arith) became_brr_lem

became_rr : Task
unfolding or_task
became_rr = or_task (set_scheduler unboosted fifo_task 2 70 (pos 0))

became_rr_lem : set_scheduler unboosted fifo_task 2 70 (pos 0) ≡ some became_rr
unfolding became_rr set_scheduler set_load_weight set_prio switch_class normal_prio
    task_has_rt_policy rt_policy
became_rr_lem = refl
