-- ===== src/Tests/Wakeups.antt =====
-- Task 2 sleeps in TASK_INTERRUPTIBLE, and task 1 wakes it up.
use cmsc421prj.Rt.Entities.{rt_prio}
use cmsc421prj.Fair.Entities.{enqueue_fair_entity, dequeue_fair_entity}
use cmsc421prj.Base.{ℕ, Bool, true, false, Option, none, some, ◌≡◌, refl}
use cmsc421prj.State.Data.{SchedClass, brr_class, fair_class}
use cmsc421prj.State.Setters.{set_task}
use cmsc421prj.Fair.Data.{FairSys, set_sys}
use cmsc421prj.Dispatch.{ClassOps}
use cmsc421prj.Wakeup.{WakeOps, Around, try_to_wake_up, sched_fork}
use cmsc421prj.Wakeup.Awake.{Ended, try_to_wake_up-Ended}
use cmsc421prj.Wakeup.Switch.{Site, schedule, leave_or_stay}
use cmsc421prj.Balance.Moves.{task_hot, can_migrate_task}
use cmsc421prj.Tests.Balances.{domain}
use cmsc421prj.Tests.FairClass.{fair, normal_task, plain}
use cmsc421prj.Setscheduler.FairClass.{fair_ops, fair_wakes, fair_wakes-IsWakeLawful}
use cmsc421prj.Fair.Matching.{check_preempt_wakeup}
use cmsc421prj.Tests.Machine.{machine, brr_task}

-- All classes are the fair one here, with a search tree that is not balanced.
abbrev fair_tables : SchedClass → ClassOps
fair_tables k = fair_ops plain (λ s c p sync. check_preempt_wakeup s c p sync (s.sys.rq c).idle)

abbrev fair_wake_tables : SchedClass → WakeOps
fair_wake_tables k = fair_wakes plain (λ s p sync. 0)

abbrev around : Around
around = record {
  clock = λ c. 2000;
  sync_wakeups = true;
  update_shares = λ s p. s;
  others = λ s. s;
  in_interrupt = false;
}

abbrev asleep : FairSys
asleep = set_sys fair (set_task fair.sys 2 (record normal_task { state = 1 }))

or_asleep : Option (FairSys × Bool) → FairSys × Bool
or_asleep none = (asleep, false)
or_asleep (some r) = r

abbrev woken : Option (FairSys × Bool)
woken = try_to_wake_up fair_tables fair_wake_tables around asleep 2 15 false

woken_lem : woken ≡ some ((or_asleep woken).0, (or_asleep woken).1)
unfolding try_to_wake_up or_asleep fair_wakes fair_ops rt_prio enqueue_fair_entity
woken_lem = refl

woken_ok : (or_asleep woken).1 ≡ true
unfolding try_to_wake_up or_asleep fair_wakes fair_ops rt_prio enqueue_fair_entity
woken_ok = refl

try_to_wake_up-Ended_example : Ended (or_asleep woken).0 2 15 (or_asleep woken).1
try_to_wake_up-Ended_example =
    try_to_wake_up-Ended fair_tables fair_wake_tables around
      (λ k. fair_wakes-IsWakeLawful plain (λ s p sync. 0)) asleep (or_asleep woken).0 2 15 false
      (or_asleep woken).1 woken_lem

-- Task 3 is forked by a task of policy SCHED_BRR and gets the fair class.
abbrev parent_runs : FairSys
parent_runs =
    set_sys fair
      (record machine { task = λ p. brr_task; rq = λ c. record (machine.rq c) { curr = 2 } })

class_of_child : Option FairSys → SchedClass
class_of_child none = brr_class
class_of_child (some s) = (s.sys.task 3).sched_class

child_is_fair :
    class_of_child
      (sched_fork fair_tables fair_wake_tables around (λ s c. some (s, c)) parent_runs 3)
    ≡ fair_class
unfolding class_of_child sched_fork
child_is_fair = refl

-- Task 1 goes to sleep, and task 2 is chosen.
abbrev site : Site
site = record {
  clock = λ c. 2000;
  preempt_active = false;
  signal_pending = λ p. false;
  fatal_signal_pending = λ p. false;
  pre_schedule = λ s c p. some s;
  idle_balance = λ s c. some s;
  pick_next = λ s c. some (s, 2);
}

abbrev going : FairSys
going = set_sys fair (set_task fair.sys 1 (record normal_task { state = 1; on_rq = true }))

switched : Option FairSys → ℕ × Bool × ℕ
switched none = (0, true, 0)
switched (some s) = ((s.sys.rq 0).curr, (s.sys.task 1).on_rq, (s.sys.task 1).nvcsw)

gone : switched (schedule fair_tables site going 0) ≡ (2, false, 1)
unfolding switched schedule fair_ops dequeue_fair_entity
gone = refl

or_going : Option FairSys → FairSys
or_going none = going
or_going (some s) = s

abbrev left_over : FairSys
left_over = or_going (leave_or_stay fair_tables site going 0 1)

abbrev movable : FairSys
movable = set_sys fair (set_task machine 2 (record brr_task { state = 1 }))

-- Task 2 may move to cpu 1, and task 1 may not, as it runs.
may_move : can_migrate_task true movable 2 0 1 domain true ≡ (true, false)
unfolding can_migrate_task task_hot
may_move = refl

runs_here : can_migrate_task true movable 1 0 1 domain true ≡ (false, false)
unfolding can_migrate_task task_hot
runs_here = refl
