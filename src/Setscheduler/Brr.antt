-- ===== src/Setscheduler/Brr.antt =====
-- A task whose policy `__setscheduler` changes: its class, its priority, and what that means for the
-- queues of sched_brr.c.
use cmsc421prj.Base.{
  ◌∙◌, check, not, ℕ, ◌+◌, ◌≤◌, ◌<◌, ◌≡◌, true, false, none, some, arith, >>=-eq-some,
}
use cmsc421prj.Base.Int.{ℤ}
use cmsc421prj.State.Data.{Sys, Task, rt_class, brr_class, max_rt_prio}
use cmsc421prj.State.Setters.{set_task}
use cmsc421prj.Policy.{sched_brr, rt_policy, normal_prio, task_has_rt_policy}
use cmsc421prj.Setscheduler.{set_scheduler, set_prio, switch_class, set_load_weight}
use cmsc421prj.Rt.Entities.{rt_se_prio}
use cmsc421prj.Rt.Enqueue.{is_group_blocked}
use cmsc421prj.Brr.Enqueue.{enqueue_one_brr}
use cmsc421prj.Brr.Faults.{enqueue_one_brr_out_of_range}

-- The weight of a task leaves its other fields alone.
weighed :
    (p p' : Task)
    → set_load_weight p ≡ some p'
    → (p'.prio ≡ p.prio)
      × (p'.normal_prio ≡ p.normal_prio)
      × (p'.sched_class ≡ p.sched_class)
      × (p'.bid ≡ p.bid)
unfolding set_load_weight
weighed p p' h = ground arith

-- The task before its weight is set.
changed : (Task → ℕ) → Task → ℕ → ℕ → ℤ → Task
unfolding set_prio switch_class normal_prio task_has_rt_policy rt_policy
changed getprio p policy prio bucket =
    set_prio getprio (switch_class (record p { policy = policy }) bucket) prio

weighed_changed :
    (getprio : Task → ℕ) (p p' : Task) (policy prio : ℕ) (bucket : ℤ)
    → set_scheduler getprio p policy prio bucket ≡ some p'
    → set_load_weight (changed getprio p policy prio bucket) ≡ some p'
unfolding set_scheduler changed
weighed_changed getprio p p' policy prio bucket h = (>>=-eq-some (check (not p.on_rq)) _ h).2

-- `__setscheduler` puts a task of the new policy SCHED_BRR into the BRR class and into the bucket
-- asked for; its normal priority is the static one, whatever priority was asked for.
pub set_scheduler-brr :
    (getprio : Task → ℕ) (p p' : Task) (prio : ℕ) (bucket : ℤ)
    → set_scheduler getprio p sched_brr prio bucket ≡ some p'
    → (p'.sched_class ≡ brr_class) × (p'.bid ≡ bucket) × (p'.normal_prio ≡ p.static_prio)
unfolding changed
set_scheduler-brr getprio p p' prio bucket h =
    let w =
      weighed (changed getprio p sched_brr prio bucket) p'
        (weighed_changed getprio p p' sched_brr prio bucket h) in
    (w.2, w.3, w.1)

-- A task of a real-time policy gets the priority MAX_RT_PRIO - 1 less the one asked for, so a higher
-- request is a smaller number.
pub set_scheduler-rt :
    (getprio : Task → ℕ) (p p' : Task) (policy prio : ℕ) (bucket : ℤ)
    → rt_policy policy ≡ true
    → prio < max_rt_prio
    → set_scheduler getprio p policy prio bucket ≡ some p'
    → (p'.sched_class ≡ rt_class) × (p'.normal_prio + prio + 1 ≡ max_rt_prio)
unfolding changed
set_scheduler-rt getprio p p' policy prio bucket rt lt h =
    let w =
      weighed (changed getprio p policy prio bucket) p'
        (weighed_changed getprio p p' policy prio bucket h) in
    (w.2 ∙ ground arith, ground (arith, w.1))

queued_prio :
    (s : Sys) (e : ℕ) (p : Task)
    → (s.ent e).my_q ≡ none
    → (rt_se_prio (set_task s e p) e ≡ p.prio) × (is_group_blocked (set_task s e p) e ≡ false)
unfolding rt_se_prio is_group_blocked
queued_prio s e p own = (ground arith, ground arith)

-- The BRR class cannot enqueue a task that has just become SCHED_BRR, unless priority inheritance
-- lifts it: its priority is the static one of a normal task, from MAX_RT_PRIO on, and the array of
-- queues ends before that. `getprio` is `rt_mutex_getprio` for a task that nobody waits for.
pub enqueue_one_brr-set_scheduler :
    (getprio : Task → ℕ) (s : Sys) (e prio : ℕ) (bucket : ℤ) (p' : Task)
    → ((q : Task) → getprio q ≡ q.normal_prio)
    → (s.ent e).my_q ≡ none
    → max_rt_prio ≤ (s.task e).static_prio
    → set_scheduler getprio (s.task e) sched_brr prio bucket ≡ some p'
    → enqueue_one_brr (set_task s e p') e ≡ none
unfolding changed
enqueue_one_brr-set_scheduler getprio s e prio bucket p' alone own static h =
    let w =
      weighed (changed getprio (s.task e) sched_brr prio bucket) p'
        (weighed_changed getprio (s.task e) p' sched_brr prio bucket h) in
    let (a, b) = queued_prio s e p' own in
    enqueue_one_brr_out_of_range (set_task s e p') e b (rw (a, w.0, alone) static)
