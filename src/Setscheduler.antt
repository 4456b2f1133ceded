-- ===== src/Setscheduler.antt =====
-- Changing the policy of a task, sched.c: the checks of `__sched_setscheduler`, and `__setscheduler`.
pub mod FairClass
pub mod Checks
pub mod Brr
pub mod Change
pub mod Requeue
pub mod Calls
pub mod Syscalls
use cmsc421prj.Base.{
  leb, ℕ, zero, suc, ◌-◌, ◌*◌, ◌/◌, Bool, true, false, not, ◌&&◌, ◌||◌, Option, none, some, ◌>>=◌,
  check, ◌==◌, ltb, if◌then◌else◌, List, [], ◌∷◌,
}
use cmsc421prj.Base.Int.{ℤ, pos, negsuc}
use cmsc421prj.State.Data.{Sys, Task, SchedClass, rt_class, brr_class, fair_class, max_rt_prio}
use cmsc421prj.State.Setters.{set_task}
use cmsc421prj.Rt.Entities.{rt_bandwidth_enabled}
use cmsc421prj.Policy.{
  sched_normal, sched_fifo, sched_rr, sched_batch, sched_idle, sched_brr, rt_policy,
  task_has_rt_policy, normal_prio, einval,
}

abbrev pub eperm : ℤ
eperm = negsuc 0

abbrev pub esrch : ℤ
esrch = negsuc 2

-- `struct sched_param`
pub record SchedParam : Type 0 where
  pub sched_priority : ℤ
  pub bucket_id : ℤ

-- What the checks learn from other parts of the kernel: whether the signal handlers of the task can
-- be locked, `check_same_owner`, and the answer of the security module.
pub record Caller : Type 0 where
  pub user : Bool
  pub has_sighand : Bool
  pub same_owner : Bool
  pub security : ℤ

abbrev pub is_zero : ℤ → Bool
is_zero (pos n) = n == 0
is_zero (negsuc n) = false

abbrev pub exceeds : ℤ → ℕ → Bool
exceeds (pos n) m = ltb m n
exceeds (negsuc k) m = false

abbrev pub is_negative : ℤ → Bool
is_negative (pos n) = false
is_negative (negsuc n) = true

-- `if (policy < 0) policy = p->policy`
unfoldable pub requested_policy : Task → ℤ → ℕ
requested_policy p (pos policy) = policy
requested_policy p (negsuc k) = p.policy

unfoldable pub is_policy : ℕ → Bool
is_policy policy =
    policy == sched_fifo
    || (policy == sched_rr
        || (policy == sched_normal
            || (policy == sched_batch || (policy == sched_idle || policy == sched_brr))))

-- A policy that is asked for and is none; a negative one takes that of the task, which is not tested.
unfoldable pub is_unknown : ℤ → Bool
unfolding is_policy
is_unknown (pos policy) = not (is_policy policy)
is_unknown (negsuc k) = false

-- An error unless the test fails, and else what comes next.
abbrev fail_if : Bool → ℤ → ℤ → ℤ
fail_if true e next = e
fail_if false e next = next

-- The checks that are made for a caller without privilege.
unfoldable pub check_user : Sys → Task → Caller → ℕ → SchedParam → ℤ
check_user s p caller policy param = fail_if (rt_policy policy && not caller.has_sighand) esrch (
    fail_if (rt_policy policy && (not (policy == p.policy) && p.rlim_rtprio == 0)) eperm (
      fail_if
        (rt_policy policy
          && (exceeds param.sched_priority p.rt_priority
              && exceeds param.sched_priority p.rlim_rtprio))
        eperm
        (fail_if (p.policy == sched_idle && not (policy == sched_idle)) eperm (
          fail_if (not caller.same_owner) eperm (
            fail_if
              (rt_bandwidth_enabled s && (rt_policy policy && (s.group p.group).rt_runtime == 0))
              eperm caller.security)))))

abbrev differ : Bool → Bool → Bool
differ true b = not b
differ false b = b

-- All checks in their order; 0 lets the change go on. `MAX_USER_RT_PRIO` is `MAX_RT_PRIO`.
unfoldable pub setscheduler_check : Sys → Task → Caller → ℤ → SchedParam → ℤ
unfolding is_unknown
setscheduler_check s p caller wanted param =
    let policy = requested_policy p wanted in
    fail_if (is_unknown wanted) einval (
      fail_if
        (is_negative param.sched_priority
          || (p.mm && exceeds param.sched_priority (max_rt_prio - 1)
              || not p.mm && exceeds param.sched_priority (max_rt_prio - 1)))
        einval
        (fail_if (differ (rt_policy policy) (not (is_zero param.sched_priority))) einval
          (if caller.user then check_user s p caller policy param else pos 0)))

-- `prio_to_weight` and `prio_to_wmult`
abbrev prio_to_weight : List ℕ
prio_to_weight =
    88761 ∷ 71755 ∷ 56483 ∷ 46273 ∷ 36291 ∷ 29154 ∷ 23254 ∷ 18705 ∷ 14949 ∷ 11916 ∷ 9548 ∷ 7620
    ∷ 6100 ∷ 4904 ∷ 3906 ∷ 3121 ∷ 2501 ∷ 1991 ∷ 1586 ∷ 1277 ∷ 1024 ∷ 820 ∷ 655 ∷ 526 ∷ 423 ∷ 335
    ∷ 272 ∷ 215 ∷ 172 ∷ 137 ∷ 110 ∷ 87 ∷ 70 ∷ 56 ∷ 45 ∷ 36 ∷ 29 ∷ 23 ∷ 18 ∷ 15 ∷ []

abbrev prio_to_wmult : List ℕ
prio_to_wmult =
    48388 ∷ 59856 ∷ 76040 ∷ 92818 ∷ 118348 ∷ 147320 ∷ 184698 ∷ 229616 ∷ 287308 ∷ 360437 ∷ 449829
    ∷ 563644 ∷ 704093 ∷ 875809 ∷ 1099582 ∷ 1376151 ∷ 1717300 ∷ 2157191 ∷ 2708050 ∷ 3363326 ∷ 4194304
    ∷ 5237765 ∷ 6557202 ∷ 8165337 ∷ 10153587 ∷ 12820798 ∷ 15790321 ∷ 19976592 ∷ 24970740 ∷ 31350126
    ∷ 39045157 ∷ 49367440 ∷ 61356676 ∷ 76695844 ∷ 95443717 ∷ 119304647 ∷ 148102320 ∷ 186737708
    ∷ 238609294 ∷ 286331153 ∷ []

nth : List ℕ → ℕ → Option ℕ
nth [] i = none
nth (x ∷ xs) zero = some x
nth (x ∷ xs) (suc i) = nth xs i

weigh_by_table : Task → Option Task
unfolding nth
weigh_by_table p = check (leb max_rt_prio p.static_prio) >>= λ _.
    nth prio_to_weight (p.static_prio - max_rt_prio) >>= λ w.
    nth prio_to_wmult (p.static_prio - max_rt_prio) >>= λ i.
    some (record p { weight = w; inv_weight = i })

unfoldable pub set_load_weight : Task → Option Task
unfolding weigh_by_table
set_load_weight p =
    if task_has_rt_policy p
    then some (record p { weight = 88761 * 2; inv_weight = 48388 / 2 })
    else (if p.policy == sched_idle
        then some (record p { weight = 3; inv_weight = 1431655765 })
        else weigh_by_table p)

-- The `switch` on the new policy.
unfoldable pub switch_class : Task → ℤ → Task
switch_class p bucket =
    if p.policy == sched_brr
    then record p { sched_class = brr_class; bid = bucket }
    else (if p.policy == sched_normal || (p.policy == sched_batch || p.policy == sched_idle)
        then record p { sched_class = fair_class }
        else (if p.policy == sched_fifo || p.policy == sched_rr
            then record p { sched_class = rt_class }
            else p))

-- `rt_priority` and the priorities that follow from it; `getprio` is `rt_mutex_getprio`.
unfoldable pub set_prio : (Task → ℕ) → Task → ℕ → Task
set_prio getprio p prio =
    let p1 = record p { rt_priority = prio } in
    let p2 = record p1 { normal_prio = normal_prio p1 } in record p2 { prio = getprio p2 }

-- `__setscheduler`, with its BUG_ON.
unfoldable pub set_scheduler : (Task → ℕ) → Task → ℕ → ℕ → ℤ → Option Task
set_scheduler getprio p policy prio bucket = check (not p.on_rq) >>= λ _.
    set_load_weight (set_prio getprio (switch_class (record p { policy = policy }) bucket) prio)
