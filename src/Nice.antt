-- ===== src/Nice.antt =====
-- Nice values, sched.c: `set_user_nice`, `can_nice`, the system call `nice`, `task_prio` and
-- `task_nice`.
use cmsc421prj.Base.{
  leb, sub64, ℕ, Bool, true, false, not, ◌&&◌, ◌||◌, Option, some, ◌>>=◌, ◌+◌, ◌-◌, if◌then◌else◌,
  ltb,
}
use cmsc421prj.Base.Int.{ℤ, pos, negsuc, eq_ℤ, ◌+ℤ◌, minus}
use cmsc421prj.State.Data.{Task, SchedClass, max_rt_prio}
use cmsc421prj.Rt.Entities.{task_current}
use cmsc421prj.Policy.{task_has_rt_policy, effective_prio}
use cmsc421prj.Fair.Data.{FairSys}
use cmsc421prj.Fair.Tasks.{set_clock, resched_curr}
use cmsc421prj.Dispatch.{ClassOps, write_task, enqueue_task, dequeue_task}
use cmsc421prj.Setscheduler.{set_load_weight, eperm}

-- `NICE_TO_PRIO`, from -20 on.
unfoldable pub nice_to_prio : ℤ → ℕ
nice_to_prio (pos n) = max_rt_prio + n + 20
nice_to_prio (negsuc k) = max_rt_prio + 19 - k

unfoldable pub prio_to_nice : ℕ → ℤ
prio_to_nice prio = minus prio (max_rt_prio + 20)

unfoldable pub task_nice : Task → ℤ
unfolding prio_to_nice
task_nice p = prio_to_nice p.static_prio

unfoldable pub task_prio : Task → ℤ
task_prio p = minus p.prio max_rt_prio

-- `nice < -20 || nice > 19`
unfoldable pub is_out_of_range : ℤ → Bool
is_out_of_range (pos n) = ltb 19 n
is_out_of_range (negsuc k) = ltb 19 k

-- What changes of a task, with `effective_prio`.
unfoldable pub renice : Task → ℤ → Option Task
unfolding set_load_weight effective_prio nice_to_prio
renice p nice = set_load_weight (record p { static_prio = nice_to_prio nice }) >>= λ p1.
    some (record (effective_prio p1).1 { prio = (effective_prio p1).0 })

module _ (ops : SchedClass → ClassOps) (clock : ℕ → ℕ) where
  -- The task is back on its runqueue, and the cpu may have to choose again.
  reniced : FairSys → ℕ → ℕ → Bool → ℕ → Option FairSys
  unfolding enqueue_task
  reniced s c p on_rq old =
      let new = (s.sys.task p).prio in
      if on_rq
      then (enqueue_task ops s c p false >>= λ s1.
          some (
            if ltb new old || ltb old new && task_current s1.sys c p
            then resched_curr s1 c
            else s1))
      else some s

  set_nice : FairSys → ℕ → ℕ → ℤ → Option FairSys
  unfolding reniced renice dequeue_task
  set_nice s c p nice =
      (if (s.sys.task p).on_rq then dequeue_task ops s c p false else some s) >>= λ s1.
      renice (s1.sys.task p) nice >>= λ t.
      reniced (write_task s1 p t) c p (s.sys.task p).on_rq (s1.sys.task p).prio

  unfoldable pub set_user_nice : FairSys → ℕ → ℤ → Option FairSys
  unfolding task_nice is_out_of_range task_has_rt_policy set_nice nice_to_prio
  set_user_nice s p nice =
      let t = s.sys.task p in
      let s1 = set_clock s t.cpu (clock t.cpu) in
      if eq_ℤ (task_nice t) nice || is_out_of_range nice
      then some s
      else (if task_has_rt_policy t
          then some (write_task s1 p (record t { static_prio = nice_to_prio nice }))
          else set_nice s1 t.cpu p nice)

-- `can_nice`, with `20 - nice` compared as an unsigned word; `rlim` is RLIMIT_NICE, and `capable` is
-- what `capable(CAP_SYS_NICE)` answers.
unfoldable pub can_nice : ℕ → Bool → ℤ → Bool
can_nice rlim capable (pos n) = leb (sub64 20 n) rlim || capable
can_nice rlim capable (negsuc k) = leb (21 + k) rlim || capable

-- A number from -low to high, or the nearer of the two; `low` is not 0.
unfoldable pub clamp : ℕ → ℕ → ℤ → ℤ
clamp low high (pos n) = if ltb high n then pos high else pos n
clamp low high (negsuc k) = if ltb k low then negsuc k else negsuc (low - 1)

abbrev pub is_below_zero : ℤ → Bool
is_below_zero (pos n) = false
is_below_zero (negsuc k) = true

-- The nice value that the call sets.
unfoldable pub new_nice : Task → ℤ → ℤ
unfolding clamp task_nice
new_nice p increment = clamp 20 19 (task_nice p +ℤ clamp 40 40 increment)

-- `sys_nice`, for the current task `p`; `security` is the answer of `security_task_setnice`.
unfoldable pub sys_nice :
    (SchedClass → ClassOps) → (ℕ → ℕ) → ℕ → Bool → (ℤ → ℤ) → FairSys → ℕ → ℤ → Option (FairSys × ℤ)
unfolding new_nice can_nice set_user_nice
sys_nice ops clock rlim capable security s p increment =
    let nice = new_nice (s.sys.task p) increment in
    if is_below_zero increment && not (can_nice rlim capable nice)
    then some (s, eperm)
    else (if not (eq_ℤ (security nice) (pos 0))
        then some (s, security nice)
        else (set_user_nice ops clock s p nice >>= λ s1. some (s1, pos 0)))
