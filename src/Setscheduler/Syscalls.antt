-- ===== src/Setscheduler/Syscalls.antt =====
-- The system calls on the policy of a task, sched.c.
use cmsc421prj.Base.{ℕ, zero, suc, Bool, true, false, Option, none, some, if◌then◌else◌}
use cmsc421prj.Base.Int.{ℤ, pos, negsuc, eq_ℤ, minus_one}
use cmsc421prj.State.Data.{SchedClass}
use cmsc421prj.Fair.Data.{FairSys}
use cmsc421prj.Dispatch.{ClassOps}
use cmsc421prj.Policy.{einval}
use cmsc421prj.Setscheduler.{SchedParam, Caller, esrch}
use cmsc421prj.Setscheduler.Change.{Outside, sched_setscheduler}

abbrev pub efault : ℤ
efault = negsuc 13

-- A pointer of the caller: null, one that cannot be read or written, or one to this value.
pub data UserPointer : Type 0 where
  null unreadable : UserPointer
  points_to : SchedParam → UserPointer

-- `find_task_by_vpid` and `current`.
unfoldable pub find_process_by_pid : (ℕ → Option ℕ) → ℕ → ℕ → Option ℕ
find_process_by_pid find current zero = some current
find_process_by_pid find current (suc n) = find (suc n)

-- The tasks by their numbers, the current task, what the security module answers to a reader, and
-- what the checks learn of a caller about a task.
pub record Processes : Type 0 where
  pub find : ℕ → Option ℕ
  pub current : ℕ
  pub may_read : ℕ → ℤ
  pub caller : ℕ → Caller

module _ (ops : SchedClass → ClassOps) (out : Outside) (ps : Processes) where
  set_found : FairSys → Option ℕ → ℤ → SchedParam → Option (FairSys × ℤ)
  unfolding sched_setscheduler
  set_found s none policy param = some (s, esrch)
  set_found s (some p) policy param = sched_setscheduler ops out s (ps.caller p) p policy param

  unfoldable pub do_sched_setscheduler : FairSys → ℤ → ℤ → UserPointer → Option (FairSys × ℤ)
  unfolding set_found find_process_by_pid
  do_sched_setscheduler s pid policy null = some (s, einval)
  do_sched_setscheduler s (negsuc k) policy unreadable = some (s, einval)
  do_sched_setscheduler s (negsuc k) policy (points_to param) = some (s, einval)
  do_sched_setscheduler s (pos n) policy unreadable = some (s, efault)
  do_sched_setscheduler s (pos n) policy (points_to param) =
      set_found s (find_process_by_pid ps.find ps.current n) policy param

  unfoldable pub sys_sched_setscheduler : FairSys → ℤ → ℤ → UserPointer → Option (FairSys × ℤ)
  unfolding do_sched_setscheduler
  sys_sched_setscheduler s pid (negsuc k) param = some (s, einval)
  sys_sched_setscheduler s pid (pos policy) param = do_sched_setscheduler s pid (pos policy) param

  unfoldable pub sys_sched_setparam : FairSys → ℤ → UserPointer → Option (FairSys × ℤ)
  unfolding do_sched_setscheduler
  sys_sched_setparam s pid param = do_sched_setscheduler s pid minus_one param

module _ (ps : Processes) where
  read_policy : FairSys → Option ℕ → ℤ
  read_policy s none = esrch
  read_policy s (some p) =
      if eq_ℤ (ps.may_read p) (pos 0) then pos (s.sys.task p).policy else ps.may_read p

  unfoldable pub sys_sched_getscheduler : FairSys → ℤ → ℤ
  unfolding read_policy find_process_by_pid
  sys_sched_getscheduler s (negsuc k) = einval
  sys_sched_getscheduler s (pos n) = read_policy s (find_process_by_pid ps.find ps.current n)

  -- The value returned and the priority written; `writable` says whether it can be written.
  read_param : FairSys → Bool → Option ℕ → ℤ × Option ℕ
  read_param s writable none = (esrch, none)
  read_param s writable (some p) =
      if eq_ℤ (ps.may_read p) (pos 0)
      then (if writable then (pos 0, some (s.sys.task p).rt_priority) else (efault, none))
      else (ps.may_read p, none)

  unfoldable pub sys_sched_getparam : FairSys → ℤ → UserPointer → ℤ × Option ℕ
  unfolding read_param find_process_by_pid
  sys_sched_getparam s pid null = (einval, none)
  sys_sched_getparam s (negsuc k) unreadable = (einval, none)
  sys_sched_getparam s (negsuc k) (points_to x) = (einval, none)
  sys_sched_getparam s (pos n) unreadable =
      read_param s false (find_process_by_pid ps.find ps.current n)
  sys_sched_getparam s (pos n) (points_to x) =
      read_param s true (find_process_by_pid ps.find ps.current n)
