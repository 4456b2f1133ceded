-- ===== src/Pulling/Moves.antt =====
-- Pushing a task to another cpu and pulling one from there, sched_rt.c, and the functions of the class
-- that call this.
use cmsc421prj.Rt.Prio.{pick_next_highest_task_rt}
use cmsc421prj.Rt.Migration.{dequeue_pushable_task}
use cmsc421prj.Fair.Tasks.{resched_curr}
use cmsc421prj.Rt.Bandwidth.{resched_task}
use cmsc421prj.Dispatch.{activate_task, deactivate_task, ClassOps}
use cmsc421prj.Base.{
  false, true, not, check, ℕ, zero, suc, ◌+◌, Bool, ◌&&◌, Option, none, some, ◌>>=◌, ◌==◌, ltb,
  if◌then◌else◌,
}
use cmsc421prj.State.Data.{SchedClass, Sys}
use cmsc421prj.Rt.Entities.{task_current, rt_prio}
use cmsc421prj.Fair.Data.{FairSys, set_sys}
use cmsc421prj.Base.Int.{pos}
use cmsc421prj.Pulling.{Topology, set_task_cpu, find_lock_lowest_rq}

-- `plist_first_entry`, with the BUG_ONs on the task found; a fault, or no task, or a task.
unfoldable pub pick_next_pushable_task : Topology → Sys → ℕ → Option (Option ℕ)
unfolding rt_prio
pick_next_pushable_task t s c = elim (t.plist_first (s.rtq (s.rq c).rt).pushable) [
  | none ↦ some none
  | some p ↦
      check (
        c == (s.task p).cpu
        && (not (task_current s c p)
            && (ltb 1 (s.ent p).nr_cpus_allowed && ((s.task p).on_rq && rt_prio (s.task p).prio))))
      >>= λ _. some (some p)
]

module _ (ops : SchedClass → ClassOps) (t : Topology) where
  -- From the runqueue of `from` to that of `to`.
  unfoldable pub move_task : FairSys → ℕ → ℕ → ℕ → Option FairSys
  unfolding deactivate_task activate_task set_task_cpu
  move_task s p from to = deactivate_task ops s from p false >>= λ s1.
      activate_task ops (set_task_cpu s1 p to) to p false

  push_to : FairSys → ℕ → ℕ → Option ℕ → Option FairSys
  unfolding move_task dequeue_pushable_task
  push_to s c p none = some (set_sys s (dequeue_pushable_task s.sys c p))
  push_to s c p (some low) = move_task s p c low >>= λ s1. some (resched_curr s1 low)

  push_next : FairSys → ℕ → Option ℕ → Option (FairSys × Bool)
  unfolding push_to find_lock_lowest_rq
  push_next s c none = some (s, false)
  push_next s c (some p) =
      if p == (s.sys.rq c).curr
      then some (s, false)
      else (if ltb (s.sys.task p).prio (s.sys.task (s.sys.rq c).curr).prio
          then some (resched_curr s c, false)
          else (push_to s c p (find_lock_lowest_rq t s.sys p c) >>= λ s1. some (s1, true)))

  -- The result says whether a task was found that could be pushed.
  unfoldable pub push_rt_task : FairSys → ℕ → Option (FairSys × Bool)
  unfolding push_next pick_next_pushable_task
  push_rt_task s c =
      if (s.sys.rtq (s.sys.rq c).rt).overloaded
      then (pick_next_pushable_task t s.sys c >>= push_next s c)
      else some (s, false)

  -- Whether the task of `src` goes before all that `c` has, and not before the current one of `src`.
  unfoldable pub is_pullable : Sys → ℕ → ℕ → ℕ → Bool
  is_pullable s c src p =
      ltb (s.task p).prio (s.rtq (s.rq c).rt).highest_curr
      && not (ltb (s.task p).prio (s.task (s.rq src).curr).prio)

  pull_task : FairSys → ℕ → ℕ → Bool → Option ℕ → Option (FairSys × Bool)
  unfolding move_task is_pullable
  pull_task s c src pulled none = some (s, pulled)
  pull_task s c src pulled (some p) =
      if is_pullable s.sys c src p
      then (move_task s p src c >>= λ s1. some (s1, true))
      else some (s, pulled)

  -- What is tested of a cpu before a task is looked for there.
  unfoldable pub has_pullable : Sys → ℕ → ℕ → Bool
  has_pullable s c src =
      not (c == src)
      && (ltb (s.rtq (s.rq src).rt).highest_next (s.rtq (s.rq c).rt).highest_curr
          && ltb 1 (s.rtq (s.rq src).rt).rt_nr_running)

  pull_from : FairSys → ℕ → ℕ → Bool → Option (FairSys × Bool)
  unfolding has_pullable pick_next_highest_task_rt pull_task
  pull_from s c src pulled =
      if has_pullable s.sys c src
      then pull_task s c src pulled (pick_next_highest_task_rt s.sys src (pos c))
      else some (s, pulled)

  -- The loop over the cpus of `rto_mask`, from `cpu` on.
  unfoldable pub pull_loop : ℕ → FairSys → ℕ → ℕ → Bool → Option (FairSys × Bool)
  unfolding pull_from
  pull_loop zero s c cpu pulled = some (s, pulled)
  pull_loop (suc n) s c cpu pulled =
      (if (s.sys.rd (s.sys.rq c).rd).rto_mask cpu
        then pull_from s c cpu pulled
        else some (s, pulled))
      >>= λ r. pull_loop n r.0 c (cpu + 1) r.1

  unfoldable pub pull_rt_task : FairSys → ℕ → Option (FairSys × Bool)
  unfolding pull_loop
  pull_rt_task s c =
      if (s.sys.rd (s.sys.rq c).rd).rto_count == 0
      then some (s, false)
      else pull_loop t.nr_cpus s c 0 false

  unfoldable pub pre_schedule_rt : FairSys → ℕ → ℕ → Option FairSys
  unfolding pull_rt_task rt_prio
  pre_schedule_rt s c prev =
      if rt_prio (s.sys.task prev).prio
        && ltb (s.sys.task prev).prio (s.sys.rtq (s.sys.rq c).rt).highest_curr
      then (pull_rt_task s c >>= λ r. some r.0)
      else some s

  unfoldable pub switched_from_rt : FairSys → ℕ → Option FairSys
  unfolding pull_rt_task
  switched_from_rt s c =
      if (s.sys.rtq (s.sys.rq c).rt).rt_nr_running == 0
      then (pull_rt_task s c >>= λ r. some r.0)
      else some s

  resched_if_higher : FairSys → ℕ → ℕ → FairSys
  resched_if_higher s c p =
      if ltb (s.sys.task p).prio (s.sys.task (s.sys.rq c).curr).prio then resched_curr s c else s

  unfoldable pub switched_to_rt : FairSys → ℕ → ℕ → Bool → Option FairSys
  unfolding push_rt_task resched_if_higher
  switched_to_rt s c p running =
      if running
      then some s
      else (push_rt_task s c >>= λ r.
          some (if r.1 && not (c == (r.0.sys.task p).cpu) then r.0 else resched_if_higher r.0 c p))

  -- After a pull, if its priority has decreased.
  recheck : FairSys → ℕ → ℕ → FairSys
  recheck s c p =
      if ltb (s.sys.rtq (s.sys.rq c).rt).highest_curr (s.sys.task p).prio && (s.sys.rq c).curr == p
      then set_sys s (resched_task s.sys p)
      else s

  unfoldable pub prio_changed_rt : FairSys → ℕ → ℕ → ℕ → Bool → Option FairSys
  unfolding pull_rt_task recheck resched_if_higher
  prio_changed_rt s c p oldprio running =
      if running
      then ((if ltb oldprio (s.sys.task p).prio then pull_rt_task s c else some (s, false)) >>= λ r.
          some (recheck r.0 c p))
      else some (resched_if_higher s c p)
