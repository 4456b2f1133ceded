-- ===== src/Balance/Moves.antt =====
-- The tasks that the load balancer moves, sched.c. The iterator of a class is the list of the tasks that
-- it gives; the class keeps the next one before a task is moved.
use cmsc421prj.Base.{
  ℕ, Bool, true, false, not, ◌&&◌, ◌||◌, Option, none, some, List, [], ◌∷◌, ◌>>=◌, ◌==◌, ltb,
  if◌then◌else◌, ◌+◌, ◌/◌, ◌-◌, sub64, neg64, int_mod,
}
use cmsc421prj.State.Data.{Sys, SchedClass, fair_class}
use cmsc421prj.Rt.Entities.{task_current}
use cmsc421prj.Rt.Bandwidth.{positive64}
use cmsc421prj.Fair.Data.{FairSys}
use cmsc421prj.Dispatch.{ClassOps, same_class, activate_task, deactivate_task}
use cmsc421prj.Pulling.{set_task_cpu}
use cmsc421prj.Wakeup.{WakeOps}
use cmsc421prj.Balance.{SchedGroup, SchedDomain, CpuIdleType}
use cmsc421prj.Balance.Loads.{weighted_cpuload}
use cmsc421prj.Balance.Stats.{newly_idle}

-- The loop of `find_busiest_queue`, with `max_load` and `busiest` so far.
busiest_from : Sys → ℕ → (ℕ → Bool) → ℕ → Option ℕ → List ℕ → Option ℕ
unfolding weighted_cpuload
busiest_from s imbalance cpus max_load busiest [] = busiest
busiest_from s imbalance cpus max_load busiest (c ∷ cs) =
    let wl = weighted_cpuload s c in
    let passed = busiest_from s imbalance cpus max_load busiest cs in
    let taken = busiest_from s imbalance cpus wl (some c) cs in
    if not (cpus c) || (s.rq c).nr_running == 1 && ltb imbalance wl
    then passed
    else (if ltb max_load wl then taken else passed)

unfoldable pub find_busiest_queue : Sys → SchedGroup → ℕ → (ℕ → Bool) → Option ℕ
unfolding busiest_from
find_busiest_queue s group imbalance cpus = busiest_from s imbalance cpus 0 none group.cpus

abbrev is_entity : Option ℕ → ℕ → Bool
is_entity none p = false
is_entity (some e) p = e == p

-- `cache_hot_buddy` is the feature CACHE_HOT_BUDDY; a migration cost of -1 is 2^32 - 1.
unfoldable pub task_hot : Bool → FairSys → ℕ → ℕ → Bool
task_hot cache_hot_buddy s p now =
    let q = s.cfs (s.se p).cfs_rq in
    let cost = s.tunables.migration_cost in
    let delta = sub64 now (s.sys.task p).exec_start in
    if cache_hot_buddy && (is_entity q.next p || is_entity q.last p)
    then true
    else (if not (same_class (s.sys.task p).sched_class fair_class)
        then false
        else (if cost == int_mod - 1
            then true
            else (if cost == 0 then false else neg64 delta || ltb delta cost)))

-- The answer, and whether all tasks seen so far are pinned.
unfoldable pub can_migrate_task : Bool → FairSys → ℕ → ℕ → ℕ → SchedDomain → Bool → Bool × Bool
unfolding task_hot
can_migrate_task cache_hot_buddy s p c this_cpu sd pinned =
    if not ((s.sys.task p).cpus_allowed this_cpu)
    then (false, pinned)
    else (if task_current s.sys c p then (false, false) else (
      not (task_hot cache_hot_buddy s p (s.sys.rq c).clock)
          || ltb sd.cache_nice_tries sd.nr_balance_failed,
      false,
    ))

-- The state of `balance_tasks`; `rem_load_move` is a `long`, as a pattern of 64 bits.
pub record Moved : Type 0 where
  pub sys : FairSys
  pub rem_load_move : ℕ
  pub pinned : Bool
  pub this_best_prio : ℕ

-- The setting `sysctl_sched_nr_migrate`, and whether the kernel is preemptible.
module _ (ops : SchedClass → ClassOps) (wakes : SchedClass → WakeOps) (cache_hot_buddy : Bool)
    (nr_migrate : ℕ) (preempt : Bool) where
  unfoldable pub pull_task : FairSys → ℕ → ℕ → ℕ → Option FairSys
  unfolding deactivate_task set_task_cpu activate_task
  pull_task s src p this_cpu = deactivate_task ops s src p false >>= λ s1.
      activate_task ops (set_task_cpu s1 p this_cpu) this_cpu p false >>= λ s2.
      (wakes (s2.sys.task (s2.sys.rq this_cpu).curr).sched_class).check_preempt s2 this_cpu p false

  -- What follows a pull: the load that is left, and the best priority if the loop goes on.
  after_pull : Moved → FairSys → ℕ → Moved
  after_pull m s p =
      let rem = sub64 m.rem_load_move (s.sys.task p).weight in
      let best =
        if positive64 rem && ltb (s.sys.task p).prio m.this_best_prio
        then (s.sys.task p).prio
        else m.this_best_prio in
      record { sys = s; rem_load_move = rem; pinned = false; this_best_prio = best }

  balance_loop : ℕ → ℕ → SchedDomain → CpuIdleType → ℕ → Moved → List ℕ → Option Moved
  unfolding can_migrate_task pull_task after_pull
  balance_loop this_cpu busiest sd idle loops m [] = some m
  balance_loop this_cpu busiest sd idle loops m (p ∷ ps) =
      let s = m.sys in
      let (may, pinned) = can_migrate_task cache_hot_buddy s p busiest this_cpu sd m.pinned in
      let stays =
        balance_loop this_cpu busiest sd idle (loops + 1) (record m { pinned = pinned }) ps in
      let too_heavy = balance_loop this_cpu busiest sd idle (loops + 1) m ps in
      if ltb nr_migrate loops
      then some m
      else (if ltb m.rem_load_move ((s.sys.task p).weight / 2)
          then too_heavy
          else (if not may
              then stays
              else (pull_task s busiest p this_cpu >>= λ s1.
                  (let m1 = after_pull m s1 p in
                    let best =
                      if preempt && newly_idle idle
                      then record m1 { this_best_prio = m.this_best_prio }
                      else m1 in
                    let goes_on = balance_loop this_cpu busiest sd idle (loops + 1) m1 ps in
                    if preempt && newly_idle idle || not (positive64 m1.rem_load_move)
                    then some best
                    else goes_on))))

  -- The load that is moved, whether all tasks are pinned, the best priority, and the state.
  unfoldable pub balance_tasks :
      FairSys → ℕ → ℕ → ℕ → SchedDomain → CpuIdleType → ℕ → List ℕ → Option (ℕ × Moved)
  unfolding balance_loop
  balance_tasks s this_cpu busiest max_load_move sd idle this_best_prio tasks =
      let m : Moved = record {
        sys = s;
        rem_load_move = max_load_move;
        pinned = not (max_load_move == 0);
        this_best_prio = this_best_prio;
      } in
      (if max_load_move == 0 then some m else balance_loop this_cpu busiest sd idle 0 m tasks)
      >>= λ last. some (sub64 max_load_move last.rem_load_move, last)

  -- Whether a task has been moved.
  unfoldable pub iter_move_one_task :
      FairSys → ℕ → ℕ → SchedDomain → List ℕ → Option (FairSys × Bool)
  unfolding can_migrate_task pull_task
  iter_move_one_task s this_cpu busiest sd [] = some (s, false)
  iter_move_one_task s this_cpu busiest sd (p ∷ ps) =
      let rest = iter_move_one_task s this_cpu busiest sd ps in
      let (may, pinned) = can_migrate_task cache_hot_buddy s p busiest this_cpu sd false in
      if may then (pull_task s busiest p this_cpu >>= λ s1. some (s1, true)) else rest
