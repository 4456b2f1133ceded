-- ===== src/Fair/Tasks.antt =====
-- The functions of the fair class on tasks, sched_fair.c.
pub mod Staying
use cmsc421prj.Base.{
  ℕ, zero, suc, Bool, true, false, not, ◌&&◌, Option, none, some, List, [], ◌∷◌, ◌>>=◌, ◌==◌, ltb,
  if◌then◌else◌, add64,
}
use cmsc421prj.State.Setters.{set_rq}
use cmsc421prj.Rt.Bandwidth.{resched_task}
use cmsc421prj.Policy.{sched_batch}
use cmsc421prj.Fair.Data.{FairSys, RbTree, set_sys, set_se}
use cmsc421prj.Fair.Clock.{update_curr_fair}
use cmsc421prj.Fair.Timeline.{pick_last_entity}
use cmsc421prj.Fair.Slice.{fair_hierarchy, parents}
use cmsc421prj.Fair.Entities.{
  enqueue_fair_entity, dequeue_fair_entity, place_entity, clear_buddies, clear_buddies_on,
}
use cmsc421prj.Fair.Pick.{pick_next_entity, set_next_entity, put_prev_entity, entity_tick}

abbrev pub resched_curr : FairSys → ℕ → FairSys
resched_curr s c = set_sys s (resched_task s.sys (s.sys.rq c).curr)

abbrev pub set_clock : FairSys → ℕ → ℕ → FairSys
set_clock s c now = set_sys s (set_rq s.sys c (record (s.sys.rq c) { clock = now }))

-- The end of the compatible `yield`: behind the rightmost entity, as unsigned numbers go.
unfoldable pub go_last : FairSys → ℕ → Option ℕ → FairSys
go_last s e none = s
go_last s e (some r) =
    if ltb (s.se r).vruntime (s.se e).vruntime
    then s
    else set_se s e (record (s.se e) { vruntime = add64 (s.se r).vruntime 1 })

-- The parent, if it runs on the runqueue of the child, changes its virtual time with it.
unfoldable pub child_first : FairSys → ℕ → ℕ → Option ℕ → FairSys
child_first s c p none = s
child_first s c p (some curr) =
    if s.tunables.child_runs_first
      && (s.sys.this_cpu == (s.sys.task p).cpu && ltb (s.se curr).vruntime (s.se p).vruntime)
    then resched_curr
        (set_se (set_se s curr (record (s.se curr) { vruntime = (s.se p).vruntime })) p
          (record (s.se p) { vruntime = (s.se curr).vruntime }))
        c
    else s

module _ (rb : RbTree) where
  enqueue_loop : FairSys → Bool → List ℕ → FairSys
  enqueue_loop s wakeup [] = s
  enqueue_loop s wakeup (e ∷ es) =
      let rest = enqueue_loop (enqueue_fair_entity rb s (s.se e).cfs_rq e wakeup) true es in
      if (s.sys.task e).on_rq then s else rest

  unfoldable pub enqueue_task_fair : FairSys → ℕ → Bool → Option FairSys
  unfolding enqueue_loop fair_hierarchy
  enqueue_task_fair s p wakeup = parents s p >>= λ es. some (enqueue_loop s wakeup es)

  -- A parent stays while other entities are queued below it.
  dequeue_loop : FairSys → List ℕ → Option FairSys
  dequeue_loop s [] = some s
  dequeue_loop s (e ∷ es) = dequeue_fair_entity rb s (s.se e).cfs_rq e >>= λ s'.
      (let rest = dequeue_loop s' es in
        if (s'.cfs (s.se e).cfs_rq).load == 0 then rest else some s')

  unfoldable pub dequeue_task_fair : FairSys → ℕ → Option FairSys
  unfolding dequeue_loop fair_hierarchy
  dequeue_task_fair s p = parents s p >>= dequeue_loop s

  -- `now` is the clock as `update_rq_clock` finds it.
  unfoldable pub yield_task_fair : FairSys → ℕ → ℕ → Option FairSys
  unfolding clear_buddies update_curr_fair go_last pick_last_entity
  yield_task_fair s c now =
      let p = (s.sys.rq c).curr in
      let q = (s.se p).cfs_rq in
      if (s.cfs q).nr_running == 1
      then some s
      else (clear_buddies s p >>= λ s1. some (
          if not s.tunables.compat_yield && not ((s.sys.task p).policy == sched_batch)
          then update_curr_fair (set_clock s1 c now) q
          else go_last s1 p (pick_last_entity rb s1 q)))

  -- `do … while (cfs_rq)`: down through the groups to a task.
  unfoldable pub pick_fair_loop : ℕ → FairSys → Option ℕ → ℕ → Option (FairSys × ℕ)
  unfolding pick_next_entity clear_buddies_on set_next_entity
  pick_fair_loop fuel s none e = some (s, e)
  pick_fair_loop zero s (some q) e0 = none
  pick_fair_loop (suc fuel) s (some q) e0 = pick_next_entity s q >>= λ (s1, picked). picked >>= λ e.
      pick_fair_loop fuel (set_next_entity rb (clear_buddies_on s1 q e) q e) (s1.se e).my_q e

  unfoldable pub pick_next_task_fair : FairSys → ℕ → Option (FairSys × Option ℕ)
  unfolding pick_fair_loop
  pick_next_task_fair s c =
      if (s.cfs (s.root_cfs c)).nr_running == 0
      then some (s, none)
      else (pick_fair_loop s.sys.depth s (some (s.root_cfs c)) 0 >>= λ (s', p). some (s', some p))

  put_prev_loop : FairSys → List ℕ → FairSys
  unfolding put_prev_entity
  put_prev_loop s [] = s
  put_prev_loop s (e ∷ es) = put_prev_loop (put_prev_entity rb s (s.se e).cfs_rq e) es

  unfoldable pub put_prev_task_fair : FairSys → ℕ → Option FairSys
  unfolding put_prev_loop fair_hierarchy
  put_prev_task_fair s p = parents s p >>= λ es. some (put_prev_loop s es)

  set_curr_loop : FairSys → List ℕ → FairSys
  unfolding set_next_entity
  set_curr_loop s [] = s
  set_curr_loop s (e ∷ es) = set_curr_loop (set_next_entity rb s (s.se e).cfs_rq e) es

  unfoldable pub set_curr_task_fair : FairSys → ℕ → Option FairSys
  unfolding set_curr_loop fair_hierarchy
  set_curr_task_fair s c = parents s (s.sys.rq c).curr >>= λ es. some (set_curr_loop s es)

  unfoldable pub task_new_fair : FairSys → ℕ → ℕ → Option FairSys
  unfolding update_curr_fair place_entity child_first enqueue_task_fair
  task_new_fair s c p =
      let q = (s.se p).cfs_rq in
      place_entity (update_curr_fair s q) q p true >>= λ s1.
      enqueue_task_fair (child_first s1 c p (s.cfs q).curr) p false

tick_loop : FairSys → List ℕ → Option FairSys
unfolding entity_tick
tick_loop s [] = some s
tick_loop s (e ∷ es) = entity_tick s (s.se e).cfs_rq e >>= λ s'. tick_loop s' es

unfoldable pub task_tick_fair : FairSys → ℕ → Option FairSys
unfolding tick_loop fair_hierarchy
task_tick_fair s p = parents s p >>= tick_loop s

unfoldable pub moved_group_fair : FairSys → ℕ → Option FairSys
unfolding update_curr_fair place_entity
moved_group_fair s p = let q = (s.se p).cfs_rq in place_entity (update_curr_fair s q) q p true

-- The two functions that hear of a change. `check_preempt` is `check_preempt_curr`, which asks the class
-- of the task that runs.
module _ (check_preempt : FairSys → ℕ → ℕ → Bool → Option FairSys) where
  unfoldable pub prio_changed_fair : FairSys → ℕ → ℕ → ℕ → Bool → Option FairSys
  prio_changed_fair s c p oldprio running =
      if running
      then (if ltb oldprio (s.sys.task p).prio then some (resched_curr s c) else some s)
      else check_preempt s c p false

  unfoldable pub switched_to_fair : FairSys → ℕ → ℕ → Bool → Option FairSys
  switched_to_fair s c p running =
      if running then some (resched_curr s c) else check_preempt s c p false
