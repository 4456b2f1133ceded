-- ===== src/Pulling.antt =====
-- Moving real-time tasks between cpus, sched_rt.c, and `set_task_cpu` of sched.c. Nothing else runs
-- in between, so a second look at a state that has not changed is left out: `find_lock_lowest_rq` is
-- one try, and a push that fails does not start again. plist, cpupri and the topology are parameters.
pub mod Moves
use cmsc421prj.Rt.Prio.{pick_next_highest_task_rt}
use cmsc421prj.Rt.Migration.{dequeue_pushable_task}
use cmsc421prj.Fair.Tasks.{resched_curr}
use cmsc421prj.Rt.Bandwidth.{resched_task}
use cmsc421prj.Dispatch.{activate_task, deactivate_task, ClassOps}
use cmsc421prj.Base.{
  false, true, not, check, leb, ℕ, zero, suc, ◌+◌, Bool, ◌&&◌, Option, none, some, List, [], ◌∷◌,
  ◌>>=◌, ◌==◌, ltb, if◌then◌else◌, sub64,
}
use cmsc421prj.State.Data.{SchedClass, Sys, PlistCall}
use cmsc421prj.State.Setters.{set_task, set_ent}
use cmsc421prj.Rt.Entities.{task_current, rt_prio}
use cmsc421prj.Fair.Data.{FairSys, set_sys, set_se}

-- `set_task_rq`
unfoldable pub set_task_rq : FairSys → ℕ → ℕ → FairSys
set_task_rq s p c =
    let g = (s.sys.task p).group in
    let s1 = set_se s p (record (s.se p) { cfs_rq = s.cfs_of g c; parent = s.se_of g c }) in
    set_sys s1 (
      set_ent s1.sys p (record (s1.sys.ent p) {
        rt_rq = (s1.sys.group g).rt_rq_of c;
        parent = (s1.sys.group g).rt_se_of c;
      }))

unfoldable pub set_task_cpu : FairSys → ℕ → ℕ → FairSys
unfolding set_task_rq
set_task_cpu s p c =
    let old = (s.se p).cfs_rq in
    let new = s.cfs_of (s.cfs old).tg c in
    let offset = sub64 (s.cfs old).min_vruntime (s.cfs new).min_vruntime in
    let s1 = set_se s p (record (s.se p) { vruntime = sub64 (s.se p).vruntime offset }) in
    let s2 = set_task_rq s1 p c in
    set_sys s2 (set_task s2.sys p (record (s2.sys.task p) { cpu = c }))

-- What the search of a cpu takes from other parts of the kernel: `cpupri_find` with the mask that it
-- fills, `cpu_active_mask`, `nr_cpu_ids`, whether `alloc_cpumask_var` succeeds, and the domains of a
-- cpu from the bottom up, each with SD_WAKE_AFFINE and its span. The first entry of a plist is found
-- from the calls on it.
pub record Topology : Type 0 where
  pub cpupri_find : Sys → ℕ → Option (ℕ → Bool)
  pub active : ℕ → Bool
  pub nr_cpus : ℕ
  pub can_alloc : Bool
  pub domains : ℕ → List (Bool × (ℕ → Bool))
  pub plist_first : List PlistCall → Option ℕ

-- `cpumask_first`, from `c` on.
unfoldable pub mask_first : ℕ → ℕ → (ℕ → Bool) → Option ℕ
mask_first zero c mask = none
mask_first (suc n) c mask = let rest = mask_first n (c + 1) mask in if mask c then some c else rest

-- `none` stands for -1, as a cpu and as the result.
unfoldable pub pick_optimal_cpu : Topology → Option ℕ → (ℕ → Bool) → Option ℕ
unfolding mask_first
pick_optimal_cpu t none mask = mask_first t.nr_cpus 0 mask
pick_optimal_cpu t (some c) mask = if mask c then some c else mask_first t.nr_cpus 0 mask

or_else : Option ℕ → Option ℕ → Option ℕ
or_else none o = o
or_else (some c) o = some c

-- The loop over the domains.
best_in : Topology → Option ℕ → (ℕ → Bool) → List (Bool × (ℕ → Bool)) → Option ℕ
unfolding pick_optimal_cpu or_else
best_in t this mask [] = none
best_in t this mask (d ∷ ds) =
    let rest = best_in t this mask ds in
    if d.0 then or_else (pick_optimal_cpu t this (λ c. d.1 c && mask c)) rest else rest

-- The choice among the cpus that `cpupri_find` has found.
lowest_in : Topology → Sys → ℕ → Option (ℕ → Bool) → Option ℕ
unfolding best_in pick_optimal_cpu or_else
lowest_in t s p none = none
lowest_in t s p (some found) =
    let mask = λ (c : ℕ). found c && t.active c in
    let cpu = (s.task p).cpu in
    let this = if s.this_cpu == cpu then none else some s.this_cpu in
    let near = if t.can_alloc then best_in t this mask (t.domains cpu) else none in
    if mask cpu then some cpu else or_else near (pick_optimal_cpu t this mask)

unfoldable pub find_lowest_rq : Topology → Sys → ℕ → Option ℕ
unfolding lowest_in
find_lowest_rq t s p =
    if (s.ent p).nr_cpus_allowed == 1 then none else lowest_in t s p (t.cpupri_find s p)

-- The cpu found, if it is another one and runs at a lower priority.
unfoldable pub find_lock_lowest_rq : Topology → Sys → ℕ → ℕ → Option ℕ
unfolding find_lowest_rq
find_lock_lowest_rq t s p c = find_lowest_rq t s p >>= λ low.
    if low == c
    then none
    else (if ltb (s.task p).prio (s.rtq (s.rq low).rt).highest_curr then some low else none)

unfoldable pub select_task_rq_rt : Topology → Sys → ℕ → ℕ
unfolding find_lowest_rq rt_prio
select_task_rq_rt t s p =
    let here = (s.task p).cpu in
    if rt_prio (s.task (s.rq here).curr).prio && ltb 1 (s.ent p).nr_cpus_allowed
    then elim (find_lowest_rq t s p) [ none ↦ here | some c ↦ c ]
    else here
