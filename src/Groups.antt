-- ===== src/Groups.antt =====
-- The tree of task groups and the runtime that each may use, sched.c: `walk_tg_tree`, the test that
-- the real-time constraints can be met, and the changes of runtime and period that it guards.
pub mod Walk
pub mod Schedulable
pub mod Bandwidth
use cmsc421prj.Base.{
  ◌-◌, ℕ, zero, suc, ◌*◌, ◌/◌, ◌%◌, ◌^◌, Bool, true, false, not, ◌&&◌, ◌||◌, Option, none, some,
  List, [], ◌∷◌, ◌>>=◌, ◌==◌, ltb, if◌then◌else◌, add64, word,
}
use cmsc421prj.Base.Int.{ℤ, pos, negsuc, eq_ℤ}
use cmsc421prj.State.Data.{Sys, runtime_inf}
use cmsc421prj.State.Setters.{set_group}
use cmsc421prj.Rt.Entities.{rt_bandwidth_enabled, rt_prio, rt_rq_of_se}
use cmsc421prj.Rt.Bandwidth.{set_runtime}
use cmsc421prj.Policy.{einval}

-- `-EBUSY` is -16.
abbrev pub ebusy : ℤ
ebusy = negsuc 15

-- `root_task_group`
abbrev pub root_task_group : ℕ
root_task_group = 0

-- A visitor of a group: the state after it and an error, or 0; `none` is a fault.
abbrev pub Visitor : Type 0
Visitor = Sys → ℕ → Option (Sys × ℤ)

-- What comes after a step that has returned 0.
abbrev pub and_then : Sys × ℤ → (Sys → Option (Sys × ℤ)) → Option (Sys × ℤ)
and_then (s, r) next = if eq_ℤ r (pos 0) then next s else some (s, r)

unfoldable pub visit_all : Visitor → Sys → List ℕ → Option (Sys × ℤ)
visit_all visit s [] = some (s, pos 0)
visit_all visit s (g ∷ gs) = visit s g >>= λ r. and_then r (λ s1. visit_all visit s1 gs)

module _ (down up : Visitor) where
  -- The group and all below it; `none` also if there are more than `fuel` levels.
  unfoldable pub visit : ℕ → Visitor
  unfolding visit_all
  visit zero s g = none
  visit (suc n) s g = down s g >>= λ r.
      and_then r
        (λ s1. visit_all (visit n) s1 (s1.group g).children >>= λ r2. and_then r2 (λ s2. up s2 g))

  unfoldable pub walk_tg_tree : Sys → Option (Sys × ℤ)
  unfolding visit
  walk_tg_tree s = visit s.depth s root_task_group

abbrev pub tg_nop : Visitor
tg_nop s g = some (s, pos 0)

-- `NSEC_PER_USEC`
abbrev pub from_usec : ℕ → ℕ
from_usec n = (n * 1000) % word

unfoldable pub global_rt_period : Sys → ℕ
global_rt_period s = from_usec s.sysctl_sched_rt_period

runtime_of_usec : ℤ → ℕ
runtime_of_usec (pos n) = from_usec n
runtime_of_usec (negsuc k) = runtime_inf

unfoldable pub global_rt_runtime : Sys → ℕ
unfolding runtime_of_usec
global_rt_runtime s = runtime_of_usec s.sysctl_sched_rt_runtime

-- A division by 0 is a fault.
unfoldable pub to_ratio : ℕ → ℕ → Option ℕ
to_ratio period runtime =
    if runtime == runtime_inf
    then some (2 ^ 20)
    else (if period == 0 then none else some ((runtime * 2 ^ 20) % word / period))

-- Over the list of threads, which other parts of the kernel keep.
unfoldable pub tg_has_rt_tasks : Sys → ℕ → List ℕ → Bool
unfolding rt_prio
tg_has_rt_tasks s g [] = false
tg_has_rt_tasks s g (p ∷ ps) =
    let rest = tg_has_rt_tasks s g ps in
    if rt_prio (s.task p).prio
      && elim (s.rtq (rt_rq_of_se s p)).tg [ none ↦ false | some h ↦ h == g ]
    then true
    else rest

-- `struct rt_schedulable_data`: a group, or none, with the values that it is to have.
pub record RtSchedulableData : Type 0 where
  pub tg : Option ℕ
  pub rt_period : ℕ
  pub rt_runtime : ℕ

abbrev pub is_group : Option ℕ → ℕ → Bool
is_group none g = false
is_group (some h) g = h == g

abbrev pub period_in : Sys → RtSchedulableData → ℕ → ℕ
period_in s d g = if is_group d.tg g then d.rt_period else (s.group g).rt_period

abbrev pub runtime_in : Sys → RtSchedulableData → ℕ → ℕ
runtime_in s d g = if is_group d.tg g then d.rt_runtime else (s.group g).rt_runtime

unfoldable pub sum_children : Sys → RtSchedulableData → ℕ → List ℕ → Option ℕ
unfolding to_ratio
sum_children s d sum [] = some sum
sum_children s d sum (g ∷ gs) =
    to_ratio (period_in s d g) (runtime_in s d g) >>= λ r. sum_children s d (add64 sum r) gs

unfoldable pub tg_schedulable : List ℕ → RtSchedulableData → Sys → ℕ → Option ℤ
tg_schedulable threads d s g =
    let period = period_in s d g in
    let runtime = runtime_in s d g in
    if ltb period runtime && not (runtime == runtime_inf)
    then some einval
    else (if rt_bandwidth_enabled s && (runtime == 0 && tg_has_rt_tasks s g threads)
        then some ebusy
        else (to_ratio period runtime >>= λ total.
            to_ratio (global_rt_period s) (global_rt_runtime s) >>= λ most.
            if ltb most total
            then some einval
            else (sum_children s d 0 (s.group g).children >>= λ sum.
                some (if ltb total sum then einval else pos 0))))

-- As a visitor, which writes nothing.
unfoldable pub schedulable_visitor : List ℕ → RtSchedulableData → Visitor
unfolding tg_schedulable
schedulable_visitor threads d s g = tg_schedulable threads d s g >>= λ r. some (s, r)

-- `__rt_schedulable`
unfoldable pub rt_schedulable : List ℕ → RtSchedulableData → Sys → Option ℤ
unfolding schedulable_visitor walk_tg_tree
rt_schedulable threads d s = walk_tg_tree (schedulable_visitor threads d) tg_nop s >>= λ r. some r.1

-- The loop over the possible cpus.
unfoldable pub set_runtimes : Sys → ℕ → ℕ → List ℕ → Sys
set_runtimes s g runtime [] = s
set_runtimes s g runtime (c ∷ cs) =
    set_runtimes (set_runtime s ((s.group g).rt_rq_of c) runtime) g runtime cs

abbrev pub set_bandwidth : Sys → ℕ → ℕ → ℕ → Sys
set_bandwidth s g period runtime =
    set_group s g (record (s.group g) { rt_period = period; rt_runtime = runtime })

unfoldable pub tg_set_bandwidth : List ℕ → List ℕ → Sys → ℕ → ℕ → ℕ → Option (Sys × ℤ)
unfolding rt_schedulable set_runtimes
tg_set_bandwidth threads cpus s g period runtime =
    rt_schedulable threads (record { tg = some g; rt_period = period; rt_runtime = runtime }) s
    >>= λ err. some (
        if eq_ℤ err (pos 0)
        then (set_runtimes (set_bandwidth s g period runtime) g runtime cpus, pos 0)
        else (s, err))

unfoldable pub sched_group_set_rt_runtime : List ℕ → List ℕ → Sys → ℕ → ℤ → Option (Sys × ℤ)
unfolding tg_set_bandwidth runtime_of_usec
sched_group_set_rt_runtime threads cpus s g usec =
    tg_set_bandwidth threads cpus s g (s.group g).rt_period (runtime_of_usec usec)

unfoldable pub sched_group_rt_runtime : Sys → ℕ → ℤ
sched_group_rt_runtime s g =
    if (s.group g).rt_runtime == runtime_inf then negsuc 0 else pos ((s.group g).rt_runtime / 1000)

-- A negative period as an unsigned word.
abbrev usec_word : ℤ → ℕ
usec_word (pos n) = from_usec n
usec_word (negsuc k) = from_usec (word - 1 - k)

unfoldable pub sched_group_set_rt_period : List ℕ → List ℕ → Sys → ℕ → ℤ → Option (Sys × ℤ)
unfolding tg_set_bandwidth
sched_group_set_rt_period threads cpus s g usec =
    if usec_word usec == 0
    then some (s, einval)
    else tg_set_bandwidth threads cpus s g (usec_word usec) (s.group g).rt_runtime

unfoldable pub sched_group_rt_period : Sys → ℕ → ℕ
sched_group_rt_period s g = (s.group g).rt_period / 1000

unfoldable pub sched_rt_global_constraints : List ℕ → Sys → Option ℤ
unfolding rt_schedulable global_rt_period global_rt_runtime
sched_rt_global_constraints threads s =
    let runtime = global_rt_runtime s in
    if s.sysctl_sched_rt_period == 0
      || ltb (global_rt_period s) runtime && not (runtime == runtime_inf)
    then some einval
    else rt_schedulable threads (record { tg = none; rt_period = 0; rt_runtime = 0 }) s

unfoldable pub sched_rt_can_attach : Sys → ℕ → ℕ → Bool
unfolding rt_prio
sched_rt_can_attach s g p = not (rt_prio (s.task p).prio && (s.group g).rt_runtime == 0)

-- `proc_dointvec` and what it has written are arguments: an error, the period and the runtime.
unfoldable pub sched_rt_handler : List ℕ → Bool → ℤ × ℕ × ℤ → Sys → Option (Sys × ℤ)
unfolding sched_rt_global_constraints
sched_rt_handler threads write (ret, period, runtime) s =
    let s1 = record s { sysctl_sched_rt_period = period; sysctl_sched_rt_runtime = runtime } in
    if eq_ℤ ret (pos 0) && write
    then (sched_rt_global_constraints threads s1 >>= λ err. some (
        if eq_ℤ err (pos 0)
        then (
          record s1 { def_rt_period = global_rt_period s1; def_rt_runtime = global_rt_runtime s1 },
          pos 0,
        )
        else (
          record s1 {
            sysctl_sched_rt_period = s.sysctl_sched_rt_period;
            sysctl_sched_rt_runtime = s.sysctl_sched_rt_runtime;
          },
          err,
        )))
    else some (s1, ret)
