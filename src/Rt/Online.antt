-- ===== src/Rt/Online.antt =====
-- sched_rt.c, the runtime of a cpu that goes on or off line, and the cpus that a task may run on.
use cmsc421prj.Base.{
  ℕ, ◌^◌, Bool, false, ◌||◌, ◌&&◌, not, Option, none, some, List, [], ◌∷◌, ◌>>=◌, check, ◌==◌, ltb,
  if◌then◌else◌, add64, sub64,
}
use cmsc421prj.Rt.Prio.{cpupri_set}
use cmsc421prj.State.Data.{Sys, runtime_inf}
use cmsc421prj.State.Setters.{set_rtq, set_ent, set_task}
use cmsc421prj.Rt.Bandwidth.{set_runtime, positive64, rt_rqs_of}
use cmsc421prj.Rt.Entities.{task_current, rt_prio}
use cmsc421prj.Rt.Migration.{
  rt_set_overload, rt_clear_overload, update_rt_migration, enqueue_pushable_task,
  dequeue_pushable_task,
}

-- `min_t(s64, a, b)`
abbrev min64 : ℕ → ℕ → ℕ
min64 a b = if ltb (add64 a (2 ^ 63)) (add64 b (2 ^ 63)) then a else b

-- One neighbour gives back what it can of `want`, or takes what there is too much.
unfoldable pub reclaim : Sys → ℕ → ℕ → Sys × ℕ
reclaim s iter want =
    let runtime = (s.rtq iter).rt_runtime in
    let diff = min64 runtime want in
    if positive64 want
    then (set_runtime s iter (sub64 runtime diff), sub64 want diff)
    else (set_runtime s iter (sub64 runtime want), 0)

-- The loop over the runqueues of the span, with what is left wanting.
unfoldable pub reclaim_loop : Sys → ℕ → ℕ → List ℕ → Sys × ℕ
unfolding reclaim
reclaim_loop s q want [] = (s, want)
reclaim_loop s q want (iter ∷ iters) =
    let skip = reclaim_loop s q want iters in
    let (s1, left) = reclaim s iter want in
    let rest = reclaim_loop s1 q left iters in
    if iter == q || (s.rtq iter).rt_runtime == runtime_inf
    then skip
    else (if left == 0 then (s1, left) else rest)

-- One runqueue of the cpu, with the BUG_ON of what is left; its bandwidth is reached through `tg`.
unfoldable pub disable_rt_rq : Sys → ℕ → ℕ → Option ℕ → Option Sys
unfolding reclaim_loop rt_rqs_of
disable_rt_rq s c q none = none
disable_rt_rq s c q (some g) =
    let runtime = (s.rtq q).rt_runtime in
    let whole = (s.group g).rt_runtime in
    let (s1, left) =
      reclaim_loop s q (sub64 whole runtime) (rt_rqs_of s g (s.rd (s.rq c).rd).span) in
    if runtime == runtime_inf || runtime == whole
    then some (set_runtime s q runtime_inf)
    else (check (left == 0) >>= λ _. some (set_runtime s1 q runtime_inf))

disable_all : Sys → ℕ → List ℕ → Option Sys
unfolding disable_rt_rq
disable_all s c [] = some s
disable_all s c (q ∷ qs) = disable_rt_rq s c q (s.rtq q).tg >>= λ s1. disable_all s1 c qs

-- `__disable_runtime`
unfoldable pub disable_runtime : Sys → ℕ → Option Sys
unfolding disable_all
disable_runtime s c = if s.scheduler_running then disable_all s c (s.rq c).leaf_rt_rqs else some s

unfoldable pub enable_rt_rq : Sys → ℕ → Option ℕ → Option Sys
enable_rt_rq s q none = none
enable_rt_rq s q (some g) = some (
    set_rtq s q
      (record (s.rtq q) { rt_runtime = (s.group g).rt_runtime; rt_time = 0; rt_throttled = false }))

enable_all : Sys → List ℕ → Option Sys
unfolding enable_rt_rq
enable_all s [] = some s
enable_all s (q ∷ qs) = enable_rt_rq s q (s.rtq q).tg >>= λ s1. enable_all s1 qs

-- `__enable_runtime`
unfoldable pub enable_runtime : Sys → ℕ → Option Sys
unfolding enable_all
enable_runtime s c = if s.scheduler_running then enable_all s (s.rq c).leaf_rt_rqs else some s

-- `CPUPRI_INVALID`, -1, as a pattern of 32 bits.
abbrev pub cpupri_invalid : ℕ
cpupri_invalid = 4294967295

unfoldable pub rq_online_rt : Sys → ℕ → Option Sys
unfolding rt_set_overload enable_runtime cpupri_set
rq_online_rt s c =
    let s1 = if (s.rtq (s.rq c).rt).overloaded then rt_set_overload s c else s in
    enable_runtime s1 c >>= λ s2. some (cpupri_set s2 c (s2.rtq (s2.rq c).rt).highest_curr)

unfoldable pub rq_offline_rt : Sys → ℕ → Option Sys
unfolding rt_clear_overload disable_runtime cpupri_set
rq_offline_rt s c =
    let s1 = if (s.rtq (s.rq c).rt).overloaded then rt_clear_overload s c else s in
    disable_runtime s1 c >>= λ s2. some (cpupri_set s2 c cpupri_invalid)

-- The pushable list of a task that waits, for its new number of cpus.
relist : Sys → ℕ → ℕ → ℕ → Sys
unfolding enqueue_pushable_task dequeue_pushable_task
relist s c p weight =
    let s1 = if ltb 1 (s.ent p).nr_cpus_allowed then dequeue_pushable_task s c p else s in
    if ltb 1 weight then enqueue_pushable_task s1 c p else s1

abbrev set_migratory : Sys → ℕ → ℕ → Sys
set_migratory s q n = set_rtq s q (record (s.rtq q) { rt_nr_migratory = n })

-- The count of tasks that can migrate, with its BUG_ON.
recount : Sys → ℕ → ℕ → ℕ → Option Sys
recount s q p weight =
    let n = (s.rtq q).rt_nr_migratory in
    if not (ltb 1 (s.ent p).nr_cpus_allowed) && ltb 1 weight
    then some (set_migratory s q (add64 n 1))
    else (if ltb 1 (s.ent p).nr_cpus_allowed && not (ltb 1 weight)
        then (check (not (n == 0)) >>= λ _. some (set_migratory s q (sub64 n 1)))
        else some s)

migrate_status : Sys → ℕ → ℕ → ℕ → Option Sys
unfolding relist recount update_rt_migration
migrate_status s c p weight =
    let s1 = if task_current s c p then s else relist s c p weight in
    recount s1 (s.rq c).rt p weight >>= λ s2. some (update_rt_migration s2 (s.rq c).rt)

-- `weight` is the number of cpus in the new mask.
unfoldable pub set_cpus_allowed_rt : Sys → ℕ → (ℕ → Bool) → ℕ → Option Sys
unfolding migrate_status rt_prio
set_cpus_allowed_rt s p mask weight = check (rt_prio (s.task p).prio) >>= λ _.
    (if (s.task p).on_rq && not (weight == (s.ent p).nr_cpus_allowed)
      then migrate_status s (s.task p).cpu p weight
      else some s)
    >>= λ s1.
        (let s2 = set_task s1 p (record (s1.task p) { cpus_allowed = mask }) in
          some (set_ent s2 p (record (s2.ent p) { nr_cpus_allowed = weight })))
