-- ===== src/Rt/Counts.antt =====
-- sched_rt.c, the counts that go with each queued entity: running, boosted, migratory; and the
-- start of the period timer, sched.c.
use cmsc421prj.Base.{ℕ, ◌+◌, true, ◌||◌, not, Option, none, some, ◌==◌, if◌then◌else◌, add64, sub64}
use cmsc421prj.State.Data.{Sys, runtime_inf}
use cmsc421prj.State.Setters.{set_rtq, set_group}
use cmsc421prj.Rt.Entities.{rt_se_boosted, rt_bandwidth_enabled, rt_se_prio}
use cmsc421prj.Rt.Prio.{inc_rt_prio, dec_rt_prio}
use cmsc421prj.Rt.Migration.{inc_rt_migration, dec_rt_migration}

-- The loop of the source ends once the timer that it started is active.
unfoldable pub start_rt_bandwidth : Sys → ℕ → Sys
start_rt_bandwidth s g =
    if not (rt_bandwidth_enabled s) || (s.group g).rt_runtime == runtime_inf
    then s
    else (if (s.group g).timer_active
        then s
        else set_group s g (record (s.group g) {
          timer_active = true;
          timer_starts = (s.group g).timer_starts + 1;
        }))

start_for : Sys → Option ℕ → Sys
unfolding start_rt_bandwidth
start_for s none = s
start_for s (some g) = start_rt_bandwidth s g

unfoldable pub inc_rt_group : Sys → ℕ → ℕ → Sys
unfolding start_for
inc_rt_group s e q =
    start_for
      (if rt_se_boosted s e
        then set_rtq s q (record (s.rtq q) { rt_nr_boosted = add64 (s.rtq q).rt_nr_boosted 1 })
        else s)
      (s.rtq q).tg

unfoldable pub dec_rt_group : Sys → ℕ → ℕ → Sys
dec_rt_group s e q =
    if rt_se_boosted s e
    then set_rtq s q (record (s.rtq q) { rt_nr_boosted = sub64 (s.rtq q).rt_nr_boosted 1 })
    else s

abbrev pub set_running : Sys → ℕ → ℕ → Sys
set_running s q n = set_rtq s q (record (s.rtq q) { rt_nr_running = n })

-- The priority is read once, before the counts change.
unfoldable pub inc_rt_tasks : Sys → ℕ → ℕ → Sys
unfolding inc_rt_group
inc_rt_tasks s e q =
    let s1 = set_running s q (add64 (s.rtq q).rt_nr_running 1) in
    let s2 = inc_rt_prio s1 q (rt_se_prio s e) in inc_rt_group (inc_rt_migration s2 e q) e q

unfoldable pub dec_rt_tasks : Sys → ℕ → ℕ → Sys
unfolding dec_rt_group
dec_rt_tasks s e q =
    let s1 = set_running s q (sub64 (s.rtq q).rt_nr_running 1) in
    let s2 = dec_rt_prio s1 q (rt_se_prio s1 e) in dec_rt_group (dec_rt_migration s2 e q) e q
