-- ===== src/Rt/Migration.antt =====
-- sched_rt.c, the counts of migratable tasks, the overload mask and the list of pushable tasks.
use cmsc421prj.Base.{
  inc32, dec32, ℕ, Bool, true, false, not, ◌&&◌, ◌∷◌, ◌==◌, ltb, if◌then◌else◌, upd, add64, sub64,
}
use cmsc421prj.State.Data.{RtRq, Sys, plist_add, plist_del}
use cmsc421prj.State.Setters.{set_rtq, set_rd}
use cmsc421prj.Rt.Entities.{rt_entity_is_task, rq_of_rt_rq}

unfoldable pub rt_set_overload : Sys → ℕ → Sys
rt_set_overload s c =
    if (s.rq c).online
    then set_rd s (s.rq c).rd (record (s.rd (s.rq c).rd) {
      rto_mask = upd (s.rd (s.rq c).rd).rto_mask c true;
      rto_count = inc32 (s.rd (s.rq c).rd).rto_count;
    })
    else s

unfoldable pub rt_clear_overload : Sys → ℕ → Sys
rt_clear_overload s c =
    if (s.rq c).online
    then set_rd s (s.rq c).rd (record (s.rd (s.rq c).rd) {
      rto_mask = upd (s.rd (s.rq c).rd).rto_mask c false;
      rto_count = dec32 (s.rd (s.rq c).rd).rto_count;
    })
    else s

set_overloaded : Sys → ℕ → Bool → Sys
set_overloaded s q b = set_rtq s q (record (s.rtq q) { overloaded = b })

abbrev pub is_crowded : RtRq → Bool
is_crowded q = not (q.rt_nr_migratory == 0) && ltb 1 q.rt_nr_total

unfoldable pub update_rt_migration : Sys → ℕ → Sys
unfolding rt_set_overload rt_clear_overload set_overloaded
update_rt_migration s q =
    if is_crowded (s.rtq q)
    then (if (s.rtq q).overloaded
        then s
        else set_overloaded (rt_set_overload s (rq_of_rt_rq s q)) q true)
    else (if (s.rtq q).overloaded
        then set_overloaded (rt_clear_overload s (rq_of_rt_rq s q)) q false
        else s)

-- `&rq_of_rt_rq(rt_rq)->rt`
abbrev pub root_rt_rq : Sys → ℕ → ℕ
root_rt_rq s q = (s.rq (rq_of_rt_rq s q)).rt

unfoldable pub inc_rt_migration : Sys → ℕ → ℕ → Sys
unfolding rt_entity_is_task update_rt_migration
inc_rt_migration s e q =
    if rt_entity_is_task s e
    then update_rt_migration
        (set_rtq s root (record (s.rtq root) {
          rt_nr_total = add64 (s.rtq root).rt_nr_total 1;
          rt_nr_migratory =
              if ltb 1 (s.ent e).nr_cpus_allowed
              then add64 (s.rtq root).rt_nr_migratory 1
              else (s.rtq root).rt_nr_migratory;
        }))
        root
    else s
  where
    root : ℕ
    root = root_rt_rq s q

unfoldable pub dec_rt_migration : Sys → ℕ → ℕ → Sys
unfolding rt_entity_is_task update_rt_migration
dec_rt_migration s e q =
    if rt_entity_is_task s e
    then update_rt_migration
        (set_rtq s root (record (s.rtq root) {
          rt_nr_total = sub64 (s.rtq root).rt_nr_total 1;
          rt_nr_migratory =
              if ltb 1 (s.ent e).nr_cpus_allowed
              then sub64 (s.rtq root).rt_nr_migratory 1
              else (s.rtq root).rt_nr_migratory;
        }))
        root
    else s
  where
    root : ℕ
    root = root_rt_rq s q

-- `plist_node_init` writes the priority that `plist_add` goes by.
unfoldable pub enqueue_pushable_task : Sys → ℕ → ℕ → Sys
enqueue_pushable_task s c p = set_rtq s root (record (s.rtq root) {
  pushable = plist_add (s.task p).prio p ∷ plist_del p ∷ (s.rtq root).pushable;
})
  where
    root : ℕ
    root = (s.rq c).rt

unfoldable pub dequeue_pushable_task : Sys → ℕ → ℕ → Sys
dequeue_pushable_task s c p =
    set_rtq s root (record (s.rtq root) { pushable = plist_del p ∷ (s.rtq root).pushable })
  where
    root : ℕ
    root = (s.rq c).rt
