-- ===== src/Rt/Core/Refine.antt =====
-- The code that adds an entity to its queue and takes it off, against `add_core` and `drop_core`.
use cmsc421prj.Base.{sub64, ℕ, ◌≡◌, refl, ◌∙◌, some, arith, ◌==◌, if◌then◌else◌, ltb, add64}
use cmsc421prj.State.Data.{Sys}
use cmsc421prj.Rt.Lists.{list_del_init, list_add_tail}
use cmsc421prj.Rt.Entities.{rt_se_prio, rt_rq_of_se}
use cmsc421prj.Rt.Migration.{dec_rt_migration, inc_rt_migration}
use cmsc421prj.Rt.Prio.{dec_rt_prio, inc_rt_prio, lower_curr, recompute_curr}
use cmsc421prj.Rt.Counts.{inc_rt_tasks, dec_rt_tasks, set_running}
use cmsc421prj.Rt.Enqueue.{add_to_queue, take_off_queue, set_bit, clear_if_empty, link}
use cmsc421prj.Rt.Core.{sched_find_first_bit, max_rt_prio, drop_core, Core, core, add_core}
use cmsc421prj.Rt.Core.Frame.{
  dec_rt_migration-SameCores, dec_rt_group-SameCores, inc_rt_prio_smp-SameCores,
  dec_rt_prio_smp-SameCores, inc_rt_migration-SameCores, inc_rt_group-SameCores,
}

raise : ℕ → Core → Core
raise prio c = record c {
  running = add64 c.running 1;
  highest = if ltb prio c.highest then prio else c.highest;
}

inc_rt_prio-core :
    (s : Sys) (q prio j : ℕ)
    → core ((inc_rt_prio s q prio).rtq j) ≡ (
        if q == j
        then record (core (s.rtq q)) {
          highest = if ltb prio (s.rtq q).highest_curr then prio else (s.rtq q).highest_curr;
        }
        else core (s.rtq j))
unfolding inc_rt_prio
inc_rt_prio-core s q prio j =
    inc_rt_prio_smp-SameCores (lower_curr s q prio) q prio (s.rtq q).highest_curr j ∙ ground arith

inc_rt_tasks-core :
    (s : Sys) (e q j : ℕ)
    → core ((inc_rt_tasks s e q).rtq j)
      ≡ (if q == j then raise (rt_se_prio s e) (core (s.rtq q)) else core (s.rtq j))
unfolding inc_rt_tasks raise
inc_rt_tasks-core s e q j =
    let s1 = set_running s q (add64 (s.rtq q).rt_nr_running 1) in
    let s2 = inc_rt_prio s1 q (rt_se_prio s e) in
    inc_rt_group-SameCores (inc_rt_migration s2 e q) e q j
    ∙ (inc_rt_migration-SameCores s2 e q j
        ∙ (inc_rt_prio-core s1 q (rt_se_prio s e) j ∙ ground arith))

linked_prio : (s : Sys) (e q i : ℕ) → rt_se_prio (link s e q i) e ≡ rt_se_prio s e
unfolding rt_se_prio set_bit list_add_tail
linked_prio s e q i = ground arith

linked_core :
    (s : Sys) (e q prio j : ℕ)
    → (if q == j
        then raise prio (core ((link s e q prio).rtq q))
        else core ((link s e q prio).rtq j))
      ≡ (if q == j then add_core prio e (core (s.rtq q)) else core (s.rtq j))
unfolding set_bit list_add_tail add_core raise
linked_core s e q prio j = ground arith

-- Enqueueing changes the core of the entity's runqueue as `add_core` says, and no other core.
pub add_to_queue-core :
    (s s' : Sys) (e j : ℕ)
    → add_to_queue s e ≡ some s'
    → core (s'.rtq j) ≡ (
        if rt_rq_of_se s e == j
        then add_core (rt_se_prio s e) e (core (s.rtq (rt_rq_of_se s e)))
        else core (s.rtq j))
unfolding add_to_queue
add_to_queue-core s s' e j h = ground (
  arith,
  inc_rt_tasks-core (link s e (rt_rq_of_se s e) (rt_se_prio s e)) e (rt_rq_of_se s e) j,
  linked_prio s e (rt_rq_of_se s e) (rt_se_prio s e),
  linked_core s e (rt_rq_of_se s e) (rt_se_prio s e) j,
)

lower : ℕ → Core → Core
lower prio c = record c {
  running = sub64 c.running 1;
  highest =
      if sub64 c.running 1 == 0
      then max_rt_prio
      else (if prio == c.highest then sched_find_first_bit c.bitmap else c.highest);
}

recompute_curr-core :
    (s : Sys) (q prio n j : ℕ)
    → n ≡ sub64 (s.rtq q).rt_nr_running 1
    → core ((recompute_curr (set_running s q n) q prio).rtq j)
      ≡ (if q == j then lower prio (core (s.rtq q)) else core (s.rtq j))
unfolding recompute_curr lower
recompute_curr-core s q prio n j e = ground arith

lower_prio : (s : Sys) (e q n : ℕ) → rt_se_prio (set_running s q n) e ≡ rt_se_prio s e
unfolding rt_se_prio
lower_prio s e q n = ground arith

dec_rt_prio-core :
    (s : Sys) (q prio j : ℕ)
    → core ((dec_rt_prio s q prio).rtq j) ≡ core ((recompute_curr s q prio).rtq j)
unfolding dec_rt_prio
dec_rt_prio-core s q prio j =
    dec_rt_prio_smp-SameCores (recompute_curr s q prio) q prio (s.rtq q).highest_curr j

dec_rt_tasks-core :
    (s : Sys) (e q j : ℕ)
    → core ((dec_rt_tasks s e q).rtq j)
      ≡ (if q == j then lower (rt_se_prio s e) (core (s.rtq q)) else core (s.rtq j))
unfolding dec_rt_tasks
dec_rt_tasks-core s e q j =
    let n = sub64 (s.rtq q).rt_nr_running 1 in
    let s1 = set_running s q n in
    let s2 = dec_rt_prio s1 q (rt_se_prio s1 e) in
    dec_rt_group-SameCores (dec_rt_migration s2 e q) e q j
    ∙ (dec_rt_migration-SameCores s2 e q j
        ∙ (dec_rt_prio-core s1 q (rt_se_prio s1 e) j
            ∙ rw (lower_prio s e q n) (recompute_curr-core s q (rt_se_prio s e) n j refl)))

unlinked_prio :
    (s : Sys) (e q i : ℕ) → rt_se_prio (clear_if_empty (list_del_init s e) q i) e ≡ rt_se_prio s e
unfolding rt_se_prio clear_if_empty list_del_init
unlinked_prio s e q i = ground arith

unlinked_core :
    (s : Sys) (e q prio j : ℕ)
    → (s.ent e).run_list ≡ some (q, prio)
    → (if q == j
        then lower prio (core ((clear_if_empty (list_del_init s e) q prio).rtq q))
        else core ((clear_if_empty (list_del_init s e) q prio).rtq j))
      ≡ (if q == j then drop_core prio e (core (s.rtq q)) else core (s.rtq j))
unfolding clear_if_empty list_del_init drop_core lower
unlinked_core s e q prio j h = ground arith

-- Dequeueing an entity that is in the queue of its priority changes the core of its runqueue as
-- `drop_core` says, and no other core.
pub take_off_queue-core :
    (s s' : Sys) (e j : ℕ)
    → (s.ent e).run_list ≡ some (rt_rq_of_se s e, rt_se_prio s e)
    → take_off_queue s e ≡ some s'
    → core (s'.rtq j) ≡ (
        if rt_rq_of_se s e == j
        then drop_core (rt_se_prio s e) e (core (s.rtq (rt_rq_of_se s e)))
        else core (s.rtq j))
unfolding take_off_queue
take_off_queue-core s s' e j linked h =
    let q = rt_rq_of_se s e in
    let i = rt_se_prio s e in
    ground (
      arith,
      dec_rt_tasks-core (clear_if_empty (list_del_init s e) q i) e q j,
      unlinked_prio s e q i,
      unlinked_core s e q i j linked,
    )
