-- ===== src/Rt/Unwind/Frames.antt =====
-- What dequeueing one entity leaves alone: tasks, the links between entities, the bound of the walks.
use cmsc421prj.Rt.Entities.{rt_rq_of_se, rt_se_prio}
use cmsc421prj.Rt.Lists.{list_del_init}
use cmsc421prj.Base.{
  true, ltb, some, sub64, ◌<◌, none, ◌==◌, if◌then◌else◌, ℕ, ◌≡◌, refl, ◌∙◌, arith,
}
use cmsc421prj.State.Data.{max_rt_prio, Entity, Sys}
use cmsc421prj.Rt.Migration.{dec_rt_migration}
use cmsc421prj.Rt.Prio.{dec_rt_prio, dec_rt_prio_smp, recompute_curr}
use cmsc421prj.Rt.Counts.{set_running, dec_rt_tasks, dec_rt_group}
use cmsc421prj.Rt.Enqueue.{take_off_queue, clear_if_empty}

-- Entities, tasks and the bound are the same.
pub record SameEntities (s s' : Sys) : Type 0 where
  pub tasks : s'.task ≡ s.task
  pub entities : s'.ent ≡ s.ent
  pub depth : s'.depth ≡ s.depth

SameEntities-trans : (s t u : Sys) → SameEntities s t → SameEntities t u → SameEntities s u
SameEntities-trans s t u a b = record {
  tasks = b.tasks ∙ a.tasks;
  entities = b.entities ∙ a.entities;
  depth = b.depth ∙ a.depth;
}

dec_rt_prio_smp-SameEntities :
    (s : Sys) (q prio prev : ℕ) → SameEntities s (dec_rt_prio_smp s q prio prev)
unfolding dec_rt_prio_smp
dec_rt_prio_smp-SameEntities s q prio prev = record {
  tasks = ground arith;
  entities = ground arith;
  depth = ground arith;
}

recompute_curr-SameEntities : (s : Sys) (q prio : ℕ) → SameEntities s (recompute_curr s q prio)
unfolding recompute_curr
recompute_curr-SameEntities s q prio = record {
  tasks = ground arith;
  entities = ground arith;
  depth = ground arith;
}

dec_rt_migration-SameEntities : (s : Sys) (e q : ℕ) → SameEntities s (dec_rt_migration s e q)
unfolding dec_rt_migration
dec_rt_migration-SameEntities s e q = record {
  tasks = ground arith;
  entities = ground arith;
  depth = ground arith;
}

dec_rt_group-SameEntities : (s : Sys) (e q : ℕ) → SameEntities s (dec_rt_group s e q)
unfolding dec_rt_group
dec_rt_group-SameEntities s e q = record {
  tasks = ground arith;
  entities = ground arith;
  depth = ground arith;
}

clear_if_empty-SameEntities : (s : Sys) (q i : ℕ) → SameEntities s (clear_if_empty s q i)
unfolding clear_if_empty
clear_if_empty-SameEntities s q i = record {
  tasks = ground arith;
  entities = ground arith;
  depth = ground arith;
}

dec_rt_prio-SameEntities : (s : Sys) (q prio : ℕ) → SameEntities s (dec_rt_prio s q prio)
unfolding dec_rt_prio
dec_rt_prio-SameEntities s q prio =
    SameEntities-trans s (recompute_curr s q prio) _ (recompute_curr-SameEntities s q prio)
      (dec_rt_prio_smp-SameEntities (recompute_curr s q prio) q prio (s.rtq q).highest_curr)

SameEntities-self : (s : Sys) → SameEntities s s
SameEntities-self s = record { tasks = refl; entities = refl; depth = refl }

dec_rt_tasks-SameEntities : (s : Sys) (e q : ℕ) → SameEntities s (dec_rt_tasks s e q)
unfolding dec_rt_tasks
dec_rt_tasks-SameEntities s e q =
    let s1 = set_running s q (sub64 (s.rtq q).rt_nr_running 1) in
    let s2 = dec_rt_prio s1 q (rt_se_prio s1 e) in
    let s3 = dec_rt_migration s2 e q in
    let a : SameEntities s s1 = record { tasks = refl; entities = refl; depth = refl } in
    SameEntities-trans s s3 _
      (SameEntities-trans s s2 s3
        (SameEntities-trans s s1 s2 a (dec_rt_prio-SameEntities s1 q (rt_se_prio s1 e)))
        (dec_rt_migration-SameEntities s2 e q))
      (dec_rt_group-SameEntities s3 e q)

-- The links of an entity to others.
pub record SameLinks (a b : Entity) : Type 0 where
  pub parent : b.parent ≡ a.parent
  pub rt_rq : b.rt_rq ≡ a.rt_rq
  pub my_q : b.my_q ≡ a.my_q
  pub back : b.back ≡ a.back

-- From `s` to `s'`, `e` has been taken off its queue, as far as the entities go.
pub record IsUnlinked (s s' : Sys) (e : ℕ) : Type 0 where
  pub tasks : s'.task ≡ s.task
  pub depth : s'.depth ≡ s.depth
  pub links : (j : ℕ) → SameLinks (s.ent j) (s'.ent j)
  pub run : (j : ℕ) → (s'.ent j).run_list ≡ (if e == j then none else (s.ent j).run_list)

del_init-IsUnlinked : (s : Sys) (e : ℕ) → IsUnlinked s (list_del_init s e) e
unfolding list_del_init
del_init-IsUnlinked s e = record {
  tasks = ground arith;
  depth = ground arith;
  links = λ j. record {
    parent = ground arith;
    rt_rq = ground arith;
    my_q = ground arith;
    back = ground arith;
  };
  run = λ j. ground arith;
}

IsUnlinked-same : (s t u : Sys) (e : ℕ) → IsUnlinked s t e → SameEntities t u → IsUnlinked s u e
IsUnlinked-same s t u e a b = record {
  tasks = b.tasks ∙ a.tasks;
  depth = b.depth ∙ a.depth;
  links = λ j. rw b.entities (a.links j);
  run = λ j. rw b.entities (a.run j);
}

-- Dequeueing an entity at a priority below MAX_RT_PRIO takes it off its queue.
pub take_off-IsUnlinked :
    (s : Sys) (e : ℕ)
    → rt_se_prio s e < max_rt_prio
    → (s' : Sys) × (take_off_queue s e ≡ some s') × IsUnlinked s s' e
unfolding take_off_queue
take_off-IsUnlinked s e p =
    let b : ltb (rt_se_prio s e) max_rt_prio ≡ true = ground arith in
    let q = rt_rq_of_se s e in
    let t = list_del_init s e in
    let u = clear_if_empty t q (rt_se_prio s e) in
    (
      dec_rt_tasks u e q,
      rw b refl,
      IsUnlinked-same s t (dec_rt_tasks u e q) e (del_init-IsUnlinked s e) (
          SameEntities-trans t u (dec_rt_tasks u e q)
            (clear_if_empty-SameEntities t q (rt_se_prio s e)) (dec_rt_tasks-SameEntities u e q)),
    )
