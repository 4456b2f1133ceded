-- ===== src/Rt/Keeps.antt =====
-- Enqueueing and dequeueing one entity keep the invariant of every runqueue: sched_rt.c's functions
-- on one entity, for any entity of the group hierarchy.
use cmsc421prj.Base.{
  refl, ltb, guarded, ℕ, ◌+◌, ◌<◌, ◌≡◌, inl, inr, true, Bool-cases, some, ◌==◌, arith, word,
}
use cmsc421prj.State.Data.{Sys, max_rt_prio}
use cmsc421prj.Rt.Entities.{rt_rq_of_se, rt_se_prio}
use cmsc421prj.Rt.Enqueue.{
  link, clear_if_empty, is_group_blocked, add_to_queue, take_off_queue, enqueue_one, dequeue_one,
}
use cmsc421prj.Rt.Core.{core}
use cmsc421prj.Rt.Counts.{inc_rt_tasks, dec_rt_tasks}
use cmsc421prj.Rt.Lists.{list_del_init}
use cmsc421prj.Rt.Core.Refine.{add_to_queue-core, take_off_queue-core}
use cmsc421prj.Rt.Core.Invariant.{IsValid, add_core-IsValid, drop_core-IsValid}
use cmsc421prj.Rt.Core.Bits.{contains}

-- The invariant of every runqueue.
abbrev pub AllValid : Sys → Type 0
AllValid s = (j : ℕ) → IsValid (core (s.rtq j))

-- One more entity can be counted.
abbrev pub HasRoom : Sys → ℕ → Type 0
HasRoom s e = (s.rtq (rt_rq_of_se s e)).rt_nr_running + 1 < word

-- The entity is in the queue of its priority.
pub record IsQueued (s : Sys) (e : ℕ) : Type 0 where
  pub linked : (s.ent e).run_list ≡ some (rt_rq_of_se s e, rt_se_prio s e)
  pub held : contains e ((s.rtq (rt_rq_of_se s e)).queue (rt_se_prio s e)) ≡ true
  pub counted : (s.rtq (rt_rq_of_se s e)).rt_nr_running < word

prio_ok_of_add : (s s' : Sys) (e : ℕ) → add_to_queue s e ≡ some s' → rt_se_prio s e < max_rt_prio
unfolding add_to_queue
prio_ok_of_add s s' e h = ground arith

prio_ok_of_take : (s s' : Sys) (e : ℕ) → take_off_queue s e ≡ some s' → rt_se_prio s e < max_rt_prio
unfolding take_off_queue
prio_ok_of_take s s' e h = ground arith

pub add_to_queue-AllValid :
    (s s' : Sys) (e : ℕ) → AllValid s → HasRoom s e → add_to_queue s e ≡ some s' → AllValid s'
add_to_queue-AllValid s s' e v room h j =
    rw (add_to_queue-core s s' e j h) (elim (Bool-cases (rt_rq_of_se s e == j)) [
      | inl y ↦ rw y (add_core-IsValid _ e _ (v (rt_rq_of_se s e)) (prio_ok_of_add s s' e h) room)
      | inr n ↦ rw n (v j)
    ])

pub take_off_queue-AllValid :
    (s s' : Sys) (e : ℕ) → AllValid s → IsQueued s e → take_off_queue s e ≡ some s' → AllValid s'
take_off_queue-AllValid s s' e v q h j =
    rw (take_off_queue-core s s' e j q.linked h) (elim (Bool-cases (rt_rq_of_se s e == j)) [
      | inl y ↦ rw y (
          drop_core-IsValid _ e _ (v (rt_rq_of_se s e)) (prio_ok_of_take s s' e h) q.held q.counted)
      | inr n ↦ rw n (v j)
    ])

enqueue_one-AllValid :
    (s s' : Sys) (e : ℕ) → AllValid s → HasRoom s e → enqueue_one s e ≡ some s' → AllValid s'
unfolding enqueue_one
enqueue_one-AllValid s s' e v room h =
    guarded AllValid s s' (is_group_blocked s e) (add_to_queue s e) h v
      (add_to_queue-AllValid s s' e v room)

dequeue_one-AllValid :
    (s s' : Sys) (e : ℕ) → AllValid s → IsQueued s e → dequeue_one s e ≡ some s' → AllValid s'
unfolding dequeue_one
dequeue_one-AllValid = take_off_queue-AllValid

in_range :
    (s : Sys) (e : ℕ) → rt_se_prio s e < max_rt_prio → ltb (rt_se_prio s e) max_rt_prio ≡ true
in_range s e p = ground arith

pub enqueue_one-some :
    (s : Sys) (e : ℕ) → rt_se_prio s e < max_rt_prio → (s' : Sys) × (enqueue_one s e ≡ some s')
unfolding enqueue_one add_to_queue
enqueue_one-some s e p =
    let b = in_range s e p in
    elim (Bool-cases (is_group_blocked s e)) [
      | inl y ↦ (s, rw y refl)
      | inr n ↦ (
        inc_rt_tasks (link s e (rt_rq_of_se s e) (rt_se_prio s e)) e (rt_rq_of_se s e),
        rw (n, b) refl,
      )
    ]

pub dequeue_one-some :
    (s : Sys) (e : ℕ) → rt_se_prio s e < max_rt_prio → (s' : Sys) × (dequeue_one s e ≡ some s')
unfolding dequeue_one take_off_queue
dequeue_one-some s e p =
    let b = in_range s e p in
    let q = rt_rq_of_se s e in
    (dec_rt_tasks (clear_if_empty (list_del_init s e) q (rt_se_prio s e)) e q, rw b refl)

-- At a priority below MAX_RT_PRIO, `__enqueue_rt_entity` does not fault and keeps the invariant of
-- every runqueue, also when it leaves the entity of a throttled or an empty group out, as long as
-- the count of running entities does not reach the end of its word.
pub enqueue_one_lem :
    (s : Sys) (e : ℕ)
    → AllValid s
    → HasRoom s e
    → rt_se_prio s e < max_rt_prio
    → (s' : Sys) × (enqueue_one s e ≡ some s') × AllValid s'
enqueue_one_lem s e v room p =
    let (s', h) = enqueue_one-some s e p in (s', h, enqueue_one-AllValid s s' e v room h)

-- `__dequeue_rt_entity` of an entity that is in the queue of its priority, one below MAX_RT_PRIO,
-- does not fault and keeps the invariant of every runqueue.
pub dequeue_one_lem :
    (s : Sys) (e : ℕ)
    → AllValid s
    → IsQueued s e
    → rt_se_prio s e < max_rt_prio
    → (s' : Sys) × (dequeue_one s e ≡ some s') × AllValid s'
dequeue_one_lem s e v q p =
    let (s', h) = dequeue_one-some s e p in (s', h, dequeue_one-AllValid s s' e v q h)
