-- ===== src/Rt/Walk.antt =====
-- The walks of sched_rt.c over an entity and its parents, for given operations on one entity. Both
-- classes have a copy of these loops: enqueue_rt_entity and enqueue_rt_entity_brr, and so on.
use cmsc421prj.Base.{ℕ, zero, suc, Option, none, some, List, [], ◌∷◌, ◌>>=◌, if◌then◌else◌, ◌==◌}
use cmsc421prj.State.Data.{Sys}
use cmsc421prj.State.Setters.{set_ent}
use cmsc421prj.Rt.Entities.{on_rt_rq}

-- `for_each_sched_rt_entity`: the entity and its parents, bottom up. `none` if there are more than
-- `fuel` of them.
unfoldable pub hierarchy : ℕ → Sys → Option ℕ → Option (List ℕ)
hierarchy fuel s none = some []
hierarchy zero s (some e) = none
hierarchy (suc fuel) s (some e) = hierarchy fuel s (s.ent e).parent >>= λ es. some (e ∷ es)

-- The first loop of `dequeue_rt_stack`, with `back`.
unfoldable pub link_back : Sys → Option ℕ → List ℕ → Sys × Option ℕ
link_back s back [] = (s, back)
link_back s back (e ∷ es) = link_back (set_ent s e (record (s.ent e) { back = back })) (some e) es

module _ (dequeue_one : Sys → ℕ → Option Sys) where
  unfoldable pub dequeue_if_queued : Sys → ℕ → Option Sys
  unfolding on_rt_rq
  dequeue_if_queued s e = if on_rt_rq s e then dequeue_one s e else some s

  -- The second loop, along `rt_se->back`.
  unfoldable pub walk_back : ℕ → Sys → Option ℕ → Option Sys
  unfolding dequeue_if_queued
  walk_back fuel s none = some s
  walk_back zero s (some e) = none
  walk_back (suc fuel) s (some e) =
      dequeue_if_queued s e >>= λ s'. walk_back fuel s' (s'.ent e).back

  unfoldable pub dequeue_stack : Sys → ℕ → Option Sys
  unfolding hierarchy link_back walk_back
  dequeue_stack s e = hierarchy s.depth s (some e) >>= λ es.
      (let (s', top) = link_back s none es in walk_back s.depth s' top)

  module _ (enqueue_one : Sys → ℕ → Option Sys) where
    enqueue_all : Sys → List ℕ → Option Sys
    enqueue_all s [] = some s
    enqueue_all s (e ∷ es) = enqueue_one s e >>= λ s'. enqueue_all s' es

    unfoldable pub enqueue_entity : Sys → ℕ → Option Sys
    unfolding dequeue_stack enqueue_all
    enqueue_entity s e =
        dequeue_stack s e >>= λ s'. hierarchy s'.depth s' (some e) >>= enqueue_all s'

    -- `if (rt_rq && rt_rq->rt_nr_running) __enqueue_rt_entity(rt_se)`
    requeue_group : Sys → ℕ → Option ℕ → Option Sys
    requeue_group s e none = some s
    requeue_group s e (some g) = if (s.rtq g).rt_nr_running == 0 then some s else enqueue_one s e

    requeue_groups : Sys → List ℕ → Option Sys
    unfolding requeue_group
    requeue_groups s [] = some s
    requeue_groups s (e ∷ es) = requeue_group s e (s.ent e).my_q >>= λ s'. requeue_groups s' es

    unfoldable pub dequeue_entity : Sys → ℕ → Option Sys
    unfolding dequeue_stack requeue_groups
    dequeue_entity s e =
        dequeue_stack s e >>= λ s'. hierarchy s'.depth s' (some e) >>= requeue_groups s'
