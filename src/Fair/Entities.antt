-- ===== src/Fair/Entities.antt =====
-- Entities join and leave a runqueue of the fair class, sched_fair.c.
use cmsc421prj.Base.{
  ℕ, Bool, true, false, not, Option, none, some, List, [], ◌∷◌, ◌>>=◌, ◌==◌, ◌&&◌, if◌then◌else◌,
  is_some, add64, sub64,
}
use cmsc421prj.State.Setters.{set_task}
use cmsc421prj.Rt.Tasks.{inc_cpu_load, dec_cpu_load}
use cmsc421prj.Policy.{sched_idle}
use cmsc421prj.Fair.Data.{FairSys, CfsRq, RbTree, set_sys, set_se, set_cfs, without}
use cmsc421prj.Fair.Weight.{calc_delta_fair}
use cmsc421prj.Fair.Clock.{update_curr_fair, update_min_vruntime, max_vruntime}
use cmsc421prj.Fair.Timeline.{enqueue_node, dequeue_node}
use cmsc421prj.Fair.Slice.{sched_vslice, fair_hierarchy, parents}

abbrev pub weight_of : FairSys → ℕ → ℕ
weight_of s e = (s.sys.task e).weight

abbrev pub is_curr : FairSys → ℕ → ℕ → Bool
is_curr s q e = elim (s.cfs q).curr [ none ↦ false | some c ↦ c == e ]

-- `update_load_add` and `update_load_sub` on the load of a runqueue.
abbrev add_load : CfsRq → ℕ → CfsRq
add_load q w = record q { load = add64 q.load w; load_inv = 0 }

abbrev sub_load : CfsRq → ℕ → CfsRq
sub_load q w = record q { load = sub64 q.load w; load_inv = 0 }

-- `!se->my_q`
abbrev pub entity_is_task : FairSys → ℕ → Bool
entity_is_task s e = not (is_some (s.se e).my_q)

abbrev join : CfsRq → ℕ → ℕ → CfsRq
join q e w = record q { task_weight = add64 q.task_weight w; tasks = e ∷ q.tasks }

abbrev part : CfsRq → ℕ → ℕ → CfsRq
part q e w = record q { task_weight = sub64 q.task_weight w; tasks = without e q.tasks }

abbrev inc_running : CfsRq → CfsRq
inc_running q = record q { nr_running = add64 q.nr_running 1 }

abbrev dec_running : CfsRq → CfsRq
dec_running q = record q { nr_running = sub64 q.nr_running 1 }

abbrev set_on_rq : FairSys → ℕ → Bool → FairSys
set_on_rq s e b = set_sys s (set_task s.sys e (record (s.sys.task e) { on_rq = b }))

unfoldable pub account_entity_enqueue : FairSys → ℕ → ℕ → FairSys
unfolding inc_cpu_load
account_entity_enqueue s q e =
    let w = weight_of s e in
    let loaded = add_load (s.cfs q) w in
    let s1 = set_cfs s q (inc_running (if entity_is_task s e then join loaded e w else loaded)) in
    set_on_rq
      (if is_some (s.se e).parent then s1 else set_sys s1 (inc_cpu_load s1.sys (s1.cfs q).cpu w)) e
      true

unfoldable pub account_entity_dequeue : FairSys → ℕ → ℕ → FairSys
unfolding dec_cpu_load
account_entity_dequeue s q e =
    let w = weight_of s e in
    let loaded = sub_load (s.cfs q) w in
    let s1 = set_cfs s q (dec_running (if entity_is_task s e then part loaded e w else loaded)) in
    set_on_rq
      (if is_some (s.se e).parent then s1 else set_sys s1 (dec_cpu_load s1.sys (s1.cfs q).cpu w)) e
      false

abbrev set_vruntime : FairSys → ℕ → ℕ → FairSys
set_vruntime s e v = set_se s e (record (s.se e) { vruntime = v })

-- How far an entity that has slept is placed before the others.
unfoldable pub sleeper_credit : FairSys → ℕ → FairSys × ℕ
unfolding calc_delta_fair
sleeper_credit s e =
    if s.tunables.new_fair_sleepers
    then (if s.tunables.normalized_sleeper && not ((s.sys.task e).policy == sched_idle)
        then calc_delta_fair s s.tunables.sched_latency e
        else (s, s.tunables.sched_latency))
    else (s, 0)

-- `place_entity` with `initial` 0: never backwards.
unfoldable pub place_sleeper : FairSys → ℕ → ℕ → FairSys
unfolding sleeper_credit max_vruntime
place_sleeper s q e =
    let (s', credit) = sleeper_credit s e in
    set_vruntime s' e (max_vruntime (s'.se e).vruntime (sub64 (s.cfs q).min_vruntime credit))

unfoldable pub place_entity : FairSys → ℕ → ℕ → Bool → Option FairSys
unfolding place_sleeper sched_vslice
place_entity s q e initial =
    if initial
    then (if s.tunables.start_debit
        then (sched_vslice s q e >>= λ (s', v).
            some (set_vruntime s' e (add64 (s.cfs q).min_vruntime v)))
        else some (set_vruntime s e (s.cfs q).min_vruntime))
    else some (place_sleeper s q e)

abbrev clear_buddy : Option ℕ → ℕ → Option ℕ
clear_buddy none e = none
clear_buddy (some b) e = if b == e then none else some b

-- `__clear_buddies`
unfoldable pub clear_buddies_on : FairSys → ℕ → ℕ → FairSys
clear_buddies_on s q e =
    set_cfs s q (record (s.cfs q) {
      last = clear_buddy (s.cfs q).last e;
      next = clear_buddy (s.cfs q).next e;
    })

clear_all : FairSys → List ℕ → FairSys
unfolding clear_buddies_on
clear_all s [] = s
clear_all s (e ∷ es) = clear_all (clear_buddies_on s (s.se e).cfs_rq e) es

unfoldable pub clear_buddies : FairSys → ℕ → Option FairSys
unfolding clear_all fair_hierarchy
clear_buddies s e = parents s e >>= λ es. some (clear_all s es)

module _ (rb : RbTree) where
  unfoldable pub enqueue_fair_entity : FairSys → ℕ → ℕ → Bool → FairSys
  unfolding update_curr_fair account_entity_enqueue place_sleeper enqueue_node
  enqueue_fair_entity s q e wakeup =
      let s1 = account_entity_enqueue (update_curr_fair s q) q e in
      let s2 = if wakeup then place_sleeper s1 q e else s1 in
      if is_curr s2 q e then s2 else enqueue_node rb s2 q e

  unfoldable pub dequeue_fair_entity : FairSys → ℕ → ℕ → Option FairSys
  unfolding update_curr_fair account_entity_dequeue dequeue_node update_min_vruntime clear_buddies
  dequeue_fair_entity s q e = clear_buddies (update_curr_fair s q) e >>= λ s1.
      (let s2 = if is_curr s1 q e then s1 else dequeue_node rb s1 q e in
        some (update_min_vruntime (account_entity_dequeue s2 q e) q))
