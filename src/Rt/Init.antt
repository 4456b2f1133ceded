-- ===== src/Rt/Init.antt =====
-- The first state of a real-time runqueue and of a group on a cpu, sched.c.
use cmsc421prj.Base.{
  ℕ, Bool, true, false, Option, none, some, [], ◌∷◌, ◌>>=◌, ◌==◌, ltb, if◌then◌else◌, upd,
}
use cmsc421prj.State.Data.{RtRq, Sys, max_rt_prio}
use cmsc421prj.State.Setters.{set_rtq, set_rq, set_ent, set_group}

-- `memory` is what `kmalloc` finds in the table of buckets, which nothing clears.
cleared : RtRq → (ℕ → ℕ) → ℕ → RtRq
cleared x memory c = record x {
  buckets = memory;
  queue = λ i. (if ltb i max_rt_prio then [] else x.queue i);
  bitmap =
      λ i. (if ltb i max_rt_prio then false else if i == max_rt_prio then true else x.bitmap i);
  highest_curr = max_rt_prio;
  highest_next = max_rt_prio;
  rt_nr_migratory = 0;
  overloaded = false;
  rt_time = 0;
  rt_throttled = false;
  rt_runtime = 0;
  rt_nr_boosted = 0;
  cpu = c;
}

-- The list of pushable tasks is that of the cpu, whichever runqueue this is.
unfoldable pub init_rt_rq : Sys → (ℕ → ℕ) → ℕ → ℕ → Sys
unfolding cleared
init_rt_rq s memory q c =
    let root = (s.rq c).rt in
    let s1 = set_rtq s root (record (s.rtq root) { pushable = [] }) in
    set_rtq s1 q (cleared (s1.rtq q) memory c)

-- The runqueue that the entity of a group is for: that of the cpu, or its parent's.
queue_above : Sys → ℕ → Option ℕ → Option ℕ
queue_above s c none = some (s.rq c).rt
queue_above s c (some p) = (s.ent p).my_q

init_entity : Sys → ℕ → ℕ → Option ℕ → Option ℕ → Option Sys
unfolding queue_above
init_entity s q c none parent = some s
init_entity s q c (some e) parent = queue_above s c parent >>= λ above. some (
    set_ent s e
      (record (s.ent e) { rt_rq = above; my_q = some q; parent = parent; run_list = none }))

-- `add` puts the runqueue at the front of the cpu's list.
unfoldable pub init_tg_rt_entry :
    Sys → (ℕ → ℕ) → ℕ → ℕ → Option ℕ → ℕ → Bool → Option ℕ → Option Sys
unfolding init_rt_rq init_entity
init_tg_rt_entry s memory g q rt_se c add parent =
    let s1 = set_group s g (record (s.group g) {
      rt_rq_of = upd (s.group g).rt_rq_of c q;
      rt_se_of = upd (s.group g).rt_se_of c rt_se;
    }) in
    let s2 = init_rt_rq s1 memory q c in
    let s3 =
      set_rtq s2 q
        (record (s2.rtq q) { tg = some g; rt_se = rt_se; rt_runtime = (s2.group g).rt_runtime }) in
    let s4 =
      if add
      then set_rq s3 c (record (s3.rq c) { leaf_rt_rqs = q ∷ (s3.rq c).leaf_rt_rqs })
      else s3 in
    init_entity s4 q c rt_se parent
