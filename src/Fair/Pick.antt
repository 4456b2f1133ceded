-- ===== src/Fair/Pick.antt =====
-- The choice of the next entity and the preemption of the current one, sched_fair.c.
use cmsc421prj.Base.{
  ℕ, not, ◌&&◌, ◌||◌, Option, none, some, ◌>>=◌, ◌*◌, ◌%◌, ltb, if◌then◌else◌, is_some, word, sub64,
}
use cmsc421prj.Base.Int.{ℤ, pos, minus_one, eq_ℤ}
use cmsc421prj.Rt.Bandwidth.{resched_task, positive64}
use cmsc421prj.Fair.Data.{FairSys, RbTree, set_sys, set_se, set_cfs}
use cmsc421prj.Fair.Weight.{calc_delta_fair}
use cmsc421prj.Fair.Clock.{update_curr_fair, slt64, clock_of, start_at}
use cmsc421prj.Fair.Timeline.{enqueue_node, dequeue_node, pick_first_entity}
use cmsc421prj.Fair.Slice.{sched_slice}
use cmsc421prj.Fair.Entities.{clear_buddies}

-- What an entity has run since it was picked.
abbrev pub this_run : FairSys → ℕ → ℕ
this_run s e = sub64 (s.sys.task e).sum_exec_runtime (s.se e).prev_sum_exec_runtime

unfoldable pub adaptive_gran : FairSys → ℕ → ℕ → ℕ
adaptive_gran s curr e =
    let expected =
      (((2 * (s.se e).avg_wakeup) % word) * (s.cfs (s.se e).cfs_rq).nr_running) % word in
    let gran = if ltb (this_run s curr) expected then sub64 expected (this_run s curr) else 0 in
    if slt64 gran s.tunables.wakeup_granularity then gran else s.tunables.wakeup_granularity

unfoldable pub wakeup_gran : FairSys → ℕ → ℕ → FairSys × ℕ
unfolding adaptive_gran calc_delta_fair
wakeup_gran s curr e =
    let gran =
      if is_some (s.cfs (s.se curr).cfs_rq).curr && s.tunables.adaptive_gran
      then adaptive_gran s curr e
      else s.tunables.wakeup_granularity in
    calc_delta_fair s gran (if s.tunables.asym_gran then e else curr)

unfoldable pub wakeup_preempt_entity : FairSys → ℕ → ℕ → FairSys × ℤ
unfolding wakeup_gran
wakeup_preempt_entity s curr e =
    let vdiff = sub64 (s.se curr).vruntime (s.se e).vruntime in
    if positive64 vdiff
    then (let (s', gran) = wakeup_gran s curr e in (s', if slt64 gran vdiff then pos 1 else pos 0))
    else (s, minus_one)

-- A buddy goes first unless the leftmost entity `e` should preempt it.
buddy_or :
    FairSys
    → Option ℕ
    → Option ℕ
    → (FairSys → Option (FairSys × Option ℕ))
    → Option (FairSys × Option ℕ)
unfolding wakeup_preempt_entity
buddy_or s none e otherwise = otherwise s
buddy_or s (some b) none otherwise = none
buddy_or s (some b) (some e) otherwise =
    let (s', r) = wakeup_preempt_entity s b e in
    if eq_ℤ r (pos 1) then otherwise s' else some (s', some b)

unfoldable pub pick_next_entity : FairSys → ℕ → Option (FairSys × Option ℕ)
unfolding buddy_or pick_first_entity
pick_next_entity s q =
    let e = pick_first_entity s q in
    buddy_or s (s.cfs q).next e (λ s1. buddy_or s1 (s1.cfs q).last e (λ s2. some (s2, e)))

unfoldable pub check_preempt_tick : FairSys → ℕ → ℕ → Option FairSys
unfolding sched_slice clear_buddies
check_preempt_tick s q curr = sched_slice s q curr >>= λ (s1, ideal).
    (if ltb ideal (this_run s1 curr)
      then clear_buddies (set_sys s1 (resched_task s1.sys (s1.sys.rq (s1.cfs q).cpu).curr)) curr
      else some s1)

-- `entity_tick`, without high-resolution ticks.
unfoldable pub entity_tick : FairSys → ℕ → ℕ → Option FairSys
unfolding update_curr_fair check_preempt_tick
entity_tick s q curr =
    let s1 = update_curr_fair s q in
    if ltb 1 (s1.cfs q).nr_running || not s1.tunables.wakeup_preempt
    then check_preempt_tick s1 q curr
    else some s1

abbrev set_curr : FairSys → ℕ → Option ℕ → FairSys
set_curr s q c = set_cfs s q (record (s.cfs q) { curr = c })

abbrev mark_run : FairSys → ℕ → FairSys
mark_run s e =
    set_se s e (record (s.se e) { prev_sum_exec_runtime = (s.sys.task e).sum_exec_runtime })

module _ (rb : RbTree) where
  unfoldable pub set_next_entity : FairSys → ℕ → ℕ → FairSys
  unfolding dequeue_node
  set_next_entity s q e =
      let s1 = if (s.sys.task e).on_rq then dequeue_node rb s q e else s in
      mark_run (set_curr (start_at s1 e (clock_of s1 q)) q (some e)) e

  unfoldable pub put_prev_entity : FairSys → ℕ → ℕ → FairSys
  unfolding update_curr_fair enqueue_node
  put_prev_entity s q e =
      let s1 = if (s.sys.task e).on_rq then update_curr_fair s q else s in
      set_curr (if (s1.sys.task e).on_rq then enqueue_node rb s1 q e else s1) q none
