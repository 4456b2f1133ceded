-- ===== src/Rt/Prio.antt =====
-- sched_rt.c, the highest and the next highest priority that are queued.
use cmsc421prj.Base.{
  ℕ, zero, suc, ◌+◌, Bool, true, false, not, ◌&&◌, Option, none, some, List, [], ◌∷◌, ◌==◌, ltb,
  leb, if◌then◌else◌,
}
use cmsc421prj.Base.Int.{ℤ, pos, negsuc}
use cmsc421prj.State.Data.{RtRq, Sys, max_rt_prio}
use cmsc421prj.State.Setters.{set_rtq, set_rd}
use cmsc421prj.Rt.Lists.{sched_find_first_bit, find_next_bit}
use cmsc421prj.Rt.Entities.{rt_prio, rq_of_rt_rq, task_current}

abbrev pub may_run_on : Sys → ℕ → ℤ → Bool
may_run_on s p (pos cpu) = (s.task p).cpus_allowed cpu
may_run_on s p (negsuc n) = true

unfoldable pub pick_rt_task : Sys → ℕ → ℕ → ℤ → Bool
pick_rt_task s c p cpu =
    not (task_current s c p) && (may_run_on s p cpu && ltb 1 (s.ent p).nr_cpus_allowed)

-- `list_for_each_entry` up to its `break`.
unfoldable pub first_pickable : Sys → ℕ → ℤ → List ℕ → Option ℕ
unfolding pick_rt_task
first_pickable s c cpu [] = none
first_pickable s c cpu (p ∷ ps) =
    let rest = first_pickable s c cpu ps in if pick_rt_task s c p cpu then some p else rest

abbrev beats : Sys → Option ℕ → ℕ → Bool
beats s none idx = false
beats s (some p) idx = ltb (s.task p).prio idx

abbrev or_else : Option ℕ → Option ℕ → Option ℕ
or_else (some p) next = some p
or_else none next = next

-- The loop at `next_idx`; `rounds` bounds the bits that are left.
unfoldable pub scan_from : ℕ → Sys → ℕ → ℤ → RtRq → Option ℕ → ℕ → Option ℕ
unfolding first_pickable find_next_bit
scan_from zero s c cpu q next idx = next
scan_from (suc rounds) s c cpu q next idx =
    let rest = scan_from rounds s c cpu q none (find_next_bit q.bitmap max_rt_prio (idx + 1)) in
    if leb max_rt_prio idx
    then next
    else (if beats s next idx
        then next
        else elim (or_else (first_pickable s c cpu (q.queue idx)) next) [
          | none ↦ rest
          | some p ↦ some p
        ])

scan_leaves : Sys → ℕ → ℤ → List ℕ → Option ℕ → Option ℕ
unfolding scan_from
scan_leaves s c cpu [] next = next
scan_leaves s c cpu (q ∷ qs) next =
    scan_leaves s c cpu qs
      (scan_from (max_rt_prio + 1) s c cpu (s.rtq q) next (sched_find_first_bit (s.rtq q).bitmap))

-- The second highest task, or `none`.
unfoldable pub pick_next_highest_task_rt : Sys → ℕ → ℤ → Option ℕ
unfolding scan_leaves
pick_next_highest_task_rt s c cpu = scan_leaves s c cpu (s.rq c).leaf_rt_rqs none

prio_of_next : Sys → Option ℕ → ℕ
unfolding rt_prio
prio_of_next s none = max_rt_prio
prio_of_next s (some p) = if rt_prio (s.task p).prio then (s.task p).prio else max_rt_prio

unfoldable pub next_prio : Sys → ℕ → ℕ
unfolding prio_of_next pick_next_highest_task_rt
next_prio s c = prio_of_next s (pick_next_highest_task_rt s c (pos c))

-- `cpupri_set(&rq->rd->cpupri, rq->cpu, prio)`
unfoldable pub cpupri_set : Sys → ℕ → ℕ → Sys
cpupri_set s c prio =
    set_rd s (s.rq c).rd
      (record (s.rd (s.rq c).rd) { cpupri = (c, prio) ∷ (s.rd (s.rq c).rd).cpupri })

set_next : Sys → ℕ → ℕ → Sys
set_next s q prio = set_rtq s q (record (s.rtq q) { highest_next = prio })

set_curr : Sys → ℕ → ℕ → Sys
set_curr s q prio = set_rtq s q (record (s.rtq q) { highest_curr = prio })

unfoldable pub inc_rt_prio_smp : Sys → ℕ → ℕ → ℕ → Sys
unfolding set_next cpupri_set
inc_rt_prio_smp s q prio prev =
    if ltb prio prev
    then (if (s.rq c).online then cpupri_set (set_next s q prev) c prio else set_next s q prev)
    else (if prio == (s.rtq q).highest_curr
        then set_next s q prio
        else (if ltb prio (s.rtq q).highest_next then set_next s q (next_prio s c) else s))
  where
    c : ℕ
    c = rq_of_rt_rq s q

unfoldable pub dec_rt_prio_smp : Sys → ℕ → ℕ → ℕ → Sys
unfolding set_next cpupri_set
dec_rt_prio_smp s q prio prev =
    let s1 : Sys =
      if not ((s.rtq q).rt_nr_running == 0) && leb prio (s.rtq q).highest_next
      then set_next s q (next_prio s c)
      else s in
    if (s.rq c).online && not ((s.rtq q).highest_curr == prev)
    then cpupri_set s1 c (s.rtq q).highest_curr
    else s1
  where
    c : ℕ
    c = rq_of_rt_rq s q

-- `if (prio < prev_prio) rt_rq->highest_prio.curr = prio`
unfoldable pub lower_curr : Sys → ℕ → ℕ → Sys
unfolding set_curr
lower_curr s q prio = if ltb prio (s.rtq q).highest_curr then set_curr s q prio else s

unfoldable pub inc_rt_prio : Sys → ℕ → ℕ → Sys
unfolding lower_curr inc_rt_prio_smp
inc_rt_prio s q prio = inc_rt_prio_smp (lower_curr s q prio) q prio (s.rtq q).highest_curr

-- `WARN_ON(prio < prev_prio)` has no effect on the state.
unfoldable pub recompute_curr : Sys → ℕ → ℕ → Sys
unfolding set_curr
recompute_curr s q prio =
    if (s.rtq q).rt_nr_running == 0
    then set_curr s q max_rt_prio
    else (if prio == (s.rtq q).highest_curr
        then set_curr s q (sched_find_first_bit (s.rtq q).bitmap)
        else s)

unfoldable pub dec_rt_prio : Sys → ℕ → ℕ → Sys
unfolding recompute_curr dec_rt_prio_smp
dec_rt_prio s q prio = dec_rt_prio_smp (recompute_curr s q prio) q prio (s.rtq q).highest_curr
