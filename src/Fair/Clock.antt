-- ===== src/Fair/Clock.antt =====
-- Virtual time, sched_fair.c: comparisons of 64-bit times by the sign of their difference, and the
-- time of the current entity.
pub mod Staying
use cmsc421prj.Base.{
  ℕ, Bool, Option, none, some, ◌==◌, ◌^◌, ltb, if◌then◌else◌, add64, sub64, neg64,
}
use cmsc421prj.State.Setters.{set_task}
use cmsc421prj.Fair.Data.{FairSys, set_sys, set_se, set_cfs}
use cmsc421prj.Fair.Weight.{calc_delta_fair}
use cmsc421prj.Rt.Bandwidth.{positive64}

-- `(s64)a < (s64)b`
abbrev pub slt64 : ℕ → ℕ → Bool
slt64 a b = ltb (add64 a (2 ^ 63)) (add64 b (2 ^ 63))

unfoldable pub max_vruntime : ℕ → ℕ → ℕ
max_vruntime m v = if positive64 (sub64 v m) then v else m

unfoldable pub min_vruntime : ℕ → ℕ → ℕ
min_vruntime m v = if neg64 (sub64 v m) then v else m

unfoldable pub entity_key : FairSys → ℕ → ℕ → ℕ
entity_key s q e = sub64 (s.se e).vruntime (s.cfs q).min_vruntime

-- `vruntime` as `update_min_vruntime` finds it, from the current and the leftmost entity.
unfoldable pub candidate : FairSys → ℕ → Option ℕ → Option ℕ → ℕ
unfolding min_vruntime
candidate s q none none = (s.cfs q).min_vruntime
candidate s q none (some e) = (s.se e).vruntime
candidate s q (some c) none = (s.se c).vruntime
candidate s q (some c) (some e) = min_vruntime (s.se c).vruntime (s.se e).vruntime

unfoldable pub update_min_vruntime : FairSys → ℕ → FairSys
unfolding max_vruntime candidate
update_min_vruntime s q = set_cfs s q (record (s.cfs q) {
  min_vruntime =
      max_vruntime (s.cfs q).min_vruntime (candidate s q (s.cfs q).curr (s.cfs q).rb_leftmost);
})

abbrev pub clock_of : FairSys → ℕ → ℕ
clock_of s q = (s.sys.rq (s.cfs q).cpu).clock

abbrev pub ran : FairSys → ℕ → ℕ → FairSys
ran s e delta = set_sys s (
    set_task s.sys e
      (record (s.sys.task e) { sum_exec_runtime = add64 (s.sys.task e).sum_exec_runtime delta }))

abbrev advance : FairSys × ℕ → ℕ → FairSys
advance (s, delta) e = set_se s e (record (s.se e) { vruntime = add64 (s.se e).vruntime delta })

-- `__update_curr`
unfoldable pub update_curr_by : FairSys → ℕ → ℕ → ℕ → FairSys
unfolding update_min_vruntime calc_delta_fair
update_curr_by s q e delta =
    update_min_vruntime (advance (calc_delta_fair (ran s e delta) delta e) e) q

abbrev pub start_at : FairSys → ℕ → ℕ → FairSys
start_at s e now = set_sys s (set_task s.sys e (record (s.sys.task e) { exec_start = now }))

charge_curr : FairSys → ℕ → Option ℕ → FairSys
unfolding update_curr_by
charge_curr s q none = s
charge_curr s q (some e) =
    let delta = sub64 (clock_of s q) (s.sys.task e).exec_start in
    if delta == 0 then s else start_at (update_curr_by s q e delta) e (clock_of s q)

-- `update_curr` of the fair class.
unfoldable pub update_curr_fair : FairSys → ℕ → FairSys
unfolding charge_curr
update_curr_fair s q = charge_curr s q (s.cfs q).curr
