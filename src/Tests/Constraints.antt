-- ===== src/Tests/Constraints.antt =====
-- The real-time constraints of a tree of two groups.
use cmsc421prj.Rt.Entities.{rt_bandwidth_enabled}
use cmsc421prj.Base.{
  ℕ, Option, none, some, [], ◌∷◌, ◌≡◌, ◌≢◌, ◌⊎◌, refl, ◌==◌, ◌^◌, if◌then◌else◌, arith,
}
use cmsc421prj.Base.Int.{ℤ, pos, negsuc}
use cmsc421prj.State.Data.{Sys}
use cmsc421prj.Groups.{
  to_ratio, global_rt_period, global_rt_runtime, sum_children, tg_schedulable, tg_set_bandwidth,
  root_task_group, tg_has_rt_tasks,
}
use cmsc421prj.Groups.Walk.{Below}
use cmsc421prj.Groups.Schedulable.{Fits}
use cmsc421prj.Groups.Bandwidth.{IsMeasured, as_set, tg_set_bandwidth-Fits}
use cmsc421prj.Tests.Machine.{machine, group}

-- The root, with the group 1 below it.
abbrev ruled : Sys
ruled = record machine {
  group = λ g.
      (if g == 0
        then record group { children = 1 ∷ [] }
        else record group { rt_runtime = 100000000 });
}

ruled-IsMeasured : IsMeasured ruled
unfolding global_rt_period global_rt_runtime
ruled-IsMeasured = record {
  few = λ g. ground arith;
  short = λ ne. omega arith;
  at_most = omega arith;
}

result : Option (Sys × ℤ) → Sys × ℤ
result none = (ruled, negsuc 0)
result (some r) = r

-- Group 1 asks for 200 ms of each second.
raised : Sys × ℤ
raised = result (tg_set_bandwidth [] (0 ∷ []) ruled 1 1000000000 200000000)

raised_lem : tg_set_bandwidth [] (0 ∷ []) ruled 1 1000000000 200000000 ≡ some (raised.0, raised.1)
unfolding raised result tg_set_bandwidth tg_schedulable to_ratio sum_children global_rt_period
    global_rt_runtime tg_has_rt_tasks rt_bandwidth_enabled
raised_lem = refl

raised_ok : raised.1 ≡ pos 0
unfolding raised result tg_set_bandwidth tg_schedulable to_ratio sum_children global_rt_period
    global_rt_runtime tg_has_rt_tasks rt_bandwidth_enabled
raised_ok = refl

tg_set_bandwidth-Fits_example :
    ((raised.1 ≡ pos 0) × ((h : ℕ) → Below ruled root_task_group h → Fits raised.0 as_set h))
    ⊎ ((raised.1 ≢ pos 0) × (raised.0 ≡ ruled))
tg_set_bandwidth-Fits_example =
    tg_set_bandwidth-Fits [] (0 ∷ []) ruled raised.0 1 1000000000 200000000 raised.1
      ruled-IsMeasured (λ g ne. ground arith) raised_lem

-- 960 ms are more than the root has.
refused : (result (tg_set_bandwidth [] (0 ∷ []) ruled 1 1000000000 960000000)).1 ≡ negsuc 21
unfolding result tg_set_bandwidth tg_schedulable to_ratio sum_children global_rt_period
    global_rt_runtime tg_has_rt_tasks rt_bandwidth_enabled
refused = refl

-- The whole of a period of 2^44 ns has the share 0.
lost_share : to_ratio (2 ^ 44) (2 ^ 44) ≡ some 0
unfolding to_ratio
lost_share = refl
