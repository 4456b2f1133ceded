-- ===== src/Balance/Pulled.antt =====
-- From which group `find_busiest_group` pulls.
use mathlib.Core.List.{Memᴰ}
use cmsc421prj.Base.{◌≤◌, ℕ, false, some, ◌∷◌, ◌≡◌, ◌<◌, ◌/◌}
use cmsc421prj.State.Data.{Sys}
use cmsc421prj.Balance.{List, Option, SchedGroup, SchedDomain}
use cmsc421prj.Balance.Idlest.{sched_load_scale}
use cmsc421prj.Balance.Stats.{
  get_sd_load_idx, SgLbStats, mul64, SdLbStats, sd_zero, Call, Flags, is_false,
}
use cmsc421prj.Balance.Find.{Found}
use cmsc421prj.Balance.Busiest.{update_sd_lb_stats}
use cmsc421prj.Balance.Heaviest.{Measure, measures, IsCandidate}

-- What holds of a group `g` from which load is pulled. It is one of the domain, and the cpu is not in it.
-- It has more tasks than it can take, or its cpus differ much, and of all groups of which this is so
-- it has the greatest load. The cpu is the one to balance. The load of its own group is below that of
-- `g`, by more than the watermark of the domain, and below the average of all groups.
pub record IsPull (call : Call) (s : Sys) (sd : SchedDomain) (f : Flags) (g : SchedGroup)
    : Type 0 where
  pub after : Sys
  pub flags : Flags
  pub sds : SdLbStats
  pub measured : update_sd_lb_stats call s sd f sd_zero ≡ some (after, flags, sds)
  pub all : List Measure
  pub taken : measures call (get_sd_load_idx sd call.idle) s f (sd.first ∷ sd.others) ≡ some all
  pub own : SgLbStats
  pub among : Memᴰ (g, own) all
  pub in_domain : Memᴰ g (sd.first ∷ sd.others)
  pub candidate : IsCandidate call (g, own)
  pub greatest : (m : Measure) → Memᴰ m all → IsCandidate call m → m.1.avg_load ≤ own.avg_load
  pub balances : is_false flags.balance ≡ false
  pub busier : sds.this_load < own.avg_load
  pub over_watermark : mul64 sd.imbalance_pct sds.this_load < mul64 100 own.avg_load
  pub below_average : sds.this_load < mul64 sched_load_scale sds.total_load / sds.total_pwr

-- The statistics with the average over all groups.
abbrev averaged : SdLbStats → SdLbStats
averaged sds = record sds { avg_load = mul64 sched_load_scale sds.total_load / sds.total_pwr }

abbrev found_in : Flags → Sys × SdLbStats × ℕ → Option Found
found_in f (s, sds, imbalance) =
    some (record { sys = s; flags = f; busiest = sds.busiest; imbalance = imbalance })
