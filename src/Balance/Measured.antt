-- ===== src/Balance/Measured.antt =====
-- What is measured of the group that `update_sd_lb_stats` records as the busiest one (sched.c).
use mathlib.Core.Path.{subst}
use mathlib.Core.List.{Memᴰ}
use mathlib.Core.Option.{some-injective}
use cmsc421prj.Base.{◌≤◌, false, none, some, ◌∷◌, ◌≡◌, inl, inr, arith, sym, ◌∙◌}
use cmsc421prj.State.Data.{Sys}
use cmsc421prj.Balance.{List, SchedGroup, SchedDomain}
use cmsc421prj.Balance.Idlest.{has_flag, sd_powersavings_balance}
use cmsc421prj.Balance.Stats.{get_sd_load_idx, SgLbStats, SdLbStats, sd_zero, Call, Flags}
use cmsc421prj.Balance.Busiest.{init_sd_power_savings_stats, update_sd_lb_stats}
use cmsc421prj.Balance.{CpuIdleType}
use cmsc421prj.Balance.Heaviest.{Measure, measures, IsCandidate, IsHeaviest, sd_rounds-IsHeaviest}

-- The measure of the busiest group.
pub record IsMeasureOf (call : Call) (all : List Measure) (sds : SdLbStats) (g : SchedGroup)
    : Type 0 where
  pub own : SgLbStats
  pub among : Memᴰ (g, own) all
  pub candidate : IsCandidate call (g, own)
  pub load : own.avg_load ≡ sds.max_load
  pub greatest : (m : Measure) → Memᴰ m all → IsCandidate call m → m.1.avg_load ≤ sds.max_load

busiest-IsMeasureOf :
    (call : Call) (all : List Measure) (sds sds' : SdLbStats) (g : SchedGroup)
    → sds.busiest ≡ none
    → IsHeaviest call sds all sds'
    → sds'.busiest ≡ some g
    → IsMeasureOf call all sds' g
busiest-IsMeasureOf call all sds sds' g n h b = elim h.from [
  | inl (e, l) ↦ cc
  | inr ((k, own), i, c, e, l) ↦
      let same : k ≡ g = some-injective k g (sym e ∙ b) in
      record {
        own = own;
        among = subst (λ x. Memᴰ (x, own) all) same i;
        candidate = subst (λ x. IsCandidate call (x, own)) same c;
        load = l;
        greatest = h.bound;
      }
]

init-off :
    (sd : SchedDomain) (idle : CpuIdleType)
    → has_flag sd_powersavings_balance sd ≡ false
    → (let sds = init_sd_power_savings_stats sd idle sd_zero in
        (sds.power_savings_balance ≡ false) × (sds.busiest ≡ none))
unfolding init_sd_power_savings_stats
init-off sd idle n = (ground arith, ground arith)

pub update_sd_lb_stats-IsMeasureOf :
    (call : Call) (s s' : Sys) (sd : SchedDomain) (f f' : Flags) (sds : SdLbStats) (g : SchedGroup)
    → has_flag sd_powersavings_balance sd ≡ false
    → update_sd_lb_stats call s sd f sd_zero ≡ some (s', f', sds)
    → sds.busiest ≡ some g
    → (all : List Measure) × (measures call
          (get_sd_load_idx sd call.idle)
          s
          f
          (sd.first ∷ sd.others)
        ≡ some all)
      × IsMeasureOf call all sds g
unfolding update_sd_lb_stats
update_sd_lb_stats-IsMeasureOf call s s' sd f f' sds g n h b =
    let (off, empty) = init-off sd call.idle n in
    let start = init_sd_power_savings_stats sd call.idle sd_zero in
    let (all, taken, heaviest) =
      sd_rounds-IsHeaviest call (get_sd_load_idx sd call.idle) (sd.first ∷ sd.others) s s' f f'
        start sds off h in
    (all, taken, busiest-IsMeasureOf call all start sds g empty heaviest b)
