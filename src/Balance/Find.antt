-- ===== src/Balance/Find.antt =====
-- `find_busiest_group` itself, sched.c.
use cmsc421prj.Base.{
  ℕ, Bool, true, false, Option, none, some, ◌==◌, leb, if◌then◌else◌, ◌>>=◌, ◌/◌, ◌||◌, not, min,
}
use cmsc421prj.State.Data.{Sys}
use cmsc421prj.State.Setters.{set_rd}
use cmsc421prj.Balance.{SchedGroup, SchedDomain}
use cmsc421prj.Balance.Idlest.{sched_load_scale}
use cmsc421prj.Balance.Stats.{mul64, SdLbStats, sd_zero, is_false, Call, Flags, group_first_cpu}
use cmsc421prj.Balance.Busiest.{update_sd_lb_stats, calculate_imbalance}

-- `POWERSAVINGS_BALANCE_WAKEUP`
abbrev powersavings_balance_wakeup : ℕ
powersavings_balance_wakeup = 2

-- Two pointers to groups.
abbrev pub same_group : Option SchedGroup → Option SchedGroup → Bool
same_group none none = true
same_group none (some h) = false
same_group (some g) none = false
same_group (some g) (some h) = g.number == h.number

-- What `find_busiest_group` leaves: the state, the variables of its caller, the group and the imbalance.
pub record Found : Type 0 where
  pub sys : Sys
  pub flags : Flags
  pub busiest : Option SchedGroup
  pub imbalance : ℕ

-- `sched_mc_power_savings` is a setting.
module _ (sched_mc_power_savings : ℕ) (call : Call) where
  unfoldable pub nominate : Sys → SdLbStats → Option Sys
  unfolding group_first_cpu
  nominate s sds =
      if leb powersavings_balance_wakeup sched_mc_power_savings
      then (sds.group_leader >>= λ leader.
          let d = (s.rq call.this_cpu).rd in
          some (
            set_rd s d
              (record (s.rd d) { sched_mc_preferred_wakeup_cpu = group_first_cpu call leader })))
      else some s

  -- The state, and the group and the imbalance, if it returns 1.
  unfoldable pub check_power_save_busiest_group :
      Sys → SdLbStats → Option (Sys × Option (Option SchedGroup × ℕ))
  unfolding nominate
  check_power_save_busiest_group s sds =
      if not sds.power_savings_balance
        || (not (same_group sds.this sds.group_leader) || same_group sds.group_leader sds.group_min)
      then some (s, none)
      else (nominate s sds >>= λ s1. some (s1, some (sds.group_min, sds.min_load_per_task)))

  -- From `out_balanced` on.
  unfoldable pub out_balanced : Sys → Flags → SdLbStats → Option Found
  unfolding check_power_save_busiest_group
  out_balanced s f sds = check_power_save_busiest_group s sds >>= λ (s1, r). some (elim r [
    | none ↦ record { sys = s1; flags = f; busiest = none; imbalance = 0 }
    | some (g, imbalance) ↦ record { sys = s1; flags = f; busiest = g; imbalance = imbalance }
  ])

  -- Whether there is a group to pull from, before the average is known.
  unfoldable pub none_to_pull : SdLbStats → Bool
  none_to_pull sds =
      elim sds.busiest [ none ↦ true | some g ↦ sds.busiest_nr_running == 0 ]
      || leb sds.max_load sds.this_load

  -- The load of a task of the busiest group.
  unfoldable pub busiest_task : SdLbStats → ℕ
  busiest_task sds =
      let per_task = sds.busiest_load_per_task / sds.busiest_nr_running in
      if sds.group_imb then min per_task sds.avg_load else per_task

  -- The cases after the statistics: `sds` with the average over all groups.
  unfoldable pub is_balanced : SchedDomain → SdLbStats → Bool
  unfolding busiest_task
  is_balanced sd sds =
      leb sds.avg_load sds.this_load
      || (leb (mul64 100 sds.max_load) (mul64 sd.imbalance_pct sds.this_load)
          || leb sds.max_load (busiest_task sds))

  unfoldable pub with_average : SdLbStats → Option SdLbStats
  with_average sds =
      if sds.total_pwr == 0
      then none
      else some (record sds { avg_load = mul64 sched_load_scale sds.total_load / sds.total_pwr })

  unfoldable pub find_busiest_group : Sys → SchedDomain → Flags → Option Found
  unfolding update_sd_lb_stats none_to_pull with_average is_balanced busiest_task out_balanced
      calculate_imbalance
  find_busiest_group s sd f = update_sd_lb_stats call s sd f sd_zero >>= λ (s1, f1, sds).
      if is_false f1.balance
      then some (record { sys = s1; flags = f1; busiest = none; imbalance = 0 })
      else (if none_to_pull sds
          then out_balanced s1 f1 sds
          else (with_average sds >>= λ sds1.
              if is_balanced sd sds1
              then out_balanced s1 f1 sds1
              else (calculate_imbalance call s1
                    (record sds1 { busiest_load_per_task = busiest_task sds1 })
                  >>= λ (s2, sds2, imbalance). some (record {
                    sys = s2;
                    flags = f1;
                    busiest = sds2.busiest;
                    imbalance = imbalance;
                  }))))
