-- ===== src/Balance/Busiest.antt =====
-- `find_busiest_group` and what it calls, sched.c, with the balance that saves power.
use cmsc421prj.Base.{
  ℕ, Bool, true, false, Option, none, some, List, [], ◌∷◌, ◌==◌, ltb, leb, if◌then◌else◌, ◌>>=◌,
  ◌/◌, ◌||◌, ◌&&◌, not, add64, sub64, min,
}
use cmsc421prj.State.Data.{Sys}
use cmsc421prj.Balance.{
  SchedGroup, SchedDomain, CpuIdleType, cpu_idle, cpu_not_idle, cpu_newly_idle,
}
use cmsc421prj.Balance.Loads.{cpu_avg_load_per_task}
use cmsc421prj.Balance.Idlest.{
  sg_div_cpu_power, sched_load_scale, ulong_max, member, has_flag, sd_powersavings_balance,
}
use cmsc421prj.Balance.Stats.{
  mul64, is_false, SdLbStats, SgLbStats, Call, Flags, update_sg_lb_stats, get_sd_load_idx,
  group_first_cpu,
}

abbrev pub is_busy : CpuIdleType → Bool
is_busy cpu_idle = false
is_busy cpu_not_idle = true
is_busy cpu_newly_idle = false

unfoldable pub init_sd_power_savings_stats : SchedDomain → CpuIdleType → SdLbStats → SdLbStats
init_sd_power_savings_stats sd idle sds =
    if is_busy idle || not (has_flag sd_powersavings_balance sd)
    then record sds { power_savings_balance = false }
    else record sds {
      power_savings_balance = true;
      min_nr_running = ulong_max;
      leader_nr_running = 0;
    }

module _ (call : Call) where
  -- The first cpu of a group; through a null pointer it is a fault.
  abbrev first_cpu_of : Option SchedGroup → Option ℕ
  first_cpu_of none = none
  first_cpu_of (some g) = some (group_first_cpu call g)

  -- The group with the least load that is not idle.
  unfoldable pub lower_min : SchedGroup → SgLbStats → SdLbStats → Option SdLbStats
  unfolding group_first_cpu
  lower_min group sgs sds =
      let lowered = record sds {
        group_min = some group;
        min_nr_running = sgs.sum_nr_running;
        min_load_per_task = sgs.sum_weighted_load / sgs.sum_nr_running;
      } in
      if ltb sgs.sum_nr_running sds.min_nr_running
      then some lowered
      else (if sgs.sum_nr_running == sds.min_nr_running
          then (first_cpu_of sds.group_min >>= λ c.
              some (if ltb c (group_first_cpu call group) then lowered else sds))
          else some sds)

  -- The group near its capacity that has some space.
  unfoldable pub raise_leader : SchedGroup → SgLbStats → SdLbStats → Option SdLbStats
  unfolding group_first_cpu
  raise_leader group sgs sds =
      let raised = record sds {
        group_leader = some group;
        leader_nr_running = sgs.sum_nr_running;
      } in
      if ltb (sub64 sgs.group_capacity 1) sgs.sum_nr_running
      then some sds
      else (if ltb sds.leader_nr_running sgs.sum_nr_running
          then some raised
          else (if sgs.sum_nr_running == sds.leader_nr_running
              then (first_cpu_of sds.group_leader >>= λ c.
                  some (if ltb (group_first_cpu call group) c then raised else sds))
              else some sds))

  unfoldable pub update_sd_power_savings_stats :
      SchedGroup → Bool → SgLbStats → SdLbStats → Option SdLbStats
  unfolding lower_min raise_leader
  update_sd_power_savings_stats group local_group sgs sds =
      if not sds.power_savings_balance
      then some sds
      else (let full = leb sgs.group_capacity sds.this_nr_running || sds.this_nr_running == 0 in
          let off = local_group && full in
          let sds1 = record sds { power_savings_balance = not off } in
          if off || (leb sgs.group_capacity sgs.sum_nr_running || sgs.sum_nr_running == 0)
          then some sds1
          else (lower_min group sgs sds1 >>= λ sds2. raise_leader group sgs sds2))

  -- What a round adds for its group.
  unfoldable pub add_group : SchedGroup → Bool → SgLbStats → SdLbStats → SdLbStats
  add_group group local_group sgs sds0 =
      let sds = record sds0 {
        total_load = add64 sds0.total_load sgs.group_load;
        total_pwr = add64 sds0.total_pwr group.cpu_power;
      } in
      if local_group
      then record sds {
        this_load = sgs.avg_load;
        this = some group;
        this_nr_running = sgs.sum_nr_running;
        this_load_per_task = sgs.sum_weighted_load;
      }
      else (if ltb sds.max_load sgs.avg_load
            && (ltb sgs.group_capacity sgs.sum_nr_running || sgs.group_imb)
          then record sds {
            max_load = sgs.avg_load;
            busiest = some group;
            busiest_nr_running = sgs.sum_nr_running;
            busiest_load_per_task = sgs.sum_weighted_load;
            group_imb = sgs.group_imb;
          }
          else sds)

  unfoldable pub sd_rounds :
      ℕ → Sys → Flags → SdLbStats → List SchedGroup → Option (Sys × Flags × SdLbStats)
  unfolding update_sg_lb_stats add_group update_sd_power_savings_stats
  sd_rounds load_idx s f sds [] = some (s, f, sds)
  sd_rounds load_idx s f sds (g ∷ gs) =
      let local_group = member call.this_cpu g.cpus in
      update_sg_lb_stats call s g load_idx local_group f >>= λ (s1, f1, sgs).
      if local_group && is_false f1.balance
      then some (s1, f1, sds)
      else (update_sd_power_savings_stats g local_group sgs (add_group g local_group sgs sds)
          >>= λ sds1. sd_rounds load_idx s1 f1 sds1 gs)

  unfoldable pub update_sd_lb_stats :
      Sys → SchedDomain → Flags → SdLbStats → Option (Sys × Flags × SdLbStats)
  unfolding sd_rounds init_sd_power_savings_stats get_sd_load_idx
  update_sd_lb_stats s sd f sds =
      sd_rounds (get_sd_load_idx sd call.idle) s f (init_sd_power_savings_stats sd call.idle sds)
        (sd.first ∷ sd.others)

  -- `load / power`, for a load that is scaled.
  abbrev scaled_by : SchedGroup → ℕ → ℕ
  scaled_by group load = sg_div_cpu_power call.reciprocal_divide group load

  -- The power of the cpus before and after a move, in `fix_small_imbalance`.
  unfoldable pub pwr_now : SdLbStats → SchedGroup → SchedGroup → ℕ
  pwr_now sds busiest this =
      add64 (mul64 busiest.cpu_power (min sds.busiest_load_per_task sds.max_load))
        (mul64 this.cpu_power (min sds.this_load_per_task sds.this_load))
      / sched_load_scale

  unfoldable pub pwr_move : SdLbStats → SchedGroup → SchedGroup → ℕ
  unfolding sg_div_cpu_power
  pwr_move sds busiest this =
      let one_task = mul64 sds.busiest_load_per_task sched_load_scale in
      let all = mul64 sds.max_load busiest.cpu_power in
      let less = scaled_by busiest one_task in
      let more = scaled_by this (if ltb all one_task then all else one_task) in
      add64
        (if ltb less sds.max_load
          then mul64 busiest.cpu_power (min sds.busiest_load_per_task (sub64 sds.max_load less))
          else 0)
        (mul64 this.cpu_power (min sds.this_load_per_task (add64 sds.this_load more)))
      / sched_load_scale

  -- Its first part: the load of a task of this group.
  unfoldable pub per_task_here : Sys → SdLbStats → Sys × SdLbStats
  unfolding cpu_avg_load_per_task
  per_task_here s sds =
      if sds.this_nr_running == 0
      then (let (s1, avg) = cpu_avg_load_per_task s call.this_cpu in
          (s1, record sds { this_load_per_task = avg }))
      else (s, record sds { this_load_per_task = sds.this_load_per_task / sds.this_nr_running })

  -- Its second part: the imbalance, from the load of a task of each group.
  unfoldable pub small_imbalance : SdLbStats → ℕ → Option ℕ
  unfolding pwr_now pwr_move
  small_imbalance sds imbalance =
      let heavier = ltb sds.this_load_per_task sds.busiest_load_per_task in
      let imbn = if not (sds.this_nr_running == 0) && heavier then 1 else 2 in
      let task = sds.busiest_load_per_task in
      if leb (mul64 task imbn) (add64 (sub64 sds.max_load sds.this_load) task)
      then some task
      else (sds.busiest >>= λ busiest. sds.this >>= λ this.
          some (
            if ltb (pwr_now sds busiest this) (pwr_move sds busiest this) then task else imbalance))

  unfoldable pub fix_small_imbalance : Sys → SdLbStats → ℕ → Option (Sys × SdLbStats × ℕ)
  unfolding per_task_here small_imbalance
  fix_small_imbalance s sds imbalance =
      let (s1, sds1) = per_task_here s sds in
      small_imbalance sds1 imbalance >>= λ r. some (s1, sds1, r)

  -- The load to move so that neither group crosses the average.
  unfoldable pub equalising : SdLbStats → SchedGroup → SchedGroup → ℕ
  equalising sds busiest this =
      let max_pull =
        min (sub64 sds.max_load sds.avg_load) (sub64 sds.max_load sds.busiest_load_per_task) in
      min (mul64 max_pull busiest.cpu_power)
        (mul64 (sub64 sds.avg_load sds.this_load) this.cpu_power)
      / sched_load_scale

  unfoldable pub calculate_imbalance : Sys → SdLbStats → Option (Sys × SdLbStats × ℕ)
  unfolding fix_small_imbalance equalising
  calculate_imbalance s sds =
      if ltb sds.max_load sds.avg_load
      then fix_small_imbalance s sds 0
      else (sds.busiest >>= λ busiest. sds.this >>= λ this.
          let imbalance = equalising sds busiest this in
          if ltb imbalance sds.busiest_load_per_task
          then fix_small_imbalance s sds imbalance
          else some (s, sds, imbalance))
