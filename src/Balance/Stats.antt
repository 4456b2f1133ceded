-- ===== src/Balance/Stats.antt =====
-- The statistics of the groups of a domain that `find_busiest_group` goes by, sched.c.
use cmsc421prj.Base.{
  ℕ, Bool, true, false, Option, none, some, List, [], ◌∷◌, ◌==◌, ltb, if◌then◌else◌, ◌>>=◌, ◌-◌,
  ◌*◌, ◌/◌, ◌%◌, ◌&&◌, not, add64, sub64, word, int_mod, min, max,
}
use cmsc421prj.State.Data.{Sys}
use cmsc421prj.Balance.{
  SchedGroup, SchedDomain, CpuIdleType, cpu_idle, cpu_not_idle, cpu_newly_idle,
}
use cmsc421prj.Balance.Loads.{
  weighted_cpuload, source_load, target_load, cpu_avg_load_per_task, idle_cpu,
}
use cmsc421prj.Balance.Idlest.{sg_div_cpu_power, sched_load_scale, ulong_max}

abbrev pub mul64 : ℕ → ℕ → ℕ
mul64 a b = (a * b) % word

-- `struct sd_lb_stats`
pub record SdLbStats : Type 0 where
  pub busiest : Option SchedGroup
  pub this : Option SchedGroup
  pub total_load : ℕ
  pub total_pwr : ℕ
  pub avg_load : ℕ
  pub this_load : ℕ
  pub this_load_per_task : ℕ
  pub this_nr_running : ℕ
  pub max_load : ℕ
  pub busiest_load_per_task : ℕ
  pub busiest_nr_running : ℕ
  pub group_imb : Bool
  pub power_savings_balance : Bool
  pub group_min : Option SchedGroup
  pub group_leader : Option SchedGroup
  pub min_load_per_task : ℕ
  pub leader_nr_running : ℕ
  pub min_nr_running : ℕ

-- As `memset` leaves it.
abbrev pub sd_zero : SdLbStats
sd_zero = record {
  busiest = none;
  this = none;
  total_load = 0;
  total_pwr = 0;
  avg_load = 0;
  this_load = 0;
  this_load_per_task = 0;
  this_nr_running = 0;
  max_load = 0;
  busiest_load_per_task = 0;
  busiest_nr_running = 0;
  group_imb = false;
  power_savings_balance = false;
  group_min = none;
  group_leader = none;
  min_load_per_task = 0;
  leader_nr_running = 0;
  min_nr_running = 0;
}

-- `struct sg_lb_stats`
pub record SgLbStats : Type 0 where
  pub avg_load : ℕ
  pub group_load : ℕ
  pub sum_nr_running : ℕ
  pub sum_weighted_load : ℕ
  pub group_capacity : ℕ
  pub group_imb : Bool

abbrev pub sg_zero : SgLbStats
sg_zero = record {
  avg_load = 0;
  group_load = 0;
  sum_nr_running = 0;
  sum_weighted_load = 0;
  group_capacity = 0;
  group_imb = false;
}

abbrev pub newly_idle : CpuIdleType → Bool
newly_idle cpu_idle = false
newly_idle cpu_not_idle = false
newly_idle cpu_newly_idle = true

unfoldable pub get_sd_load_idx : SchedDomain → CpuIdleType → ℕ
get_sd_load_idx sd cpu_not_idle = sd.busy_idx
get_sd_load_idx sd cpu_newly_idle = sd.newidle_idx
get_sd_load_idx sd cpu_idle = sd.idle_idx

abbrev pub is_false : Option Bool → Bool
is_false none = false
is_false (some b) = not b

-- What is the same for a whole call: `reciprocal_divide`, the feature LB_BIAS, the number of cpus
-- that `cpumask_first` gives for an empty mask, the cpu, its idle status and the cpus considered.
pub record Call : Type 0 where
  pub reciprocal_divide : ℕ → ℕ → ℕ
  pub lb_bias : Bool
  pub nr_cpu_ids : ℕ
  pub this_cpu : ℕ
  pub idle : CpuIdleType
  pub cpus : ℕ → Bool

-- The variables of the caller: whether the domain is idle, and whether to balance, null as `none`.
pub record Flags : Type 0 where
  pub sd_idle : Bool
  pub balance : Option Bool

unfoldable pub group_first_cpu : Call → SchedGroup → ℕ
group_first_cpu call group = elim group.cpus [ [] ↦ call.nr_cpu_ids | c ∷ cs ↦ c ]

-- The local variables of `update_sg_lb_stats`.
pub record Tally : Type 0 where
  pub sys : Sys
  pub sd_idle : Bool
  pub balance_cpu : ℕ
  pub first_idle_cpu : Bool
  pub max_cpu_load : ℕ
  pub min_cpu_load : ℕ
  pub sum_avg_load_per_task : ℕ
  pub sgs : SgLbStats

module _ (call : Call) where
  -- The load of a cpu, for the local group or another one.
  unfoldable pub bias : Sys → Bool → ℕ → ℕ → Option ℕ
  unfolding source_load target_load
  bias s local_group load_idx c =
      if local_group
      then target_load call.lb_bias s c load_idx
      else source_load call.lb_bias s c load_idx

  unfoldable pub tally_cpu : Bool → Tally → ℕ → ℕ → Tally
  unfolding cpu_avg_load_per_task weighted_cpuload idle_cpu
  tally_cpu local_group t c load =
      let s = t.sys in
      let nr = (s.rq c).nr_running in
      let (s1, avg) = cpu_avg_load_per_task s c in
      let first = local_group && (idle_cpu s c && not t.first_idle_cpu) in
      record {
        sys = s1;
        sd_idle = if t.sd_idle && not (nr == 0) then false else t.sd_idle;
        balance_cpu = if first then c else t.balance_cpu;
        first_idle_cpu = if first then true else t.first_idle_cpu;
        max_cpu_load = if local_group then t.max_cpu_load else max load t.max_cpu_load;
        min_cpu_load = if local_group then t.min_cpu_load else min load t.min_cpu_load;
        sum_avg_load_per_task = add64 t.sum_avg_load_per_task avg;
        sgs = record t.sgs {
          group_load = add64 t.sgs.group_load load;
          sum_nr_running = add64 t.sgs.sum_nr_running nr;
          sum_weighted_load = add64 t.sgs.sum_weighted_load (weighted_cpuload s c);
        };
      }

  unfoldable pub tally_cpus : Bool → ℕ → Tally → List ℕ → Option Tally
  unfolding bias tally_cpu
  tally_cpus local_group load_idx t [] = some t
  tally_cpus local_group load_idx t (c ∷ cs) =
      let passed = tally_cpus local_group load_idx t cs in
      if call.cpus c
      then (bias t.sys local_group load_idx c >>= λ load.
          tally_cpus local_group load_idx (tally_cpu local_group t c load) cs)
      else passed

  -- What follows the loop.
  unfoldable pub sg_averages : SchedGroup → Tally → SgLbStats
  unfolding sg_div_cpu_power
  sg_averages group t =
      let per_task =
        sg_div_cpu_power call.reciprocal_divide group
          (mul64 t.sum_avg_load_per_task sched_load_scale) in
      record t.sgs {
        avg_load =
            sg_div_cpu_power call.reciprocal_divide group (mul64 t.sgs.group_load sched_load_scale);
        group_imb = ltb (2 * per_task) (sub64 t.max_cpu_load t.min_cpu_load);
        group_capacity = group.cpu_power / sched_load_scale;
      }

  unfoldable pub update_sg_lb_stats :
      Sys → SchedGroup → ℕ → Bool → Flags → Option (Sys × Flags × SgLbStats)
  unfolding group_first_cpu tally_cpus sg_averages
  update_sg_lb_stats s group load_idx local_group f =
      tally_cpus local_group load_idx
        (record {
          sys = s;
          sd_idle = f.sd_idle;
          balance_cpu = if local_group then group_first_cpu call group else int_mod - 1;
          first_idle_cpu = false;
          max_cpu_load = 0;
          min_cpu_load = ulong_max;
          sum_avg_load_per_task = 0;
          sgs = sg_zero;
        })
        group.cpus
      >>= λ t.
          let f1 = record f { sd_idle = t.sd_idle } in
          let averages : Sys × Flags × SgLbStats = (t.sys, f1, sg_averages group t) in
          let not_here : Sys × Flags × SgLbStats =
            (t.sys, record f1 { balance = some false }, t.sgs) in
          some (elim f.balance [
            | none ↦ averages
            | some b ↦
                if not (newly_idle call.idle)
                  && (local_group && not (t.balance_cpu == call.this_cpu))
                then not_here
                else averages
          ])
