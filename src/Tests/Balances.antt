-- ===== src/Tests/Balances.antt =====
-- Two cpus, each a group of its own: cpu 0 is idle, cpu 1 has three tasks.
use cmsc421prj.Base.{
  ℕ, true, false, Option, none, some, [], ◌∷◌, ◌≡◌, refl, ◌≤◌, ◌⊎◌, ◌==◌, if◌then◌else◌, ◌-◌, ◌*◌,
  ◌/◌, ◌^◌, arith,
}
use cmsc421prj.State.Data.{Sys, Rq}
use cmsc421prj.Balance.{SchedGroup, SchedDomain, cpu_idle}
use cmsc421prj.Balance.Loads.{weighted_cpuload}
use cmsc421prj.Balance.Settling.{ticks, update_cpu_load-settles}
use cmsc421prj.Balance.Idlest.{
  member, find_idlest_cpu, sched_balance_self, sg_div_cpu_power, sched_load_scale,
}
use cmsc421prj.Balance.Least.{IsIdlest, find_idlest_cpu-IsIdlest}
use cmsc421prj.Balance.Self.{sched_balance_self-ends}
use cmsc421prj.Balance.Stats.{Call, Flags, SdLbStats, sd_zero}
use cmsc421prj.Balance.Busiest.{calculate_imbalance}
use cmsc421prj.Balance.Imbalance.{calculate_imbalance-at_most}
use cmsc421prj.Balance.Find.{Found, find_busiest_group}
use cmsc421prj.Tests.Machine.{machine, rq}

abbrev idle_rq : Rq
idle_rq = record rq { curr = 0; nr_running = 0; cpu_load = λ i. 9 }

abbrev busy_rq : Rq
busy_rq = record rq { nr_running = 3; load = 3072 }

abbrev uneven : Sys
uneven = record machine { rq = λ c. (if c == 1 then busy_rq else idle_rq) }

abbrev only : ℕ → SchedGroup
only c = record { number = c; cpus = c ∷ []; cpu_power = 1024; reciprocal_cpu_power = 2 ^ 22 }

abbrev both : SchedGroup
both = record { number = 2; cpus = 0 ∷ 1 ∷ []; cpu_power = 2048; reciprocal_cpu_power = 2 ^ 21 }

-- For the flags SD_LOAD_BALANCE and SD_BALANCE_FORK.
abbrev pub domain : SchedDomain
domain = record {
  first = only 0;
  others = only 1 ∷ [];
  span = 0 ∷ 1 ∷ [];
  imbalance_pct = 125;
  cache_nice_tries = 1;
  busy_idx = 2;
  idle_idx = 0;
  newidle_idx = 0;
  forkexec_idx = 0;
  flags = 9;
  nr_balance_failed = 0;
}

abbrev divide : ℕ → ℕ → ℕ
divide a r = a * r / 2 ^ 32

-- The load has risen from 9 to 10, then a tick on each average.
abbrev risen : Sys
risen = record machine { rq = λ c. record rq { load = 10; cpu_load = λ i. 9 } }

update_cpu_load-settles_example : ((ticks 1 risen 0).rq 0).cpu_load 4 ≡ 10
update_cpu_load-settles_example =
    update_cpu_load-settles 1 risen 0 4 (omega arith) (omega arith) (omega arith) (omega arith)

find_idlest_cpu-IsIdlest_example :
    ((c : ℕ) × (find_idlest_cpu uneven both 2 1 ≡ some c) × IsIdlest uneven both 2 1 c)
    ⊎ ((find_idlest_cpu uneven both 2 1 ≡ none)
        × ((d : ℕ) → member d both.cpus ≡ true → (uneven.task 2).cpus_allowed d ≡ false))
unfolding weighted_cpuload
find_idlest_cpu-IsIdlest_example = find_idlest_cpu-IsIdlest uneven both 2 1 (λ d. ground arith)

sched_balance_self-ends_example :
    (s1 : Sys) × (to : ℕ) × (sched_balance_self divide true
        (λ c. domain ∷ [])
        (λ sd s. s)
        8
        uneven
        2
        1
      ≡ some (s1, to))
    × ((to ≡ 1) ⊎ ((s1.task 2).cpus_allowed to ≡ true))
sched_balance_self-ends_example =
    sched_balance_self-ends divide true (λ c. domain ∷ []) (λ sd s. s) 8 uneven 2 1
      (λ c. (omega arith, tt))

-- A task that cpu 1 forks goes to cpu 0.
forked :
    sched_balance_self divide true (λ c. domain ∷ []) (λ sd s. s) 8 uneven 2 1 ≡ some (uneven, 0)
unfolding sched_balance_self
forked = refl

abbrev call : Call
call = record {
  reciprocal_divide = divide;
  lb_bias = true;
  nr_cpu_ids = 2;
  this_cpu = 0;
  idle = cpu_idle;
  cpus = λ c. true;
}

abbrev stats : SdLbStats
stats = record sd_zero {
  busiest = some (only 1);
  this = some (only 0);
  total_load = 3072;
  total_pwr = 2048;
  avg_load = 1536;
  max_load = 3072;
  busiest_load_per_task = 1024;
  busiest_nr_running = 3;
}

abbrev moved : ℕ
moved = 1536

moves : calculate_imbalance call uneven stats ≡ some (uneven, stats, 1536)
unfolding calculate_imbalance
moves = refl

calculate_imbalance-at_most_example :
    (moved ≡ 0)
    ⊎ (moved ≡ 1024)
    ⊎ ((moved * sched_load_scale ≤ (3072 - 1536) * 1024)
        × (moved * sched_load_scale ≤ (1536 - 0) * 1024))
calculate_imbalance-at_most_example =
    calculate_imbalance-at_most call uneven uneven stats stats (only 1) (only 0) moved
      (record {
        pulls = refl;
        here = refl;
        below = omega arith;
        short = omega arith;
        avg_short = omega arith;
        power = omega arith;
        own_power = omega arith;
      })
      moves

flags : Flags
flags = record { sd_idle = true; balance = some true }

or_none : Option Found → Found
or_none none = record { sys = uneven; flags = flags; busiest = none; imbalance = 0 }
or_none (some found) = found

abbrev result : Option Found
result = find_busiest_group 0 call uneven domain flags

pulled_load : (or_none result).imbalance ≡ 1536
unfolding find_busiest_group or_none flags
pulled_load = refl

-- The load of a group of 48 tasks with nice -20 is taken modulo 2^32 when it is scaled.
wrapped : sg_div_cpu_power divide (only 1) (48 * 88761 * sched_load_scale) ≡ 66224
unfolding sg_div_cpu_power
wrapped = refl
