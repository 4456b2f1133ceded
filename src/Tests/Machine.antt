-- ===== src/Tests/Machine.antt =====
-- One cpu with its runqueue 0, a task 1 that runs, a task 2, and a group whose entity is 10 and whose
-- runqueue is 1.
use cmsc421prj.Base.{
  ◌≡◌, is_some, Option, refl, true, false, none, some, [], ◌∷◌, ◌==◌, if◌then◌else◌, arith,
}
use cmsc421prj.Base.Int.{pos, minus_one}
use cmsc421prj.State.Data.{Entity, Task, RtRq, Rq, Group, Sys, rt_class, brr_class, max_rt_prio}
use cmsc421prj.Rt.Lists.{sched_find_first_bit, find_bit}
use cmsc421prj.Rt.Keeps.{AllValid}

abbrev pub entity : Entity
entity = record {
  parent = none;
  rt_rq = 0;
  my_q = none;
  run_list = none;
  nr_cpus_allowed = 1;
  time_slice = 1;
  timeout = 0;
  back = none;
}

abbrev pub fifo_task : Task
fifo_task = record {
  policy = 1;
  prio = 50;
  normal_prio = 50;
  static_prio = 120;
  rt_priority = 49;
  bid = minus_one;
  sched_class = rt_class;
  on_rq = false;
  exec_start = 0;
  sum_exec_runtime = 0;
  exec_max = 0;
  start_runtime = 0;
  weight = 177522;
  inv_weight = 24194;
  cpu = 0;
  cpus_allowed = λ c. true;
  need_resched = false;
  state = 0;
  freezing = false;
  nvcsw = 0;
  nivcsw = 0;
  mm = true;
  rlim_rtprio = 60;
  signal = false;
  rttime_soft = 0;
  rttime_hard = 0;
  sched_exp = 0;
  group = 0;
}

-- A task of policy SCHED_BRR in bucket 5.
abbrev pub brr_task : Task
brr_task = record fifo_task {
  policy = 6;
  prio = 40;
  normal_prio = 120;
  rt_priority = 0;
  bid = pos 5;
  sched_class = brr_class;
}

abbrev pub rt_rq : RtRq
rt_rq = record {
  buckets = λ i. if i == 5 then 1 else 0;
  queue = λ i. [];
  bitmap = λ i. i == max_rt_prio;
  rt_nr_running = 0;
  highest_curr = 100;
  highest_next = 100;
  rt_nr_migratory = 0;
  rt_nr_total = 0;
  overloaded = false;
  pushable = [];
  rt_throttled = false;
  rt_time = 0;
  rt_runtime = 950000000;
  rt_nr_boosted = 0;
  cpu = 0;
  tg = some 0;
  rt_se = none;
}

abbrev pub rq : Rq
rq = record {
  rt = 0;
  curr = 1;
  idle = 0;
  clock = 1000;
  nr_running = 1;
  cfs_nr_running = 0;
  nr_uninterruptible = 0;
  load = 0;
  load_inv = 0;
  cpu_load = λ i. 0;
  nr_load_updates = 0;
  nr_switches = 0;
  nr_iowait = 0;
  avg_load_per_task = 0;
  online = true;
  rd = 0;
  leaf_rt_rqs = 0 ∷ [];
}

abbrev pub group : Group
group = record {
  parent = none;
  children = [];
  rt_runtime = 950000000;
  rt_period = 1000000000;
  rt_rq_of = λ c. c;
  rt_se_of = λ c. none;
  timer_active = false;
  timer_starts = 0;
}

abbrev pub machine : Sys
machine = record {
  ent = λ e. (if e == 10 then record entity { my_q = some 1 } else entity);
  task = λ p. (if p == 2 then brr_task else fifo_task);
  rtq = λ q. rt_rq;
  rq = λ c. rq;
  rd = λ d. record {
    span = 0 ∷ [];
    rto_mask = λ c. false;
    rto_count = 0;
    cpupri = [];
    sched_mc_preferred_wakeup_cpu = 0;
  };
  group = λ g. group;
  this_cpu = 0;
  depth = 4;
  scheduler_running = true;
  sysctl_sched_rt_period = 1000000;
  sysctl_sched_rt_runtime = pos 950000;
  def_rt_period = 1000000000;
  def_rt_runtime = 950000000;
  def_timeslice = 100;
}

pub machine-AllValid : AllValid machine
unfolding sched_find_first_bit find_bit
machine-AllValid j = record {
  bits = λ i h. ground arith;
  delimiter = refl;
  count = refl;
  first = refl;
}

-- The state after a step that does not fault.
abbrev pub or_machine : Option Sys → Sys
or_machine none = machine
or_machine (some s) = s

pub or_machine_lem : (o : Option Sys) → is_some o ≡ true → o ≡ some (or_machine o)
or_machine_lem none h = cc
or_machine_lem (some s) h = refl
