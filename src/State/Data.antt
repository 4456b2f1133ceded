-- ===== src/State/Data.antt =====
-- The structures of sched.c and sched.h, with the fields that the functions
-- of the model read or write.
-- A linked list is the list of its members; a map is total, and each access checks its bounds.
use cmsc421prj.Base.{ℕ, Bool, Option, List}
use cmsc421prj.Base.Int.{ℤ}

abbrev pub max_rt_prio : ℕ
max_rt_prio = 100

abbrev pub max_brr_bucket : ℕ
max_brr_bucket = 32767

-- `RUNTIME_INF`
abbrev pub runtime_inf : ℕ
runtime_inf = 18446744073709551615

-- A scheduling class, in the place of its table of functions.
pub data SchedClass : Type 0 where
  rt_class brr_class fair_class idle_class : SchedClass

-- `struct sched_rt_entity`. `run_list` names the queue that the entity is linked into, by the
-- runqueue's number and the priority; `none` is the empty list that `list_del_init` leaves.
pub record Entity : Type 0 where
  pub parent : Option ℕ
  pub rt_rq : ℕ
  pub my_q : Option ℕ
  pub run_list : Option (ℕ × ℕ)
  pub nr_cpus_allowed : ℕ
  pub time_slice : ℕ
  pub timeout : ℕ
  pub back : Option ℕ

-- `struct task_struct`. A task has the number of the entity `p->rt` inside it, so `rt_task_of` is
-- the identity. For an entity of a group these fields are the memory that `container_of` reaches.
pub record Task : Type 0 where
  pub policy : ℕ
  pub prio : ℕ
  pub normal_prio : ℕ
  pub static_prio : ℕ
  pub rt_priority : ℕ
  pub bid : ℤ
  pub sched_class : SchedClass
  pub on_rq : Bool
  pub exec_start : ℕ
  pub sum_exec_runtime : ℕ
  pub exec_max : ℕ
  pub start_runtime : ℕ
  pub weight : ℕ
  pub inv_weight : ℕ
  pub cpu : ℕ
  pub cpus_allowed : ℕ → Bool
  pub need_resched : Bool
  pub state : ℕ
  pub freezing : Bool
  pub nvcsw : ℕ
  pub nivcsw : ℕ
  pub mm : Bool
  pub rlim_rtprio : ℕ
  pub signal : Bool
  pub rttime_soft : ℕ
  pub rttime_hard : ℕ
  pub sched_exp : ℕ
  pub group : ℕ

-- The calls made on a `plist`, latest first: the code of plist is not part of the repository.
pub data PlistCall : Type 0 where
  plist_add : ℕ → ℕ → PlistCall
  plist_del : ℕ → PlistCall

-- `struct rt_rq` with its `struct rt_prio_array` (`queue`, `bitmap`) and `struct bucketArray`
-- (`buckets`, each an `int` as a pattern of 32 bits).
pub record RtRq : Type 0 where
  pub buckets : ℕ → ℕ
  pub queue : ℕ → List ℕ
  pub bitmap : ℕ → Bool
  pub rt_nr_running : ℕ
  pub highest_curr : ℕ
  pub highest_next : ℕ
  pub rt_nr_migratory : ℕ
  pub rt_nr_total : ℕ
  pub overloaded : Bool
  pub pushable : List PlistCall
  pub rt_throttled : Bool
  pub rt_time : ℕ
  pub rt_runtime : ℕ
  pub rt_nr_boosted : ℕ
  pub cpu : ℕ
  pub tg : Option ℕ
  pub rt_se : Option ℕ

-- `struct rq`; `rt` is the number of the `struct rt_rq` inside it.
pub record Rq : Type 0 where
  pub rt : ℕ
  pub curr : ℕ
  pub idle : ℕ
  pub clock : ℕ
  pub nr_running : ℕ
  pub cfs_nr_running : ℕ
  pub nr_uninterruptible : ℕ
  pub load : ℕ
  pub load_inv : ℕ
  pub cpu_load : ℕ → ℕ
  pub nr_load_updates : ℕ
  pub nr_switches : ℕ
  pub nr_iowait : ℕ
  pub avg_load_per_task : ℕ
  pub online : Bool
  pub rd : ℕ
  pub leaf_rt_rqs : List ℕ

-- `struct root_domain`; `cpupri` holds the calls of `cpupri_set` (cpu, priority), latest first.
pub record RootDomain : Type 0 where
  pub span : List ℕ
  pub rto_mask : ℕ → Bool
  pub rto_count : ℕ
  pub cpupri : List (ℕ × ℕ)
  pub sched_mc_preferred_wakeup_cpu : ℕ

-- `struct task_group` with its `struct rt_bandwidth`; `timer_starts` counts the times that the
-- period timer is started.
pub record Group : Type 0 where
  pub parent : Option ℕ
  pub children : List ℕ
  pub rt_runtime : ℕ
  pub rt_period : ℕ
  pub rt_rq_of : ℕ → ℕ
  pub rt_se_of : ℕ → Option ℕ
  pub timer_active : Bool
  pub timer_starts : ℕ

-- The whole state; `def_rt_period` and `def_rt_runtime` are those of `def_rt_bandwidth`. `depth` bounds
-- the depth of the group hierarchy.
pub record Sys : Type 0 where
  pub ent : ℕ → Entity
  pub task : ℕ → Task
  pub rtq : ℕ → RtRq
  pub rq : ℕ → Rq
  pub rd : ℕ → RootDomain
  pub group : ℕ → Group
  pub this_cpu : ℕ
  pub depth : ℕ
  pub scheduler_running : Bool
  pub sysctl_sched_rt_period : ℕ
  pub sysctl_sched_rt_runtime : ℤ
  pub def_rt_period : ℕ
  pub def_rt_runtime : ℕ
  pub def_timeslice : ℕ
