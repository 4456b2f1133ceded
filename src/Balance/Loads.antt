-- ===== src/Balance/Loads.antt =====
-- The counters and the load of a cpu, sched.c.
use cmsc421prj.Base.{
  ℕ, zero, suc, Bool, Option, some, List, [], ◌∷◌, ◌==◌, ltb, if◌then◌else◌, ◌>>=◌, ◌+◌, ◌-◌, ◌*◌,
  ◌/◌, ◌^◌, ◌%◌, ◌||◌, not, add64, neg64, word, upd, min, max, check,
}
use cmsc421prj.State.Data.{Sys}
use cmsc421prj.State.Setters.{set_rq}

-- `CPU_LOAD_IDX_MAX`
abbrev pub cpu_load_idx_max : ℕ
cpu_load_idx_max = 5

-- The sum over the cpus of a mask.
unfoldable pub sum_over : (ℕ → ℕ) → List ℕ → ℕ
sum_over f [] = 0
sum_over f (c ∷ cs) = add64 (f c) (sum_over f cs)

unfoldable pub nr_running : List ℕ → Sys → ℕ
unfolding sum_over
nr_running online s = sum_over (λ c. (s.rq c).nr_running) online

unfoldable pub nr_uninterruptible : List ℕ → Sys → ℕ
unfolding sum_over
nr_uninterruptible possible s =
    let sum = sum_over (λ c. (s.rq c).nr_uninterruptible) possible in if neg64 sum then 0 else sum

unfoldable pub nr_context_switches : List ℕ → Sys → ℕ
unfolding sum_over
nr_context_switches possible s = sum_over (λ c. (s.rq c).nr_switches) possible

unfoldable pub nr_iowait : List ℕ → Sys → ℕ
unfolding sum_over
nr_iowait possible s = sum_over (λ c. (s.rq c).nr_iowait) possible

unfoldable pub nr_active : List ℕ → Sys → ℕ
unfolding sum_over
nr_active online s =
    let running = sum_over (λ c. (s.rq c).nr_running) online in
    let uninterruptible = sum_over (λ c. (s.rq c).nr_uninterruptible) online in
    add64 running (if neg64 uninterruptible then 0 else uninterruptible)

-- One entry of `cpu_load`, where `scale` is 2^i.
unfoldable pub new_cpu_load : ℕ → ℕ → ℕ → ℕ
new_cpu_load i old this_load =
    let scale = 2 ^ i in
    let new = if ltb old this_load then add64 this_load (scale - 1) else this_load in
    (old * (scale - 1) + new) % word / scale

abbrev pub update_from : ℕ → ℕ → ℕ → (ℕ → ℕ) → ℕ → ℕ
update_from zero i load loads = loads
update_from (suc n) i load loads =
    update_from n (i + 1) load (upd loads i (new_cpu_load i (loads i) load))

unfoldable pub update_cpu_load : Sys → ℕ → Sys
unfolding new_cpu_load
update_cpu_load s c = set_rq s c (record (s.rq c) {
  nr_load_updates = add64 (s.rq c).nr_load_updates 1;
  cpu_load = update_from cpu_load_idx_max 0 (s.rq c).load (s.rq c).cpu_load;
})

unfoldable pub weighted_cpuload : Sys → ℕ → ℕ
weighted_cpuload s c = (s.rq c).load

unfoldable pub cpu_avg_load_per_task : Sys → ℕ → Sys × ℕ
cpu_avg_load_per_task s c =
    let r = s.rq c in
    let avg = if r.nr_running == 0 then 0 else r.load / r.nr_running in
    (set_rq s c (record r { avg_load_per_task = avg }), avg)

unfoldable pub idle_cpu : Sys → ℕ → Bool
idle_cpu s c = (s.rq c).curr == (s.rq c).idle

-- The entry of `cpu_load` for `type`, from 1 on.
cpu_load_at : Sys → ℕ → ℕ → Option ℕ
cpu_load_at s c type =
    check (ltb (type - 1) cpu_load_idx_max) >>= λ _. some ((s.rq c).cpu_load (type - 1))

-- `lb_bias` is the feature LB_BIAS.
unfoldable pub source_load : Bool → Sys → ℕ → ℕ → Option ℕ
unfolding weighted_cpuload cpu_load_at
source_load lb_bias s c type =
    let total = weighted_cpuload s c in
    if type == 0 || not lb_bias
    then some total
    else (cpu_load_at s c type >>= λ load. some (min load total))

unfoldable pub target_load : Bool → Sys → ℕ → ℕ → Option ℕ
unfolding weighted_cpuload cpu_load_at
target_load lb_bias s c type =
    let total = weighted_cpuload s c in
    if type == 0 || not lb_bias
    then some total
    else (cpu_load_at s c type >>= λ load. some (max load total))
