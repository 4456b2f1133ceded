-- ===== src/Balance/Idlest.antt =====
-- The choice of a cpu for a task that is forked or executes a new program, sched.c.
use cmsc421prj.Base.{
  max, ℕ, zero, suc, Bool, true, false, Option, none, some, List, [], ◌∷◌, ◌==◌, ltb, leb,
  if◌then◌else◌, ◌>>=◌, ◌+◌, ◌-◌, ◌*◌, ◌/◌, ◌^◌, ◌%◌, ◌||◌, ◌&&◌, not, add64, word, int_mod, length,
  bit_and,
}
use cmsc421prj.State.Data.{Sys}
use cmsc421prj.Balance.{SchedGroup, SchedDomain}
use cmsc421prj.Balance.Loads.{weighted_cpuload, source_load, target_load}

-- `SCHED_LOAD_SCALE`
abbrev pub sched_load_scale : ℕ
sched_load_scale = 1024

-- `ULONG_MAX`
abbrev pub ulong_max : ℕ
ulong_max = word - 1

abbrev pub member : ℕ → List ℕ → Bool
member c [] = false
member c (d ∷ ds) = if c == d then true else member c ds

-- `cpumask_intersects`
abbrev pub intersects : List ℕ → (ℕ → Bool) → Bool
intersects [] mask = false
intersects (c ∷ cs) mask = if mask c then true else intersects cs mask

-- `find_idlest_cpu` from the loop on; -1 is `none`.
unfoldable pub idlest_from : Sys → (ℕ → Bool) → ℕ → ℕ → Option ℕ → List ℕ → Option ℕ
unfolding weighted_cpuload
idlest_from s allowed this_cpu min_load idlest [] = idlest
idlest_from s allowed this_cpu min_load idlest (c ∷ cs) =
    let load = weighted_cpuload s c in
    let taken = idlest_from s allowed this_cpu load (some c) cs in
    let passed = idlest_from s allowed this_cpu min_load idlest cs in
    if allowed c && (ltb load min_load || load == min_load && c == this_cpu) then taken else passed

unfoldable pub find_idlest_cpu : Sys → SchedGroup → ℕ → ℕ → Option ℕ
unfolding idlest_from
find_idlest_cpu s group p this_cpu =
    idlest_from s (s.task p).cpus_allowed this_cpu ulong_max none group.cpus

-- `100 + (imbalance_pct - 100) / 2`, unsigned, then an `int` that is multiplied with an unsigned long.
unfoldable pub half_imbalance : ℕ → ℕ
half_imbalance pct =
    let i = (100 + (pct + int_mod - 100) % int_mod / 2) % int_mod in
    if ltb i (2 ^ 31) then i else i + (word - int_mod)

-- `reciprocal_divide` is from another part of the kernel.
module _ (reciprocal_divide : ℕ → ℕ → ℕ) where
  -- The load is a parameter of 32 bits.
  unfoldable pub sg_div_cpu_power : SchedGroup → ℕ → ℕ
  sg_div_cpu_power group load = reciprocal_divide (load % int_mod) group.reciprocal_cpu_power

module _ (reciprocal_divide : ℕ → ℕ → ℕ) (lb_bias : Bool) (s : Sys) where
  unfoldable pub tally : Bool → ℕ → List ℕ → ℕ → Option ℕ
  unfolding source_load target_load
  tally local_group load_idx [] avg_load = some avg_load
  tally local_group load_idx (c ∷ cs) avg_load =
      (if local_group then source_load lb_bias s c load_idx else target_load lb_bias s c load_idx)
      >>= λ load. tally local_group load_idx cs (add64 avg_load load)

  -- The load of a group for its power.
  unfoldable pub group_load : ℕ → Bool → SchedGroup → Option ℕ
  unfolding tally sg_div_cpu_power
  group_load load_idx local_group group = tally local_group load_idx group.cpus 0 >>= λ total.
      some (sg_div_cpu_power reciprocal_divide group ((total * sched_load_scale) % word))

  -- What `find_idlest_group` knows between two rounds.
  pub record Idlest : Type 0 where
    pub idlest : Option SchedGroup
    pub min_load : ℕ
    pub this_load : ℕ

  unfoldable pub idlest_round : ℕ → (ℕ → Bool) → ℕ → Idlest → SchedGroup → Option Idlest
  unfolding group_load
  idlest_round load_idx allowed this_cpu i group =
      if not (intersects group.cpus allowed)
      then some i
      else (let local_group = member this_cpu group.cpus in
          group_load load_idx local_group group >>= λ avg_load. some (
            if local_group
            then record i { this_load = avg_load }
            else (if ltb avg_load i.min_load
                then record i { min_load = avg_load; idlest = some group }
                else i)))

  unfoldable pub idlest_rounds : ℕ → (ℕ → Bool) → ℕ → Idlest → List SchedGroup → Option Idlest
  unfolding idlest_round
  idlest_rounds load_idx allowed this_cpu i [] = some i
  idlest_rounds load_idx allowed this_cpu i (g ∷ gs) =
      idlest_round load_idx allowed this_cpu i g >>= λ i1.
      idlest_rounds load_idx allowed this_cpu i1 gs

  -- `none` within `some` is a null group.
  unfoldable pub find_idlest_group : SchedDomain → ℕ → ℕ → Option (Option SchedGroup)
  unfolding idlest_rounds half_imbalance
  find_idlest_group sd p this_cpu =
      idlest_rounds sd.forkexec_idx (s.task p).cpus_allowed this_cpu
        (record { idlest = none; min_load = ulong_max; this_load = 0 }) (sd.first ∷ sd.others)
      >>= λ i. some (elim i.idlest [
        | none ↦ none
        | some g ↦
            if ltb ((100 * i.this_load) % word)
              ((half_imbalance sd.imbalance_pct * i.min_load) % word)
            then none
            else some g
      ])

-- `SD_POWERSAVINGS_BALANCE`
abbrev pub sd_powersavings_balance : ℕ
sd_powersavings_balance = 256

abbrev pub has_flag : ℕ → SchedDomain → Bool
has_flag flag sd = not (bit_and sd.flags flag == 0)

-- The last domain with the flag before one at which the loop stops, with those below it; `below` are
-- those that the loop has passed.
unfoldable pub last_domain :
    (SchedDomain → Bool)
    → ℕ
    → List SchedDomain
    → List SchedDomain
    → List SchedDomain
    → List SchedDomain
last_domain stop flag below best [] = best
last_domain stop flag below best (d ∷ ds) =
    let best1 = if has_flag flag d then d ∷ below else best in
    let rest = last_domain stop flag (d ∷ below) best1 ds in if stop d then best else rest

-- `weight <= cpumask_weight(sched_domain_span(tmp))`
abbrev pub not_smaller : SchedDomain → SchedDomain → Bool
not_smaller sd d = leb (length sd.span) (length d.span)

-- The largest number of cpus of a domain.
abbrev pub widest : List SchedDomain → ℕ
widest [] = 0
widest (d ∷ ds) = max (length d.span) (widest ds)

-- The idlest cpu of a group, if there is a group.
abbrev pub cpu_in : Sys → ℕ → ℕ → Option SchedGroup → Option ℕ
cpu_in s t cpu none = none
cpu_in s t cpu (some g) = find_idlest_cpu s g t cpu

abbrev pub other_than : ℕ → Option ℕ → Option ℕ
other_than cpu none = none
other_than cpu (some c) = if c == cpu then none else some c

-- The domains of a cpu, from the lowest one on, are set up elsewhere.
module _ (reciprocal_divide : ℕ → ℕ → ℕ) (lb_bias : Bool) (domains : ℕ → List SchedDomain)
    (flag : ℕ) (s : Sys) (t : ℕ) where
  -- One domain: the cpu to go to, or `none` if there is none.
  unfoldable pub target_in : SchedDomain → ℕ → Option (Option ℕ)
  unfolding find_idlest_group find_idlest_cpu
  target_in sd cpu =
      if not (has_flag flag sd)
      then some none
      else (find_idlest_group reciprocal_divide lb_bias s sd t cpu >>= λ group.
          some (other_than cpu (cpu_in s t cpu group)))

  -- The loop, from a domain down through those below it; `none` also after `fuel` moves to another cpu.
  unfoldable pub balance_from : ℕ → List SchedDomain → ℕ → Option ℕ
  unfolding target_in last_domain
  balance_from fuel [] cpu = some cpu
  balance_from zero (sd ∷ below) cpu = target_in sd cpu >>= λ to. elim to [
    | none ↦ balance_from zero below cpu
    | some new_cpu ↦ none
  ]
  balance_from (suc n) (sd ∷ below) cpu = target_in sd cpu >>= λ to. elim to [
    | none ↦ balance_from (suc n) below cpu
    | some new_cpu ↦
        balance_from n (last_domain (not_smaller sd) flag [] [] (domains new_cpu)) new_cpu
  ]

-- `sched_balance_self` from the loop on; `update_shares` changes the loads.
unfoldable pub balance_domains :
    (ℕ → ℕ → ℕ)
    → Bool
    → (ℕ → List SchedDomain)
    → (SchedDomain → Sys → Sys)
    → ℕ
    → Sys
    → ℕ
    → List SchedDomain
    → ℕ
    → Option (Sys × ℕ)
unfolding balance_from
balance_domains reciprocal_divide lb_bias domains update_shares flag s t [] cpu = some (s, cpu)
balance_domains reciprocal_divide lb_bias domains update_shares flag s t (sd ∷ below) cpu =
    let s1 = update_shares sd s in
    balance_from reciprocal_divide lb_bias domains flag s1 t (widest (sd ∷ below) + 1) (sd ∷ below)
      cpu
    >>= λ to. some (s1, to)

unfoldable pub sched_balance_self :
    (ℕ → ℕ → ℕ)
    → Bool
    → (ℕ → List SchedDomain)
    → (SchedDomain → Sys → Sys)
    → ℕ
    → Sys
    → ℕ
    → ℕ
    → Option (Sys × ℕ)
unfolding balance_domains last_domain
sched_balance_self reciprocal_divide lb_bias domains update_shares flag s t cpu =
    balance_domains reciprocal_divide lb_bias domains update_shares flag s t
      (last_domain (has_flag sd_powersavings_balance) flag [] [] (domains cpu)) cpu
