-- ===== src/Balance/Remote.antt =====
-- The busiest group of the statistics is not the one of the cpu.
use mathlib.Core.Path.{subst}
use mathlib.Core.List.{Memᴰ}
use mathlib.Core.Option.{some-injective}
use cmsc421prj.Base.{
  ℕ, Bool, false, some, List, [], ◌∷◌, ◌≡◌, refl, inl, inr, ltb, >>=-eq-some, arith, Bool-cases,
  sym, ap, ◌∙◌, not, ◌||◌, ◌&&◌,
}
use cmsc421prj.State.Data.{Sys}
use cmsc421prj.Balance.{SchedGroup, SchedDomain}
use cmsc421prj.Balance.Idlest.{member, has_flag, sd_powersavings_balance}
use cmsc421prj.Balance.Stats.{
  get_sd_load_idx, SdLbStats, sd_zero, SgLbStats, Call, Flags, is_false, update_sg_lb_stats,
}
use cmsc421prj.Balance.Busiest.{
  is_busy, add_group, update_sd_power_savings_stats, sd_rounds, update_sd_lb_stats,
  init_sd_power_savings_stats,
}

module _ (call : Call) where
  -- No power is saved, and a busiest group is one of `all` that the cpu is not in.
  pub record IsRemote (all : List SchedGroup) (sds : SdLbStats) : Type 0 where
    pub no_saving : sds.power_savings_balance ≡ false
    pub remote :
        (g : SchedGroup) → sds.busiest ≡ some g → Memᴰ g all × (member call.this_cpu g.cpus ≡ false)

  add_group-IsRemote :
      (all : List SchedGroup) (g : SchedGroup) (sgs : SgLbStats) (sds : SdLbStats)
      → Memᴰ g all
      → IsRemote all sds
      → IsRemote all (add_group call g (member call.this_cpu g.cpus) sgs sds)
  unfolding add_group
  add_group-IsRemote all g sgs sds i r = elim (Bool-cases (member call.this_cpu g.cpus)) [
    | inl y ↦ rw y (record { no_saving = r.no_saving; remote = r.remote })
    | inr n ↦
        elim (Bool-cases (
          ltb sds.max_load sgs.avg_load
          && (ltb sgs.group_capacity sgs.sum_nr_running || sgs.group_imb))) [
            | inl b ↦
                rw (n, b)
                  (record {
                    no_saving = r.no_saving;
                    remote = λ h e.
                        let same : g ≡ h = some-injective g h e in
                        (
                          subst (λ k. Memᴰ k all) same i,
                          ap (λ k. member call.this_cpu k.cpus) (sym same) ∙ n,
                        );
                  })
            | inr b ↦ rw (n, b) (record { no_saving = r.no_saving; remote = r.remote })
          ]
  ]

  saving-IsRemote :
      (all : List SchedGroup) (g : SchedGroup) (local_group : Bool) (sgs : SgLbStats)
      (sds sds' : SdLbStats)
      → update_sd_power_savings_stats call g local_group sgs sds ≡ some sds'
      → IsRemote all sds
      → IsRemote all sds'
  unfolding update_sd_power_savings_stats
  saving-IsRemote all g local_group sgs sds sds' h r =
      let h1 = rw r.no_saving at h in
      let same : IsRemote all (record sds { power_savings_balance = false }) = record {
        no_saving = refl;
        remote = r.remote;
      } in
      subst (IsRemote all) (some-injective _ sds' h1) same

  sd_rounds-IsRemote :
      (all gs : List SchedGroup) (load_idx : ℕ) (s s' : Sys) (f f' : Flags) (sds sds' : SdLbStats)
      → ((g : SchedGroup) → Memᴰ g gs → Memᴰ g all)
      → sd_rounds call load_idx s f sds gs ≡ some (s', f', sds')
      → IsRemote all sds
      → IsRemote all sds'
  unfolding sd_rounds
  sd_rounds-IsRemote all [] load_idx s s' f f' sds sds' i h r =
      subst (IsRemote all) (ap (λ x. x.2) (some-injective _ _ h)) r
  sd_rounds-IsRemote all (g ∷ gs) load_idx s s' f f' sds sds' i h r =
      let local_group = member call.this_cpu g.cpus in
      let ((s1, f1, sgs), e, h1) =
        >>=-eq-some (update_sg_lb_stats call s g load_idx local_group f) _ h in
      elim (Bool-cases (local_group && is_false f1.balance)) [
        | inl y ↦
            let h2 = rw y at h1 in subst (IsRemote all) (ap (λ x. x.2) (some-injective _ _ h2)) r
        | inr n ↦
            let h2 = rw n at h1 in
            let added = add_group call g local_group sgs sds in
            let (sds1, e1, h3) =
              >>=-eq-some (update_sd_power_savings_stats call g local_group sgs added) _ h2 in
            sd_rounds-IsRemote all gs load_idx s1 s' f1 f' sds1 sds' (λ k m. i k (Memᴰ.tail m)) h3
              (saving-IsRemote all g local_group sgs added sds1 e1
                (add_group-IsRemote all g sgs sds (i g (Memᴰ.head refl)) r))
      ]

  init-IsRemote :
      (all : List SchedGroup) (sd : SchedDomain)
      → has_flag sd_powersavings_balance sd ≡ false
      → IsRemote all (init_sd_power_savings_stats sd call.idle sd_zero)
  unfolding init_sd_power_savings_stats
  init-IsRemote all sd n =
      elim (Bool-cases (is_busy call.idle || not (has_flag sd_powersavings_balance sd))) [
        | inl y ↦ rw y (record { no_saving = refl; remote = λ g e. cc })
        | inr m ↦ absurd (ground arith)
      ]

  pub update_sd_lb_stats-IsRemote :
      (s s' : Sys) (sd : SchedDomain) (f f' : Flags) (sds : SdLbStats)
      → has_flag sd_powersavings_balance sd ≡ false
      → update_sd_lb_stats call s sd f sd_zero ≡ some (s', f', sds)
      → IsRemote (sd.first ∷ sd.others) sds
  unfolding update_sd_lb_stats
  update_sd_lb_stats-IsRemote s s' sd f f' sds n h =
      sd_rounds-IsRemote (sd.first ∷ sd.others) (sd.first ∷ sd.others)
        (get_sd_load_idx sd call.idle) s s' f f' (init_sd_power_savings_stats sd call.idle sd_zero)
        sds (λ g m. m) h (init-IsRemote _ sd n)
