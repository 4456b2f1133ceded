-- ===== src/Balance/Imbalance.antt =====
-- How much load `calculate_imbalance` asks to move.
use native.Mathlib.Nat.{mul-le-mul, div-mul-le_self}
use mathlib.Core.Option.{some-injective}
use cmsc421prj.Base.{
  ◌==◌, ℕ, some, ◌≡◌, refl, ◌≤◌, ◌<◌, ◌⊎◌, inl, inr, ltb, >>=-eq-some, ◌-◌, ◌*◌, arith, Bool-cases,
  sub64, min, int_mod, sym, ap, ◌∙◌,
}
use cmsc421prj.State.Data.{Sys}
use cmsc421prj.Balance.{SchedGroup}
use cmsc421prj.Balance.Idlest.{sched_load_scale}
use cmsc421prj.Balance.Stats.{mul64, SdLbStats, Call}
use cmsc421prj.Balance.Busiest.{
  per_task_here, small_imbalance, fix_small_imbalance, equalising, calculate_imbalance,
}

-- A product of two words of 32 bits does not wrap.
mul64-int : (a b : ℕ) → a < int_mod → b < int_mod → mul64 a b ≡ a * b
mul64-int a b ha hb =
    let p : a * b ≤ (int_mod - 1) * (int_mod - 1) =
      mul-le-mul {n₂ = int_mod - 1} {m₂ = int_mod - 1} (omega arith) (omega arith) in
    omega arith

small_imbalance-cases :
    (call : Call) (sds : SdLbStats) (imbalance r : ℕ)
    → small_imbalance call sds imbalance ≡ some r
    → (r ≡ sds.busiest_load_per_task) ⊎ (r ≡ imbalance)
unfolding small_imbalance
small_imbalance-cases call sds imbalance r h = ground arith

per_task_here-task :
    (call : Call) (s : Sys) (sds : SdLbStats)
    → (per_task_here call s sds).1.busiest_load_per_task ≡ sds.busiest_load_per_task
unfolding per_task_here
per_task_here-task call s sds = elim (Bool-cases (sds.this_nr_running == 0)) [
  | inl y ↦ rw y refl
  | inr n ↦ rw n refl
]

-- `fix_small_imbalance` keeps the imbalance or makes it the load of one task.
fix_small_imbalance-cases :
    (call : Call) (s s' : Sys) (sds sds' : SdLbStats) (imbalance r : ℕ)
    → fix_small_imbalance call s sds imbalance ≡ some (s', sds', r)
    → (r ≡ sds.busiest_load_per_task) ⊎ (r ≡ imbalance)
unfolding fix_small_imbalance
fix_small_imbalance-cases call s s' sds sds' imbalance r h =
    let (t, e, last) =
      >>=-eq-some (small_imbalance call (per_task_here call s sds).1 imbalance) _ h in
    let same : t ≡ r = ap (λ x. x.2) (some-injective _ _ last) in
    elim (small_imbalance-cases call (per_task_here call s sds).1 imbalance t e) [
      | inl task ↦ inl (sym same ∙ task ∙ per_task_here-task call s sds)
      | inr kept ↦ inr (sym same ∙ kept)
    ]

-- The local group is below the average, the busiest one above it, and what is divided does not wrap.
pub record IsMeasured (sds : SdLbStats) (busiest this : SchedGroup) : Type 0 where
  pub pulls : sds.busiest ≡ some busiest
  pub here : sds.this ≡ some this
  pub below : sds.this_load ≤ sds.avg_load
  pub short : sds.max_load < int_mod
  pub avg_short : sds.avg_load < int_mod
  pub power : busiest.cpu_power < int_mod
  pub own_power : this.cpu_power < int_mod

equalising-at_most :
    (call : Call) (sds : SdLbStats) (busiest this : SchedGroup)
    → IsMeasured sds busiest this
    → sds.avg_load ≤ sds.max_load
    → (equalising call sds busiest this * sched_load_scale
        ≤ (sds.max_load - sds.avg_load) * busiest.cpu_power)
      × (equalising call sds busiest this * sched_load_scale
          ≤ (sds.avg_load - sds.this_load) * this.cpu_power)
unfolding equalising
equalising-at_most call sds busiest this m above =
    let pull =
      min (sub64 sds.max_load sds.avg_load) (sub64 sds.max_load sds.busiest_load_per_task) in
    let own = sub64 sds.avg_load sds.this_load in
    let pulled : sub64 sds.max_load sds.avg_load ≡ sds.max_load - sds.avg_load =
      omega (arith, m.short) in
    let lacks : own ≡ sds.avg_load - sds.this_load = omega (arith, m.below, m.avg_short) in
    let less : pull ≤ sds.max_load - sds.avg_load = omega arith in
    let a : mul64 pull busiest.cpu_power ≡ pull * busiest.cpu_power =
      mul64-int pull busiest.cpu_power (omega (arith, m.short)) m.power in
    let b : mul64 own this.cpu_power ≡ own * this.cpu_power =
      mul64-int own this.cpu_power (omega (arith, m.avg_short)) m.own_power in
    let c : pull * busiest.cpu_power ≤ (sds.max_load - sds.avg_load) * busiest.cpu_power =
      mul-le-mul {m₁ = busiest.cpu_power} less (omega arith) in
    let d : own * this.cpu_power ≡ (sds.avg_load - sds.this_load) * this.cpu_power =
      ap (λ n. n * this.cpu_power) lacks in
    let e =
      div-mul-le_self (min (mul64 pull busiest.cpu_power) (mul64 own this.cpu_power))
        sched_load_scale in
    (omega arith, omega arith)

-- The load that `calculate_imbalance` asks to move, times SCHED_LOAD_SCALE, takes no more from the
-- busiest group than it has above the average, and gives the local group no more than it lacks to the
-- average, each times the power of the group; else it is 0 or the load of one task of the busiest group.
-- The local group is not above the average; loads and powers fit into 32 bits, so no product wraps.
pub calculate_imbalance-at_most :
    (call : Call) (s s' : Sys) (sds sds' : SdLbStats) (busiest this : SchedGroup) (r : ℕ)
    → IsMeasured sds busiest this
    → calculate_imbalance call s sds ≡ some (s', sds', r)
    → (r ≡ 0)
      ⊎ (r ≡ sds.busiest_load_per_task)
      ⊎ ((r * sched_load_scale ≤ (sds.max_load - sds.avg_load) * busiest.cpu_power)
          × (r * sched_load_scale ≤ (sds.avg_load - sds.this_load) * this.cpu_power))
unfolding calculate_imbalance
calculate_imbalance-at_most call s s' sds sds' busiest this r m h =
    elim (Bool-cases (ltb sds.max_load sds.avg_load)) [
      | inl y ↦
          let h1 = rw y at h in
          elim (fix_small_imbalance-cases call s s' sds sds' 0 r h1) [
            | inl task ↦ inr (inl task)
            | inr zero_kept ↦ inl zero_kept
          ]
      | inr n ↦
          let most = equalising-at_most call sds busiest this m (ground arith) in
          let h0 = rw n at h in
          let (b, eb, hb) = >>=-eq-some sds.busiest _ h0 in
          let (t, et, ht) = >>=-eq-some sds.this _ hb in
          let same_b : b ≡ busiest = some-injective b busiest (sym eb ∙ m.pulls) in
          let same_t : t ≡ this = some-injective t this (sym et ∙ m.here) in
          let h1 = rw (same_b, same_t) at ht in
          elim (Bool-cases (ltb (equalising call sds busiest this) sds.busiest_load_per_task)) [
            | inl small ↦
                let h2 = rw small at h1 in
                elim (fix_small_imbalance-cases call s s' sds sds'
                  (equalising call sds busiest this) r h2) [
                    | inl task ↦ inr (inl task)
                    | inr kept ↦ inr (inr (rw kept most))
                  ]
            | inr large ↦
                let h2 = rw large at h1 in
                let same : equalising call sds busiest this ≡ r =
                  ap (λ x. x.2) (some-injective _ _ h2) in
                inr (inr (rw (sym same) most))
          ]
    ]

-- The busiest group stays the one that the statistics have.
per_task_here-busiest :
    (call : Call) (s : Sys) (sds : SdLbStats) → (per_task_here call s sds).1.busiest ≡ sds.busiest
unfolding per_task_here
per_task_here-busiest call s sds = elim (Bool-cases (sds.this_nr_running == 0)) [
  | inl y ↦ rw y refl
  | inr n ↦ rw n refl
]

fix_small_imbalance-busiest :
    (call : Call) (s s' : Sys) (sds sds' : SdLbStats) (imbalance r : ℕ)
    → fix_small_imbalance call s sds imbalance ≡ some (s', sds', r)
    → sds'.busiest ≡ sds.busiest
unfolding fix_small_imbalance
fix_small_imbalance-busiest call s s' sds sds' imbalance r h =
    let (t, e, last) =
      >>=-eq-some (small_imbalance call (per_task_here call s sds).1 imbalance) _ h in
    ap (λ x. x.1.busiest) (sym (some-injective _ _ last)) ∙ per_task_here-busiest call s sds

pub calculate_imbalance-busiest :
    (call : Call) (s s' : Sys) (sds sds' : SdLbStats) (r : ℕ)
    → calculate_imbalance call s sds ≡ some (s', sds', r)
    → sds'.busiest ≡ sds.busiest
unfolding calculate_imbalance
calculate_imbalance-busiest call s s' sds sds' r h =
    elim (Bool-cases (ltb sds.max_load sds.avg_load)) [
      | inl y ↦ let h1 = rw y at h in fix_small_imbalance-busiest call s s' sds sds' 0 r h1
      | inr n ↦
          let h0 = rw n at h in
          let (b, eb, hb) = >>=-eq-some sds.busiest _ h0 in
          let (t, et, ht) = >>=-eq-some sds.this _ hb in
          elim (Bool-cases (ltb (equalising call sds b t) sds.busiest_load_per_task)) [
            | inl small ↦
                let h2 = rw small at ht in
                fix_small_imbalance-busiest call s s' sds sds' (equalising call sds b t) r h2
            | inr large ↦
                let h2 = rw large at ht in ap (λ x. x.1.busiest) (sym (some-injective _ _ h2))
          ]
    ]
