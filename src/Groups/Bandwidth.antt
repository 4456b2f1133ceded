-- ===== src/Groups/Bandwidth.antt =====
-- A change of the runtime or the period of a group, `tg_set_bandwidth`: what it guarantees.
use cmsc421prj.Base.{
  zero, suc, false, sym, [], ◌≢◌, ◌∷◌, none, ◌⊎◌, ℕ, ◌^◌, ◌≤◌, ◌<◌, true, some, List, >>=-eq-some,
  ◌≡◌, refl, ◌∙◌, ap, arith, ltb, length, Bool-cases, inl, inr,
}
use mathlib.Core.Option.{some-injective}
use mathlib.Core.Path.{subst}
use cmsc421prj.Base.Int.{negsuc, eq_ℤ, ℤ, pos}
use cmsc421prj.State.Data.{Sys}
use cmsc421prj.Rt.Bandwidth.{set_runtime}
use cmsc421prj.Groups.{
  set_runtimes, set_bandwidth, tg_set_bandwidth, global_rt_period, global_rt_runtime,
  RtSchedulableData, period_in, runtime_in, tg_schedulable, schedulable_visitor, tg_nop, visit,
  walk_tg_tree, rt_schedulable, root_task_group,
}
use cmsc421prj.Groups.Walk.{under, here, Below, tester, visit-ok}
use cmsc421prj.Groups.Schedulable.{
  shares, share, IsShort, AllShort, Fits, IsTested, tested, to_ratio-share, sum_children-shares,
}
use cmsc421prj.Rt.Core.Bits.{contains}

-- The tree and the global setting keep the arithmetic within 64 bits: fewer than 2^40 children each,
-- and a global runtime that is short and at most its period.
pub record IsMeasured (s : Sys) : Type 0 where
  pub few : (g : ℕ) → length (s.group g).children < 2 ^ 40
  pub short : IsShort (global_rt_runtime s)
  pub at_most : share (global_rt_period s) (global_rt_runtime s) ≤ 2 ^ 20

Below-child :
    {s : Sys} {g h c : ℕ} → contains c (s.group h).children ≡ true → Below s g h → Below s g c
Below-child i (here e) = under (rw (← e) at i) (here refl)
Below-child i (under m b) = under m (Below-child i b)

module _ (s : Sys) (d : RtSchedulableData) (m : IsMeasured s) (short : AllShort s d) where
  tested-allowed :
      (g : ℕ)
      → IsTested s d g
      → share (period_in s d g) (runtime_in s d g)
        ≤ share (global_rt_period s) (global_rt_runtime s)
  tested-allowed g t =
      let a = to_ratio-share (period_in s d g) (runtime_in s d g) t.total (short g) t.of_group in
      let b = to_ratio-share (global_rt_period s) (global_rt_runtime s) t.most m.short t.of_all in
      rw (a, b) at t.below_most

  tested-Fits :
      (g : ℕ)
      → IsTested s d g
      → ((c : ℕ) → contains c (s.group g).children ≡ true → IsTested s d c)
      → Fits s d g
  tested-Fits g t below =
      let a = to_ratio-share (period_in s d g) (runtime_in s d g) t.total (short g) t.of_group in
      let small = λ (c : ℕ) (i : contains c (s.group g).children ≡ true).
        let le = tested-allowed c (below c i) in
        let fits : share (period_in s d c) (runtime_in s d c) ≤ 2 ^ 20 = omega (arith, m.at_most) in
        fits in
      let sum =
        sum_children-shares s d 0 t.sum (s.group g).children short small (omega (arith, m.few g))
          t.of_children in
      record {
        within = λ ne. elim (Bool-cases (ltb (period_in s d g) (runtime_in s d g))) [
          | inl late ↦ absurd (ne (t.in_period late))
          | inr n ↦ ground arith
        ];
        allowed = tested-allowed g t;
        children = omega (arith, a, sum, t.below_total);
      }

  rt_schedulable-Fits :
      (threads : List ℕ)
      → rt_schedulable threads d s ≡ some (pos 0)
      → (h : ℕ) → Below s root_task_group h
      → Fits s d h
  unfolding rt_schedulable walk_tg_tree schedulable_visitor
  rt_schedulable-Fits threads e h below =
      let (r, f, z) =
        >>=-eq-some (visit (tester (tg_schedulable threads d)) tg_nop s.depth s root_task_group) _
          e in
      let f0 : visit (tester (tg_schedulable threads d)) tg_nop s.depth s root_task_group
          ≡ some (r.0, pos 0) =
        f ∙ ap (λ x. some (r.0, x)) (some-injective _ _ z) in
      let (same, all) = visit-ok (tg_schedulable threads d) s.depth s r.0 root_task_group f0 in
      tested-Fits h (tested threads d s h (all h below))
        (λ c i. tested threads d s c (all c (Below-child i below)))

-- The bandwidths as they are set.
abbrev pub as_set : RtSchedulableData
as_set = record { tg = none; rt_period = 0; rt_runtime = 0 }

-- The two states have the same groups and the same global setting.
record SameSettings (s s' : Sys) : Type 0 where
  groups : s'.group ≡ s.group
  period : s'.sysctl_sched_rt_period ≡ s.sysctl_sched_rt_period
  runtime : s'.sysctl_sched_rt_runtime ≡ s.sysctl_sched_rt_runtime

set_runtimes-SameSettings :
    (s : Sys) (g runtime : ℕ) (cs : List ℕ) → SameSettings s (set_runtimes s g runtime cs)
unfolding set_runtimes
set_runtimes-SameSettings s g runtime [] = record { groups = refl; period = refl; runtime = refl }
set_runtimes-SameSettings s g runtime (c ∷ cs) =
    let r =
      set_runtimes-SameSettings (set_runtime s ((s.group g).rt_rq_of c) runtime) g runtime cs in
    record { groups = r.groups; period = r.period; runtime = r.runtime }

-- The two states agree on what the promise is about, the first with the values of `d`.
record SameView (s t : Sys) (d : RtSchedulableData) : Type 0 where
  periods : (j : ℕ) → (t.group j).rt_period ≡ period_in s d j
  runtimes : (j : ℕ) → (t.group j).rt_runtime ≡ runtime_in s d j
  children : (j : ℕ) → (t.group j).children ≡ (s.group j).children
  global_period : global_rt_period t ≡ global_rt_period s
  global_runtime : global_rt_runtime t ≡ global_rt_runtime s

module _ (s t : Sys) (d : RtSchedulableData) (v : SameView s t d) where
  shares-same : (gs : List ℕ) → shares t as_set gs ≡ shares s d gs
  shares-same [] = refl
  shares-same (g ∷ gs) = rw (v.periods g, v.runtimes g, shares-same gs) refl

  SameView-Fits : (h : ℕ) → Fits s d h → Fits t as_set h
  SameView-Fits h f = record {
    within = rw (v.periods h, v.runtimes h) f.within;
    allowed = rw (v.periods h, v.runtimes h, v.global_period, v.global_runtime) f.allowed;
    children =
        rw (v.children h, shares-same (s.group h).children, v.periods h, v.runtimes h) f.children;
  }

abbrev asked : ℕ → ℕ → ℕ → RtSchedulableData
asked g period runtime = record { tg = some g; rt_period = period; rt_runtime = runtime }

set-SameView :
    (s : Sys) (g period runtime : ℕ) (cs : List ℕ)
    → SameView s
        (set_runtimes (set_bandwidth s g period runtime) g runtime cs)
        (asked g period runtime)
unfolding global_rt_period global_rt_runtime
set-SameView s g period runtime cs =
    let same = set_runtimes-SameSettings (set_bandwidth s g period runtime) g runtime cs in
    record {
      periods = λ j. rw same.groups (ground arith);
      runtimes = λ j. rw same.groups (ground arith);
      children = λ j. rw same.groups (ground arith);
      global_period = rw same.period refl;
      global_runtime = rw same.runtime refl;
    }

ℤ-zero : (z : ℤ) → (z ≡ pos 0) ⊎ ((z ≢ pos 0) × (eq_ℤ z (pos 0) ≡ false))
ℤ-zero (pos zero) = inl refl
ℤ-zero (pos (suc n)) = inr ((λ h. ground arith), ground arith)
ℤ-zero (negsuc k) = inr ((λ h. cc h), refl)

-- A change of a group's period and runtime that is granted leaves the constraints satisfied, with the
-- new values, at every group of the tree: a runtime is at most its period, no share of a group is
-- above that of the global setting, and the shares of the children of a group together are not above
-- its own. A change that is refused changes nothing. This needs runtimes below 2^44 ns, or unlimited,
-- less than 2^40 children of each group, and a global setting whose share is at most the whole.
pub tg_set_bandwidth-Fits :
    (threads cpus : List ℕ) (s s' : Sys) (g period runtime : ℕ) (r : ℤ)
    → IsMeasured s
    → AllShort s (record { tg = some g; rt_period = period; rt_runtime = runtime })
    → tg_set_bandwidth threads cpus s g period runtime ≡ some (s', r)
    → ((r ≡ pos 0) × ((h : ℕ) → Below s root_task_group h → Fits s' as_set h))
      ⊎ ((r ≢ pos 0) × (s' ≡ s))
unfolding tg_set_bandwidth
tg_set_bandwidth-Fits threads cpus s s' g period runtime r m short e =
    let d = asked g period runtime in
    let (err, f, e2) = >>=-eq-some (rt_schedulable threads d s) _ e in
    let out = some-injective _ _ e2 in
    elim (ℤ-zero err) [
      | inl z ↦
          let done : (set_runtimes (set_bandwidth s g period runtime) g runtime cpus, pos 0)
              ≡ (s', r) =
            rw z at out in
          inl (
            sym (ap (λ x. x.1) done),
            λ h b.
                subst (λ (t : Sys). Fits t as_set h) (ap (λ x. x.0) done)
                  (SameView-Fits s _ d (set-SameView s g period runtime cpus) h
                    (rt_schedulable-Fits s d m short threads (f ∙ ap some z) h b)),
          )
      | inr (ne, z) ↦
          let kept : (s, err) ≡ (s', r) = rw z at out in
          inr ((λ q. ne (ap (λ x. x.1) kept ∙ q)), sym (ap (λ x. x.0) kept))
    ]
