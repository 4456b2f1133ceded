-- ===== src/Balance/Self.antt =====
-- `sched_balance_self` ends, and where the task may go.
use cmsc421prj.Balance.Least.{find_idlest_cpu-allowed}
use mathlib.Core.Option.{some-injective}
use cmsc421prj.Base.{
  ◌+◌, Option-cases, ap, ◌∙◌, not, zero, suc, >>=-eq-some, ◌⊎◌, ◌<◌, length, not, ℕ, Bool, true,
  false, List, [], ◌∷◌, ◌≡◌, refl, inl, inr, Option, none, some, Bool-cases, arith,
}
use cmsc421prj.State.Data.{Sys}
use cmsc421prj.Balance.{SchedDomain, SchedGroup}
use cmsc421prj.Balance.Idlest.{
  not_smaller, sched_balance_self, widest, balance_domains, sd_powersavings_balance, cpu_in,
  balance_from, other_than, find_idlest_group, target_in, has_flag, last_domain,
}
use cmsc421prj.Balance.Tallies.{Gives, Gives->>=, IsIndexed, find_idlest_group-Gives}

abbrev pub AllIn : (SchedDomain → Type 0) → List SchedDomain → Type 0
AllIn P [] = Unit
AllIn P (d ∷ ds) = P d × AllIn P ds

abbrev IsBelow : ℕ → SchedDomain → Type 0
IsBelow n d = (length d.span < n) × IsIndexed d

last_domain-AllIn :
    (P Q : SchedDomain → Type 0) (stop : SchedDomain → Bool) (flag : ℕ)
    (below best ds : List SchedDomain)
    → ((d : SchedDomain) → P d → stop d ≡ false → Q d)
    → AllIn Q below
    → AllIn Q best
    → AllIn P ds
    → AllIn Q (last_domain stop flag below best ds)
unfolding last_domain
last_domain-AllIn P Q stop flag below best [] q b c a = c
last_domain-AllIn P Q stop flag below best (d ∷ ds) q b c (pd, a) = elim (Bool-cases (stop d)) [
  | inl y ↦ rw y c
  | inr n ↦
      let passed : Q d × AllIn Q below = (q d pd n, b) in
      elim (Bool-cases (has_flag flag d)) [
        | inl f ↦
            rw (n, f) (last_domain-AllIn P Q stop flag (d ∷ below) (d ∷ below) ds q passed passed a)
        | inr f ↦ rw (n, f) (last_domain-AllIn P Q stop flag (d ∷ below) best ds q passed c a)
      ]
]

cpu_in-allowed :
    (s : Sys) (t cpu c : ℕ) (group : Option SchedGroup)
    → cpu_in s t cpu group ≡ some c
    → (s.task t).cpus_allowed c ≡ true
cpu_in-allowed s t cpu c none h = cc
cpu_in-allowed s t cpu c (some g) h = find_idlest_cpu-allowed s g t cpu c h

other_than-eq : (cpu c : ℕ) (o : Option ℕ) → other_than cpu o ≡ some c → o ≡ some c
other_than-eq cpu c none h = cc
other_than-eq cpu c (some d) h = ground arith

module _ (reciprocal_divide : ℕ → ℕ → ℕ) (lb_bias : Bool) (domains : ℕ → List SchedDomain)
    (flag : ℕ) (s : Sys) (t : ℕ) where
  target_in-Gives :
      (sd : SchedDomain) (cpu : ℕ)
      → IsIndexed sd
      → Gives (target_in reciprocal_divide lb_bias domains flag s t sd cpu)
  unfolding target_in find_idlest_group
  target_in-Gives sd cpu h = elim (Bool-cases (not (has_flag flag sd))) [
    | inl y ↦ rw y (_, refl)
    | inr n ↦ rw n (
        Gives->>= _ _ (find_idlest_group-Gives reciprocal_divide lb_bias s sd t cpu h)
          (λ g. (_, refl)))
  ]

  target_in-allowed :
      (sd : SchedDomain) (cpu c : ℕ)
      → target_in reciprocal_divide lb_bias domains flag s t sd cpu ≡ some (some c)
      → (s.task t).cpus_allowed c ≡ true
  unfolding target_in
  target_in-allowed sd cpu c h = elim (Bool-cases (not (has_flag flag sd))) [
    | inl y ↦ cc
    | inr n ↦
        let h1 = rw n at h in
        let (g, e, found) =
          >>=-eq-some (find_idlest_group reciprocal_divide lb_bias s sd t cpu) _ h1 in
        cpu_in-allowed s t cpu c g (other_than-eq cpu c _ (some-injective _ _ found))
  ]

  -- The cpu that it ends with is this one, or one that the task may use.
  abbrev MayEnd : ℕ → Option ℕ → Type 0
  MayEnd cpu r = (c : ℕ) × (r ≡ some c) × ((c ≡ cpu) ⊎ ((s.task t).cpus_allowed c ≡ true))

  balance_from-ends :
      (n : ℕ) (sds : List SchedDomain) (cpu : ℕ)
      → ((c : ℕ) → AllIn IsIndexed (domains c))
      → AllIn (IsBelow n) sds
      → MayEnd cpu (balance_from reciprocal_divide lb_bias domains flag s t n sds cpu)
  unfolding balance_from
  balance_from-ends n [] cpu ok a = (cpu, refl, inl refl)
  balance_from-ends zero (sd ∷ below) cpu ok ((b, i), a) = absurd (omega arith)
  balance_from-ends (suc n) (sd ∷ below) cpu ok ((b, i), a) =
      let (to, e) = target_in-Gives sd cpu i in
      elim (Option-cases to) [
        | inl z ↦
            let stay : target_in reciprocal_divide lb_bias domains flag s t sd cpu ≡ some none =
              e ∙ ap some z in
            rw stay (balance_from-ends (suc n) below cpu ok a)
        | inr (c, z) ↦
            let go : target_in reciprocal_divide lb_bias domains flag s t sd cpu ≡ some (some c) =
              e ∙ ap some z in
            let next = last_domain (not_smaller sd) flag [] [] (domains c) in
            let smaller : AllIn (IsBelow n) next =
              last_domain-AllIn IsIndexed (IsBelow n) (not_smaller sd) flag [] [] (domains c)
                (λ d i1 m. (ground arith, i1)) tt tt (ok c) in
            let (last, r, may) = balance_from-ends n next c ok smaller in
            let allowed = target_in-allowed sd cpu c go in
            rw go (
              last,
              r,
              inr (elim may [ inl same ↦ ap (s.task t).cpus_allowed same ∙ allowed | inr a1 ↦ a1 ]),
            )
      ]

widest-AllIn :
    (n : ℕ) (ds : List SchedDomain) → widest ds < n → AllIn IsIndexed ds → AllIn (IsBelow n) ds
widest-AllIn n [] h a = tt
widest-AllIn n (d ∷ ds) h (i, a) = ((ground arith, i), widest-AllIn n ds (ground arith) a)

module _ (reciprocal_divide : ℕ → ℕ → ℕ) (lb_bias : Bool) (domains : ℕ → List SchedDomain)
    (update_shares : SchedDomain → Sys → Sys) (flag : ℕ) (s : Sys) (t cpu : ℕ) where
  -- The end of `balance_domain`.
  abbrev Ends : Option (Sys × ℕ) → Type 0
  Ends r =
      (s1 : Sys) × (to : ℕ) × (r ≡ some (s1, to))
      × ((to ≡ cpu) ⊎ ((s1.task t).cpus_allowed to ≡ true))

  balance_domains-Ends :
      (sds : List SchedDomain)
      → ((c : ℕ) → AllIn IsIndexed (domains c))
      → AllIn IsIndexed sds
      → Ends (balance_domains reciprocal_divide lb_bias domains update_shares flag s t sds cpu)
  unfolding balance_domains
  balance_domains-Ends [] ok a = (s, cpu, refl, inl refl)
  balance_domains-Ends (sd ∷ below) ok a =
      let s1 = update_shares sd s in
      let n = widest (sd ∷ below) + 1 in
      let (to, e, may) =
        balance_from-ends reciprocal_divide lb_bias domains flag s1 t n (sd ∷ below) cpu ok
          (widest-AllIn n (sd ∷ below) (omega arith) a) in
      (s1, to, rw e refl, may)

-- `sched_balance_self` ends for every topology whose domains ask for loads that there are
-- (`forkexec_idx` of 5 at most), and it ends with the cpu that it started with or with one that the task
-- may use.
pub sched_balance_self-ends :
    (reciprocal_divide : ℕ → ℕ → ℕ) (lb_bias : Bool) (domains : ℕ → List SchedDomain)
    (update_shares : SchedDomain → Sys → Sys) (flag : ℕ) (s : Sys) (t cpu : ℕ)
    → ((c : ℕ) → AllIn IsIndexed (domains c))
    → (s1 : Sys) × (to : ℕ) × (sched_balance_self reciprocal_divide lb_bias domains update_shares
          flag s t cpu
        ≡ some (s1, to))
      × ((to ≡ cpu) ⊎ ((s1.task t).cpus_allowed to ≡ true))
unfolding sched_balance_self
sched_balance_self-ends reciprocal_divide lb_bias domains update_shares flag s t cpu ok =
    let sds = last_domain (has_flag sd_powersavings_balance) flag [] [] (domains cpu) in
    let indexed : AllIn IsIndexed sds =
      last_domain-AllIn IsIndexed IsIndexed (has_flag sd_powersavings_balance) flag [] []
        (domains cpu) (λ d i m. i) tt tt (ok cpu) in
    balance_domains-Ends reciprocal_divide lb_bias domains update_shares flag s t cpu sds ok indexed
