-- ===== src/Balance/Heaviest.antt =====
-- The busiest group of the statistics is the one with the greatest load of those that have more than
-- they can take.
use mathlib.Core.List.{Memᴰ}
use mathlib.Core.List.Memᴰ
use mathlib.Core.Option.{some-injective}
use mathlib.Core.Path.{subst}
use cmsc421prj.Base.{
  ℕ, Bool, true, false, Option, some, List, [], ◌∷◌, ◌≡◌, refl, ◌≤◌, ◌⊎◌, inl, inr, ltb,
  if◌then◌else◌, ◌>>=◌, >>=-eq-some, arith, Bool-cases, sym, ap, ◌∙◌, not, ◌||◌, ◌&&◌,
}
use cmsc421prj.State.Data.{Sys}
use cmsc421prj.Balance.{SchedGroup}
use cmsc421prj.Balance.Idlest.{member}
use cmsc421prj.Balance.Stats.{SdLbStats, SgLbStats, Call, Flags, is_false, update_sg_lb_stats}
use cmsc421prj.Balance.Busiest.{add_group, update_sd_power_savings_stats, sd_rounds}

-- A group with its statistics.
abbrev pub Measure : Type 0
Measure = SchedGroup × SgLbStats

-- A group has more tasks than it can take, or its cpus differ much.
abbrev pub is_overloaded : SgLbStats → Bool
is_overloaded m = ltb m.group_capacity m.sum_nr_running || m.group_imb

module _ (call : Call) where
  -- The statistics of the groups one after the other, up to a local one that is not to balance.
  abbrev pub measures : ℕ → Sys → Flags → List SchedGroup → Option (List Measure)
  measures load_idx s f [] = some []
  measures load_idx s f (g ∷ gs) =
      let local_group = member call.this_cpu g.cpus in
      update_sg_lb_stats call s g load_idx local_group f >>= λ (s1, f1, m).
      if local_group && is_false f1.balance
      then some []
      else (measures load_idx s1 f1 gs >>= λ ms. some ((g, m) ∷ ms))

  -- A measure of another group that is overloaded.
  pub record IsCandidate (m : Measure) : Type 0 where
    pub away : member call.this_cpu m.0.cpus ≡ false
    pub overloaded : is_overloaded m.1 ≡ true

  -- From `sds` to `sds'` the greatest load of the candidates among the measures has been found.
  pub record IsHeaviest (sds : SdLbStats) (ms : List Measure) (sds' : SdLbStats) : Type 0 where
    pub grows : sds.max_load ≤ sds'.max_load
    pub bound : (m : Measure) → Memᴰ m ms → IsCandidate m → m.1.avg_load ≤ sds'.max_load
    pub from :
        ((sds'.busiest ≡ sds.busiest) × (sds'.max_load ≡ sds.max_load))
        ⊎ ((m : Measure) × Memᴰ m ms
            × IsCandidate m
            × (sds'.busiest ≡ some m.0)
            × (m.1.avg_load ≡ sds'.max_load))

  IsHeaviest-nil : (sds : SdLbStats) → IsHeaviest sds [] sds
  IsHeaviest-nil sds = record {
    grows = omega arith;
    bound = λ m i c. absurd (Memᴰ.not-nil i);
    from = inl (refl, refl);
  }

  only : (g : SchedGroup) (m : SgLbStats) (h : Measure) → Memᴰ h ((g, m) ∷ []) → h ≡ (g, m)
  only g m h (Memᴰ.head e) = e
  only g m h (Memᴰ.tail i) = absurd (Memᴰ.not-nil i)

  add_group-IsHeaviest :
      (g : SchedGroup) (m : SgLbStats) (sds : SdLbStats)
      → IsHeaviest sds ((g, m) ∷ []) (add_group call g (member call.this_cpu g.cpus) m sds)
  unfolding add_group
  add_group-IsHeaviest g m sds = elim (Bool-cases (member call.this_cpu g.cpus)) [
    | inl y ↦ rw y (record {
      grows = omega arith;
      bound = λ h i c.
          let here : member call.this_cpu h.0.cpus ≡ true =
            ap (λ x. member call.this_cpu x.0.cpus) (only g m h i) ∙ y in
          absurd (ground (arith, here, c.away));
      from = inl (refl, refl);
    })
    | inr n ↦ elim (Bool-cases (ltb sds.max_load m.avg_load && is_overloaded m)) [
      | inl b ↦
          rw (n, b)
            (record {
              grows = ground arith;
              bound = λ h i c.
                  let same : h.1.avg_load ≡ m.avg_load = ap (λ x. x.1.avg_load) (only g m h i) in
                  omega (arith, same);
              from = inr (
                (g, m),
                Memᴰ.head refl,
                record { away = n; overloaded = ground arith },
                refl,
                refl,
              );
            })
      | inr b ↦
          rw (n, b)
            (record {
              grows = omega arith;
              bound = λ h i c.
                  let same : h.1.avg_load ≡ m.avg_load = ap (λ x. x.1.avg_load) (only g m h i) in
                  let over : is_overloaded m ≡ true =
                    ap (λ x. is_overloaded x.1) (sym (only g m h i)) ∙ c.overloaded in
                  ground (arith, same, over, b);
              from = inl (refl, refl);
            })
    ]
  ]

  -- One group after the others.
  IsHeaviest-cons :
      (h : Measure) (ms : List Measure) (s s1 s' : SdLbStats)
      → IsHeaviest s (h ∷ []) s1
      → IsHeaviest s1 ms s'
      → IsHeaviest s (h ∷ ms) s'
  IsHeaviest-cons h ms s s1 s' a b = record {
    grows = omega (arith, a.grows, b.grows);
    bound = λ m i c. elim i [
      | Memᴰ.head e ↦ omega (arith, a.bound m (Memᴰ.head e) c, b.grows)
      | Memᴰ.tail t ↦ b.bound m t c
    ];
    from = elim b.from [
      | inl (e, l) ↦ elim a.from [
        | inl (e2, l2) ↦ inl (e ∙ e2, l ∙ l2)
        | inr (m, i, c, e2, l2) ↦ inr (m, first i, c, e ∙ e2, l2 ∙ sym l)
      ]
      | inr (m, i, c, e, l) ↦ inr (m, Memᴰ.tail i, c, e, l)
    ];
  }
    where
      first : {m : Measure} → Memᴰ m (h ∷ []) → Memᴰ m (h ∷ ms)
      first (Memᴰ.head e) = Memᴰ.head e
      first (Memᴰ.tail i) = absurd (Memᴰ.not-nil i)

  -- Without saving power the other statistics of a round stay.
  pub saving-same :
      (g : SchedGroup) (local_group : Bool) (m : SgLbStats) (sds sds' : SdLbStats)
      → sds.power_savings_balance ≡ false
      → update_sd_power_savings_stats call g local_group m sds ≡ some sds'
      → sds ≡ sds'
  unfolding update_sd_power_savings_stats
  saving-same g local_group m sds sds' n h =
      let off : not sds.power_savings_balance ≡ true = ap not n in
      let h1 = rw off at h in some-injective sds sds' h1

  added-saving :
      (g : SchedGroup) (local_group : Bool) (m : SgLbStats) (sds : SdLbStats)
      → (add_group call g local_group m sds).power_savings_balance ≡ sds.power_savings_balance
  unfolding add_group
  added-saving g local_group m sds = ground arith

  measures-stop :
      (load_idx : ℕ) (g : SchedGroup) (gs : List SchedGroup) (s s1 : Sys) (f f1 : Flags)
      (m : SgLbStats)
      → update_sg_lb_stats call s g load_idx (member call.this_cpu g.cpus) f ≡ some (s1, f1, m)
      → (member call.this_cpu g.cpus && is_false f1.balance) ≡ true
      → measures load_idx s f (g ∷ gs) ≡ some []
  measures-stop load_idx g gs s s1 f f1 m e y = rw (e, y) refl

  measures-go :
      (load_idx : ℕ) (g : SchedGroup) (gs : List SchedGroup) (s s1 : Sys) (f f1 : Flags)
      (m : SgLbStats) (ms : List Measure)
      → update_sg_lb_stats call s g load_idx (member call.this_cpu g.cpus) f ≡ some (s1, f1, m)
      → (member call.this_cpu g.cpus && is_false f1.balance) ≡ false
      → measures load_idx s1 f1 gs ≡ some ms
      → measures load_idx s f (g ∷ gs) ≡ some ((g, m) ∷ ms)
  measures-go load_idx g gs s s1 f f1 m ms e n r = rw (e, n, r) refl

  pub sd_rounds-IsHeaviest :
      (load_idx : ℕ) (gs : List SchedGroup) (s s' : Sys) (f f' : Flags) (sds sds' : SdLbStats)
      → sds.power_savings_balance ≡ false
      → sd_rounds call load_idx s f sds gs ≡ some (s', f', sds')
      → (ms : List Measure) × (measures load_idx s f gs ≡ some ms) × IsHeaviest sds ms sds'
  unfolding sd_rounds
  sd_rounds-IsHeaviest load_idx [] s s' f f' sds sds' n h =
      let same : sds ≡ sds' = ap (λ x. x.2) (some-injective _ _ h) in
      ([], refl, subst (IsHeaviest sds []) same (IsHeaviest-nil sds))
  sd_rounds-IsHeaviest load_idx (g ∷ gs) s s' f f' sds sds' n h =
      let local_group = member call.this_cpu g.cpus in
      let ((s1, f1, m), e, h1) =
        >>=-eq-some (update_sg_lb_stats call s g load_idx local_group f) _ h in
      elim (Bool-cases (local_group && is_false f1.balance)) [
        | inl y ↦
            let h2 = rw y at h1 in
            let same : sds ≡ sds' = ap (λ x. x.2) (some-injective _ _ h2) in
            (
              [],
              measures-stop load_idx g gs s s1 f f1 m e y,
              subst (IsHeaviest sds []) same (IsHeaviest-nil sds),
            )
        | inr k ↦
            let h2 = rw k at h1 in
            let added = add_group call g local_group m sds in
            let (sds1, e1, h3) =
              >>=-eq-some (update_sd_power_savings_stats call g local_group m added) _ h2 in
            let off = added-saving g local_group m sds ∙ n in
            let same = saving-same g local_group m added sds1 off e1 in
            let here = subst (IsHeaviest sds ((g, m) ∷ [])) same (add_group-IsHeaviest g m sds) in
            let (ms, e2, rest) =
              sd_rounds-IsHeaviest load_idx gs s1 s' f1 f' sds1 sds'
                (ap (λ x. x.power_savings_balance) (sym same) ∙ off) h3 in
            (
              (g, m) ∷ ms,
              measures-go load_idx g gs s s1 f f1 m ms e k e2,
              IsHeaviest-cons (g, m) ms sds sds1 sds' here rest,
            )
      ]
