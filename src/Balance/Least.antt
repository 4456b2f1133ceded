-- ===== src/Balance/Least.antt =====
-- Which cpu `find_idlest_cpu` chooses.
use mathlib.Core.Option.{some-injective}
use cmsc421prj.Base.{
  sym, ap, ◌∙◌, ◌&&◌, ◌||◌, ℕ, Bool, true, false, List, [], ◌∷◌, ◌≡◌, refl, ◌≤◌, ◌<◌, ◌≢◌, ◌⊎◌, inl,
  inr, Option, none, some, Bool-cases, ltb, ◌==◌, arith,
}
use cmsc421prj.State.Data.{Sys}
use cmsc421prj.Balance.{SchedGroup}
use cmsc421prj.Balance.Loads.{weighted_cpuload}
use cmsc421prj.Balance.Idlest.{idlest_from, find_idlest_cpu, member, ulong_max}

module _ (s : Sys) (allowed : ℕ → Bool) (this_cpu : ℕ) where
  -- What the loop gives from `min_load` and `idlest` on: the least load, and a cpu that has it.
  record IsChosen (min_load : ℕ) (idlest : Option ℕ) (cs : List ℕ) (to : Option ℕ) : Type 0 where
    least : ℕ
    from :
        ((to ≡ idlest) × (least ≡ min_load))
        ⊎ ((c : ℕ) × (to ≡ some c)
            × (member c cs ≡ true)
            × (allowed c ≡ true)
            × (weighted_cpuload s c ≡ least))
    at_most : least ≤ min_load
    bound : (d : ℕ) → member d cs ≡ true → allowed d ≡ true → least ≤ weighted_cpuload s d
    own :
        member this_cpu cs ≡ true
        → allowed this_cpu ≡ true
        → weighted_cpuload s this_cpu ≡ least
        → to ≡ some this_cpu
    keeps : idlest ≡ some this_cpu → least ≡ min_load → to ≡ some this_cpu

  -- The cpu is the first one, or among the others.
  member-cases : (d c : ℕ) (cs : List ℕ) → member d (c ∷ cs) ≡ true → (d ≡ c) ⊎ (member d cs ≡ true)
  member-cases d c cs m = elim (Bool-cases (d == c)) [
    | inl y ↦ inl (ground arith)
    | inr n ↦ inr (ground arith)
  ]

  member-later : (d c : ℕ) (cs : List ℕ) → member d cs ≡ true → member d (c ∷ cs) ≡ true
  member-later d c cs m = ground arith

  member-first : (c : ℕ) (cs : List ℕ) → member c (c ∷ cs) ≡ true
  member-first c cs = ground arith

  module _ (min_load c : ℕ) (idlest to : Option ℕ) (cs : List ℕ) where
    IsChosen-taken :
        allowed c ≡ true
        → (weighted_cpuload s c < min_load) ⊎ ((weighted_cpuload s c ≡ min_load) × (c ≡ this_cpu))
        → IsChosen (weighted_cpuload s c) (some c) cs to
        → IsChosen min_load idlest (c ∷ cs) to
    IsChosen-taken a less r = record {
      least = r.least;
      from = inr (elim r.from [
        | inl (t, e) ↦ (c, t, member-first c cs, a, sym e)
        | inr (d, t, m, b, e) ↦ (d, t, member-later d c cs m, b, e)
      ]);
      at_most = elim less [ inl l ↦ omega (arith, r.at_most) | inr l ↦ omega (arith, r.at_most) ];
      bound = λ d m b. elim (member-cases d c cs m) [
        | inl e ↦ rw e r.at_most
        | inr later ↦ r.bound d later b
      ];
      own = λ m b e. elim (member-cases this_cpu c cs m) [
        | inl same ↦ r.keeps (ap some (sym same)) (sym e ∙ ap (weighted_cpuload s) same)
        | inr later ↦ r.own later b e
      ];
      keeps = λ i e. elim less [
        | inl l ↦ absurd (omega (arith, r.at_most))
        | inr (l, same) ↦ r.keeps (ap some same) (e ∙ sym l)
      ];
    }

    IsChosen-passed :
        (allowed c ≡ true
          → (min_load ≤ weighted_cpuload s c) × (weighted_cpuload s c ≡ min_load → c ≢ this_cpu))
        → IsChosen min_load idlest cs to
        → IsChosen min_load idlest (c ∷ cs) to
    IsChosen-passed more r = record {
      least = r.least;
      from = elim r.from [
        | inl same ↦ inl same
        | inr (d, t, m, b, e) ↦ inr (d, t, member-later d c cs m, b, e)
      ];
      at_most = r.at_most;
      bound = λ d m b. elim (member-cases d c cs m) [
        | inl e ↦
            let a : allowed c ≡ true = ap allowed (sym e) ∙ b in
            rw e (omega (arith, r.at_most, (more a).0))
        | inr later ↦ r.bound d later b
      ];
      own = λ m b e. elim (member-cases this_cpu c cs m) [
        | inl same ↦
            let a : allowed c ≡ true = ap allowed (sym same) ∙ b in
            let own_load : weighted_cpuload s c ≡ r.least =
              ap (weighted_cpuload s) (sym same) ∙ e in
            absurd ((more a).1 (omega (arith, r.at_most, (more a).0)) (sym same))
        | inr later ↦ r.own later b e
      ];
      keeps = r.keeps;
    }

  idlest_from-IsChosen :
      (min_load : ℕ) (idlest : Option ℕ) (cs : List ℕ)
      → IsChosen min_load idlest cs (idlest_from s allowed this_cpu min_load idlest cs)
  unfolding idlest_from
  idlest_from-IsChosen min_load idlest [] = record {
    least = min_load;
    from = inl (refl, refl);
    at_most = omega arith;
    bound = λ d m a. cc;
    own = λ m a e. cc;
    keeps = λ i e. i;
  }
  idlest_from-IsChosen min_load idlest (c ∷ cs) =
      let load = weighted_cpuload s c in
      let better = ltb load min_load || load == min_load && c == this_cpu in
      elim (Bool-cases (allowed c && better)) [
        | inl y ↦ rw y (
            IsChosen-taken min_load c idlest _ cs (ground arith) (ground arith)
              (idlest_from-IsChosen load (some c) cs))
        | inr n ↦ rw n (
            IsChosen-passed min_load c idlest _ cs (λ a. (ground arith, λ e f. ground arith))
              (idlest_from-IsChosen min_load idlest cs))
      ]

-- `c` is a cpu of the group that task `p` may use and that has the least load of these.
pub record IsIdlest (s : Sys) (group : SchedGroup) (p this_cpu c : ℕ) : Type 0 where
  pub in_group : member c group.cpus ≡ true
  pub allowed : (s.task p).cpus_allowed c ≡ true
  pub least :
      (d : ℕ)
      → member d group.cpus ≡ true
      → (s.task p).cpus_allowed d ≡ true
      → weighted_cpuload s c ≤ weighted_cpuload s d
  pub prefers_own :
      member this_cpu group.cpus ≡ true
      → (s.task p).cpus_allowed this_cpu ≡ true
      → weighted_cpuload s this_cpu ≡ weighted_cpuload s c
      → c ≡ this_cpu

-- `find_idlest_cpu` chooses a cpu of the group that the task may use and whose load is the least of
-- these, this cpu if it is one of them with that load; it chooses none only if the task may use no cpu
-- of the group. No load is ULONG_MAX.
pub find_idlest_cpu-IsIdlest :
    (s : Sys) (group : SchedGroup) (p this_cpu : ℕ)
    → ((d : ℕ) → weighted_cpuload s d < ulong_max)
    → ((c : ℕ) × (find_idlest_cpu s group p this_cpu ≡ some c) × IsIdlest s group p this_cpu c)
      ⊎ ((find_idlest_cpu s group p this_cpu ≡ none)
          × ((d : ℕ) → member d group.cpus ≡ true → (s.task p).cpus_allowed d ≡ false))
unfolding find_idlest_cpu
find_idlest_cpu-IsIdlest s group p this_cpu below =
    let allowed = (s.task p).cpus_allowed in
    let r = idlest_from-IsChosen s allowed this_cpu ulong_max none group.cpus in
    elim r.from [
      | inl (t, e) ↦ inr (
        t,
        λ d m. elim (Bool-cases (allowed d)) [
          | inl a ↦ absurd (omega (arith, r.bound d m a, e, below d))
          | inr n ↦ n
        ],
      )
      | inr (c, t, m, a, e) ↦ inl (
        c,
        t,
        record {
          in_group = m;
          allowed = a;
          least = λ d md ad. rw e (r.bound d md ad);
          prefers_own = λ mt at et. some-injective c this_cpu (sym t ∙ r.own mt at (et ∙ e));
        },
      )
    ]

pub find_idlest_cpu-allowed :
    (s : Sys) (group : SchedGroup) (p this_cpu c : ℕ)
    → find_idlest_cpu s group p this_cpu ≡ some c
    → (s.task p).cpus_allowed c ≡ true
unfolding find_idlest_cpu
find_idlest_cpu-allowed s group p this_cpu c h =
    let allowed = (s.task p).cpus_allowed in
    let r = idlest_from-IsChosen s allowed this_cpu ulong_max none group.cpus in
    elim r.from [
      | inl (t, e) ↦ cc
      | inr (d, t, m, a, e) ↦ ap allowed (some-injective c d (sym h ∙ t)) ∙ a
    ]
