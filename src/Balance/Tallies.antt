-- ===== src/Balance/Tallies.antt =====
-- The tallies of loads give a result where the loads asked for are there.
use cmsc421prj.Base.{
  ◌-◌, not, not, ◌-◌, ℕ, Bool, true, false, List, [], ◌∷◌, ◌≡◌, refl, ◌≤◌, inl, inr, Option, none,
  some, Bool-cases, ltb, ◌==◌, arith, ◌>>=◌,
}
use cmsc421prj.State.Data.{Sys}
use cmsc421prj.Balance.{SchedDomain, SchedGroup}
use cmsc421prj.Balance.Loads.{source_load, target_load, cpu_load_idx_max}
use cmsc421prj.Balance.Idlest.{
  find_idlest_group, intersects, tally, group_load, idlest_round, idlest_rounds, Idlest,
}

-- A step that gives something.
abbrev pub Gives : {A : Type 0} → Option A → Type 0
Gives {A = A} m = (a : A) × (m ≡ some a)

pub Gives->>= :
    {A B : Type 0} (m : Option A) (f : A → Option B)
    → Gives m
    → ((a : A) → Gives (f a))
    → Gives (m >>= f)
Gives->>= none f (a, e) h = cc
Gives->>= (some a) f (b, e) h = h a

-- An entry of `cpu_load` is in range.
in_range :
    (type : ℕ)
    → (type == 0) ≡ false
    → type ≤ cpu_load_idx_max
    → ltb (type - 1) cpu_load_idx_max ≡ true
in_range type n h = ground arith

module _ (lb_bias : Bool) (s : Sys) where
  source_load-Gives : (c type : ℕ) → type ≤ cpu_load_idx_max → Gives (source_load lb_bias s c type)
  unfolding source_load
  source_load-Gives c type h = elim (Bool-cases (type == 0)) [
    | inl z ↦ rw z (_, refl)
    | inr n ↦ elim (Bool-cases (not lb_bias)) [
      | inl u ↦ rw (n, u) (_, refl)
      | inr b ↦ rw (n, b, in_range type n h) (_, refl)
    ]
  ]

  target_load-Gives : (c type : ℕ) → type ≤ cpu_load_idx_max → Gives (target_load lb_bias s c type)
  unfolding target_load
  target_load-Gives c type h = elim (Bool-cases (type == 0)) [
    | inl z ↦ rw z (_, refl)
    | inr n ↦ elim (Bool-cases (not lb_bias)) [
      | inl u ↦ rw (n, u) (_, refl)
      | inr b ↦ rw (n, b, in_range type n h) (_, refl)
    ]
  ]

module _ (reciprocal_divide : ℕ → ℕ → ℕ) (lb_bias : Bool) (s : Sys) (load_idx : ℕ)
    (h : load_idx ≤ cpu_load_idx_max) where
  tally-Gives :
      (local_group : Bool) (cs : List ℕ) (sum : ℕ)
      → Gives (tally reciprocal_divide lb_bias s local_group load_idx cs sum)
  unfolding tally
  tally-Gives local_group [] sum = (sum, refl)
  tally-Gives true (c ∷ cs) sum =
      Gives->>= _ _ (source_load-Gives lb_bias s c load_idx h) (λ l. tally-Gives true cs _)
  tally-Gives false (c ∷ cs) sum =
      Gives->>= _ _ (target_load-Gives lb_bias s c load_idx h) (λ l. tally-Gives false cs _)

  module _ (allowed : ℕ → Bool) (this_cpu : ℕ) where
    idlest_round-Gives :
        (i : Idlest reciprocal_divide lb_bias s) (g : SchedGroup)
        → Gives (idlest_round reciprocal_divide lb_bias s load_idx allowed this_cpu i g)
    unfolding idlest_round group_load
    idlest_round-Gives i g = elim (Bool-cases (not (intersects g.cpus allowed))) [
      | inl y ↦ rw y (_, refl)
      | inr n ↦
          rw n (
            Gives->>= _ _ (Gives->>= _ _ (tally-Gives _ g.cpus 0) (λ t. (_, refl)))
              (λ l. (_, refl)))
    ]

    pub idlest_rounds-Gives :
        (i : Idlest reciprocal_divide lb_bias s) (gs : List SchedGroup)
        → Gives (idlest_rounds reciprocal_divide lb_bias s load_idx allowed this_cpu i gs)
    unfolding idlest_rounds
    idlest_rounds-Gives i [] = (i, refl)
    idlest_rounds-Gives i (g ∷ gs) =
        Gives->>= _ _ (idlest_round-Gives i g) (λ j. idlest_rounds-Gives j gs)

-- The loads that the domains ask for are there.
abbrev pub IsIndexed : SchedDomain → Type 0
IsIndexed d = d.forkexec_idx ≤ cpu_load_idx_max

pub find_idlest_group-Gives :
    (reciprocal_divide : ℕ → ℕ → ℕ) (lb_bias : Bool) (s : Sys) (sd : SchedDomain) (t cpu : ℕ)
    → IsIndexed sd
    → Gives (find_idlest_group reciprocal_divide lb_bias s sd t cpu)
unfolding find_idlest_group
find_idlest_group-Gives reciprocal_divide lb_bias s sd t cpu h =
    Gives->>= _ _
      (idlest_rounds-Gives reciprocal_divide lb_bias s sd.forkexec_idx h (s.task t).cpus_allowed cpu
        _ (sd.first ∷ sd.others))
      (λ i. (_, refl))
