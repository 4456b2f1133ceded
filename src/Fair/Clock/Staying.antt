-- ===== src/Fair/Clock/Staying.antt =====
-- The bookkeeping of the fair class puts no task on a runqueue and takes none off.
use cmsc421prj.Base.{
  sub64, ℕ, Option, none, some, ◌≡◌, refl, ◌==◌, Bool-cases, inl, inr, arith, ◌∙◌,
}
use cmsc421prj.Fair.Data.{FairSys}
use cmsc421prj.Fair.Weight.{calc_delta_fair, nice_0_load}
use cmsc421prj.Fair.Clock.{
  update_curr_fair, charge_curr, update_curr_by, update_min_vruntime, clock_of, ran, start_at,
}

-- Task `p` is on its runqueue after as before.
abbrev pub Stays : FairSys → FairSys → ℕ → Type 0
Stays s s' p = (s'.sys.task p).on_rq ≡ (s.sys.task p).on_rq

pub calc_delta_fair-Stays : (s : FairSys) (d e p : ℕ) → Stays s (calc_delta_fair s d e).0 p
unfolding calc_delta_fair
calc_delta_fair-Stays s d e p = elim (Bool-cases ((s.sys.task e).weight == nice_0_load)) [
  | inl y ↦ rw y refl
  | inr n ↦ rw n (ground arith)
]

ran-Stays : (s : FairSys) (e d p : ℕ) → Stays s (ran s e d) p
ran-Stays s e d p = ground arith

start_at-Stays : (s : FairSys) (e now p : ℕ) → Stays s (start_at s e now) p
start_at-Stays s e now p = ground arith

update_curr_by-Stays : (s : FairSys) (q e d p : ℕ) → Stays s (update_curr_by s q e d) p
unfolding update_curr_by update_min_vruntime
update_curr_by-Stays s q e d p = calc_delta_fair-Stays (ran s e d) d e p ∙ ran-Stays s e d p

charge_curr-Stays : (s : FairSys) (q : ℕ) (o : Option ℕ) (p : ℕ) → Stays s (charge_curr s q o) p
unfolding charge_curr
charge_curr-Stays s q none p = refl
charge_curr-Stays s q (some e) p =
    let delta = sub64 (clock_of s q) (s.sys.task e).exec_start in
    elim (Bool-cases (delta == 0)) [
      | inl y ↦ rw y refl
      | inr n ↦ rw n (
          start_at-Stays (update_curr_by s q e delta) e (clock_of s q) p
          ∙ update_curr_by-Stays s q e delta p)
    ]

pub update_curr_fair-Stays : (s : FairSys) (q p : ℕ) → Stays s (update_curr_fair s q) p
unfolding update_curr_fair
update_curr_fair-Stays s q p = charge_curr-Stays s q (s.cfs q).curr p
