-- ===== src/Classes.antt =====
-- The scheduling classes in their order, sched.c: `pick_next_task`. What sched_fair.c and
-- sched_idletask.c pick are parameters.
pub mod Order
use cmsc421prj.Base.{
  zero, suc, suc, ℕ, Option, none, some, ◌>>=◌, ◌==◌, if◌then◌else◌, List, [], ◌∷◌, ◌≡◌, refl,
}
use cmsc421prj.State.Data.{Sys, SchedClass, rt_class, brr_class, fair_class, idle_class}
use cmsc421prj.Rt.Pick.{pick_next_task_rt}
use cmsc421prj.Brr.Pick.{pick_next_task_rt_brr}

-- `class->next`
unfoldable pub next_class : SchedClass → Option SchedClass
next_class rt_class = some brr_class
next_class brr_class = some fair_class
next_class fair_class = some idle_class
next_class idle_class = none

-- A task ends the loop; without one it goes on, and past the last class it calls through null.
abbrev pub or_next : (Sys → Option (Sys × Option ℕ)) → Sys × Option ℕ → Option (Sys × Option ℕ)
or_next rest (s, some p) = some (s, some p)
or_next rest (s, none) = rest s

module _ (pick_fair pick_idle : Sys → ℕ → Option (Sys × Option ℕ)) where
  unfoldable pub pick_by : SchedClass → Sys → ℕ → Option (Sys × Option ℕ)
  pick_by rt_class s c = pick_next_task_rt s c
  pick_by brr_class s c = pick_next_task_rt_brr s c
  pick_by fair_class s c = pick_fair s c
  pick_by idle_class s c = pick_idle s c

  -- The loop over the classes from `class` on; there are four of them.
  unfoldable pub pick_from : ℕ → Option SchedClass → Sys → ℕ → Option (Sys × Option ℕ)
  unfolding pick_by next_class
  pick_from fuel none s c = none
  pick_from zero (some class) s c = none
  pick_from (suc fuel) (some class) s c =
      pick_by class s c >>= or_next (λ s'. pick_from fuel (next_class class) s' c)

  unfoldable pub pick_next_task : Sys → ℕ → Option (Sys × Option ℕ)
  unfolding pick_from
  pick_next_task s c =
      if (s.rq c).nr_running == (s.rq c).cfs_nr_running
      then (pick_fair s c >>= or_next (λ s'. pick_from 4 (some rt_class) s' c))
      else pick_from 4 (some rt_class) s c
