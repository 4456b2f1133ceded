-- ===== src/Classes/Order.antt =====
-- The class of sched_brr.c behind that of sched_rt.c: both look at the same runqueue.
use cmsc421prj.Base.{
  ◌≢◌, ℕ, Bool-cases, ◌≡◌, refl, inl, inr, false, none, some, ◌>>=◌, Option-cases, Option, arith,
}
use cmsc421prj.State.Data.{Sys, rt_class, fair_class}
use cmsc421prj.Rt.Pick.{
  start_exec, nothing_to_pick, pick_task, unpush, pick_next_task_rt, descend, root_q,
}
use cmsc421prj.Brr.Pick.{pick_task_brr, pick_next_task_rt_brr}
use cmsc421prj.Classes.{brr_class, or_next, pick_from}

unpush-some : (s : Sys) (c p : ℕ) (s' : Sys) → unpush c (some (s, some p)) ≢ some (s', none)
unfolding unpush
unpush-some s c p s' h = ground arith

unpush-none : (c : ℕ) (r : Sys × Option ℕ) → unpush c none ≢ some r
unfolding unpush
unpush-none c r h = cc

unpush_quiet : (s s' : Sys) (c : ℕ) → unpush c (some (s, none)) ≡ some (s', none) → s' ≡ s
unfolding unpush
unpush_quiet s s' c h = ground arith

picks_a_task :
    (s s' : Sys) (c : ℕ) → nothing_to_pick s c ≡ false → pick_next_task_rt s c ≢ some (s', none)
unfolding pick_next_task_rt pick_task
picks_a_task s s' c n h = elim (Option-cases (descend s.depth s (some (root_q s c)))) [
  | inl e ↦ unpush-none c (s', none) (rw (n, e) at h)
  | inr (p, e) ↦ unpush-some (start_exec s c p) c p s' (rw (n, e) at h)
]

-- Where the real-time class finds no task, neither does the BRR class, for it has the same guards;
-- and neither changes the state.
pub pick_next_task_rt_brr-none :
    (s s' : Sys) (c : ℕ)
    → pick_next_task_rt s c ≡ some (s', none)
    → (s' ≡ s) × (pick_next_task_rt_brr s c ≡ some (s, none))
unfolding pick_next_task_rt pick_task pick_next_task_rt_brr pick_task_brr unpush
pick_next_task_rt_brr-none s s' c h = elim (Bool-cases (nothing_to_pick s c)) [
  | inl y ↦ (unpush_quiet s s' c (rw y at h), rw y refl)
  | inr n ↦ absurd (picks_a_task s s' c n h)
]

module _ (pick_fair pick_idle : Sys → ℕ → Option (Sys × Option ℕ)) (s : Sys) (c : ℕ) where
  after_rt :
      (r : Option (Sys × Option ℕ))
      → pick_next_task_rt s c ≡ r
      → (r >>= or_next (λ s'. pick_from pick_fair pick_idle 3 (some brr_class) s' c))
        ≡ (r >>= or_next (λ s'. pick_from pick_fair pick_idle 2 (some fair_class) s' c))
  unfolding pick_from
  after_rt none e = refl
  after_rt (some (s', some p)) e = refl
  after_rt (some (s', none)) e = let (y, b) = pick_next_task_rt_brr-none s s' c e in rw (y, b) refl

  -- The class of sched_brr.c is never the one that gives the next task: the walk over the classes
  -- has the result of the walk that goes from the real-time class to the fair class at once.
  pub pick_from-skips_brr : pick_from pick_fair pick_idle 4 (some rt_class) s c ≡ (
      pick_next_task_rt s c
      >>= or_next (λ s'. pick_from pick_fair pick_idle 2 (some fair_class) s' c))
  unfolding pick_from
  pick_from-skips_brr = after_rt (pick_next_task_rt s c) refl
