-- ===== src/Brr/Choice.antt =====
-- The choice of sched_brr.c against that of sched_rt.c.
use cmsc421prj.Base.{
  Bool, true, false, Bool-cases, inl, inr, ◌||◌, ℕ, ◌≡◌, refl, none, some, Option, if◌then◌else◌,
  ◌>>=◌,
}
use cmsc421prj.Base.Int.{ℤ, eq_ℤ, minus_one}
use cmsc421prj.State.Data.{Sys}
use cmsc421prj.Rt.Pick.{start_exec, descend, nothing_to_pick, pick_task, root_q}
use cmsc421prj.Brr.Buckets.{get_next_bucket_number}
use cmsc421prj.Brr.Pick.{pick_until, pick_for, pick_task_brr}

-- The task that the real-time class would pick, if any.
abbrev pub front : Sys → ℕ → Option ℕ
front s c = descend s.depth s (some (root_q s c))

pick_for_lem :
    (s : Sys) (c p : ℕ) (num : ℤ)
    → front s c ≡ some p
    → pick_for s c num ≡ (if eq_ℤ num minus_one || eq_ℤ (s.task p).bid num then some p else none)
unfolding pick_for pick_until descend
pick_for_lem s c p num picked =
    rw picked (elim (Bool-cases (eq_ℤ num minus_one)) [ inl y ↦ rw y refl | inr n ↦ rw n refl ])

started : Sys → ℕ → Option ℕ → Option (Sys × Option ℕ)
started s c picked = picked >>= λ p. some (start_exec s c p, some p)

started_if :
    (s : Sys) (c p : ℕ) (b : Bool)
    → started s c (if b then some p else none) ≡ (if b then started s c (some p) else none)
unfolding started
started_if s c p true = refl
started_if s c p false = refl

-- With a task to run and the next bucket `num` found, `_pick_next_task_rt_brr` takes the very task
-- that `_pick_next_task_rt` takes if `num` is -1 or the bucket of that task; otherwise its loop goes
-- round a second time with a null runqueue, and faults. It never picks any other task.
pub pick_task_brr_lem :
    (s : Sys) (c p : ℕ) (num : ℤ)
    → nothing_to_pick s c ≡ false
    → get_next_bucket_number (s.rtq (root_q s c)).buckets (s.task (s.rq c).curr).bid ≡ some num
    → front s c ≡ some p
    → pick_task_brr s c
      ≡ (if eq_ℤ num minus_one || eq_ℤ (s.task p).bid num then pick_task s c else none)
unfolding pick_task_brr pick_task started
pick_task_brr_lem s c p num busy found picked =
    rw (busy, found, pick_for_lem s c p num picked, picked) (started_if s c p _)
