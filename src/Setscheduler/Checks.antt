-- ===== src/Setscheduler/Checks.antt =====
-- What the checks of `__sched_setscheduler` let through.
use cmsc421prj.Base.{inl, zero, inr, ◌⊎◌, suc, ℕ, ◌<◌, ◌≤◌, ◌≡◌, ◌≢◌, ◌↔◌, refl, true, arith}
use cmsc421prj.Base.Int.{ℤ, pos, negsuc}
use cmsc421prj.State.Data.{Sys, Task, max_rt_prio}
use cmsc421prj.Policy.{sched_brr, rt_policy, einval, sched_get_priority_min}
use cmsc421prj.Setscheduler.{
  is_unknown, Caller, requested_policy, is_policy, check_user, setscheduler_check,
}

-- A request for SCHED_BRR with a priority other than 0, above or below it, is refused with EINVAL,
-- whoever makes it and for whatever task; but the least priority that `sched_get_priority_min` gives
-- for SCHED_BRR is 1.
pub setscheduler_check-brr :
    (s : Sys) (p : Task) (caller : Caller) (prio bucket : ℤ)
    → prio ≢ pos 0
    → (setscheduler_check s p caller
          (pos sched_brr)
          (record { sched_priority = prio; bucket_id = bucket })
        ≡ einval)
      × (sched_get_priority_min sched_brr ≡ pos 1)
unfolding setscheduler_check is_unknown requested_policy sched_get_priority_min is_policy rt_policy
setscheduler_check-brr s p caller (pos zero) bucket ne = absurd (ne refl)
setscheduler_check-brr s p caller (pos (suc n)) bucket ne = (ground arith, refl)
setscheduler_check-brr s p caller (negsuc n) bucket ne = (refl, refl)

-- A request that the checks let through names a policy that there is or, if it is negative, keeps the
-- one that the task has; and it has a priority from 0 to MAX_RT_PRIO - 1, which is 0 just when the
-- policy that the task is to have is not a real-time one.
pub setscheduler_check-ok :
    (s : Sys) (p : Task) (caller : Caller) (wanted bucket : ℤ) (prio : ℤ)
    → setscheduler_check s p caller wanted (record { sched_priority = prio; bucket_id = bucket })
      ≡ pos 0
    → (((k : ℕ) × (wanted ≡ negsuc k) × (requested_policy p wanted ≡ p.policy))
        ⊎ ((k : ℕ) × (wanted ≡ pos k) × (requested_policy p wanted ≡ k) × (is_policy k ≡ true)))
      × ((n : ℕ) × (prio ≡ pos n)
          × (n < max_rt_prio)
          × ((rt_policy (requested_policy p wanted) ≡ true) ↔ (n ≢ 0)))
unfolding setscheduler_check is_unknown requested_policy
setscheduler_check-ok s p caller (pos k) bucket (pos n) h = (
  inr (k, refl, refl, ground arith),
  (n, refl, ground arith, ((λ r z. ground arith), λ z. ground arith)),
)
setscheduler_check-ok s p caller (negsuc k) bucket (pos n) h =
    (inl (k, refl, refl), (n, refl, ground arith, ((λ r z. ground arith), λ z. ground arith)))
setscheduler_check-ok s p caller (pos k) bucket (negsuc n) h = ground arith
setscheduler_check-ok s p caller (negsuc k) bucket (negsuc n) h = ground arith

-- A caller without privilege whose request for a real-time policy is let through, with a priority
-- above that of the task, owns the task, and asks for no more than its limit RLIMIT_RTPRIO.
pub setscheduler_check-rlimit :
    (s : Sys) (p : Task) (caller : Caller) (wanted bucket : ℤ) (n : ℕ)
    → caller.user ≡ true
    → rt_policy (requested_policy p wanted) ≡ true
    → p.rt_priority < n
    → setscheduler_check s p caller wanted (record { sched_priority = pos n; bucket_id = bucket })
      ≡ pos 0
    → (n ≤ p.rlim_rtprio) × (caller.same_owner ≡ true)
unfolding setscheduler_check check_user
setscheduler_check-rlimit s p caller wanted bucket n u rt more h = ground arith
