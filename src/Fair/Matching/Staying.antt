-- ===== src/Fair/Matching/Staying.antt =====
-- The wakeup preemption of the fair class puts no task on a runqueue and takes none off.
use cmsc421prj.Base.{
  true, not, false, ◌&&◌, ◌||◌, if◌then◌else◌, Bool, sub64, List, [], ◌∷◌, ℕ, zero, suc, Option,
  none, some, ◌≡◌, refl, ◌==◌, Bool-cases, inl, inr, arith, ◌∙◌, >>=-eq-some, sym, ap,
}
use mathlib.Core.Option.{some-injective}
use cmsc421prj.Base.Int.{pos, eq_ℤ}
use cmsc421prj.Rt.Bandwidth.{resched_task, positive64}
use cmsc421prj.Policy.{sched_idle}
use cmsc421prj.Fair.Data.{FairSys}
use cmsc421prj.Fair.Clock.Staying.{update_curr_fair-Stays, Stays, calc_delta_fair-Stays}
use cmsc421prj.Fair.Slice.{parents}
use cmsc421prj.Fair.Pick.{wakeup_preempt_entity, wakeup_gran}
use cmsc421prj.Fair.Tasks.{resched_curr}
use cmsc421prj.Fair.Matching.{
  is_fair, find_matching_se, overlaps, rt_prio, sched_normal, update_curr_fair, preempt_by_time,
  preempt_by_policy, check_preempt_wakeup, set_last_buddy, set_next_buddy, set_buddy, set_last,
  set_next, buddies, preempt_loop,
}

pub resched_curr-Stays : (s : FairSys) (c p : ℕ) → Stays s (resched_curr s c) p
unfolding resched_task
resched_curr-Stays s c p = ground arith

-- Of a step that may fault.
abbrev pub StaysIf : FairSys → Option FairSys → ℕ → Type 0
StaysIf s o p = (s' : FairSys) → o ≡ some s' → Stays s s' p

pub done-StaysIf : (s s1 : FairSys) (p : ℕ) → Stays s s1 p → StaysIf s (some s1) p
done-StaysIf s s1 p k s' h = sym (ap (λ x. (x.sys.task p).on_rq) (some-injective s1 s' h)) ∙ k

StaysIf-then :
    (s s1 : FairSys) (o : Option FairSys) (p : ℕ) → Stays s s1 p → StaysIf s1 o p → StaysIf s o p
StaysIf-then s s1 o p a b s' h = b s' h ∙ a

buddies-Stays :
    (set : FairSys → ℕ → ℕ → FairSys) (p : ℕ)
    → ((s : FairSys) (q e : ℕ) → Stays s (set s q e) p)
    → (s : FairSys) (es : List ℕ) → Stays s (buddies set s es) p
unfolding buddies
buddies-Stays set p k s [] = refl
buddies-Stays set p k s (e ∷ es) =
    buddies-Stays set p k (set s (s.se e).cfs_rq e) es ∙ k s (s.se e).cfs_rq e

set_buddy-StaysIf :
    (set : FairSys → ℕ → ℕ → FairSys) (p : ℕ)
    → ((s : FairSys) (q e : ℕ) → Stays s (set s q e) p)
    → (s : FairSys) (e : ℕ) → StaysIf s (set_buddy set s e) p
unfolding set_buddy
set_buddy-StaysIf set p k s e s' h = elim (Bool-cases ((s.sys.task e).policy == sched_idle)) [
  | inl y ↦ done-StaysIf s s p refl s' (rw y at h)
  | inr n ↦
      let hr = rw n at h in
      let (es, f, g) = >>=-eq-some (parents s e) _ hr in
      done-StaysIf s (buddies set s es) p (buddies-Stays set p k s es) s' g
]

last-StaysIf : (s : FairSys) (e p : ℕ) → StaysIf s (set_last_buddy s e) p
unfolding set_last_buddy set_last
last-StaysIf s e p = set_buddy-StaysIf set_last p (λ x q d. refl) s e

next-StaysIf : (s : FairSys) (e p : ℕ) → StaysIf s (set_next_buddy s e) p
unfolding set_next_buddy set_next
next-StaysIf s e p = set_buddy-StaysIf set_next p (λ x q d. refl) s e

wakeup_preempt_entity-Stays : (s : FairSys) (a b p : ℕ) → Stays s (wakeup_preempt_entity s a b).0 p
unfolding wakeup_preempt_entity wakeup_gran
wakeup_preempt_entity-Stays s a b p =
    elim (Bool-cases (positive64 (sub64 (s.se a).vruntime (s.se b).vruntime))) [
      | inl y ↦ rw y (calc_delta_fair-Stays s _ _ p)
      | inr n ↦ rw n refl
    ]

preempt_loop-StaysIf :
    (fuel : ℕ) (s : FairSys) (c : ℕ) (a b : Option ℕ) (p : ℕ)
    → StaysIf s (preempt_loop fuel s c a b) p
unfolding preempt_loop
preempt_loop-StaysIf fuel s c none o p s' h = done-StaysIf s s p refl s' h
preempt_loop-StaysIf fuel s c (some a) none p s' h = ground arith
preempt_loop-StaysIf zero s c (some a) (some b) p s' h = ground arith
preempt_loop-StaysIf (suc fuel) s c (some a) (some b) p s' h =
    let (s1, r) = wakeup_preempt_entity s a b in
    let first = wakeup_preempt_entity-Stays s a b p in
    elim (Bool-cases (eq_ℤ r (pos 1))) [
      | inl y ↦
          done-StaysIf s (resched_curr s1 c) p (resched_curr-Stays s1 c p ∙ first) s' (rw y at h)
      | inr n ↦
          preempt_loop-StaysIf fuel s1 c (s.se a).parent (s.se b).parent p s' (rw n at h) ∙ first
    ]

pub branch-StaysIf :
    (s : FairSys) (b : Bool) (x y : Option FairSys) (p : ℕ)
    → StaysIf s x p
    → StaysIf s y p
    → StaysIf s (if b then x else y) p
branch-StaysIf s true x y p kx ky = kx
branch-StaysIf s false x y p kx ky = ky

pub resched-StaysIf : (s : FairSys) (c p : ℕ) → StaysIf s (some (resched_curr s c)) p
resched-StaysIf s c p = done-StaysIf s (resched_curr s c) p (resched_curr-Stays s c p)

preempt_by_time-StaysIf :
    (s : FairSys) (c curr e : ℕ) (sync : Bool) (p : ℕ)
    → StaysIf s (preempt_by_time s c curr e sync) p
unfolding preempt_by_time
preempt_by_time-StaysIf s c curr e sync p =
    branch-StaysIf s (not s.tunables.wakeup_preempt) (some s) _ p (done-StaysIf s s p refl) (
      branch-StaysIf s (s.tunables.wakeup_overlap && (sync || overlaps s curr e))
        (some (resched_curr s c)) _ p (resched-StaysIf s c p)
        (λ s' h.
          let (ab, f, g) = >>=-eq-some (find_matching_se s curr e) _ h in
          preempt_loop-StaysIf s.sys.depth s c (some ab.0) (some ab.1) p s' g))

preempt_by_policy-StaysIf :
    (s : FairSys) (c curr e : ℕ) (sync : Bool) (p : ℕ)
    → StaysIf s (preempt_by_policy s c curr e sync) p
unfolding preempt_by_policy
preempt_by_policy-StaysIf s c curr e sync p =
    let same = done-StaysIf s s p refl in
    branch-StaysIf s (s.sys.task curr).need_resched (some s) _ p same (
      branch-StaysIf s (not ((s.sys.task e).policy == sched_normal)) (some s) _ p same (
        branch-StaysIf s ((s.sys.task curr).policy == sched_idle) (some (resched_curr s c)) _ p
          (resched-StaysIf s c p) (preempt_by_time-StaysIf s c curr e sync p)))

-- The function `check_preempt_curr` of the class.
pub check_preempt_wakeup-StaysIf :
    (s : FairSys) (c e : ℕ) (sync : Bool) (idle p : ℕ)
    → StaysIf s (check_preempt_wakeup s c e sync idle) p
unfolding check_preempt_wakeup
check_preempt_wakeup-StaysIf s c e sync idle p =
    let curr = (s.sys.rq c).curr in
    let s1 = update_curr_fair s (s.se curr).cfs_rq in
    let first = update_curr_fair-Stays s (s.se curr).cfs_rq p in
    let last_test = s1.tunables.last_buddy && ((s1.sys.task curr).on_rq && not (curr == idle)) in
    let buddied =
      branch-StaysIf s1 last_test (set_last_buddy s1 curr) (some s1) p (last-StaysIf s1 curr p)
        (done-StaysIf s1 s1 p refl) in
    StaysIf-then s s1 _ p first (
      branch-StaysIf s1 (rt_prio (s1.sys.task e).prio) (some (resched_curr s1 c)) _ p
        (resched-StaysIf s1 c p)
        (branch-StaysIf s1 (not (is_fair (s1.sys.task e).sched_class) || curr == e) (some s1) _ p
          (done-StaysIf s1 s1 p refl)
          (λ s' h.
            let (s2, e2, h2) = >>=-eq-some _ _ h in
            let (s3, e3, h3) = >>=-eq-some (set_next_buddy s2 e) _ h2 in
            preempt_by_policy-StaysIf s3 c curr e sync p s' h3
            ∙ next-StaysIf s2 e p s3 e3
            ∙ buddied s2 e2)))
