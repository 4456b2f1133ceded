-- ===== src/Fair/Matching.antt =====
-- Wakeup preemption of the fair class, sched_fair.c: the ancestors of two entities that compete.
pub mod Ends
pub mod Staying
use cmsc421prj.Base.{
  List, [], ◌∷◌, ℕ, zero, suc, ◌-◌, Bool, true, false, not, ◌&&◌, ◌||◌, Option, none, some, ◌>>=◌,
  ◌==◌, ltb, if◌then◌else◌, length,
}
use cmsc421prj.Base.Int.{pos, eq_ℤ}
use cmsc421prj.State.Data.{SchedClass, fair_class, rt_class, brr_class, idle_class}
use cmsc421prj.Rt.Entities.{rt_prio}
use cmsc421prj.Policy.{sched_idle, sched_normal}
use cmsc421prj.Fair.Data.{FairSys, set_cfs}
use cmsc421prj.Fair.Clock.{update_curr_fair}
use cmsc421prj.Fair.Slice.{parents, fair_hierarchy}
use cmsc421prj.Fair.Pick.{wakeup_preempt_entity}
use cmsc421prj.Fair.Tasks.{resched_curr}

unfoldable pub depth_se : FairSys → ℕ → Option ℕ
unfolding fair_hierarchy
depth_se s e = parents s e >>= λ es. some (length es)

-- `n` times `*se = parent_entity(*se)`; a null entity has no parent.
unfoldable pub climb : ℕ → FairSys → Option ℕ → Option (Option ℕ)
climb zero s o = some o
climb (suc n) s none = none
climb (suc n) s (some e) = climb n s (s.se e).parent

-- `while (!is_same_group(*se, *pse))`
unfoldable pub meet : ℕ → FairSys → Option ℕ → Option ℕ → Option (ℕ × ℕ)
meet fuel s none o = none
meet fuel s (some a) none = none
meet zero s (some a) (some b) = none
meet (suc fuel) s (some a) (some b) =
    let above = meet fuel s (s.se a).parent (s.se b).parent in
    if (s.se a).cfs_rq == (s.se b).cfs_rq then some (a, b) else above

-- One of the two differences is 0.
unfoldable pub find_matching_se : FairSys → ℕ → ℕ → Option (ℕ × ℕ)
unfolding depth_se climb meet
find_matching_se s a b = depth_se s a >>= λ m. depth_se s b >>= λ n.
    climb (m - n) s (some a) >>= λ a'. climb (n - m) s (some b) >>= λ b'. meet s.sys.depth s a' b'

set_last : FairSys → ℕ → ℕ → FairSys
set_last s q e = set_cfs s q (record (s.cfs q) { last = some e })

set_next : FairSys → ℕ → ℕ → FairSys
set_next s q e = set_cfs s q (record (s.cfs q) { next = some e })

buddies : (FairSys → ℕ → ℕ → FairSys) → FairSys → List ℕ → FairSys
buddies set s [] = s
buddies set s (e ∷ es) = buddies set (set s (s.se e).cfs_rq e) es

set_buddy : (FairSys → ℕ → ℕ → FairSys) → FairSys → ℕ → Option FairSys
unfolding buddies fair_hierarchy
set_buddy set s p =
    if (s.sys.task p).policy == sched_idle
    then some s
    else (parents s p >>= λ es. some (buddies set s es))

unfoldable pub set_last_buddy : FairSys → ℕ → Option FairSys
unfolding set_buddy set_last
set_last_buddy = set_buddy set_last

unfoldable pub set_next_buddy : FairSys → ℕ → Option FairSys
unfolding set_buddy set_next
set_next_buddy = set_buddy set_next

-- `while (se)`, up from the entities that compete.
unfoldable pub preempt_loop : ℕ → FairSys → ℕ → Option ℕ → Option ℕ → Option FairSys
unfolding wakeup_preempt_entity
preempt_loop fuel s c none o = some s
preempt_loop fuel s c (some a) none = none
preempt_loop zero s c (some a) (some b) = none
preempt_loop (suc fuel) s c (some a) (some b) =
    let (s', r) = wakeup_preempt_entity s a b in
    let rest = preempt_loop fuel s' c (s.se a).parent (s.se b).parent in
    if eq_ℤ r (pos 1) then some (resched_curr s' c) else rest

abbrev is_fair : SchedClass → Bool
is_fair fair_class = true
is_fair rt_class = false
is_fair brr_class = false
is_fair idle_class = false

-- Both entities sleep little.
abbrev overlaps : FairSys → ℕ → ℕ → Bool
overlaps s a b =
    ltb (s.se a).avg_overlap s.tunables.migration_cost
    && ltb (s.se b).avg_overlap s.tunables.migration_cost

-- From the tests on the policies on.
preempt_by_time : FairSys → ℕ → ℕ → ℕ → Bool → Option FairSys
unfolding find_matching_se preempt_loop
preempt_by_time s c curr p sync =
    if not s.tunables.wakeup_preempt
    then some s
    else (if s.tunables.wakeup_overlap && (sync || overlaps s curr p)
        then some (resched_curr s c)
        else (find_matching_se s curr p >>= λ (a, b).
            preempt_loop s.sys.depth s c (some a) (some b)))

preempt_by_policy : FairSys → ℕ → ℕ → ℕ → Bool → Option FairSys
unfolding preempt_by_time
preempt_by_policy s c curr p sync =
    if (s.sys.task curr).need_resched
    then some s
    else (if not ((s.sys.task p).policy == sched_normal)
        then some s
        else (if (s.sys.task curr).policy == sched_idle
            then some (resched_curr s c)
            else preempt_by_time s c curr p sync))

-- `idle` is the idle task of the cpu.
unfoldable pub check_preempt_wakeup : FairSys → ℕ → ℕ → Bool → ℕ → Option FairSys
unfolding update_curr_fair set_last_buddy set_next_buddy preempt_by_policy
check_preempt_wakeup s c p sync idle =
    let curr = (s.sys.rq c).curr in
    let s1 = update_curr_fair s (s.se curr).cfs_rq in
    if rt_prio (s1.sys.task p).prio
    then some (resched_curr s1 c)
    else (if not (is_fair (s1.sys.task p).sched_class) || curr == p
        then some s1
        else ((if s1.tunables.last_buddy && ((s1.sys.task curr).on_rq && not (curr == idle))
              then set_last_buddy s1 curr
              else some s1)
            >>= λ s2. set_next_buddy s2 p >>= λ s3. preempt_by_policy s3 c curr p sync))
