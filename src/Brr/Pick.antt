-- ===== src/Brr/Pick.antt =====
-- sched_brr.c, the choice of the next task: the head of the queue, held against the next bucket.
use cmsc421prj.Base.{ℕ, zero, suc, Option, none, some, ◌>>=◌, if◌then◌else◌}
use cmsc421prj.Base.Int.{ℤ, eq_ℤ, minus_one}
use cmsc421prj.State.Data.{Sys}
use cmsc421prj.Rt.Pick.{descend, nothing_to_pick, start_exec, root_q, unpush}
use cmsc421prj.Brr.Buckets.{get_next_bucket_number}

-- `do { do … while (rt_rq); } while (p->bid != num)`. The inner loop leaves `rt_rq` null, so a second
-- round starts from a null pointer, at which `descend` faults.
unfoldable pub pick_until : ℕ → Sys → ℤ → Option ℕ → Option ℕ
pick_until zero s num q = none
pick_until (suc rounds) s num q = descend s.depth s q >>= λ p.
    (let again = pick_until rounds s num none in if eq_ℤ (s.task p).bid num then some p else again)

unfoldable pub pick_for : Sys → ℕ → ℤ → Option ℕ
pick_for s c num =
    if eq_ℤ num minus_one
    then descend s.depth s (some (root_q s c))
    else pick_until 2 s num (some (root_q s c))

-- `rq->curr->bid` is the bucket that runs now.
unfoldable pub pick_task_brr : Sys → ℕ → Option (Sys × Option ℕ)
pick_task_brr s c =
    if nothing_to_pick s c
    then some (s, none)
    else (get_next_bucket_number (s.rtq (root_q s c)).buckets (s.task (s.rq c).curr).bid >>= λ num.
        pick_for s c num >>= λ p. some (start_exec s c p, some p))

unfoldable pub pick_next_task_rt_brr : Sys → ℕ → Option (Sys × Option ℕ)
unfolding pick_task_brr
pick_next_task_rt_brr s c = unpush c (pick_task_brr s c)
