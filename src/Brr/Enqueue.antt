-- ===== src/Brr/Enqueue.antt =====
-- sched_brr.c, an entity enters and leaves its bucket and its queue.
use cmsc421prj.Base.{ℕ, Option, some, ◌>>=◌, if◌then◌else◌, inc32, dec32}
use cmsc421prj.Base.Int.{ℤ}
use cmsc421prj.State.Data.{Sys}
use cmsc421prj.State.Setters.{set_rtq, set_task}
use cmsc421prj.Rt.Entities.{rt_rq_of_se}
use cmsc421prj.Rt.Enqueue.{is_group_blocked, add_to_queue, take_off_queue}
use cmsc421prj.Rt.Walk.{dequeue_stack, enqueue_entity, dequeue_entity}
use cmsc421prj.Brr.Buckets.{bucket_to_add_to, bucket_index, put_bucket}

counts_of : Sys → ℕ → ℕ → ℕ
counts_of s q = (s.rtq q).buckets

-- `numInBucket[bucketToAddTo]++` and `p->bid = bucketToAddTo`.
unfoldable pub entered : Sys → ℕ → ℤ → ℕ → Sys
unfolding counts_of
entered s e bid i =
    let q = rt_rq_of_se s e in
    set_task (set_rtq s q (put_bucket (s.rtq q) i (inc32 (counts_of s q i)))) e
      (record (s.task e) { bid = bid })

unfoldable pub enter_bucket : Sys → ℕ → Option Sys
unfolding counts_of
enter_bucket s e =
    let bid = bucket_to_add_to (counts_of s (rt_rq_of_se s e)) (s.task e).bid in
    bucket_index bid >>= λ i. some (entered s e bid i)

-- `numInBucket[bucketToAddTo]--`
unfoldable pub left : Sys → ℕ → ℕ → Sys
unfolding counts_of
left s e i =
    let q = rt_rq_of_se s e in set_rtq s q (put_bucket (s.rtq q) i (dec32 (counts_of s q i)))

unfoldable pub leave_bucket : Sys → ℕ → Option Sys
leave_bucket s e = bucket_index (s.task e).bid >>= λ i. some (left s e i)

-- The bucket is entered before the test for a throttled group.
unfoldable pub enqueue_one_brr : Sys → ℕ → Option Sys
enqueue_one_brr s e =
    enter_bucket s e >>= λ s1. (if is_group_blocked s1 e then some s1 else add_to_queue s1 e)

unfoldable pub dequeue_one_brr : Sys → ℕ → Option Sys
dequeue_one_brr s e = leave_bucket s e >>= λ s1. take_off_queue s1 e

unfoldable pub dequeue_rt_stack_brr : Sys → ℕ → Option Sys
unfolding dequeue_one_brr dequeue_stack
dequeue_rt_stack_brr = dequeue_stack dequeue_one_brr

unfoldable pub enqueue_rt_entity_brr : Sys → ℕ → Option Sys
unfolding enqueue_one_brr dequeue_one_brr enqueue_entity
enqueue_rt_entity_brr = enqueue_entity dequeue_one_brr enqueue_one_brr

unfoldable pub dequeue_rt_entity_brr : Sys → ℕ → Option Sys
unfolding enqueue_one_brr dequeue_one_brr dequeue_entity
dequeue_rt_entity_brr = dequeue_entity dequeue_one_brr enqueue_one_brr
