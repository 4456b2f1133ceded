-- ===== src/Brr/Faults.antt =====
-- Where enqueueing by sched_brr.c leaves its arrays.
use cmsc421prj.Base.{◌≢◌, ℕ, ◌<◌, ◌≤◌, ◌≡◌, refl, inl, inr, false, none, arith, Option-cases}
use cmsc421prj.Base.Int.{minus_one}
use cmsc421prj.State.Data.{Sys, max_rt_prio, max_brr_bucket}
use cmsc421prj.Rt.Entities.{rt_rq_of_se, rt_se_prio}
use cmsc421prj.Rt.Enqueue.{is_group_blocked, add_to_queue}
use cmsc421prj.Brr.Buckets.{bucket_index, bucket_to_add_to}
use cmsc421prj.Brr.Buckets.Search.{bucket_to_add_to-new}
use cmsc421prj.Brr.Enqueue.{entered, enqueue_one_brr}
use cmsc421prj.Brr.Counting.{enter_of_index, enter_of_none, buckets_of, new_bid, entered_keeps}

add_out_of_range : (s : Sys) (e : ℕ) → max_rt_prio ≤ rt_se_prio s e → add_to_queue s e ≡ none
unfolding add_to_queue
add_out_of_range s e h = ground arith

-- An entity that is no throttled or empty group cannot be enqueued by the BRR class at a priority of
-- MAX_RT_PRIO or more: the array of queues has no such element.
pub enqueue_one_brr_out_of_range :
    (s : Sys) (e : ℕ)
    → is_group_blocked s e ≡ false
    → max_rt_prio ≤ rt_se_prio s e
    → enqueue_one_brr s e ≡ none
unfolding enqueue_one_brr
enqueue_one_brr_out_of_range s e open_group h = elim (Option-cases (bucket_index (new_bid s e))) [
  | inl n ↦ rw (enter_of_none s e n) refl
  | inr (i, y) ↦
      let (c, w, b, p) = entered_keeps s e (new_bid s e) i in
      rw (enter_of_index s e i y, b, open_group)
        (add_out_of_range (entered s e (new_bid s e) i) e (rw p h))
]

full_index :
    (counts : ℕ → ℕ)
    → ((k : ℕ) → k < max_brr_bucket → counts k ≢ 0)
    → bucket_index (bucket_to_add_to counts minus_one) ≡ none
full_index counts used = elim (bucket_to_add_to-new counts) [
  | inl (i, b, lt, z, m) ↦ absurd (used i lt z)
  | inr (b, n, u) ↦ n
]

-- With every bucket of its runqueue in use, a task without a bucket cannot be enqueued: the search
-- leaves the index -1.
pub enqueue_one_brr_full :
    (s : Sys) (e : ℕ)
    → (s.task e).bid ≡ minus_one
    → ((k : ℕ) → k < max_brr_bucket → buckets_of s (rt_rq_of_se s e) k ≢ 0)
    → enqueue_one_brr s e ≡ none
unfolding enqueue_one_brr
enqueue_one_brr_full s e fresh used = rw (enter_of_none s e (rw fresh (full_index _ used))) refl
