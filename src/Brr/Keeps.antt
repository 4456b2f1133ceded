-- ===== src/Brr/Keeps.antt =====
-- The functions of sched_brr.c on one entity keep the invariant of the priority arrays.
use mathlib.Core.Option.{some-injective}
use cmsc421prj.Base.{◌∙◌, ◌<◌, ℕ, ◌≡◌, refl, sym, some, >>=-eq-some, guarded, arith}
use cmsc421prj.Rt.Entities.{rt_se_prio}
use cmsc421prj.Brr.Buckets.{bucket_index}
use cmsc421prj.Base.Int.{ℤ}
use cmsc421prj.State.Data.{max_rt_prio, Sys}
use cmsc421prj.Rt.Enqueue.{dequeue_one, enqueue_one, is_group_blocked, add_to_queue}
use cmsc421prj.Rt.Core.{core}
use cmsc421prj.Rt.Keeps.{
  enqueue_one-some, dequeue_one-some, AllValid, HasRoom, IsQueued, add_to_queue-AllValid,
  take_off_queue-AllValid,
}
use cmsc421prj.Brr.Enqueue.{
  entered, left, enter_bucket, leave_bucket, enqueue_one_brr, dequeue_one_brr,
}
use cmsc421prj.Brr.Counting.{enter_of_index, new_bid, entered_of, entered_keeps}

entered-AllValid : (s : Sys) (e : ℕ) (bid : ℤ) (i : ℕ) → AllValid s → AllValid (entered s e bid i)
entered-AllValid s e bid i v j = rw ((entered_keeps s e bid i).0 j) (v j)

entered-HasRoom : (s : Sys) (e : ℕ) (bid : ℤ) (i : ℕ) → HasRoom s e → HasRoom (entered s e bid i) e
unfolding entered
entered-HasRoom s e bid i h = ground arith

enqueue_one_brr-AllValid :
    (s s' : Sys) (e : ℕ) → AllValid s → HasRoom s e → enqueue_one_brr s e ≡ some s' → AllValid s'
unfolding enqueue_one_brr
enqueue_one_brr-AllValid s s' e v room h =
    let (s1, f, g) = >>=-eq-some (enter_bucket s e) _ h in
    let (i, y, z) = entered_of s s1 e f in
    let w : AllValid s1 = rw z (entered-AllValid s e (new_bid s e) i v) in
    let r : HasRoom s1 e = rw z (entered-HasRoom s e (new_bid s e) i room) in
    guarded AllValid s1 s' (is_group_blocked s1 e) (add_to_queue s1 e) g w
      (add_to_queue-AllValid s1 s' e w r)

left-core : (s : Sys) (e i j : ℕ) → core ((left s e i).rtq j) ≡ core (s.rtq j)
unfolding left
left-core s e i j = ground arith

left-AllValid : (s : Sys) (e i : ℕ) → AllValid s → AllValid (left s e i)
left-AllValid s e i v j = rw (left-core s e i j) (v j)

left_prio : (s : Sys) (e i : ℕ) → rt_se_prio (left s e i) e ≡ rt_se_prio s e
unfolding left rt_se_prio
left_prio s e i = ground arith

left-linked : (s : Sys) (e i : ℕ) → (left s e i).ent ≡ s.ent
unfolding left
left-linked s e i = refl

left-IsQueued : (s : Sys) (e i : ℕ) → IsQueued s e → IsQueued (left s e i) e
unfolding left
left-IsQueued s e i q = record {
  linked = rw (left_prio s e i) q.linked;
  held = rw (left_prio s e i) (ground (arith, q.held));
  counted = ground (arith, q.counted);
}

dequeue_one_brr-AllValid :
    (s s' : Sys) (e : ℕ) → AllValid s → IsQueued s e → dequeue_one_brr s e ≡ some s' → AllValid s'
unfolding dequeue_one_brr leave_bucket
dequeue_one_brr-AllValid s s' e v q h =
    let (s1, f, g) = >>=-eq-some (leave_bucket s e) _ h in
    let (i, y, z) = >>=-eq-some (bucket_index (s.task e).bid) _ f in
    let w : s1 ≡ left s e i = sym (some-injective _ _ z) in
    take_off_queue-AllValid s1 s' e (rw w (left-AllValid s e i v)) (rw w (left-IsQueued s e i q)) g

-- The part of `__enqueue_rt_entity_brr` after the bucket is that of `__enqueue_rt_entity`.
after_bucket :
    (s : Sys) (e i : ℕ)
    → bucket_index (new_bid s e) ≡ some i
    → enqueue_one_brr s e ≡ enqueue_one (entered s e (new_bid s e) i) e
unfolding enqueue_one_brr enqueue_one
after_bucket s e i y = rw (enter_of_index s e i y) refl

after_leaving :
    (s : Sys) (e i : ℕ)
    → bucket_index (s.task e).bid ≡ some i
    → dequeue_one_brr s e ≡ dequeue_one (left s e i) e
unfolding dequeue_one_brr dequeue_one leave_bucket
after_leaving s e i y = rw y refl

-- With a bucket in range and a priority below MAX_RT_PRIO, `__enqueue_rt_entity_brr` does not fault
-- and keeps the invariant of every runqueue, as long as the count of running entities does not reach
-- the end of its word.
pub enqueue_one_brr_lem :
    (s : Sys) (e i : ℕ)
    → AllValid s
    → HasRoom s e
    → bucket_index (new_bid s e) ≡ some i
    → rt_se_prio s e < max_rt_prio
    → (s' : Sys) × (enqueue_one_brr s e ≡ some s') × AllValid s'
enqueue_one_brr_lem s e i v room y p =
    let (c, w, b, same) = entered_keeps s e (new_bid s e) i in
    let (s', h) = enqueue_one-some (entered s e (new_bid s e) i) e (rw same p) in
    let g = after_bucket s e i y ∙ h in (s', g, enqueue_one_brr-AllValid s s' e v room g)

-- With the task's bucket in range, `__dequeue_rt_entity_brr` of an entity that is in the queue of its
-- priority, one below MAX_RT_PRIO, does not fault and keeps the invariant of every runqueue.
pub dequeue_one_brr_lem :
    (s : Sys) (e i : ℕ)
    → AllValid s
    → IsQueued s e
    → bucket_index (s.task e).bid ≡ some i
    → rt_se_prio s e < max_rt_prio
    → (s' : Sys) × (dequeue_one_brr s e ≡ some s') × AllValid s'
dequeue_one_brr_lem s e i v q y p =
    let (s', h) = dequeue_one-some (left s e i) e (rw (left_prio s e i) p) in
    let g = after_leaving s e i y ∙ h in (s', g, dequeue_one_brr-AllValid s s' e v q g)
