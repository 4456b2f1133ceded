-- ===== src/Tests/BrrClass.antt =====
-- The theorems on the BRR class at the small machine.
use mathlib.Core.Option.{some-injective}
use cmsc421prj.Brr.Choice.{pick_task_brr_lem}
use cmsc421prj.Classes.Order.{pick_from-skips_brr}
use cmsc421prj.Brr.Pick.{pick_task_brr}
use cmsc421prj.Rt.Migration.{inc_rt_migration}
use cmsc421prj.Rt.Prio.{inc_rt_prio}
use cmsc421prj.Rt.Pick.{pick_next_rt_entity, descend, nothing_to_pick, pick_task, pick_next_task_rt}
use cmsc421prj.Classes.{or_next, pick_from}
use cmsc421prj.Rt.Counts.{inc_rt_tasks}
use cmsc421prj.Rt.Lists.{find_bit, sched_find_first_bit, list_add_tail}
use cmsc421prj.Brr.Faults.{enqueue_one_brr_full}
use cmsc421prj.Brr.Buckets.Search.{
  get_next_bucket_number-FirstInUse, get_next_bucket_number-no_wrap, FirstInUse,
}
use cmsc421prj.Brr.Counting.{leave-enter, buckets_of}
use cmsc421prj.Rt.Entities.{
  rt_rq_throttled, rt_bandwidth_enabled, rt_se_boosted, rt_entity_is_task, rt_se_prio,
}
use cmsc421prj.Brr.Keeps.{dequeue_one_brr_lem, enqueue_one_brr_lem}
use cmsc421prj.Rt.Keeps.{IsQueued, AllValid}
use cmsc421prj.Rt.Enqueue.{add_to_queue, is_group_blocked}
use cmsc421prj.Brr.Buckets.{next_bucket, bucket_index, bucket_to_add_to, get_next_bucket_number}
use cmsc421prj.Brr.Enqueue.{entered, dequeue_one_brr, leave_bucket, enqueue_one_brr, enter_bucket}
use cmsc421prj.Base.{◌∙◌, sym, ◌||◌, ◌>>=◌, ℕ, ◌≡◌, refl, none, some, arith, ◌==◌, if◌then◌else◌}
use cmsc421prj.Base.Int.{eq_ℤ, ℤ, pos, minus_one}
use cmsc421prj.State.Data.{fair_class, rt_class, Sys}
use cmsc421prj.Tests.Machine.{
  brr_task, rq, rt_rq, machine, machine-AllValid, or_machine, or_machine_lem,
}

-- Only bucket 5 is in use.
abbrev sample : ℕ → ℕ
sample i = if i == 5 then 1 else 0

next_after_two : get_next_bucket_number sample (pos 2) ≡ some (pos 5)
unfolding get_next_bucket_number next_bucket
next_after_two = refl

get_next_bucket_number-FirstInUse_example :
    (r : ℤ) × (get_next_bucket_number sample (pos 2) ≡ some r) × FirstInUse sample 3 32769 r
get_next_bucket_number-FirstInUse_example = get_next_bucket_number-FirstInUse sample 2 (omega arith)

-- The only bucket in use is below the current one.
get_next_bucket_number-no_wrap_example : get_next_bucket_number sample (pos 9) ≡ some minus_one
get_next_bucket_number-no_wrap_example =
    get_next_bucket_number-no_wrap sample 9 (omega arith) (λ i p q. ground arith) refl refl

-- Task 2 in its bucket.
placed : Sys
placed = or_machine (enter_bucket machine 2)

placed_lem : enter_bucket machine 2 ≡ some placed
unfolding placed enter_bucket bucket_to_add_to bucket_index
placed_lem = or_machine_lem (enter_bucket machine 2) refl

leave-enter_example :
    (s2 : Sys) × (leave_bucket placed 2 ≡ some s2)
    × ((q j : ℕ) → buckets_of s2 q j ≡ buckets_of machine q j)
leave-enter_example = leave-enter machine placed 2 (λ q j. ground arith) placed_lem

placed_queued : Sys
placed_queued = or_machine (enqueue_one_brr machine 2)

placed_queued_lem : enqueue_one_brr machine 2 ≡ some placed_queued
unfolding placed_queued enqueue_one_brr enter_bucket bucket_to_add_to bucket_index entered
    is_group_blocked add_to_queue rt_se_prio
placed_queued_lem = or_machine_lem (enqueue_one_brr machine 2) refl

enqueue_one_brr_lem_example : (s' : Sys) × (enqueue_one_brr machine 2 ≡ some s') × AllValid s'
unfolding bucket_to_add_to bucket_index rt_se_prio
enqueue_one_brr_lem_example =
    enqueue_one_brr_lem machine 2 5 machine-AllValid (omega arith) refl (omega arith)

placed-AllValid : AllValid placed_queued
unfolding bucket_to_add_to bucket_index rt_se_prio
placed-AllValid =
    let (s', e, v) =
      enqueue_one_brr_lem machine 2 5 machine-AllValid (omega arith) refl (omega arith) in
    rw (some-injective _ _ (sym placed_queued_lem ∙ e)) v

placed-IsQueued : IsQueued placed_queued 2
unfolding placed_queued enqueue_one_brr enter_bucket bucket_to_add_to bucket_index entered
    is_group_blocked add_to_queue rt_se_prio list_add_tail inc_rt_tasks inc_rt_prio inc_rt_migration
    rt_entity_is_task rt_se_boosted rt_bandwidth_enabled
placed-IsQueued = record { linked = refl; held = refl; counted = omega arith }

dequeue_one_brr_lem_example : (s' : Sys) × (dequeue_one_brr placed_queued 2 ≡ some s') × AllValid s'
unfolding placed_queued enqueue_one_brr enter_bucket bucket_to_add_to bucket_index entered
    is_group_blocked add_to_queue rt_se_prio list_add_tail inc_rt_tasks inc_rt_prio inc_rt_migration
    rt_entity_is_task rt_se_boosted rt_bandwidth_enabled
dequeue_one_brr_lem_example =
    dequeue_one_brr_lem placed_queued 2 5 placed-AllValid placed-IsQueued refl (omega arith)

-- Every bucket in use, and the group of entity 10 empty.
abbrev full : Sys
full = record machine { rtq = λ q. record rt_rq { buckets = λ i. 1 } }

enqueue_one_brr_full_example : enqueue_one_brr full 1 ≡ none
enqueue_one_brr_full_example = enqueue_one_brr_full full 1 refl (λ k p. omega arith)

-- The priority of task 2 is that of a normal task.
abbrev normal : Sys
normal = record machine { task = λ p. record brr_task { prio = 120 } }

-- Bucket 5 is the next one, and the bucket of the task in front.
pick_task_brr_lem_example : pick_task_brr placed_queued 0 ≡ (
    if eq_ℤ (pos 5) minus_one || eq_ℤ (placed_queued.task 2).bid (pos 5)
    then pick_task placed_queued 0
    else none)
unfolding placed_queued enqueue_one_brr enter_bucket bucket_to_add_to bucket_index entered
    is_group_blocked add_to_queue rt_se_prio list_add_tail inc_rt_tasks inc_rt_prio inc_rt_migration
    rt_entity_is_task rt_se_boosted rt_bandwidth_enabled nothing_to_pick rt_rq_throttled
    get_next_bucket_number next_bucket descend pick_next_rt_entity sched_find_first_bit find_bit
pick_task_brr_lem_example = pick_task_brr_lem placed_queued 0 2 (pos 5) refl refl refl

pick_from-skips_brr_example : pick_from (λ s c. none) (λ s c. none) 4 (some rt_class) machine 0 ≡ (
    pick_next_task_rt machine 0
    >>= or_next (λ s'. pick_from (λ s c. none) (λ s c. none) 2 (some fair_class) s' 0))
pick_from-skips_brr_example = pick_from-skips_brr (λ s c. none) (λ s c. none) machine 0

abbrev brr_runs : Sys
brr_runs = record machine { rq = λ c. record rq { curr = 2 } }
