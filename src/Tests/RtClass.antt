-- ===== src/Tests/RtClass.antt =====
-- The theorems on the real-time class at the small machine.
use mathlib.Core.Option.{some-injective}
use cmsc421prj.Rt.Choice.{pick_next_rt_entity-IsNext, IsNext}
use cmsc421prj.Rt.Pick.{pick_next_rt_entity}
use cmsc421prj.Rt.Migration.{inc_rt_migration}
use cmsc421prj.Rt.Prio.{inc_rt_prio}
use cmsc421prj.Rt.Counts.{inc_rt_tasks}
use cmsc421prj.Base.{◌∙◌, sym, ◌==◌, ℕ, if◌then◌else◌, ◌≢◌, ap, ◌≡◌, refl, some, [], ◌∷◌, arith}
use cmsc421prj.State.Data.{Sys}
use cmsc421prj.Tests.Machine.{machine, machine-AllValid, or_machine, or_machine_lem}
use cmsc421prj.Rt.Lists.{find_bit, sched_find_first_bit, list_add_tail}
use cmsc421prj.Rt.Entities.{
  rt_rq_of_se, rt_bandwidth_enabled, rt_se_boosted, rt_entity_is_task, rt_se_prio,
}
use cmsc421prj.Rt.Enqueue.{take_off_queue, add_to_queue, enqueue_one, dequeue_one}
use cmsc421prj.Rt.Keeps.{enqueue_one_lem, dequeue_one_lem, AllValid, IsQueued}
use cmsc421prj.Rt.Bandwidth.{borrow_loop, borrow_from, borrow}
use cmsc421prj.Rt.Borrowing.{IsSmall, IsLoan, borrow_loop-IsLoan}
use cmsc421prj.Tests.Machine.{rt_rq}
use cmsc421prj.Base.{false}
use cmsc421prj.Rt.Conservation.{sum_below, borrow_loop-sum}
use cmsc421prj.Rt.Core.{drop_core, core, add_core}
use cmsc421prj.Rt.Core.Refine.{take_off_queue-core, add_to_queue-core}

-- Task 1 on its queue.
pub queued : Sys
queued = or_machine (enqueue_one machine 1)

queued_lem : enqueue_one machine 1 ≡ some queued
unfolding queued enqueue_one rt_se_prio
queued_lem = or_machine_lem (enqueue_one machine 1) refl

enqueue_one_lem_example : (s' : Sys) × (enqueue_one machine 1 ≡ some s') × AllValid s'
unfolding rt_se_prio
enqueue_one_lem_example = enqueue_one_lem machine 1 machine-AllValid (omega arith) (omega arith)

queued-AllValid : AllValid queued
unfolding rt_se_prio
queued-AllValid =
    let (s', e, v) = enqueue_one_lem machine 1 machine-AllValid (omega arith) (omega arith) in
    rw (some-injective _ _ (sym queued_lem ∙ e)) v

queued_added : add_to_queue machine 1 ≡ some queued
unfolding queued enqueue_one rt_se_prio
queued_added = queued_lem

queued_core : core (queued.rtq 0) ≡ add_core 50 1 (core (machine.rtq 0))
unfolding rt_se_prio
queued_core = add_to_queue-core machine queued 1 0 queued_added

queued_head : (queued.rtq 0).queue 50 ≡ 1 ∷ []
unfolding add_core
queued_head = ap (λ c. c.queue 50) queued_core

queued-IsQueued : IsQueued queued 1
unfolding queued enqueue_one rt_se_prio list_add_tail inc_rt_tasks inc_rt_prio inc_rt_migration
    rt_entity_is_task rt_se_boosted rt_bandwidth_enabled
queued-IsQueued = record { linked = refl; held = refl; counted = omega arith }

dequeued : Sys
dequeued = or_machine (dequeue_one queued 1)

dequeued_lem : dequeue_one queued 1 ≡ some dequeued
unfolding dequeued queued enqueue_one dequeue_one rt_se_prio list_add_tail inc_rt_tasks inc_rt_prio
    inc_rt_migration rt_entity_is_task rt_se_boosted rt_bandwidth_enabled
dequeued_lem = or_machine_lem (dequeue_one queued 1) refl

dequeue_one_lem_example : (s' : Sys) × (dequeue_one queued 1 ≡ some s') × AllValid s'
unfolding queued enqueue_one rt_se_prio list_add_tail inc_rt_tasks inc_rt_prio inc_rt_migration
    rt_entity_is_task rt_se_boosted rt_bandwidth_enabled
dequeue_one_lem_example = dequeue_one_lem queued 1 queued-AllValid queued-IsQueued (omega arith)

add_to_queue-core_example :
    core (queued.rtq 0) ≡ add_core (rt_se_prio machine 1) 1 (core (machine.rtq 0))
add_to_queue-core_example = add_to_queue-core machine queued 1 0 queued_added

dequeued_taken : take_off_queue queued 1 ≡ some dequeued
unfolding dequeue_one
dequeued_taken = dequeued_lem

take_off_queue-core_example : core (dequeued.rtq 0) ≡ (
    if rt_rq_of_se queued 1 == 0
    then drop_core (rt_se_prio queued 1) 1 (core (queued.rtq (rt_rq_of_se queued 1)))
    else core (queued.rtq 0))
take_off_queue-core_example =
    take_off_queue-core queued dequeued 1 0 queued-IsQueued.linked dequeued_taken

queued_running : (queued.rtq 0).rt_nr_running ≢ 0
unfolding queued enqueue_one rt_se_prio list_add_tail inc_rt_tasks inc_rt_prio inc_rt_migration
    rt_entity_is_task rt_se_boosted rt_bandwidth_enabled
queued_running = omega arith

pick_next_rt_entity-IsNext_example :
    (e : ℕ) × (pick_next_rt_entity queued 0 ≡ some e)
    × IsNext (queued.rtq 0).queue (queued.rtq 0).highest_curr e
pick_next_rt_entity-IsNext_example =
    pick_next_rt_entity-IsNext queued 0 (queued-AllValid 0) queued_running

queued_next : pick_next_rt_entity queued 0 ≡ some 1
unfolding queued enqueue_one rt_se_prio list_add_tail inc_rt_tasks inc_rt_prio inc_rt_migration
    rt_entity_is_task rt_se_boosted rt_bandwidth_enabled pick_next_rt_entity sched_find_first_bit
    find_bit
queued_next = refl

-- The runqueue 0 is out of time, and every other one has 80 to spare.
abbrev pub poor : Sys
poor = record machine {
  rtq = λ q.
      (if q == 0
        then record rt_rq { rt_runtime = 10; rt_time = 50 }
        else record rt_rq { rt_runtime = 100; rt_time = 20 });
}

poor-IsSmall : IsSmall poor 0 1000
poor-IsSmall = record {
  capped = omega arith;
  period_small = omega arith;
  time_small = λ j. ground arith;
  runtime_small = λ j f. ground arith;
}

poor_borrows : ((borrow_loop poor 0 2 1000 false (0 ∷ 1 ∷ [])).0.rtq 0).rt_runtime ≡ 50
unfolding borrow_loop borrow_from borrow
poor_borrows = refl

borrow_loop-IsLoan_example :
    IsLoan poor (borrow_loop poor 0 2 1000 false (0 ∷ 1 ∷ [])).0 0
    × IsSmall (borrow_loop poor 0 2 1000 false (0 ∷ 1 ∷ [])).0 0 1000
borrow_loop-IsLoan_example = borrow_loop-IsLoan poor 0 2 1000 false (0 ∷ 1 ∷ []) poor-IsSmall

borrow_loop-sum_example :
    sum_below (λ j. ((borrow_loop poor 0 2 1000 false (0 ∷ 1 ∷ [])).0.rtq j).rt_runtime) 2
    ≡ sum_below (λ j. (poor.rtq j).rt_runtime) 2
borrow_loop-sum_example =
    borrow_loop-sum poor 0 2 1000 2 false (0 ∷ 1 ∷ []) poor-IsSmall (omega arith) refl
