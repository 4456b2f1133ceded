-- ===== src/Tests/Grouped.antt =====
-- A cpu with its runqueue 0 and a group: its entity 10 is in queue 50 of runqueue 0, and task 1 is in
-- queue 50 of the runqueue 1 of the group.
use cmsc421prj.Rt.Unwind.Dequeue.{dequeue_rt_stack-IsLinked}
use cmsc421prj.Rt.Timer.{period_tick}
use cmsc421prj.Rt.Bandwidth.{balance_runtime}
use cmsc421prj.Rt.Walk.{hierarchy}
use cmsc421prj.Rt.Pick.{nothing_to_pick, pick_next_task_rt}
use cmsc421prj.Rt.Enqueue.{dequeue_rt_stack, enqueue_rt_entity}
use cmsc421prj.Rt.Descent.{pick_next_task_rt-ends, IsDescent}
use cmsc421prj.Rt.Release.{Released, period_tick-Released}
use cmsc421prj.Rt.Release.Balanced.{IsLimited}
use cmsc421prj.Base.{
  Bool, Option, false, none, ◌≡◌, refl, true, ℕ, some, [], ◌∷◌, ◌==◌, ◌||◌, if◌then◌else◌, arith,
}
use cmsc421prj.State.Data.{RtRq, Sys, max_rt_prio}
use cmsc421prj.Rt.Entities.{rt_rq_throttled, rt_se_prio}
use cmsc421prj.Rt.Lists.{sched_find_first_bit, find_bit}
use cmsc421prj.Rt.Keeps.{AllValid}
use cmsc421prj.Rt.Core.Bits.{contains}
use cmsc421prj.Rt.Unwind.Step.{IsTree, IsLinked}
use cmsc421prj.Tests.Machine.{machine, entity, rt_rq}

-- A runqueue with `e` in its queue 50.
abbrev holding : ℕ → RtRq
holding e = record rt_rq {
  queue = λ i. (if i == 50 then e ∷ [] else []);
  bitmap = λ i. (i == 50 || i == max_rt_prio);
  rt_nr_running = 1;
  highest_curr = 50;
}

abbrev grouped : Sys
grouped = record machine {
  ent = λ e.
      (if e == 10
        then record entity { my_q = some 1; run_list = some (0, 50) }
        else if e == 1
        then record entity { parent = some 10; rt_rq = 1; run_list = some (1, 50) }
        else entity);
  rtq = λ q. (if q == 0 then holding 10 else if q == 1 then holding 1 else rt_rq);
}

grouped-AllValid : AllValid grouped
unfolding sched_find_first_bit find_bit
grouped-AllValid j = record {
  bits = λ i h. ground arith;
  delimiter = ground arith;
  count = ground arith;
  first = ground arith;
}

grouped-IsTree : IsTree grouped
grouped-IsTree = record {
  owner = λ p e q a b. ground arith;
  up = λ e p a. ground arith;
  top = λ e p a b. ground arith;
}

grouped-IsLinked : IsLinked grouped
unfolding rt_se_prio
grouped-IsLinked = record {
  valid = grouped-AllValid;
  small = λ q. ground arith;
  placed = λ e x h. record { place = ground arith; in_range = ground arith; held = ground arith };
}

grouped-IsDescent : IsDescent grouped (λ q. if q == 0 then 1 else 0)
grouped-IsDescent = record {
  valid = grouped-AllValid;
  filled = λ q i e g h m. ground arith;
  lower = λ q i e g h m. ground arith;
}

grouped_busy : nothing_to_pick grouped 0 ≡ false
unfolding nothing_to_pick rt_rq_throttled
grouped_busy = refl

pick_next_task_rt-ends_example :
    (s' : Sys) × (p : ℕ) × (pick_next_task_rt grouped 0 ≡ some (s', some p))
    × ((grouped.ent p).my_q ≡ none)
pick_next_task_rt-ends_example =
    pick_next_task_rt-ends grouped (λ q. if q == 0 then 1 else 0) grouped-IsDescent 0 (omega arith)
      grouped_busy

grouped_chain : hierarchy grouped.depth grouped (some 1) ≡ some (1 ∷ 10 ∷ [])
unfolding hierarchy
grouped_chain = refl

dequeue_rt_stack-IsLinked_example :
    (s' : Sys) × (dequeue_rt_stack grouped 1 ≡ some s')
    × IsLinked s'
    × ((j : ℕ) → contains j (1 ∷ 10 ∷ []) ≡ true → (s'.ent j).run_list ≡ none)
    × ((j : ℕ) → (grouped.ent j).run_list ≡ none → (s'.ent j).run_list ≡ none)
dequeue_rt_stack-IsLinked_example =
    dequeue_rt_stack-IsLinked grouped 1 (1 ∷ 10 ∷ []) grouped-IsTree grouped-IsLinked grouped_chain

-- Runqueue 1 is throttled, and has used a little more than two and a half times its runtime.
abbrev late : Sys
late = record machine {
  rtq = λ q.
      (if q == 1
        then record rt_rq { rt_throttled = true; rt_time = 2500000000; tg = some 0 }
        else rt_rq);
}

abbrev or_late : Option (Sys × Bool) → Sys
or_late none = late
or_late (some r) = r.0

-- After the first tick it still is.
late_stays : ((or_late (period_tick enqueue_rt_entity late 1 1)).rtq 1).rt_throttled ≡ true
unfolding period_tick balance_runtime
late_stays = refl

late-IsLimited : IsLimited late 1 0
late-IsLimited = record {
  tg = refl;
  small = record {
    capped = omega arith;
    period_small = omega arith;
    time_small = λ j. ground arith;
    runtime_small = λ j f. ground arith;
  };
  positive = omega arith;
}

period_tick-Released_example : Released enqueue_rt_entity 1 1 late
period_tick-Released_example =
    period_tick-Released enqueue_rt_entity 1 1 late 0 refl (ground arith) late-IsLimited
      (omega arith)
