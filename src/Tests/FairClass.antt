-- ===== src/Tests/FairClass.antt =====
-- The theorems on the fair class: a runqueue 0 with task 1 in its timeline, task 2 outside of it, and
-- task 3 in the runqueue 5 of the group entity 20.
use cmsc421prj.Base.{
  ap, ℕ, true, false, none, some, List, [], ◌∷◌, ◌≡◌, refl, ◌==◌, if◌then◌else◌, arith, sub64,
  neg64,
}
use cmsc421prj.Tests.Machine.{machine, fifo_task}
use cmsc421prj.State.Data.{Task, fair_class}
use cmsc421prj.Fair.Data.{
  FairSys, FairEntity, CfsRq, Tunables, Tree, leaf, node, RbTree, in_order, without, successor,
  last_of,
}
use cmsc421prj.Fair.Clock.{entity_key, update_min_vruntime}
use cmsc421prj.Fair.Timeline.{enqueue_node, dequeue_node, link_entity}
use cmsc421prj.Fair.Timeline.Order.{insert_by}
use cmsc421prj.Fair.Timeline.Search.{
  rank, IsTimeline, enqueue_node-order, enqueue_node-IsTimeline, dequeue_node-IsTimeline,
}
use cmsc421prj.Fair.Advance.{IsClose, update_min_vruntime-IsTimeline}
use cmsc421prj.Fair.Accounting.{place_sleeper-forward, go_last-moves_back}
use cmsc421prj.Fair.Entities.{place_sleeper}
use cmsc421prj.Fair.Tasks.{go_last}
use cmsc421prj.Fair.Slice.{fair_hierarchy}
use cmsc421prj.Fair.Matching.{find_matching_se}
use cmsc421prj.Fair.Matching.Ends.{find_matching_se-ends}
use cmsc421prj.Rt.Core.Bits.{contains}

-- A tree that leans to the right.
abbrev pub spine : List ℕ → Tree
spine [] = leaf
spine (x ∷ xs) = node leaf x (spine xs)

pub spine-order : (xs : List ℕ) → in_order (spine xs) ≡ xs
spine-order [] = refl
spine-order (x ∷ xs) = ap (λ ys. x ∷ ys) (spine-order xs)

-- A search tree that is not balanced.
abbrev pub plain : RbTree
plain = record {
  rb_insert_color = λ t e. t;
  rb_erase = λ e t. spine (without e (in_order t));
  rb_next = λ t e. successor e (in_order t);
  rb_last = λ t. last_of (in_order t);
  insert_color_order = λ t e. refl;
  erase_order = λ e t. spine-order (without e (in_order t));
  next_order = λ t e. refl;
  last_order = λ t. refl;
}

abbrev runqueue : CfsRq
runqueue = record {
  load = 1024;
  load_inv = 0;
  nr_running = 1;
  min_vruntime = 500;
  tasks_timeline = node leaf 1 leaf;
  rb_leftmost = some 1;
  tasks = 1 ∷ [];
  curr = none;
  next = none;
  last = none;
  task_weight = 1024;
  cpu = 0;
  tg = 0;
}

abbrev member : FairEntity
member = record {
  parent = none;
  cfs_rq = 0;
  my_q = none;
  vruntime = 1000;
  prev_sum_exec_runtime = 0;
  avg_overlap = 0;
  avg_wakeup = 0;
  last_wakeup = 0;
}

abbrev tunables : Tunables
tunables = record {
  sched_latency = 20000000;
  min_granularity = 4000000;
  nr_latency = 5;
  wakeup_granularity = 5000000;
  child_runs_first = true;
  compat_yield = false;
  migration_cost = 500000;
  start_debit = true;
  new_fair_sleepers = true;
  normalized_sleeper = false;
  adaptive_gran = false;
  asym_gran = true;
  wakeup_preempt = true;
  wakeup_overlap = false;
  last_buddy = true;
}

abbrev pub normal_task : Task
normal_task = record fifo_task {
  policy = 0;
  prio = 120;
  sched_class = fair_class;
  weight = 1024;
  inv_weight = 0;
}

abbrev pub fair : FairSys
fair = record {
  sys = record machine { task = λ p. normal_task };
  se = λ e.
      (if e == 3
        then record member { parent = some 20; cfs_rq = 5 }
        else (if e == 2 then record member { vruntime = 700 } else member));
  cfs = λ q. runqueue;
  root_cfs = λ c. 0;
  cfs_of = λ g c. c;
  se_of = λ g c. none;
  tunables = tunables;
}

fair-IsTimeline : IsTimeline fair 0
fair-IsTimeline = record { ordered = (tt, tt); cached = refl }

-- Task 2 has the smaller virtual time, and goes to the front.
enqueued_front : in_order ((enqueue_node plain fair 0 2).cfs 0).tasks_timeline ≡ 2 ∷ 1 ∷ []
unfolding enqueue_node link_entity entity_key
enqueued_front = refl

enqueue_node-order_example :
    in_order ((enqueue_node plain fair 0 2).cfs 0).tasks_timeline
    ≡ insert_by (rank fair 0) (rank fair 0 2) 2 (1 ∷ [])
enqueue_node-order_example = enqueue_node-order plain fair 0 2 fair-IsTimeline

enqueue_node-IsTimeline_example : IsTimeline (enqueue_node plain fair 0 2) 0
enqueue_node-IsTimeline_example = enqueue_node-IsTimeline plain fair 0 2 fair-IsTimeline

dequeue_node-IsTimeline_example :
    IsTimeline (dequeue_node plain fair 0 1) 0
    × (in_order ((dequeue_node plain fair 0 1).cfs 0).tasks_timeline ≡ [])
dequeue_node-IsTimeline_example = dequeue_node-IsTimeline plain fair 0 1 fair-IsTimeline

fair-IsClose : IsClose fair 0
fair-IsClose = record {
  small = omega arith;
  curr_small = λ c h. cc;
  curr_near = λ c h. cc;
  queued_near = omega arith;
  queued_small = omega arith;
}

update_min_vruntime-IsTimeline_example :
    IsTimeline (update_min_vruntime fair 0) 0
    × (neg64 (sub64 ((update_min_vruntime fair 0).cfs 0).min_vruntime 500) ≡ false)
update_min_vruntime-IsTimeline_example =
    update_min_vruntime-IsTimeline fair 0 fair-IsTimeline fair-IsClose

place_sleeper-forward_example : neg64 (sub64 ((place_sleeper fair 0 2).se 2).vruntime 700) ≡ false
place_sleeper-forward_example = place_sleeper-forward fair 0 2 (omega arith)

-- The time of entity 2 has come round, that of entity 1 has not.
abbrev come_round : FairSys
come_round = record fair {
  se = λ e. (if e == 1 then record member { vruntime = 18446744073709551000 } else member);
}

go_last-moves_back_example :
    neg64 (sub64 ((go_last come_round 2 (some 1)).se 2).vruntime 1000) ≡ true
go_last-moves_back_example =
    go_last-moves_back come_round 2 1 (omega arith) (omega arith) (omega arith)

matched : find_matching_se fair 3 2 ≡ some (20, 2)
unfolding find_matching_se
matched = refl

find_matching_se-ends_example :
    (a' : ℕ) × (b' : ℕ) × (find_matching_se fair 3 2 ≡ some (a', b'))
    × ((fair.se a').cfs_rq ≡ (fair.se b').cfs_rq)
    × (contains a' (3 ∷ 20 ∷ []) ≡ true)
    × (contains b' (2 ∷ []) ≡ true)
unfolding fair_hierarchy
find_matching_se-ends_example =
    find_matching_se-ends fair 3 2 (3 ∷ 20 ∷ []) (2 ∷ []) 20 2 refl refl refl refl refl
