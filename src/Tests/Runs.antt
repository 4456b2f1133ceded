-- ===== src/Tests/Runs.antt =====
-- Runs of the functions on nice values, on the runtime of a cpu, on the choice of a cpu, and on the
-- policy of a task.
use cmsc421prj.Base.{true, false, none, some, [], ◌∷◌, ◌≡◌, refl, ◌==◌, ◌||◌}
use cmsc421prj.Base.Int.{pos, negsuc}
use cmsc421prj.Rt.Online.{reclaim, reclaim_loop}
use cmsc421prj.Nice.{new_nice, clamp, task_nice, prio_to_nice, can_nice, nice_to_prio}
use cmsc421prj.Dispatch.{update_avg}
use cmsc421prj.Pulling.{Topology, pick_optimal_cpu, mask_first}
use cmsc421prj.Tests.Machine.{fifo_task}
use cmsc421prj.Tests.RtClass.{poor}

-- A neighbour gives back 30 of its 100.
reclaimed : ((reclaim poor 1 30).0.rtq 1).rt_runtime ≡ 70
unfolding reclaim
reclaimed = refl

-- The runqueue 1 gives all of its 100, and the runqueue 2 the other 50.
reclaimed_twice : (reclaim_loop poor 0 150 (0 ∷ 1 ∷ 2 ∷ 3 ∷ [])).1 ≡ 0
unfolding reclaim_loop reclaim
reclaimed_twice = refl

nice_of_default : task_nice fifo_task ≡ pos 0
unfolding task_nice prio_to_nice
nice_of_default = refl

nice_at_most : new_nice fifo_task (pos 50) ≡ pos 19
unfolding new_nice clamp task_nice prio_to_nice
nice_at_most = refl

-- 5 less than 0.
nice_lower : new_nice fifo_task (negsuc 4) ≡ negsuc 4
unfolding new_nice clamp task_nice prio_to_nice
nice_lower = refl

prio_of_least_nice : nice_to_prio (negsuc 19) ≡ 100
unfolding nice_to_prio
prio_of_least_nice = refl

nice_refused : can_nice 24 false (negsuc 4) ≡ false
unfolding can_nice
nice_refused = refl

nice_allowed : can_nice 25 false (negsuc 4) ≡ true
unfolding can_nice
nice_allowed = refl

-- An average of 100 goes down by an eighth of 80, and one of 20 up by it.
average_down : update_avg 100 20 ≡ 90
unfolding update_avg
average_down = refl

average_up : update_avg 20 100 ≡ 30
unfolding update_avg
average_up = refl

abbrev four_cpus : Topology
four_cpus = record {
  cpupri_find = λ s p. some (λ c. c == 2 || c == 3);
  active = λ c. true;
  nr_cpus = 4;
  can_alloc = true;
  domains = λ c. [];
  plist_first = λ calls. none;
}

first_cpu : pick_optimal_cpu four_cpus (some 0) (λ c. c == 2 || c == 3) ≡ some 2
unfolding pick_optimal_cpu mask_first
first_cpu = refl

this_cpu : pick_optimal_cpu four_cpus (some 3) (λ c. c == 2 || c == 3) ≡ some 3
unfolding pick_optimal_cpu mask_first
this_cpu = refl
