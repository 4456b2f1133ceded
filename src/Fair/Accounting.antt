-- ===== src/Fair/Accounting.antt =====
-- Load and virtual time of single entities: what joining and leaving do to the counts, and where an
-- entity is placed.
use cmsc421prj.Base.{
  ℕ, true, false, some, ◌≡◌, ◌≤◌, ◌<◌, ◌^◌, ◌+◌, arith, word, add64, sub64, neg64,
}
use cmsc421prj.Fair.Data.{FairSys, CfsRq}
use cmsc421prj.Fair.Clock.{max_vruntime}
use cmsc421prj.Fair.Entities.{
  weight_of, account_entity_enqueue, account_entity_dequeue, place_sleeper, sleeper_credit,
}
use cmsc421prj.Fair.Tasks.{go_last}

-- The counts of a runqueue that a round trip has to bring back.
pub record SameCounts (a b : CfsRq) : Type 0 where
  pub load : a.load ≡ b.load
  pub nr_running : a.nr_running ≡ b.nr_running
  pub task_weight : a.task_weight ≡ b.task_weight
  pub tasks : a.tasks ≡ b.tasks

-- The counts are words.
pub record AreWords (s : FairSys) (q e : ℕ) : Type 0 where
  pub weight_small : weight_of s e < word
  pub load_small : (s.cfs q).load < word
  pub running_small : (s.cfs q).nr_running < word
  pub task_weight_small : (s.cfs q).task_weight < word
  pub cpu_load_small : (s.sys.rq (s.cfs q).cpu).load < word

add_sub : (a b : ℕ) → a < word → b < word → sub64 (add64 a b) b ≡ a
add_sub a b p q = omega arith

-- An entity that is counted in and out again leaves the load of its runqueue and of the cpu, the
-- number of entities, the weight and the list of the tasks as they were, and is not on the runqueue.
pub account-enqueue_dequeue :
    (s : FairSys) (q e : ℕ)
    → AreWords s q e
    → let s' = account_entity_dequeue (account_entity_enqueue s q e) q e in
      SameCounts (s'.cfs q) (s.cfs q)
      × ((s'.sys.rq (s.cfs q).cpu).load ≡ (s.sys.rq (s.cfs q).cpu).load)
      × ((s'.sys.task e).on_rq ≡ false)
unfolding account_entity_enqueue account_entity_dequeue
account-enqueue_dequeue s q e w = (
  record {
    load = ground (arith, add_sub (s.cfs q).load (weight_of s e));
    nr_running = ground (arith, add_sub (s.cfs q).nr_running 1);
    task_weight = ground (arith, add_sub (s.cfs q).task_weight (weight_of s e));
    tasks = ground arith;
  },
  ground (arith, add_sub (s.sys.rq (s.cfs q).cpu).load (weight_of s e)),
  ground arith,
)

credit_keeps : (s : FairSys) (e : ℕ) → ((sleeper_credit s e).0.se e).vruntime ≡ (s.se e).vruntime
unfolding sleeper_credit
credit_keeps s e = ground arith

-- `place_entity` of an entity that wakes up never moves it back in virtual time, in the signed order.
pub place_sleeper-forward :
    (s : FairSys) (q e : ℕ)
    → (s.se e).vruntime < word
    → neg64 (sub64 ((place_sleeper s q e).se e).vruntime (s.se e).vruntime) ≡ false
unfolding place_sleeper max_vruntime
place_sleeper-forward s q e h = ground (arith, credit_keeps s e)

-- When the time of the entity that yields has come round and that of the rightmost one has not, the
-- comparison of unsigned numbers moves the entity back in virtual time.
pub go_last-moves_back :
    (s : FairSys) (e r : ℕ)
    → (s.se e).vruntime < 2 ^ 62
    → 2 ^ 63 + 2 ^ 62 ≤ (s.se r).vruntime
    → (s.se r).vruntime + 1 < word
    → neg64 (sub64 ((go_last s e (some r)).se e).vruntime (s.se e).vruntime) ≡ true
unfolding go_last
go_last-moves_back s e r a b c = ground arith
