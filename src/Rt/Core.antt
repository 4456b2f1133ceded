-- ===== src/Rt/Core.antt =====
-- The part of `struct rt_rq` that the choice of a task rests on: the queues, the bitmap, the number
-- of queued entities and the highest priority; and what enqueueing and dequeueing do to it.
pub mod Frame
pub mod Refine
pub mod Bits
pub mod Invariant
use cmsc421prj.Base.{
  ℕ, Bool, true, false, not, List, [], ◌∷◌, ◌++◌, ◌≡◌, upd, add64, sub64, ltb, ◌==◌, if◌then◌else◌,
}
use cmsc421prj.State.Data.{RtRq, Sys, max_rt_prio}
use cmsc421prj.Rt.Lists.{remove, is_empty, sched_find_first_bit}

pub record Core : Type 0 where
  pub queue : ℕ → List ℕ
  pub bitmap : ℕ → Bool
  pub running : ℕ
  pub highest : ℕ

abbrev pub core : RtRq → Core
core q = record {
  queue = q.queue;
  bitmap = q.bitmap;
  running = q.rt_nr_running;
  highest = q.highest_curr;
}

-- No runqueue's core differs between two states.
abbrev pub SameCores : Sys → Sys → Type 0
SameCores s s' = (j : ℕ) → core (s'.rtq j) ≡ core (s.rtq j)

unfoldable pub add_core : ℕ → ℕ → Core → Core
add_core prio e c = record {
  queue = upd c.queue prio (c.queue prio ++ (e ∷ []));
  bitmap = upd c.bitmap prio true;
  running = add64 c.running 1;
  highest = if ltb prio c.highest then prio else c.highest;
}

abbrev pub left_bits : Core → ℕ → List ℕ → ℕ → Bool
left_bits c prio rest = if is_empty rest then upd c.bitmap prio false else c.bitmap

unfoldable pub drop_core : ℕ → ℕ → Core → Core
drop_core prio e c = record {
  queue = upd c.queue prio rest;
  bitmap = left_bits c prio rest;
  running = sub64 c.running 1;
  highest =
      if sub64 c.running 1 == 0
      then max_rt_prio
      else (if prio == c.highest then sched_find_first_bit (left_bits c prio rest) else c.highest);
}
  where
    rest : List ℕ
    rest = remove e (c.queue prio)
