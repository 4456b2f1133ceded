-- ===== src/Rt/Bandwidth.antt =====
-- sched_rt.c, the runtime of a period: borrowing from other cpus, throttling, and the period timer.
-- Each function runs under its locks from end to end.
use cmsc421prj.Base.{
  ℕ, ◌/◌, Bool, true, false, ◌||◌, ◌&&◌, not, Option, none, some, List, [], ◌∷◌, ◌>>=◌, ◌==◌, ltb,
  leb, if◌then◌else◌, add64, sub64, neg64, length,
}
use cmsc421prj.State.Data.{Sys, runtime_inf}
use cmsc421prj.State.Setters.{set_rtq, set_task}
use cmsc421prj.Rt.Entities.{rt_rq_throttled, on_rt_rq, sched_rt_runtime, sched_rt_period}

-- `resched_task`: the flag is set whether or not it was.
unfoldable pub resched_task : Sys → ℕ → Sys
resched_task s p = set_task s p (record (s.task p) { need_resched = true })

abbrev pub set_runtime : Sys → ℕ → ℕ → Sys
set_runtime s q r = set_rtq s q (record (s.rtq q) { rt_runtime = r })

-- `diff > 0`, for the `s64` with this pattern
abbrev pub positive64 : ℕ → Bool
positive64 d = not (d == 0) && not (neg64 d)

-- What is taken from one neighbour: its spare time divided by `weight`, cut so as not to pass the
-- period.
unfoldable pub borrow_from : ℕ → ℕ → ℕ → ℕ → ℕ
borrow_from runtime spare weight period =
    if ltb period (add64 runtime (spare / weight)) then sub64 period runtime else spare / weight

-- One round of the loop, after its tests.
unfoldable pub borrow : Sys → ℕ → ℕ → ℕ → Sys
borrow s q iter diff =
    set_runtime (set_runtime s iter (sub64 (s.rtq iter).rt_runtime diff)) q
      (add64 (s.rtq q).rt_runtime diff)

abbrev spare_of : Sys → ℕ → ℕ
spare_of s iter = sub64 (s.rtq iter).rt_runtime (s.rtq iter).rt_time

-- Nothing to take: the runqueue itself, a disabled one, or one with no time to spare.
abbrev pub skips : Sys → ℕ → ℕ → Bool
skips s q iter =
    iter == q || ((s.rtq iter).rt_runtime == runtime_inf || not (positive64 (spare_of s iter)))

borrow_round : Sys → ℕ → ℕ → ℕ → ℕ → Sys
unfolding borrow borrow_from
borrow_round s q iter weight period =
    borrow s q iter (borrow_from (s.rtq q).rt_runtime (spare_of s iter) weight period)

-- The loop over the runqueues of the span, with `more`.
unfoldable pub borrow_loop : Sys → ℕ → ℕ → ℕ → Bool → List ℕ → Sys × Bool
unfolding borrow_round
borrow_loop s q weight period more [] = (s, more)
borrow_loop s q weight period more (iter ∷ iters) =
    let skip = borrow_loop s q weight period more iters in
    let s' = borrow_round s q iter weight period in
    let rest = borrow_loop s' q weight period true iters in
    if skips s q iter then skip else (if (s'.rtq q).rt_runtime == period then (s', true) else rest)

unfoldable pub rt_rqs_of : Sys → ℕ → List ℕ → List ℕ
rt_rqs_of s g [] = []
rt_rqs_of s g (c ∷ cs) = (s.group g).rt_rq_of c ∷ rt_rqs_of s g cs

unfoldable pub balance_in : Sys → ℕ → Option ℕ → Option (Sys × Bool)
unfolding borrow_loop rt_rqs_of
balance_in s q none = none
balance_in s q (some g) =
    some (borrow_loop s q (length span) (s.group g).rt_period false (rt_rqs_of s g span))
  where
    span : List ℕ
    span = (s.rd (s.rq s.this_cpu).rd).span

-- The bandwidth is reached through `rt_rq->tg`.
unfoldable pub do_balance_runtime : Sys → ℕ → Option (Sys × Bool)
unfolding balance_in
do_balance_runtime s q = balance_in s q (s.rtq q).tg

unfoldable pub balance_runtime : Sys → ℕ → Option (Sys × Bool)
unfolding do_balance_runtime
balance_runtime s q =
    if ltb (s.rtq q).rt_runtime (s.rtq q).rt_time then do_balance_runtime s q else some (s, false)

-- Both classes have a copy of what follows, with their own enqueue and dequeue of an entity.
module _ (dequeue_rt : Sys → ℕ → Option Sys) where
  dequeue_group : Sys → Option ℕ → Option Sys
  unfolding on_rt_rq
  dequeue_group s none = some s
  dequeue_group s (some e) = if on_rt_rq s e then dequeue_rt s e else some s

  unfoldable pub rt_rq_dequeue : Sys → ℕ → Option Sys
  unfolding dequeue_group
  rt_rq_dequeue s q = dequeue_group s (s.rtq q).rt_se

  abbrev set_throttled : Sys → ℕ → Bool → Sys
  set_throttled s q b = set_rtq s q (record (s.rtq q) { rt_throttled = b })

  throttle : Sys → ℕ → Option (Sys × Bool)
  unfolding rt_rq_dequeue
  throttle s q =
      if rt_rq_throttled (s.rtq q)
      then (rt_rq_dequeue s q >>= λ s'. some (s', true))
      else some (s, false)

  exceeds : Sys → ℕ → Option (Sys × Bool)
  unfolding throttle
  exceeds s q =
      if sched_rt_runtime s q == runtime_inf
      then some (s, false)
      else (if ltb (sched_rt_runtime s q) (s.rtq q).rt_time
          then throttle (set_throttled s q true) q
          else some (s, false))

  unfoldable pub runtime_exceeded : Sys → ℕ → Option (Sys × Bool)
  unfolding exceeds
  runtime_exceeded s q =
      if (s.rtq q).rt_throttled
      then some (s, rt_rq_throttled (s.rtq q))
      else (sched_rt_period s q >>= λ period.
          (if leb period (sched_rt_runtime s q)
            then some (s, false)
            else (balance_runtime s q >>= λ (s', more). exceeds s' q)))
