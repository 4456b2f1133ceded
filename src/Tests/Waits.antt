-- ===== src/Tests/Waits.antt =====
-- Wake-ups of a queue of four tasks; each entry is called once and answers that it wakes, but task 7.
use cmsc421prj.Base.{
  if◌then◌else◌, ℕ, Bool, true, false, none, List, [], ◌∷◌, ◌≡◌, refl, ◌==◌, ◌+◌, arith,
}
use cmsc421prj.Waiting.{WaitEntry, WakeCall, WakeFunction, wake_up_common}
use cmsc421prj.Waiting.Order.{logged, limit, IsServed, wake_up_common-IsServed}
use cmsc421prj.Waiting.Completion.{task_normal}

-- The state is the sum of the tasks woken.
abbrev waker : WakeFunction ℕ
waker call s e = if e.waiter == 7 then (s, false) else (s + e.waiter, true)

abbrev normal : WakeCall
normal = record { mode = task_normal; sync = false; key = none }

abbrev entry : Bool → ℕ → WaitEntry
entry x p = record { exclusive = x; waiter = p }

abbrev waiters : List WaitEntry
waiters = entry false 10 ∷ entry true 7 ∷ entry true 200 ∷ entry true 3000 ∷ []

woken_up : wake_up_common waker normal 1 0 waiters ≡ 210
unfolding wake_up_common
woken_up = refl

wake_up_common-IsServed_example :
    IsServed [] (limit 1) waiters (wake_up_common (logged waker) normal 1 (0, []) waiters).1
    × ((wake_up_common (logged waker) normal 1 (0, []) waiters).0
        ≡ wake_up_common waker normal 1 0 waiters)
wake_up_common-IsServed_example = wake_up_common-IsServed waker normal 1 0 waiters (omega arith)
