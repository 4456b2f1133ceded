-- ===== src/Waiting/Completion.antt =====
-- Completions, sched.c. What other tasks do while one sleeps is an argument, one entry for each call of
-- `schedule_timeout`.
use cmsc421prj.Base.{
  ◌>>=◌, ◌/◌, ℕ, Bool, true, false, ◌&&◌, not, Option, none, some, List, [], ◌∷◌, ◌++◌, ◌==◌, ◌+◌,
  ◌%◌, ◌-◌, if◌then◌else◌, dec32, inc32, int_mod,
}
use cmsc421prj.Base.Int.{ℤ, pos, negsuc, eq_ℤ}
use cmsc421prj.Waiting.{WaitEntry, WakeCall, WakeFunction, wake_up_common}

-- `TASK_NORMAL`, which is `TASK_INTERRUPTIBLE | TASK_UNINTERRUPTIBLE`, and the states of a task.
abbrev pub task_running : ℕ
task_running = 0

abbrev pub task_interruptible : ℕ
task_interruptible = 1

abbrev pub task_uninterruptible : ℕ
task_uninterruptible = 2

abbrev pub task_normal : ℕ
task_normal = 3

-- `TASK_WAKEKILL | TASK_UNINTERRUPTIBLE`
abbrev pub task_killable : ℕ
task_killable = 130

-- `MAX_SCHEDULE_TIMEOUT`
abbrev pub max_schedule_timeout : ℤ
max_schedule_timeout = pos 9223372036854775807

-- `-ERESTARTSYS` is -512.
abbrev pub erestartsys : ℤ
erestartsys = negsuc 511

-- `struct completion`; `done` is an `unsigned int`.
pub record Completion : Type 0 where
  pub done : ℕ
  pub wait : List WaitEntry

abbrev normal_call : WakeCall
normal_call = record { mode = task_normal; sync = false; key = none }

module _ {S : Type 0} (func : WakeFunction S) where
  unfoldable pub complete : S → Completion → S × Completion
  unfolding wake_up_common
  complete s x = (wake_up_common func normal_call 1 s x.wait, record x { done = inc32 x.done })

  -- `UINT_MAX / 2`
  unfoldable pub complete_all : S → Completion → S × Completion
  unfolding wake_up_common
  complete_all s x = (
    wake_up_common func normal_call 0 s x.wait,
    record x { done = (x.done + (int_mod - 1) / 2) % int_mod },
  )

unfoldable pub try_wait_for_completion : Completion → Completion × Bool
try_wait_for_completion x =
    if x.done == 0 then (x, false) else (record x { done = dec32 x.done }, true)

unfoldable pub completion_done : Completion → Bool
completion_done x = not (x.done == 0)

-- One round of the loop: whether a signal is pending before it sleeps, and the completion and the time
-- left when it goes on.
pub record Sleep : Type 0 where
  pub signalled : Bool
  pub after : Completion
  pub left : ℤ

unfoldable pub remove_waiter : ℕ → List WaitEntry → List WaitEntry
remove_waiter p [] = []
remove_waiter p (e ∷ es) = if e.waiter == p then es else e ∷ remove_waiter p es

-- After the loop: `none` would be a task that still sleeps.
finish : ℕ → Completion → ℤ → Completion × ℤ
unfolding remove_waiter
finish p x timeout =
    let x1 = record x { wait = remove_waiter p x.wait } in
    if x1.done == 0
    then (x1, timeout)
    else (record x1 { done = dec32 x1.done }, if eq_ℤ timeout (pos 0) then pos 1 else timeout)

sleep_loop : ℕ → Completion → List Sleep → Option (Completion × ℤ)
unfolding finish
sleep_loop p x [] = none
sleep_loop p x (r ∷ rs) =
    let again = sleep_loop p r.after rs in
    if r.signalled
    then some (finish p x erestartsys)
    else (if r.after.done == 0 && not (eq_ℤ r.left (pos 0))
        then again
        else some (finish p r.after r.left))

-- By task `p`; `none` if it still sleeps when the rounds are over.
unfoldable pub wait_for_common : ℕ → Completion → ℤ → List Sleep → Option (Completion × ℤ)
unfolding sleep_loop
wait_for_common p x timeout rounds =
    if x.done == 0
    then sleep_loop p (record x { wait = x.wait ++ record { exclusive = true; waiter = p } ∷ [] })
        rounds
    else some (record x { done = dec32 x.done }, if eq_ℤ timeout (pos 0) then pos 1 else timeout)

unfoldable pub wait_for_completion : ℕ → Completion → List Sleep → Option Completion
unfolding wait_for_common
wait_for_completion p x rounds = wait_for_common p x max_schedule_timeout rounds >>= λ r. some r.0

unfoldable pub wait_for_completion_timeout :
    ℕ → Completion → ℕ → List Sleep → Option (Completion × ℤ)
unfolding wait_for_common
wait_for_completion_timeout p x timeout = wait_for_common p x (pos timeout)

-- `t == -ERESTARTSYS ? t : 0`, for the waits that a signal can end.
unfoldable pub wait_for_completion_signal : ℕ → Completion → List Sleep → Option (Completion × ℤ)
unfolding wait_for_common
wait_for_completion_signal p x rounds =
    wait_for_common p x max_schedule_timeout rounds >>= λ (x1, t).
    some (x1, if eq_ℤ t erestartsys then t else pos 0)

-- `sleep_on_common`: `asleep` is what `schedule_timeout` leaves of the queue, with the time left.
unfoldable pub sleep_on_common :
    ℕ → List WaitEntry → (List WaitEntry → List WaitEntry × ℤ) → List WaitEntry × ℤ
unfolding remove_waiter
sleep_on_common p q asleep =
    let (q1, left) = asleep (record { exclusive = false; waiter = p } ∷ q) in
    (remove_waiter p q1, left)
