-- ===== src/Waiting.antt =====
-- Wait queues, sched.c: the wake-up functions. The function of an entry is a parameter that acts on a
-- state of any type.
pub mod Order
pub mod Completion
use cmsc421prj.Base.{
  ℕ, Bool, true, false, ◌&&◌, Option, none, some, List, [], ◌∷◌, ◌==◌, if◌then◌else◌, dec32,
}

-- `wait_queue_t`: WQ_FLAG_EXCLUSIVE, and the task that waits.
pub record WaitEntry : Type 0 where
  pub exclusive : Bool
  pub waiter : ℕ

-- How a function of an entry is called: with `mode`, `sync` and `key`, where null is `none`.
pub record WakeCall : Type 0 where
  pub mode : ℕ
  pub sync : Bool
  pub key : Option ℕ

-- The function of an entry: the state after it, and whether it has woken the task.
abbrev pub WakeFunction : Type 0 → Type 0
WakeFunction S = WakeCall → S → WaitEntry → S × Bool

module _ {S : Type 0} (func : WakeFunction S) where
  -- `__wake_up_common`; `nr_exclusive` is an `int` and counts down through 0 if it starts there.
  unfoldable pub wake_up_common : WakeCall → ℕ → S → List WaitEntry → S
  wake_up_common call nr s [] = s
  wake_up_common call nr s (e ∷ es) =
      let (s1, woken) = func call s e in
      let one_less = wake_up_common call (dec32 nr) s1 es in
      let same = wake_up_common call nr s1 es in
      if woken && e.exclusive then (if dec32 nr == 0 then s1 else one_less) else same

  unfoldable pub wake_up : ℕ → ℕ → Option ℕ → S → List WaitEntry → S
  unfolding wake_up_common
  wake_up mode nr key = wake_up_common (record { mode = mode; sync = false; key = key }) nr

  unfoldable pub wake_up_locked : ℕ → S → List WaitEntry → S
  unfolding wake_up_common
  wake_up_locked mode = wake_up_common (record { mode = mode; sync = false; key = none }) 1

  unfoldable pub wake_up_locked_key : ℕ → Option ℕ → S → List WaitEntry → S
  unfolding wake_up_common
  wake_up_locked_key mode key = wake_up_common (record { mode = mode; sync = false; key = key }) 1

  -- A null queue is `none`.
  unfoldable pub wake_up_sync_key : ℕ → ℕ → Option ℕ → S → Option (List WaitEntry) → S
  unfolding wake_up_common
  wake_up_sync_key mode nr key s none = s
  wake_up_sync_key mode nr key s (some q) =
      let sync = if nr == 0 then false else true in
      wake_up_common (record { mode = mode; sync = sync; key = key }) nr s q

  unfoldable pub wake_up_sync : ℕ → ℕ → S → Option (List WaitEntry) → S
  unfolding wake_up_sync_key
  wake_up_sync mode nr = wake_up_sync_key mode nr none
