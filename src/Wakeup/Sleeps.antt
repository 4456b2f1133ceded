-- ===== src/Wakeup/Sleeps.antt =====
-- Who leaves its runqueue in `__schedule`.
use cmsc421prj.Base.{ℕ, Bool, not, ◌&&◌, ◌==◌}
use cmsc421prj.Fair.Data.{FairSys}
use cmsc421prj.Wakeup.Switch.{Site, signal_pending_state}

-- The task sleeps: its state is not TASK_RUNNING, it is not preempted, and no signal ends the state.
abbrev pub sleeps_in : Site → ℕ → ℕ → Bool
sleeps_in site state p =
    (not (state == 0) && not site.preempt_active) && not (signal_pending_state site state p)

abbrev pub sleeps : Site → FairSys → ℕ → Bool
sleeps site s p = sleeps_in site (s.sys.task p).state p
