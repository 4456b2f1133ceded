-- ===== src/Rt/Release.antt =====
-- How long a throttled runqueue waits for the period timer.
pub mod Balanced
use native.Mathlib.Nat.{mul-le-mul}
use mathlib.Core.Path.{subst}
use cmsc421prj.Base.{
  length, not, ◌||◌, ◌⊎◌, sub64, ℕ, zero, suc, ◌+◌, ◌*◌, ◌-◌, ◌<◌, ◌≤◌, Bool, true, false, ◌≡◌, ◌≢◌,
  refl, Option, some, List, [], ◌∷◌, ◌>>=◌, ◌==◌, ltb, if◌then◌else◌, arith, word, Bool-cases, inl,
  inr, sym, ap, ◌∙◌,
}
use cmsc421prj.State.Data.{Sys, RtRq}
use cmsc421prj.State.Setters.{set_rtq}
use cmsc421prj.Rt.Bandwidth.{
  rt_rqs_of, borrow, borrow_loop, borrow_from, skips, balance_in, do_balance_runtime,
  balance_runtime,
}
use cmsc421prj.Rt.Borrowing.{IsSmall, borrow_loop-IsLoan}
use cmsc421prj.Rt.Timer.{
  settle, unthrottle, worked_off, balance_if_throttled, settle_time, rt_rq_enqueue, period_tick,
}
use cmsc421prj.Rt.Release.Balanced.{IsLimited, IsBalanced, balance_runtime-IsBalanced}

settled_time : (r : RtRq) → r.rt_runtime < word → (settle r 1).rt_time ≡ r.rt_time - r.rt_runtime
unfolding settle worked_off
settled_time r h = ground arith

one_less : (t r k : ℕ) → 0 < r → t < (suc k + 2) * r → t - r < (k + 2) * r
one_less t r k p l = grind arith

module _ (enqueue_rt : Sys → ℕ → Option Sys) (q : ℕ) where
  -- The timer lifts the throttle within `k` further ticks; the runqueue does not run in between. In
  -- the tick that lifts it, the runqueue is then queued again.
  pub data Released : ℕ → Sys → Type 0 where
    lifted :
        {k : ℕ} {s : Sys} (s1 : Sys) (busy : Bool)
        → period_tick enqueue_rt s q 1 ≡ (rt_rq_enqueue enqueue_rt s1 q >>= λ s2. some (s2, busy))
        → (s1.rtq q).rt_throttled ≡ false
        → Released k s
    waits :
        {k : ℕ} {s : Sys} (s1 : Sys) (busy : Bool)
        → period_tick enqueue_rt s q 1 ≡ some (s1, busy)
        → Released k s1
        → Released (suc k) s

  balance_if_throttled-IsBalanced :
      (s : Sys) (g : ℕ)
      → (s.rtq q).rt_throttled ≡ true
      → IsLimited s q g
      → (s1 : Sys) × (balance_if_throttled enqueue_rt s q ≡ some s1) × IsBalanced s s1 q g
  unfolding balance_if_throttled
  balance_if_throttled-IsBalanced s g t l =
      let (s1, more, e, b) = balance_runtime-IsBalanced s q g l in (s1, rw (t, e) refl, b)

  -- The runqueue after the tick.
  abbrev paid : RtRq → RtRq × Bool
  paid r = unthrottle (settle r 1)

  abbrev is_busy : RtRq → Bool
  is_busy r = not (r.rt_time == 0) || not (r.rt_nr_running == 0)

  tick_lem :
      (s s1 : Sys)
      → (s.rtq q).rt_time ≢ 0
      → balance_if_throttled enqueue_rt s q ≡ some s1
      → period_tick enqueue_rt s q 1 ≡ (
          let r = paid (s1.rtq q) in
          let s2 = set_rtq s1 q r.0 in
          if r.1
          then (rt_rq_enqueue enqueue_rt s2 q >>= λ s3. some (s3, is_busy r.0))
          else some (s2, is_busy r.0))
  unfolding period_tick settle_time
  tick_lem s s1 ne b = let n : ((s.rtq q).rt_time == 0) ≡ false = ground arith in rw (n, b) refl

  paid-lifted :
      (r : RtRq)
      → r.rt_throttled ≡ true
      → ltb (settle r 1).rt_time r.rt_runtime ≡ true
      → ((paid r).1 ≡ true) × ((paid r).0.rt_throttled ≡ false)
  unfolding unthrottle settle
  paid-lifted r t y = rw (t, y) (refl, refl)

  paid-stays :
      (r : RtRq) → ltb (settle r 1).rt_time r.rt_runtime ≡ false → paid r ≡ (settle r 1, false)
  unfolding unthrottle settle
  paid-stays r n = ground arith

  -- With the time paid for, and still throttled.
  later-IsLimited :
      (s : Sys) (g : ℕ) → IsLimited s q g → IsLimited (set_rtq s q (settle (s.rtq q) 1)) q g
  unfolding settle worked_off
  later-IsLimited s g l = record {
    tg = ground (arith, l.tg);
    small = record {
      capped = ground (arith, l.small.capped);
      period_small = l.small.period_small;
      time_small = λ j. ground (arith, l.small.time_small j);
      runtime_small = λ j f. ground (arith, l.small.runtime_small j);
    };
    positive = ground (arith, l.positive);
  }

  settled-same :
      (r : RtRq)
      → ((settle r 1).rt_runtime ≡ r.rt_runtime) × ((settle r 1).rt_throttled ≡ r.rt_throttled)
  unfolding settle
  settled-same r = (refl, refl)

  set-throttled : (s : Sys) (r : RtRq) → ((set_rtq s q r).rtq q).rt_throttled ≡ r.rt_throttled
  set-throttled s r = ground arith

  set-runtime : (s : Sys) (r : RtRq) → ((set_rtq s q r).rtq q).rt_runtime ≡ r.rt_runtime
  set-runtime s r = ground arith

  set-time : (s : Sys) (r : RtRq) → ((set_rtq s q r).rtq q).rt_time ≡ r.rt_time
  set-time s r = ground arith

  -- One tick: it lifts the throttle, or the runqueue, which may have borrowed, has paid its runtime.
  record IsPaid (s s2 : Sys) (g : ℕ) : Type 0 where
    busy : Bool
    tick : period_tick enqueue_rt s q 1 ≡ some (s2, busy)
    throttled : (s2.rtq q).rt_throttled ≡ true
    limited : IsLimited s2 q g
    more : (s.rtq q).rt_runtime ≤ (s2.rtq q).rt_runtime
    time : (s2.rtq q).rt_time ≡ (s.rtq q).rt_time - (s2.rtq q).rt_runtime
    enough : (s2.rtq q).rt_runtime + (s2.rtq q).rt_runtime ≤ (s.rtq q).rt_time

  tick-cases :
      (s : Sys) (g : ℕ)
      → (s.rtq q).rt_throttled ≡ true
      → (s.rtq q).rt_time ≢ 0
      → IsLimited s q g
      → ((k : ℕ) → Released k s) ⊎ ((s2 : Sys) × IsPaid s s2 g)
  tick-cases s g t ne l =
      let (s1, e, b) = balance_if_throttled-IsBalanced s g t l in
      let r = s1.rtq q in
      let throttled = b.throttled ∙ t in
      let short : r.rt_runtime < word =
        omega (arith, b.limited.small.capped, b.limited.small.period_small) in
      let tick = tick_lem s s1 ne e in
      elim (Bool-cases (ltb (settle r 1).rt_time r.rt_runtime)) [
        | inl y ↦
            let (lifts, open_now) = paid-lifted r throttled y in
            let s2 = set_rtq s1 q (paid r).0 in
            let ends =
              tick
              ∙ ap
                  (λ x.
                    if x
                    then (rt_rq_enqueue enqueue_rt s2 q >>= λ s3. some (s3, is_busy (paid r).0))
                    else some (s2, is_busy (paid r).0))
                  lifts in
            inl (λ k. lifted s2 (is_busy (paid r).0) ends (set-throttled s1 (paid r).0 ∙ open_now))
        | inr n ↦
            let stays = paid-stays r n in
            let s2 = set_rtq s1 q (settle r 1) in
            let left = settled_time r short in
            let own = settled-same r in
            inr (
              s2,
              record {
                busy = is_busy (settle r 1);
                tick =
                    tick
                    ∙ ap
                        (λ x.
                          if x.1
                          then (rt_rq_enqueue enqueue_rt (set_rtq s1 q x.0) q >>= λ s3.
                              some (s3, is_busy x.0))
                          else some (set_rtq s1 q x.0, is_busy x.0))
                        stays;
                throttled = set-throttled s1 (settle r 1) ∙ own.1 ∙ throttled;
                limited = later-IsLimited s1 g b.limited;
                more = rw (set-runtime s1 (settle r 1), own.0) b.more;
                time =
                    set-time s1 (settle r 1)
                    ∙ left
                    ∙ rw (set-runtime s1 (settle r 1), own.0, b.time) refl;
                enough =
                    rw (set-runtime s1 (settle r 1), own.0)
                      (ground (arith, left, b.time, n, b.limited.positive));
              },
            )
      ]

  -- A throttled runqueue that has used less than k + 2 times its runtime is released: the throttle is
  -- lifted in one of the next k + 1 ticks of the period timer, each for one period, if it does not run
  -- in between. It may borrow in these ticks, but need not be able to. The runqueue is that of a group,
  -- it has used some time, and its runtime is not 0 and at most the period; the period, the times used
  -- and the runtimes, where they are limited, are below 2^63. A tick is the round of the timer for this
  -- runqueue, which is not made where the bandwidth is not limited.
  pub period_tick-Released :
      (k : ℕ) (s : Sys) (g : ℕ)
      → (s.rtq q).rt_throttled ≡ true
      → (s.rtq q).rt_time ≢ 0
      → IsLimited s q g
      → (s.rtq q).rt_time < (k + 2) * (s.rtq q).rt_runtime
      → Released k s
  period_tick-Released zero s g t ne l less = elim (tick-cases s g t ne l) [
    | inl now ↦ now 0
    | inr (s2, p) ↦ absurd (omega (arith, p.enough, p.more))
  ]
  period_tick-Released (suc k) s g t ne l less = elim (tick-cases s g t ne l) [
    | inl now ↦ now (suc k)
    | inr (s2, p) ↦
        let some_left : (s2.rtq q).rt_time ≢ 0 =
          ground (arith, p.time, p.enough, p.limited.positive) in
        let grown : (suc k + 2) * (s.rtq q).rt_runtime ≤ (suc k + 2) * (s2.rtq q).rt_runtime =
          mul-le-mul {n₁ = suc k + 2} {n₂ = suc k + 2} (omega arith) p.more in
        let less2 =
          one_less (s.rtq q).rt_time (s2.rtq q).rt_runtime k p.limited.positive (omega arith) in
        waits s2 p.busy p.tick
          (period_tick-Released k s2 g p.throttled some_left p.limited (rw p.time less2))
  ]
