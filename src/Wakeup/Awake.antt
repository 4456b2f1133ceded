-- ===== src/Wakeup/Awake.antt =====
-- After a wakeup the task does not sleep in a state that it was to wake from.
use cmsc421prj.Base.{
  ℕ, Bool, true, false, not, ◌&&◌, Option, some, ◌≡◌, refl, ◌⊎◌, inl, inr, >>=-eq-some, ◌==◌,
  if◌then◌else◌, Bool-cases, arith, sym, ap, ◌∙◌,
}
use mathlib.Core.Path.{subst}
use mathlib.Core.Option.{some-injective}
use cmsc421prj.State.Data.{SchedClass}
use cmsc421prj.Rt.Entities.{task_current}
use cmsc421prj.Fair.Data.{FairSys}
use cmsc421prj.Fair.Tasks.{set_clock}
use cmsc421prj.Dispatch.{ClassOps, activate_task}
use cmsc421prj.Pulling.{set_task_cpu}
use cmsc421prj.Setscheduler.Requeue.{Keeps, activated_on}
use cmsc421prj.Wakeup.{
  WakeOps, Around, matches, set_state, credit, out_running, out_activate, on_selected,
  try_to_wake_up,
}

-- The task is on a runqueue, and its state is TASK_RUNNING.
pub record IsAwake (s : FairSys) (p : ℕ) : Type 0 where
  pub queued : (s.sys.task p).on_rq ≡ true
  pub runs : (s.sys.task p).state ≡ 0

-- The laws of a class. The test for preemption moves no task, and the hook after a wakeup leaves the
-- task awake, on whatever cpu.
pub record IsWakeLawful (o : WakeOps) : Type 0 where
  pub check_preempt : (s : FairSys) (c p : ℕ) (sync : Bool) → Keeps s (o.check_preempt s c p sync) p
  pub task_wake_up :
      (s : FairSys) (c p : ℕ) (s' : FairSys)
      → IsAwake s p
      → o.task_wake_up s c p ≡ some s'
      → IsAwake s' p

-- How a wakeup ends: awake, or, without success, in a state that was not to be woken.
abbrev pub Ended : FairSys → ℕ → ℕ → Bool → Type 0
Ended s p state success = ((success ≡ false) × (matches s p state ≡ false)) ⊎ IsAwake s p

credit-on_rq :
    (i : Bool) (s : FairSys) (p : ℕ) → ((credit i s).sys.task p).on_rq ≡ (s.sys.task p).on_rq
unfolding credit
credit-on_rq i s p = elim (Bool-cases i) [ inl y ↦ rw y refl | inr n ↦ rw n refl ]

state-IsAwake : (s : FairSys) (p : ℕ) → (s.sys.task p).on_rq ≡ true → IsAwake (set_state s p 0) p
state-IsAwake s p on = record { queued = ground arith; runs = ground arith }

module _ (ops : SchedClass → ClassOps) (wakes : SchedClass → WakeOps) (around : Around)
    (laws : (k : SchedClass) → IsWakeLawful (wakes k)) where
  out_running-IsAwake :
      (s s' : FairSys) (c p : ℕ) (sync success r : Bool)
      → (s.sys.task p).on_rq ≡ true
      → out_running ops wakes around s c p sync success ≡ some (s', r)
      → IsAwake s' p
  unfolding out_running
  out_running-IsAwake s s' c p sync success r on h =
      let k = (s.sys.task (s.sys.rq c).curr).sched_class in
      let (s1, e, h1) = >>=-eq-some ((wakes k).check_preempt s c p sync) _ h in
      let awake = state-IsAwake s1 p ((laws k).check_preempt s c p sync s1 e ∙ on) in
      let s2 = set_state s1 p 0 in
      let k2 = (s2.sys.task p).sched_class in
      let (s3, e2, last) = >>=-eq-some ((wakes k2).task_wake_up s2 c p) _ h1 in
      let same : s3 ≡ s' = ap (λ x. x.0) (some-injective _ _ last) in
      subst (λ x. IsAwake x p) same ((laws k2).task_wake_up s2 c p s3 awake e2)

  out_activate-IsAwake :
      (s s' : FairSys) (c p : ℕ) (sync r : Bool)
      → out_activate ops wakes around s c p sync ≡ some (s', r)
      → IsAwake s' p
  unfolding out_activate
  out_activate-IsAwake s s' c p sync r h =
      let (s1, e, h1) = >>=-eq-some (activate_task ops s c p true) _ h in
      let on = credit-on_rq around.in_interrupt s1 p ∙ activated_on ops s c p true s1 e in
      out_running-IsAwake (credit around.in_interrupt s1) s' c p sync true r on h1

  -- The tests that stand before the activation, wherever they are made.
  tested-Ended :
      (s s' : FairSys) (c p state : ℕ) (sync r : Bool) (rest : Option (FairSys × Bool))
      → (if not (matches s p state)
          then some (s, false)
          else (if (s.sys.task p).on_rq
              then out_running ops wakes around s c p sync false
              else rest))
        ≡ some (s', r)
      → (rest ≡ some (s', r) → Ended s' p state r)
      → Ended s' p state r
  tested-Ended s s' c p state sync r rest h k = elim (Bool-cases (matches s p state)) [
    | inl y ↦
        let h1 = rw y at h in
        elim (Bool-cases (s.sys.task p).on_rq) [
          | inl on ↦ let h2 = rw on at h1 in inr (out_running-IsAwake s s' c p sync false r on h2)
          | inr off ↦ let h2 = rw off at h1 in k h2
        ]
    | inr n ↦
        let h1 = rw n at h in
        let pair = some-injective _ _ h1 in
        inl
          (sym (ap (λ x. x.1) pair), subst (λ x. matches x p state ≡ false) (ap (λ x. x.0) pair) n)
  ]

  on_selected-Ended :
      (s s' : FairSys) (c p state : ℕ) (sync r : Bool)
      → on_selected ops wakes around s c p state sync ≡ some (s', r)
      → Ended s' p state r
  unfolding on_selected
  on_selected-Ended s s' c p state sync r h =
      let cpu = (wakes (s.sys.task p).sched_class).select_task_rq s p sync in
      let s1 = around.others (set_task_cpu s p cpu) in
      let here = (s1.sys.task p).cpu in
      elim (Bool-cases (cpu == c)) [
        | inl y ↦ let h1 = rw y at h in inr (out_activate-IsAwake s s' c p sync r h1)
        | inr n ↦
            let h1 = rw n at h in
            tested-Ended s1 s' here p state sync r _ h1
              (λ g. inr (out_activate-IsAwake s1 s' here p sync r g))
      ]

-- Where `try_to_wake_up` returns, the task is on a runqueue in the state TASK_RUNNING, or its state is
-- none of those to be woken and the result is 0. So it is whatever other cpus do while the runqueue is
-- unlocked. This needs the laws of the classes, which the fair class has.
pub try_to_wake_up-Ended :
    (ops : SchedClass → ClassOps) (wakes : SchedClass → WakeOps) (around : Around)
    → ((k : SchedClass) → IsWakeLawful (wakes k))
    → (s s' : FairSys) (p state : ℕ) (sync r : Bool)
    → try_to_wake_up ops wakes around s p state sync ≡ some (s', r)
    → Ended s' p state r
unfolding try_to_wake_up
try_to_wake_up-Ended ops wakes around laws s0 s' p state wanted r h =
    let sync = wanted && around.sync_wakeups in
    let s1 = around.update_shares s0 p in
    let c = (s1.sys.task p).cpu in
    let s = set_clock s1 c (around.clock c) in
    tested-Ended ops wakes around laws s s' c p state sync r _ h (λ g.
      elim (Bool-cases (task_current s.sys c p)) [
        | inl y ↦
            let g1 = rw y at g in
            inr (out_activate-IsAwake ops wakes around laws s s' c p sync r g1)
        | inr n ↦
            let g1 = rw n at g in on_selected-Ended ops wakes around laws s s' c p state sync r g1
      ])
