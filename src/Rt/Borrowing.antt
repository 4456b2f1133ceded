-- ===== src/Rt/Borrowing.antt =====
-- What a runqueue that is out of time borrows from its neighbours: the loop of `do_balance_runtime`.
use native.Mathlib.Decide.{ℕ_discrete}
use native.Mathlib.Nat.{div-le_self}
use cmsc421prj.Base.{
  [], inr, inl, Bool-cases, ◌∷◌, List, Bool, ◌/◌, false, ◌∙◌, ℕ, ◌+◌, ◌-◌, ◌^◌, ◌≤◌, ◌<◌, ◌≡◌, ◌≢◌,
  refl, true, arith, sub64, add64, ◌==◌, ltb, if◌then◌else◌,
}
use cmsc421prj.State.Data.{Sys, runtime_inf}
use cmsc421prj.Rt.Bandwidth.{borrow_loop, borrow_from, skips, borrow, positive64}

spare_lem :
    (ri ti : ℕ)
    → ti < 2 ^ 63
    → ri < 2 ^ 63
    → positive64 (sub64 ri ti) ≡ true
    → (ti < ri) × (sub64 ri ti ≡ ri - ti)
spare_lem ri ti a b p = (ground arith, ground arith)

-- The amount of one round, where `d` is the share of the spare time.
amount_lem :
    (r ri ti d period : ℕ)
    → r ≤ period
    → period < 2 ^ 63
    → ti < ri
    → ri < 2 ^ 63
    → d ≤ ri - ti
    → let x = if ltb period (add64 r d) then sub64 period r else d in
      (add64 r x ≤ period)
      × (sub64 ri x + add64 r x ≡ ri + r)
      × (ti ≤ sub64 ri x)
      × (r ≤ add64 r x)
      × (sub64 ri x ≤ ri)
amount_lem r ri ti d period a b c e h =
    (ground arith, ground arith, ground arith, ground arith, ground arith)

-- The numbers of the runqueues are such that signed differences of them do not wrap around.
pub record IsSmall (s : Sys) (q period : ℕ) : Type 0 where
  pub capped : (s.rtq q).rt_runtime ≤ period
  pub period_small : period < 2 ^ 63
  pub time_small : (j : ℕ) → (s.rtq j).rt_time < 2 ^ 63
  pub runtime_small : (j : ℕ) → (s.rtq j).rt_runtime ≢ runtime_inf → (s.rtq j).rt_runtime < 2 ^ 63

-- From `s` to `s'` the runqueue `q` has gained runtime, and every other one has kept at least
-- the time it has used, if it has changed at all; none but `q` has gained.
pub record IsLoan (s s' : Sys) (q : ℕ) : Type 0 where
  pub gained : (s.rtq q).rt_runtime ≤ (s'.rtq q).rt_runtime
  pub times : (j : ℕ) → (s'.rtq j).rt_time ≡ (s.rtq j).rt_time
  pub lent : (j : ℕ) → j ≢ q → (s'.rtq j).rt_runtime ≤ (s.rtq j).rt_runtime
  pub kept :
      (j : ℕ)
      → j ≢ q
      → (s'.rtq j).rt_runtime ≢ (s.rtq j).rt_runtime
      → (s.rtq j).rt_time ≤ (s'.rtq j).rt_runtime

IsLoan-refl : (s : Sys) (q : ℕ) → IsLoan s s q
IsLoan-refl s q = record {
  gained = omega arith;
  times = λ j. refl;
  lent = λ j n. omega arith;
  kept = λ j n c. absurd (c refl);
}

IsLoan-trans : (s s1 s' : Sys) (q : ℕ) → IsLoan s s1 q → IsLoan s1 s' q → IsLoan s s' q
IsLoan-trans s s1 s' q a b = record {
  gained = omega (arith, a.gained, b.gained);
  times = λ j. b.times j ∙ a.times j;
  lent = λ j n. omega (arith, a.lent j n, b.lent j n);
  kept = λ j n c. elim (ℕ_discrete (s'.rtq j).rt_runtime (s1.rtq j).rt_runtime) [
    | yes e ↦ rw e (a.kept j n (λ d. c (e ∙ d)))
    | no ne ↦ omega (arith, b.kept j n ne, a.times j)
  ];
}

pub round_runtime :
    (s : Sys) (q iter x j : ℕ)
    → q ≢ iter
    → ((borrow s q iter x).rtq j).rt_runtime ≡ (
        if q == j
        then add64 (s.rtq q).rt_runtime x
        else (if iter == j then sub64 (s.rtq iter).rt_runtime x else (s.rtq j).rt_runtime))
unfolding borrow
round_runtime s q iter x j ne = ground arith

round_time : (s : Sys) (q iter x j : ℕ) → ((borrow s q iter x).rtq j).rt_time ≡ (s.rtq j).rt_time
unfolding borrow
round_time s q iter x j = ground arith

pub lends :
    (s : Sys) (q iter : ℕ)
    → skips s q iter ≡ false
    → (q ≢ iter)
      × ((s.rtq iter).rt_runtime ≢ runtime_inf)
      × (positive64 (sub64 (s.rtq iter).rt_runtime (s.rtq iter).rt_time) ≡ true)
lends s q iter h = ((λ e. ground arith), (λ e. ground arith), ground arith)

module _ (s : Sys) (q iter weight period : ℕ) (m : IsSmall s q period) where
  unfoldable pub amount : ℕ
  amount =
      borrow_from (s.rtq q).rt_runtime (sub64 (s.rtq iter).rt_runtime (s.rtq iter).rt_time) weight
        period

  pub amount_ok :
      skips s q iter ≡ false
      → (add64 (s.rtq q).rt_runtime amount ≤ period)
        × (sub64 (s.rtq iter).rt_runtime amount + add64 (s.rtq q).rt_runtime amount
            ≡ (s.rtq iter).rt_runtime + (s.rtq q).rt_runtime)
        × ((s.rtq iter).rt_time ≤ sub64 (s.rtq iter).rt_runtime amount)
        × ((s.rtq q).rt_runtime ≤ add64 (s.rtq q).rt_runtime amount)
        × (sub64 (s.rtq iter).rt_runtime amount ≤ (s.rtq iter).rt_runtime)
  unfolding amount borrow_from
  amount_ok h =
      let (ne, fin, pos_spare) = lends s q iter h in
      let small = m.runtime_small iter fin in
      let (lt, e) = spare_lem _ _ (m.time_small iter) small pos_spare in
      amount_lem _ _ _ (sub64 (s.rtq iter).rt_runtime (s.rtq iter).rt_time / weight) period m.capped
        m.period_small lt small
        (rw (← e) (div-le_self (sub64 (s.rtq iter).rt_runtime (s.rtq iter).rt_time) weight))

  round-IsLoan : skips s q iter ≡ false → IsLoan s (borrow s q iter amount) q
  round-IsLoan h =
      let (ne, fin, pos_spare) = lends s q iter h in
      let (a, b, c, g, l) = amount_ok h in
      record {
        gained = ground (arith, round_runtime s q iter amount q ne);
        times = round_time s q iter amount;
        lent = λ j n. ground (arith, round_runtime s q iter amount j ne);
        kept = λ j n d. ground (arith, round_runtime s q iter amount j ne);
      }

  pub round-IsSmall : skips s q iter ≡ false → IsSmall (borrow s q iter amount) q period
  round-IsSmall h =
      let (ne, fin, pos_spare) = lends s q iter h in
      let (a, b, c, g, l) = amount_ok h in
      record {
        capped = ground (arith, round_runtime s q iter amount q ne);
        period_small = m.period_small;
        time_small = λ j. rw (round_time s q iter amount j) (m.time_small j);
        runtime_small =
            λ j f. ground (arith, round_runtime s q iter amount j ne, m.runtime_small j);
      }

-- The loop of `do_balance_runtime`, over any runqueues, for a borrower whose runtime is at most the
-- period: the borrower loses nothing and ends with the period at most; no other runqueue gains, and
-- one that has lent keeps the time that it has used; all times used stay as they are. The period, the
-- times used and the runtimes, where they are limited, are below 2^63.
pub borrow_loop-IsLoan :
    (s : Sys) (q weight period : ℕ) (more : Bool) (iters : List ℕ)
    → IsSmall s q period
    → IsLoan s (borrow_loop s q weight period more iters).0 q
      × IsSmall (borrow_loop s q weight period more iters).0 q period
unfolding borrow_loop amount
borrow_loop-IsLoan s q weight period more [] m = (IsLoan-refl s q, m)
borrow_loop-IsLoan s q weight period more (iter ∷ iters) m = elim (Bool-cases (skips s q iter)) [
  | inl y ↦ rw y (borrow_loop-IsLoan s q weight period more iters m)
  | inr n ↦
      let s1 = borrow s q iter (amount s q iter weight period m) in
      let a = round-IsLoan s q iter weight period m n in
      let b = round-IsSmall s q iter weight period m n in
      rw n (elim (Bool-cases ((s1.rtq q).rt_runtime == period)) [
        | inl y ↦ rw y (a, b)
        | inr z ↦
            let (c, d) = borrow_loop-IsLoan s1 q weight period true iters b in
            rw z (IsLoan-trans s s1 _ q a c, d)
      ])
]
