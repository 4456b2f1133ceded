-- ===== src/Rt/Release/Balanced.antt =====
-- What a throttled runqueue is like after it has tried to borrow, `balance_runtime` (sched_rt.c).
use mathlib.Core.Path.{subst}
use cmsc421prj.Base.{
  length, sub64, ℕ, ◌<◌, ◌≤◌, Bool, true, false, ◌≡◌, refl, some, List, [], ◌∷◌, ◌==◌, ltb, arith,
  Bool-cases, inl, inr, sym, ap, ◌∙◌,
}
use cmsc421prj.State.Data.{Sys}
use cmsc421prj.Rt.Bandwidth.{
  rt_rqs_of, borrow, borrow_loop, borrow_from, skips, balance_in, do_balance_runtime,
  balance_runtime,
}
use cmsc421prj.Rt.Borrowing.{IsSmall, borrow_loop-IsLoan}

-- What borrowing leaves alone.
record IsKept (s s' : Sys) : Type 0 where
  groups : s'.group ≡ s.group
  throttled : (j : ℕ) → (s'.rtq j).rt_throttled ≡ (s.rtq j).rt_throttled
  tg : (j : ℕ) → (s'.rtq j).tg ≡ (s.rtq j).tg

borrow-IsKept : (s : Sys) (q iter x : ℕ) → IsKept s (borrow s q iter x)
unfolding borrow
borrow-IsKept s q iter x = record {
  groups = refl;
  throttled = λ j. ground arith;
  tg = λ j. ground arith;
}

IsKept-trans : (s s1 s' : Sys) → IsKept s s1 → IsKept s1 s' → IsKept s s'
IsKept-trans s s1 s' a b = record {
  groups = b.groups ∙ a.groups;
  throttled = λ j. b.throttled j ∙ a.throttled j;
  tg = λ j. b.tg j ∙ a.tg j;
}

borrow_loop-IsKept :
    (s : Sys) (q weight period : ℕ) (more : Bool) (iters : List ℕ)
    → IsKept s (borrow_loop s q weight period more iters).0
unfolding borrow_loop
borrow_loop-IsKept s q weight period more [] = record {
  groups = refl;
  throttled = λ j. refl;
  tg = λ j. refl;
}
borrow_loop-IsKept s q weight period more (iter ∷ iters) =
    let x =
      borrow_from (s.rtq q).rt_runtime (sub64 (s.rtq iter).rt_runtime (s.rtq iter).rt_time) weight
        period in
    let s1 = borrow s q iter x in
    elim (Bool-cases (skips s q iter)) [
      | inl y ↦ rw y (borrow_loop-IsKept s q weight period more iters)
      | inr n ↦ elim (Bool-cases ((s1.rtq q).rt_runtime == period)) [
        | inl y ↦ rw (n, y) (borrow-IsKept s q iter x)
        | inr z ↦
            rw (n, z)
              (IsKept-trans s s1 _ (borrow-IsKept s q iter x)
                (borrow_loop-IsKept s1 q weight period true iters))
      ]
    ]

-- A runqueue of a group, with a runtime of at most the period, and numbers whose signed differences do
-- not wrap around.
pub record IsLimited (s : Sys) (q g : ℕ) : Type 0 where
  pub tg : (s.rtq q).tg ≡ some g
  pub small : IsSmall s q (s.group g).rt_period
  pub positive : 0 < (s.rtq q).rt_runtime

-- The throttled runqueue may have borrowed some runtime; nothing else of it has changed.
pub record IsBalanced (s s1 : Sys) (q g : ℕ) : Type 0 where
  pub limited : IsLimited s1 q g
  pub throttled : (s1.rtq q).rt_throttled ≡ (s.rtq q).rt_throttled
  pub time : (s1.rtq q).rt_time ≡ (s.rtq q).rt_time
  pub more : (s.rtq q).rt_runtime ≤ (s1.rtq q).rt_runtime

do_balance-IsBalanced :
    (s : Sys) (q g : ℕ)
    → IsLimited s q g
    → (s1 : Sys) × (more : Bool) × (do_balance_runtime s q ≡ some (s1, more)) × IsBalanced s s1 q g
unfolding do_balance_runtime balance_in
do_balance-IsBalanced s q g l =
    let span = (s.rd (s.rq s.this_cpu).rd).span in
    let weight = length span in
    let period = (s.group g).rt_period in
    let iters = rt_rqs_of s g span in
    let (s1, more) = borrow_loop s q weight period false iters in
    let (loan, small) = borrow_loop-IsLoan s q weight period false iters l.small in
    let kept = borrow_loop-IsKept s q weight period false iters in
    let same : (s.group g).rt_period ≡ (s1.group g).rt_period =
      ap (λ f. (f g).rt_period) (sym kept.groups) in
    (
      s1,
      more,
      rw l.tg refl,
      record {
        limited = record {
          tg = kept.tg q ∙ l.tg;
          small = subst (IsSmall s1 q) same small;
          positive = omega (arith, loan.gained, l.positive);
        };
        throttled = kept.throttled q;
        time = loan.times q;
        more = loan.gained;
      },
    )

pub balance_runtime-IsBalanced :
    (s : Sys) (q g : ℕ)
    → IsLimited s q g
    → (s1 : Sys) × (more : Bool) × (balance_runtime s q ≡ some (s1, more)) × IsBalanced s s1 q g
unfolding balance_runtime
balance_runtime-IsBalanced s q g l =
    elim (Bool-cases (ltb (s.rtq q).rt_runtime (s.rtq q).rt_time)) [
      | inl y ↦ let (s1, more, e, b) = do_balance-IsBalanced s q g l in (s1, more, rw y e, b)
      | inr n ↦ (
        s,
        false,
        rw n refl,
        record { limited = l; throttled = refl; time = refl; more = omega arith },
      )
    ]
