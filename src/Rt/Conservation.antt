-- ===== src/Rt/Conservation.antt =====
-- Borrowing moves runtime and makes none: the sum over all runqueues in `do_balance_runtime`.
use native.Mathlib.Decide.{ℕ_discrete}
use cmsc421prj.Base.{
  ℕ, zero, suc, ◌+◌, ◌<◌, ◌≡◌, ◌≢◌, refl, true, false, arith, ◌&&◌, ◌==◌, ltb, if◌then◌else◌, List,
  [], ◌∷◌, Bool, Bool-cases, inl, inr, ◌∙◌,
}
use cmsc421prj.State.Data.{Sys}
use cmsc421prj.Rt.Bandwidth.{borrow_loop, skips, borrow}
use cmsc421prj.Rt.Borrowing.{IsSmall, amount, amount_ok, lends, round_runtime, round-IsSmall}

-- The sum of `f` below `n`.
abbrev pub sum_below : (ℕ → ℕ) → ℕ → ℕ
sum_below f zero = 0
sum_below f (suc n) = sum_below f n + f n

abbrev pub all_below : ℕ → List ℕ → Bool
all_below n [] = true
all_below n (x ∷ xs) = ltb x n && all_below n xs

sum-same : (f g : ℕ → ℕ) (n : ℕ) → ((j : ℕ) → j < n → f j ≡ g j) → sum_below f n ≡ sum_below g n
sum-same f g zero h = refl
sum-same f g (suc n) h = omega (arith, h n (omega arith), sum-same f g n (λ j p. h j (omega arith)))

sum-one :
    (f g : ℕ → ℕ) (a n : ℕ)
    → a < n
    → ((j : ℕ) → j ≢ a → f j ≡ g j)
    → sum_below f n + g a ≡ sum_below g n + f a
sum-one f g a zero p h = omega arith
sum-one f g a (suc n) p h = elim (ℕ_discrete n a) [
  | yes e ↦
      let same = sum-same f g n (λ j q. h j (omega (arith, e))) in
      let heads : f n + g a ≡ g n + f a = rw e (omega arith) in omega (arith, same, heads)
  | no ne ↦ omega (arith, h n ne, sum-one f g a n (omega arith) h)
]

sum-two :
    (f g : ℕ → ℕ) (a b n : ℕ)
    → a < n
    → b < n
    → a ≢ b
    → ((j : ℕ) → j ≢ a → j ≢ b → f j ≡ g j)
    → f a + f b ≡ g a + g b
    → sum_below f n ≡ sum_below g n
sum-two f g a b n p q ne h e =
    let x = sum-one f mixed a n p (λ j i. ground arith) in
    let y = sum-one mixed g b n q (λ j i. ground (arith, h j)) in ground (arith, x, y)
  where
    mixed : ℕ → ℕ
    mixed j = if j == a then g a else f j

runtimes : Sys → ℕ → ℕ
runtimes s j = (s.rtq j).rt_runtime

module _ (s : Sys) (q iter weight period n : ℕ) (m : IsSmall s q period) where
  round-sum :
      skips s q iter ≡ false
      → q < n
      → iter < n
      → sum_below (runtimes (borrow s q iter (amount s q iter weight period m))) n
        ≡ sum_below (runtimes s) n
  unfolding runtimes
  round-sum h a b =
      let x = amount s q iter weight period m in
      let (ne, fin, pos_spare) = lends s q iter h in
      let (u, v, w, g, l) = amount_ok s q iter weight period m h in
      sum-two (runtimes (borrow s q iter x)) (runtimes s) q iter n a b ne
        (λ j c d. ground (arith, round_runtime s q iter x j ne))
        (ground (arith, round_runtime s q iter x q ne, round_runtime s q iter x iter ne))

-- Borrowing moves runtime between the runqueues and makes none: the sum of the runtimes of the first
-- `n` runqueues, all of those concerned among them, is the same before and after the loop of
-- `do_balance_runtime`. The runtime of the borrower is at most the period, and the period, the times
-- used and the runtimes, where they are limited, are below 2^63.
pub borrow_loop-sum :
    (s : Sys) (q weight period n : ℕ) (more : Bool) (iters : List ℕ)
    → IsSmall s q period
    → q < n
    → all_below n iters ≡ true
    → sum_below (λ j. ((borrow_loop s q weight period more iters).0.rtq j).rt_runtime) n
      ≡ sum_below (λ j. (s.rtq j).rt_runtime) n
unfolding borrow_loop amount runtimes
borrow_loop-sum s q weight period n more [] m a b = refl
borrow_loop-sum s q weight period n more (iter ∷ iters) m a b =
    let below : iter < n = ground arith in
    let rest : all_below n iters ≡ true = ground arith in
    elim (Bool-cases (skips s q iter)) [
      | inl y ↦ rw y (borrow_loop-sum s q weight period n more iters m a rest)
      | inr k ↦
          let s1 = borrow s q iter (amount s q iter weight period m) in
          let here = round-sum s q iter weight period n m k a below in
          rw k (elim (Bool-cases ((s1.rtq q).rt_runtime == period)) [
            | inl y ↦ rw y here
            | inr z ↦
                let small = round-IsSmall s q iter weight period m k in
                rw z (borrow_loop-sum s1 q weight period n true iters small a rest ∙ here)
          ])
    ]
