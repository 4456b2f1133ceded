-- ===== src/Groups/Schedulable.antt =====
-- What the test of the real-time constraints promises: the shares of the groups, as fractions of 2^20.
use cmsc421prj.Rt.Core.Bits.{contains}
use cmsc421prj.Base.{
  [], refl, add64, length, >>=-eq-some, true, ◌≤◌, ◌+◌, ◌∷◌, Option, List, Bool, not, ◌&&◌, ltb,
  false, ℕ, ◌*◌, ◌/◌, ◌%◌, ◌^◌, ◌<◌, some, ◌==◌, ◌≡◌, ◌≢◌, sym, arith, if◌then◌else◌, word,
  Bool-cases, inl, inr,
}
use mathlib.Core.Option.{some-injective}
use cmsc421prj.Rt.Entities.{rt_bandwidth_enabled}
use cmsc421prj.State.Data.{runtime_inf}
use cmsc421prj.Groups.{
  global_rt_runtime, global_rt_period, period_in, runtime_in, ℤ, RtSchedulableData, pos, ebusy,
  sum_children, tg_schedulable, einval, Sys, tg_has_rt_tasks, to_ratio,
}

-- The share of a period, of 2^20, with no bound on the numbers.
abbrev pub share : ℕ → ℕ → ℕ
share period runtime = if runtime == runtime_inf then 2 ^ 20 else runtime * 2 ^ 20 / period

-- The shift by 20 bits loses none.
abbrev pub IsShort : ℕ → Type 0
IsShort runtime = runtime ≢ runtime_inf → runtime < 2 ^ 44

shift_fits : (runtime : ℕ) → runtime < 2 ^ 44 → (runtime * 2 ^ 20) % word ≡ runtime * 2 ^ 20
shift_fits runtime h = omega arith

pub to_ratio-share :
    (period runtime r : ℕ)
    → IsShort runtime
    → to_ratio period runtime ≡ some r
    → r ≡ share period runtime
unfolding to_ratio
to_ratio-share period runtime r h e = elim (Bool-cases (runtime == runtime_inf)) [
  | inl y ↦ rw y (sym (some-injective _ _ (rw y at e)))
  | inr n ↦
      let fits = shift_fits runtime (h (λ q. ground arith)) in
      rw n (elim (Bool-cases (period == 0)) [
        | inl z ↦ cc (rw (n, z) at e)
        | inr w ↦ rw fits at (sym (some-injective _ _ (rw (n, w) at e)))
      ])
]

abbrev pub shares : Sys → RtSchedulableData → List ℕ → ℕ
shares s d [] = 0
shares s d (g ∷ gs) = share (period_in s d g) (runtime_in s d g) + shares s d gs

-- The runtimes that the test sees are short.
abbrev pub AllShort : Sys → RtSchedulableData → Type 0
AllShort s d = (g : ℕ) → IsShort (runtime_in s d g)

-- The sum of the children does not wrap around, as there are fewer than 2^40 of them and each has at
-- most a whole period.
pub sum_children-shares :
    (s : Sys) (d : RtSchedulableData) (acc r : ℕ) (gs : List ℕ)
    → AllShort s d
    → ((g : ℕ) → contains g gs ≡ true → share (period_in s d g) (runtime_in s d g) ≤ 2 ^ 20)
    → acc + length gs * 2 ^ 20 < word
    → sum_children s d acc gs ≡ some r
    → r ≡ acc + shares s d gs
unfolding sum_children
sum_children-shares s d acc r [] short small fits e = omega (arith, some-injective _ _ e)
sum_children-shares s d acc r (g ∷ gs) short small fits e =
    let (x, f, rest) = >>=-eq-some (to_ratio (period_in s d g) (runtime_in s d g)) _ e in
    let is = to_ratio-share (period_in s d g) (runtime_in s d g) x (short g) f in
    let most : share (period_in s d g) (runtime_in s d g) ≤ 2 ^ 20 = small g (ground arith) in
    let plain : add64 acc x ≡ acc + x = omega arith in
    let ih =
      sum_children-shares s d (add64 acc x) r gs short (λ h m. small h (ground arith)) (omega arith)
        rest in
    omega arith

-- The promise for one group: it has at most its period, at most the share that the global setting
-- allows, and its children together at most its own.
pub record Fits (s : Sys) (d : RtSchedulableData) (g : ℕ) : Type 0 where
  pub within : runtime_in s d g ≢ runtime_inf → runtime_in s d g ≤ period_in s d g
  pub allowed :
      share (period_in s d g) (runtime_in s d g) ≤ share (global_rt_period s) (global_rt_runtime s)
  pub children : shares s d (s.group g).children ≤ share (period_in s d g) (runtime_in s d g)

-- What the test has compared, where it returns 0.
pub record IsTested (s : Sys) (d : RtSchedulableData) (g : ℕ) : Type 0 where
  pub total : ℕ
  pub most : ℕ
  pub sum : ℕ
  pub in_period : ltb (period_in s d g) (runtime_in s d g) ≡ true → runtime_in s d g ≡ runtime_inf
  pub of_group : to_ratio (period_in s d g) (runtime_in s d g) ≡ some total
  pub of_all : to_ratio (global_rt_period s) (global_rt_runtime s) ≡ some most
  pub of_children : sum_children s d 0 (s.group g).children ≡ some sum
  pub below_most : total ≤ most
  pub below_total : sum ≤ total

and_error :
    (b : Bool) (e : ℤ) (m : Option ℤ)
    → e ≢ pos 0
    → (if b then some e else m) ≡ some (pos 0)
    → (b ≡ false) × (m ≡ some (pos 0))
and_error true e m ne h = absurd (ne (some-injective _ _ h))
and_error false e m ne h = (refl, h)

einval_ne : einval ≢ pos 0
einval_ne h = cc

ebusy_ne : ebusy ≢ pos 0
ebusy_ne h = cc

pub tested :
    (threads : List ℕ) (d : RtSchedulableData) (s : Sys) (g : ℕ)
    → tg_schedulable threads d s g ≡ some (pos 0)
    → IsTested s d g
unfolding tg_schedulable
tested threads d s g h =
    let period = period_in s d g in
    let runtime = runtime_in s d g in
    let (starves, e) =
      and_error (ltb period runtime && not (runtime == runtime_inf)) _ _ einval_ne h in
    let (idle, e1) =
      and_error (rt_bandwidth_enabled s && (runtime == 0 && tg_has_rt_tasks s g threads)) _ _
        ebusy_ne e in
    let (total, f, e2) = >>=-eq-some (to_ratio period runtime) _ e1 in
    let (most, f2, e3) = >>=-eq-some (to_ratio (global_rt_period s) (global_rt_runtime s)) _ e2 in
    let (over, e4) = and_error (ltb most total) _ _ einval_ne e3 in
    let (sum, f3, e5) = >>=-eq-some (sum_children s d 0 (s.group g).children) _ e4 in
    record {
      total = total;
      most = most;
      sum = sum;
      in_period = λ late. ground arith;
      of_group = f;
      of_all = f2;
      of_children = f3;
      below_most = ground arith;
      below_total = ground arith;
    }
