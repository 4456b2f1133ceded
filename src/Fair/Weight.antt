-- ===== src/Fair/Weight.antt =====
-- Weights and the time scaled by them: `calc_delta_mine` and `update_load_add` of sched.c, and
-- `calc_delta_fair` of sched_fair.c, on 64-bit words.
use cmsc421prj.Base.{ℕ, ◌+◌, ◌-◌, ◌*◌, ◌/◌, ◌%◌, ◌^◌, ◌==◌, ltb, leb, if◌then◌else◌, word, add64}
use cmsc421prj.State.Setters.{set_task}
use cmsc421prj.Fair.Data.{FairSys, set_sys}

abbrev pub nice_0_load : ℕ
nice_0_load = 1024

abbrev pub wmult_const : ℕ
wmult_const = 2 ^ 32

abbrev pub long_max : ℕ
long_max = 2 ^ 63 - 1

-- `SRR(x, 32)` and `SRR(x, 16)`
abbrev srr32 : ℕ → ℕ
srr32 x = add64 x (2 ^ 31) / 2 ^ 32

abbrev srr16 : ℕ → ℕ
srr16 x = add64 x (2 ^ 15) / 2 ^ 16

-- `lw->inv_weight`, computed if it is not there yet.
unfoldable pub inverse : ℕ → ℕ → ℕ
inverse weight inv =
    if inv == 0
    then (if leb wmult_const weight then 1 else 1 + (wmult_const - weight / 2) / (weight + 1))
    else inv

-- `delta *= weight / lw`, where `inv` is the inverse of `lw`.
unfoldable pub scaled : ℕ → ℕ → ℕ → ℕ
scaled delta weight inv =
    let tmp = (delta * weight) % word in
    let result =
      if ltb wmult_const tmp
      then srr16 ((srr16 tmp * inv) % word)
      else srr32 ((tmp * inv) % word) in
    if ltb long_max result then long_max else result

-- The result, and the inverse that is kept in `lw`.
unfoldable pub calc_delta_mine : ℕ → ℕ → ℕ → ℕ → ℕ × ℕ
unfolding inverse scaled
calc_delta_mine delta weight lw_weight lw_inv =
    (scaled delta weight (inverse lw_weight lw_inv), inverse lw_weight lw_inv)

-- On an entity's own weight.
unfoldable pub calc_delta_fair : FairSys → ℕ → ℕ → FairSys × ℕ
unfolding calc_delta_mine
calc_delta_fair s delta e =
    if (s.sys.task e).weight == nice_0_load
    then (s, delta)
    else (let (r, inv) =
          calc_delta_mine delta nice_0_load (s.sys.task e).weight (s.sys.task e).inv_weight in
        (set_sys s (set_task s.sys e (record (s.sys.task e) { inv_weight = inv })), r))
