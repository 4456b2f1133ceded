-- ===== src/Rt/Choice.antt =====
-- Which entity `pick_next_rt_entity` takes from a runqueue.
use native.Mathlib.Decide.{dec_lt}
use cmsc421prj.Base.{
  zero, suc, ℕ, ◌<◌, ◌≡◌, ◌≢◌, refl, ap, ◌∙◌, true, false, some, List, [], ◌∷◌, arith, length,
}
use cmsc421prj.State.Data.{Sys, max_rt_prio}
use cmsc421prj.Rt.Lists.{sched_find_first_bit, is_empty}
use cmsc421prj.Rt.Pick.{pick_next_rt_entity}
use cmsc421prj.Rt.Core.{Core, core}
use cmsc421prj.Rt.Core.Invariant.{IsValid}
use cmsc421prj.Rt.Core.Bits.{first_bit-FirstSet, total}

-- `e` is the first entity of the first queue in use, the one of priority `i`.
pub record IsNext (queue : ℕ → List ℕ) (i e : ℕ) : Type 0 where
  pub in_range : i < max_rt_prio
  pub rest : List ℕ
  pub head : queue i ≡ e ∷ rest
  pub before : (k : ℕ) → k < i → queue k ≡ []

total-empty : (f : ℕ → List ℕ) (n : ℕ) → ((k : ℕ) → k < n → f k ≡ []) → total f n ≡ 0
total-empty f zero h = refl
total-empty f (suc n) h =
    omega (arith, ap length (h n (omega arith)), total-empty f n (λ k p. h k (omega arith)))

nil_of_empty : (xs : List ℕ) → is_empty xs ≡ true → xs ≡ []
nil_of_empty [] h = refl
nil_of_empty (x ∷ xs) h = cc

module _ (c : Core) (v : IsValid c) where
  empty_below : (k : ℕ) → k < sched_find_first_bit c.bitmap → c.queue k ≡ []
  empty_below k h =
      let f = first_bit-FirstSet c.bitmap v.delimiter in
      nil_of_empty (c.queue k) (ground (arith, f.clear k, f.upto, v.bits k))

  -- A bit is set, for else every queue would be empty.
  some_queue : c.running ≢ 0 → sched_find_first_bit c.bitmap < max_rt_prio
  some_queue ne = elim (dec_lt (sched_find_first_bit c.bitmap) max_rt_prio) [
    | yes lt ↦ lt
    | no ge ↦
        absurd (ne (v.count ∙ total-empty c.queue max_rt_prio (λ k p. empty_below k (omega arith))))
  ]

  first_in_use :
      sched_find_first_bit c.bitmap < max_rt_prio
      → is_empty (c.queue (sched_find_first_bit c.bitmap)) ≡ false
  first_in_use h =
      let f = first_bit-FirstSet c.bitmap v.delimiter in
      ground (arith, f.set, v.bits (sched_find_first_bit c.bitmap) h)

head_of : (xs : List ℕ) → is_empty xs ≡ false → (e : ℕ) × (rest : List ℕ) × (xs ≡ e ∷ rest)
head_of [] h = cc
head_of (e ∷ rest) h = (e, rest, refl)

module _ (s : Sys) (q : ℕ) (v : IsValid (core (s.rtq q))) where
  IsNext-of :
      (e : ℕ) (rest : List ℕ)
      → sched_find_first_bit (s.rtq q).bitmap < max_rt_prio
      → (s.rtq q).queue (sched_find_first_bit (s.rtq q).bitmap) ≡ e ∷ rest
      → (pick_next_rt_entity s q ≡ some e) × IsNext (s.rtq q).queue (s.rtq q).highest_curr e
  unfolding pick_next_rt_entity
  IsNext-of e rest lt eq = (
    ground arith,
    rw v.first
        (record { in_range = lt; rest = rest; head = eq; before = empty_below (core (s.rtq q)) v }),
  )

-- From a valid runqueue that is not empty, `pick_next_rt_entity` takes the first entity of the
-- queue of the highest priority that is in use: its BUG_ON does not fire, and no entity of a higher
-- priority waits.
pub pick_next_rt_entity-IsNext :
    (s : Sys) (q : ℕ)
    → IsValid (core (s.rtq q))
    → (s.rtq q).rt_nr_running ≢ 0
    → (e : ℕ) × (pick_next_rt_entity s q ≡ some e) × IsNext (s.rtq q).queue (s.rtq q).highest_curr e
pick_next_rt_entity-IsNext s q v ne =
    let c = core (s.rtq q) in
    let lt = some_queue c v ne in
    let (e, rest, eq) = head_of _ (first_in_use c v lt) in
    let (p, n) = IsNext-of s q v e rest lt eq in (e, p, n)
