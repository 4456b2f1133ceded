-- ===== src/Rt/Core/Invariant.antt =====
-- The invariant of a priority array: a bit for each queue in use, the count of the entities, the
-- highest priority. Adding an entity and taking one off keep it.
use cmsc421prj.Base.{
  ◌∙◌, upd, ℕ, ◌+◌, ◌<◌, ◌≡◌, ◌≢◌, refl, ap, inl, inr, true, false, not, Bool-cases, List, [], ◌∷◌,
  ◌++◌, ◌==◌, length-append, arith, word, sub64,
}
use cmsc421prj.State.Data.{max_rt_prio}
use cmsc421prj.Rt.Lists.{sched_find_first_bit, is_empty, remove}
use cmsc421prj.Rt.Core.{left_bits, Core, add_core, drop_core}
use cmsc421prj.Rt.Core.Bits.{
  FirstSet, first_bit-FirstSet, first_bit_unique, total, total-upd, total-zero, contains,
  length-remove,
}

pub record IsValid (c : Core) : Type 0 where
  pub bits : (i : ℕ) → i < max_rt_prio → c.bitmap i ≡ not (is_empty (c.queue i))
  pub delimiter : c.bitmap max_rt_prio ≡ true
  pub count : c.running ≡ total c.queue max_rt_prio
  pub first : c.highest ≡ sched_find_first_bit c.bitmap

is_empty-append : (xs : List ℕ) (e : ℕ) → is_empty (xs ++ (e ∷ [])) ≡ false
is_empty-append [] e = refl
is_empty-append (x ∷ xs) e = refl

module _ (prio e : ℕ) (c : Core) (v : IsValid c) (ok : prio < max_rt_prio) where
  added_bits :
      (i : ℕ)
      → i < max_rt_prio
      → (add_core prio e c).bitmap i ≡ not (is_empty ((add_core prio e c).queue i))
  unfolding add_core
  added_bits i h = ground (arith, v.bits i h, is_empty-append (c.queue prio) e)

  added_first : FirstSet (add_core prio e c).bitmap 0 max_rt_prio (add_core prio e c).highest
  unfolding add_core
  added_first =
      let f = first_bit-FirstSet c.bitmap v.delimiter in
      let g = v.first in
      record {
        from = omega arith;
        upto = ground (arith, f.upto);
        clear = λ k p q. ground (arith, f.clear k);
        set = λ h. ground (arith, f.set);
      }

  added_count :
      c.running + 1 < word
      → (add_core prio e c).running ≡ total (add_core prio e c).queue max_rt_prio
  unfolding add_core
  added_count small = omega (
    arith,
    v.count,
    total-upd c.queue prio max_rt_prio (c.queue prio ++ (e ∷ [])) ok,
    length-append {0} (c.queue prio) (e ∷ []),
  )

  added_delimiter : (add_core prio e c).bitmap max_rt_prio ≡ true
  unfolding add_core
  added_delimiter = ground (arith, v.delimiter)

-- Adding an entity at a real-time priority keeps the invariant, while the count fits the word.
pub add_core-IsValid :
    (prio e : ℕ) (c : Core)
    → IsValid c
    → prio < max_rt_prio
    → c.running + 1 < word
    → IsValid (add_core prio e c)
add_core-IsValid prio e c v ok small =
    let d = added_delimiter prio e c v ok in
    record {
      bits = added_bits prio e c v ok;
      delimiter = d;
      count = added_count prio e c v ok small;
      first = first_bit_unique _ _ d (added_first prio e c v ok);
    }

left_bits_at :
    (c : Core) (prio i : ℕ) (rest : List ℕ)
    → c.bitmap i ≡ not (is_empty (c.queue i))
    → c.bitmap prio ≡ true
    → left_bits c prio rest i ≡ not (is_empty (upd c.queue prio rest i))
left_bits_at c prio i [] h p = ground arith
left_bits_at c prio i (x ∷ xs) h p = ground arith

used_of_contains : (e : ℕ) (xs : List ℕ) → contains e xs ≡ true → is_empty xs ≡ false
used_of_contains e [] h = cc
used_of_contains e (x ∷ xs) h = refl

module _ (prio e : ℕ) (c : Core) (v : IsValid c) (ok : prio < max_rt_prio)
    (held : contains e (c.queue prio) ≡ true) where
  dropped_bits :
      (i : ℕ)
      → i < max_rt_prio
      → (drop_core prio e c).bitmap i ≡ not (is_empty ((drop_core prio e c).queue i))
  unfolding drop_core
  dropped_bits i h =
      left_bits_at c prio i _ (v.bits i h)
        (v.bits prio ok ∙ ap not (used_of_contains e (c.queue prio) held))

  dropped_delimiter : (drop_core prio e c).bitmap max_rt_prio ≡ true
  unfolding drop_core
  dropped_delimiter = ground (arith, v.delimiter)

  dropped_total : total (drop_core prio e c).queue max_rt_prio + 1 ≡ total c.queue max_rt_prio
  unfolding drop_core
  dropped_total = omega (
    arith,
    total-upd c.queue prio max_rt_prio (remove e (c.queue prio)) ok,
    length-remove e (c.queue prio) held,
  )

  dropped_count :
      c.running < word → (drop_core prio e c).running ≡ total (drop_core prio e c).queue max_rt_prio
  unfolding drop_core
  dropped_count small = omega (arith, v.count, dropped_total)

  -- No queue is in use any more.
  last_one :
      c.running < word
      → sub64 c.running 1 ≡ 0
      → FirstSet (drop_core prio e c).bitmap 0 max_rt_prio max_rt_prio
  last_one small z = record {
    from = omega arith;
    upto = omega arith;
    clear = λ k p q. ground (
      arith,
      dropped_bits k q,
      total-zero (drop_core prio e c).queue max_rt_prio k (omega (arith, v.count, dropped_total)) q,
    );
    set = λ h. absurd (omega arith);
  }

  -- The highest queue is another one.
  other_first : prio ≢ c.highest → FirstSet (drop_core prio e c).bitmap 0 max_rt_prio c.highest
  unfolding drop_core
  other_first ne =
      let f = first_bit-FirstSet c.bitmap v.delimiter in
      let g = v.first in
      record {
        from = omega arith;
        upto = ground (arith, f.upto);
        clear = λ k p q. ground (arith, f.clear k);
        set = λ h. ground (arith, f.set);
      }

  dropped_first :
      c.running < word
      → (drop_core prio e c).highest ≡ sched_find_first_bit (drop_core prio e c).bitmap
  unfolding drop_core
  dropped_first small = elim (Bool-cases (sub64 c.running 1 == 0)) [
    | inl z ↦ rw z (first_bit_unique _ _ dropped_delimiter (last_one small (ground arith)))
    | inr n ↦ elim (Bool-cases (prio == c.highest)) [
      | inl y ↦ rw (n, y) refl
      | inr d ↦ rw (n, d) (first_bit_unique _ _ dropped_delimiter (other_first (ground arith)))
    ]
  ]

-- Taking an entity off the queue of its priority keeps the invariant.
pub drop_core-IsValid :
    (prio e : ℕ) (c : Core)
    → IsValid c
    → prio < max_rt_prio
    → contains e (c.queue prio) ≡ true
    → c.running < word
    → IsValid (drop_core prio e c)
drop_core-IsValid prio e c v ok held small = record {
  bits = dropped_bits prio e c v ok held;
  delimiter = dropped_delimiter prio e c v ok held;
  count = dropped_count prio e c v ok held small;
  first = dropped_first prio e c v ok held small;
}
