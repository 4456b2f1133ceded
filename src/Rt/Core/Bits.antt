-- ===== src/Rt/Core/Bits.antt =====
-- Facts on the bitmap search and on the sizes of the queues.
use native.Mathlib.Decide.{ℕ_discrete, dec_lt}
use cmsc421prj.Base.{
  ℕ, zero, suc, ◌+◌, ◌≤◌, ◌<◌, ◌≡◌, refl, inl, inr, Bool, true, false, Bool-cases, List, [], ◌∷◌,
  ◌==◌, if◌then◌else◌, upd, length, arith,
}
use cmsc421prj.State.Data.{max_rt_prio}
use cmsc421prj.Rt.Lists.{find_bit, sched_find_first_bit, is_empty, remove}

-- `r` is the first set bit from `lo` on, or `hi` if none is set below it.
pub record FirstSet (bits : ℕ → Bool) (lo hi r : ℕ) : Type 0 where
  pub from : lo ≤ r
  pub upto : r ≤ hi
  pub clear : (k : ℕ) → lo ≤ k → k < r → bits k ≡ false
  pub set : r < hi → bits r ≡ true

FirstSet-extend :
    (bits : ℕ → Bool) (lo hi r : ℕ)
    → bits lo ≡ false
    → FirstSet bits (lo + 1) hi r
    → FirstSet bits lo hi r
FirstSet-extend bits lo hi r e f = record {
  from = omega arith;
  upto = f.upto;
  clear =
      λ k p q. elim (ℕ_discrete lo k) [ yes eq ↦ rw (← eq) e | no ne ↦ f.clear k (omega arith) q ];
  set = f.set;
}

find_bit-FirstSet :
    (n lo hi : ℕ) (bits : ℕ → Bool) → lo + n ≡ hi → FirstSet bits lo hi (find_bit n lo bits)
unfolding find_bit
find_bit-FirstSet zero lo hi bits e = record {
  from = omega arith;
  upto = omega arith;
  clear = λ k p q. absurd (omega arith);
  set = λ h. absurd (omega arith);
}
find_bit-FirstSet (suc n) lo hi bits e = elim (Bool-cases (bits lo)) [
  | inl b ↦ rw b (record {
    from = omega arith;
    upto = omega arith;
    clear = λ k p q. absurd (omega arith);
    set = λ h. b;
  })
  | inr b ↦
      rw b (FirstSet-extend bits lo hi _ b (find_bit-FirstSet n (lo + 1) hi bits (omega arith)))
]

FirstSet-unique :
    (bits : ℕ → Bool) (lo hi r t : ℕ) → FirstSet bits lo hi r → FirstSet bits lo hi t → r ≡ t
FirstSet-unique bits lo hi r t f g = elim (dec_lt r t) [
  | yes lt ↦ absurd (cc (f.set (omega arith), g.clear r f.from lt))
  | no ge ↦ elim (dec_lt t r) [
    | yes lt ↦ absurd (cc (g.set (omega arith), f.clear t g.from lt))
    | no le ↦ omega arith
  ]
]

up_to_delimiter :
    (bits : ℕ → Bool) (r : ℕ)
    → bits max_rt_prio ≡ true
    → FirstSet bits 0 (max_rt_prio + 1) r
    → FirstSet bits 0 max_rt_prio r
up_to_delimiter bits r d f = elim (dec_lt max_rt_prio r) [
  | yes lt ↦ absurd (cc (d, f.clear max_rt_prio (omega arith) lt))
  | no ge ↦ record {
    from = f.from;
    upto = omega arith;
    clear = f.clear;
    set = λ h. f.set (omega arith);
  }
]

-- The search over the bitmap of a priority array whose delimiter is set.
pub first_bit-FirstSet :
    (bits : ℕ → Bool)
    → bits max_rt_prio ≡ true
    → FirstSet bits 0 max_rt_prio (sched_find_first_bit bits)
unfolding sched_find_first_bit
first_bit-FirstSet bits d =
    up_to_delimiter bits _ d (find_bit-FirstSet (max_rt_prio + 1) 0 (max_rt_prio + 1) bits refl)

pub first_bit_unique :
    (bits : ℕ → Bool) (r : ℕ)
    → bits max_rt_prio ≡ true
    → FirstSet bits 0 max_rt_prio r
    → r ≡ sched_find_first_bit bits
first_bit_unique bits r d f = FirstSet-unique bits 0 max_rt_prio r _ f (first_bit-FirstSet bits d)

-- The number of entities in the first `n` queues.
abbrev pub total : (ℕ → List ℕ) → ℕ → ℕ
total f zero = 0
total f (suc n) = total f n + length (f n)

total-upd_out : (f : ℕ → List ℕ) (i n : ℕ) (xs : List ℕ) → n ≤ i → total (upd f i xs) n ≡ total f n
total-upd_out f i zero xs h = refl
total-upd_out f i (suc n) xs h = ground (arith, total-upd_out f i n xs)

pub total-upd :
    (f : ℕ → List ℕ) (i n : ℕ) (xs : List ℕ)
    → i < n
    → total (upd f i xs) n + length (f i) ≡ total f n + length xs
total-upd f i zero xs h = elim h [ ]
total-upd f i (suc n) xs h = elim (ℕ_discrete i n) [
  | yes e ↦ ground (arith, total-upd_out f i n xs)
  | no ne ↦ ground (arith, total-upd f i n xs)
]

pub total-zero : (f : ℕ → List ℕ) (n i : ℕ) → total f n ≡ 0 → i < n → is_empty (f i) ≡ true
total-zero f zero i e h = elim h [ ]
total-zero f (suc n) i e h = elim (ℕ_discrete i n) [
  | yes eq ↦ rw eq (of_length (f n) (omega arith))
  | no ne ↦ total-zero f n i (omega arith) (omega arith)
]
  where
    of_length : (xs : List ℕ) → length xs ≡ 0 → is_empty xs ≡ true
    of_length [] z = refl
    of_length (x ∷ xs) z = absurd (omega arith)

abbrev pub contains : ℕ → List ℕ → Bool
contains e [] = false
contains e (x ∷ xs) = if x == e then true else contains e xs

pub length-remove :
    (e : ℕ) (xs : List ℕ) → contains e xs ≡ true → length (remove e xs) + 1 ≡ length xs
unfolding remove
length-remove e [] h = cc
length-remove e (x ∷ xs) h = ground (arith, length-remove e xs)
