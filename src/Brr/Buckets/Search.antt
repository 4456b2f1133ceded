-- ===== src/Brr/Buckets/Search.antt =====
-- The two searches of sched_brr.c: for an empty bucket, and for the next bucket to run.
use native.Mathlib.Decide.{ℕ_discrete, dec_lt}
use cmsc421prj.Base.{
  ℕ, zero, suc, ◌+◌, ◌-◌, ◌%◌, ◌≤◌, ◌<◌, ◌≡◌, ◌≢◌, ◌⊎◌, inl, inr, refl, ap, ◌∙◌, Option, none, some,
  ◌==◌, Bool-cases, arith,
}
use cmsc421prj.Base.Int.{ℤ, pos, minus_one}
use cmsc421prj.State.Data.{max_brr_bucket}
use cmsc421prj.Brr.Buckets.{
  first_empty, bucket_index, bucket_to_add_to, next_bucket, get_next_bucket_number,
}

-- No entity is in the buckets that the offsets from `lo` to below `hi` stand for.
abbrev pub EmptyIn : (ℕ → ℕ) → ℕ → ℕ → Type 0
EmptyIn counts lo hi = (k : ℕ) → lo ≤ k → k < hi → counts (k % max_brr_bucket) ≡ 0

-- `r` is the first offset from `lo` on whose bucket is in use, or -1 if there is none below `hi`.
abbrev pub FirstInUse : (ℕ → ℕ) → ℕ → ℕ → ℤ → Type 0
FirstInUse counts lo hi r =
    ((r ≡ minus_one) × EmptyIn counts lo hi)
    ⊎ ((o : ℕ) × (r ≡ pos o)
        × (lo ≤ o)
        × (o < hi)
        × (counts (o % max_brr_bucket) ≢ 0)
        × EmptyIn counts lo o)

EmptyIn-extend :
    (counts : ℕ → ℕ) (lo hi : ℕ)
    → counts (lo % max_brr_bucket) ≡ 0
    → EmptyIn counts (lo + 1) hi
    → EmptyIn counts lo hi
EmptyIn-extend counts lo hi e h k p q = elim (ℕ_discrete lo k) [
  | yes eq ↦ rw (← eq) e
  | no ne ↦ h k (omega arith) q
]

FirstInUse-extend :
    (counts : ℕ → ℕ) (lo hi : ℕ) (r : ℤ)
    → counts (lo % max_brr_bucket) ≡ 0
    → FirstInUse counts (lo + 1) hi r
    → FirstInUse counts lo hi r
FirstInUse-extend counts lo hi r e (inl (m, h)) = inl (m, EmptyIn-extend counts lo hi e h)
FirstInUse-extend counts lo hi r e (inr (o, p, q, t, u, h)) =
    inr (o, p, omega arith, t, u, EmptyIn-extend counts lo o e h)

next_bucket-FirstInUse :
    (n lo hi : ℕ) (counts : ℕ → ℕ) → lo + n ≡ hi → FirstInUse counts lo hi (next_bucket n lo counts)
unfolding next_bucket
next_bucket-FirstInUse zero lo hi counts e = inl (refl, λ k p q. absurd (omega arith))
next_bucket-FirstInUse (suc n) lo hi counts e =
    elim (Bool-cases (counts (lo % max_brr_bucket) == 0)) [
      | inl b ↦ rw b (
          FirstInUse-extend counts lo hi _ (ground arith)
            (next_bucket-FirstInUse n (lo + 1) hi counts (omega arith)))
      | inr b ↦
          rw b
            (inr (lo, refl, omega arith, omega arith, ground arith, λ k p q. absurd (omega arith)))
    ]

-- From a valid bucket `b`, `getNextBucketNumber` returns the first offset above `b`, and at most
-- MAX_BRR_BUCKET + 1, whose bucket (the offset modulo the number of buckets) is in use; it returns
-- -1 exactly when there is none.
pub get_next_bucket_number-FirstInUse :
    (counts : ℕ → ℕ) (b : ℕ)
    → b < max_brr_bucket
    → (r : ℤ) × (get_next_bucket_number counts (pos b) ≡ some r)
      × FirstInUse counts (b + 1) (max_brr_bucket + 2) r
unfolding get_next_bucket_number
get_next_bucket_number-FirstInUse counts b h =
    (_, refl, next_bucket-FirstInUse (max_brr_bucket + 2 - (b + 1)) (b + 1) _ counts (omega arith))

FirstInUse-none :
    (counts : ℕ → ℕ) (lo hi : ℕ) (r : ℤ)
    → EmptyIn counts lo hi
    → FirstInUse counts lo hi r
    → r ≡ minus_one
FirstInUse-none counts lo hi r h (inl (m, e)) = m
FirstInUse-none counts lo hi r h (inr (o, p, q, t, u, e)) = absurd (u (h o q t))

-- With no entity above bucket `b` and none in the buckets 0 and 1, the answer is -1 whatever the
-- buckets 2 to `b` hold: the search does not come round to them.
pub get_next_bucket_number-no_wrap :
    (counts : ℕ → ℕ) (b : ℕ)
    → b < max_brr_bucket
    → ((i : ℕ) → b < i → i < max_brr_bucket → counts i ≡ 0)
    → counts 0 ≡ 0
    → counts 1 ≡ 0
    → get_next_bucket_number counts (pos b) ≡ some minus_one
get_next_bucket_number-no_wrap counts b h above zeroth first =
    let (r, e, f) = get_next_bucket_number-FirstInUse counts b h in
    e ∙ ap some (FirstInUse-none counts (b + 1) (max_brr_bucket + 2) r all f)
  where
    wrapped :
        (k : ℕ) → max_brr_bucket ≤ k → k < max_brr_bucket + 2 → counts (k % max_brr_bucket) ≡ 0
    wrapped k p q = elim (ℕ_discrete k max_brr_bucket) [
      | yes e ↦ rw (e, zeroth)
      | no ne ↦ let e : k ≡ max_brr_bucket + 1 = omega arith in rw (e, first)
    ]

    all : EmptyIn counts (b + 1) (max_brr_bucket + 2)
    all k p q = elim (dec_lt k max_brr_bucket) [
      | yes lt ↦ let e : k % max_brr_bucket ≡ k = omega arith in rw e (above k (omega arith) lt)
      | no ge ↦ wrapped k (omega arith) q
    ]

-- `r` is the first empty bucket from `lo` on, below `hi`.
abbrev pub FirstEmpty : (ℕ → ℕ) → ℕ → ℕ → Option ℕ → Type 0
FirstEmpty counts lo hi r =
    ((r ≡ none) × ((k : ℕ) → lo ≤ k → k < hi → counts k ≢ 0))
    ⊎ ((i : ℕ) × (r ≡ some i)
        × (lo ≤ i)
        × (i < hi)
        × (counts i ≡ 0)
        × ((k : ℕ) → lo ≤ k → k < i → counts k ≢ 0))

used-extend :
    (counts : ℕ → ℕ) (lo hi : ℕ)
    → counts lo ≢ 0
    → ((k : ℕ) → lo + 1 ≤ k → k < hi → counts k ≢ 0)
    → (k : ℕ) → lo ≤ k
    → k < hi
    → counts k ≢ 0
used-extend counts lo hi e h k p q = elim (ℕ_discrete lo k) [
  | yes eq ↦ rw (← eq) e
  | no ne ↦ h k (omega arith) q
]

FirstEmpty-extend :
    (counts : ℕ → ℕ) (lo hi : ℕ) (r : Option ℕ)
    → counts lo ≢ 0
    → FirstEmpty counts (lo + 1) hi r
    → FirstEmpty counts lo hi r
FirstEmpty-extend counts lo hi r e (inl (m, h)) = inl (m, used-extend counts lo hi e h)
FirstEmpty-extend counts lo hi r e (inr (i, p, q, t, u, h)) =
    inr (i, p, omega arith, t, u, used-extend counts lo i e h)

first_empty-FirstEmpty :
    (n lo hi : ℕ) (counts : ℕ → ℕ) → lo + n ≡ hi → FirstEmpty counts lo hi (first_empty n lo counts)
unfolding first_empty
first_empty-FirstEmpty zero lo hi counts e = inl (refl, λ k p q. absurd (omega arith))
first_empty-FirstEmpty (suc n) lo hi counts e = elim (Bool-cases (counts lo == 0)) [
  | inl b ↦
      rw b (inr (lo, refl, omega arith, omega arith, ground arith, λ k p q. absurd (omega arith)))
  | inr b ↦ rw b (
      FirstEmpty-extend counts lo hi _ (ground arith)
        (first_empty-FirstEmpty n (lo + 1) hi counts (omega arith)))
]

-- A task without a bucket gets the first one that is empty; if every bucket is in use, it keeps -1,
-- which is no index of the table.
pub bucket_to_add_to-new :
    (counts : ℕ → ℕ)
    → ((i : ℕ) × (bucket_to_add_to counts minus_one ≡ pos i)
        × (i < max_brr_bucket)
        × (counts i ≡ 0)
        × ((k : ℕ) → k < i → counts k ≢ 0))
      ⊎ ((bucket_to_add_to counts minus_one ≡ minus_one)
          × (bucket_index (bucket_to_add_to counts minus_one) ≡ none)
          × ((k : ℕ) → k < max_brr_bucket → counts k ≢ 0))
unfolding bucket_to_add_to bucket_index
bucket_to_add_to-new counts =
    from (first_empty max_brr_bucket 0 counts)
      (first_empty-FirstEmpty max_brr_bucket 0 max_brr_bucket counts (omega arith)) refl
  where
    from :
        (r : Option ℕ)
        → FirstEmpty counts 0 max_brr_bucket r
        → first_empty max_brr_bucket 0 counts ≡ r
        → ((i : ℕ) × (bucket_to_add_to counts minus_one ≡ pos i)
            × (i < max_brr_bucket)
            × (counts i ≡ 0)
            × ((k : ℕ) → k < i → counts k ≢ 0))
          ⊎ ((bucket_to_add_to counts minus_one ≡ minus_one)
              × (bucket_index (bucket_to_add_to counts minus_one) ≡ none)
              × ((k : ℕ) → k < max_brr_bucket → counts k ≢ 0))
    from r (inl (m, h)) e = let f = e ∙ m in inr (rw f refl, rw f refl, λ k q. h k (omega arith) q)
    from r (inr (i, p, q, t, u, h)) e =
        let f = e ∙ p in inl (i, rw f refl, t, u, λ k v. h k (omega arith) v)
