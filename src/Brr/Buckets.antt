-- ===== src/Brr/Buckets.antt =====
-- sched_brr.c, the table `numInBucket`: how many entities of a runqueue are in each bucket.
pub mod Search
use cmsc421prj.Base.{
  ℕ, zero, suc, ◌+◌, ◌-◌, ◌%◌, Option, none, some, ◌==◌, ltb, if◌then◌else◌, upd, int_mod,
}
use cmsc421prj.Base.Int.{ℤ, pos, negsuc, minus_one}
use cmsc421prj.State.Data.{RtRq, max_brr_bucket}

-- The first empty bucket among `n` from `i` on.
unfoldable pub first_empty : ℕ → ℕ → (ℕ → ℕ) → Option ℕ
first_empty zero i counts = none
first_empty (suc n) i counts =
    let rest = first_empty n (i + 1) counts in if counts i == 0 then some i else rest

found_or : ℤ → Option ℕ → ℤ
found_or bid none = bid
found_or bid (some i) = pos i

-- `bucketToAddTo`: the bucket of the task, or a new one if it is -1.
unfoldable pub bucket_to_add_to : (ℕ → ℕ) → ℤ → ℤ
unfolding found_or
bucket_to_add_to counts (pos i) = pos i
bucket_to_add_to counts (negsuc zero) = found_or minus_one (first_empty max_brr_bucket 0 counts)
bucket_to_add_to counts (negsuc (suc k)) = negsuc (suc k)

-- The place of a bucket in the array; `none` lies outside of it.
unfoldable pub bucket_index : ℤ → Option ℕ
bucket_index (pos i) = if ltb i max_brr_bucket then some i else none
bucket_index (negsuc k) = none

abbrev pub put_bucket : RtRq → ℕ → ℕ → RtRq
put_bucket q i n = record q { buckets = upd q.buckets i n }

-- The loop of `getNextBucketNumber` over `n` offsets.
unfoldable pub next_bucket : ℕ → ℕ → (ℕ → ℕ) → ℤ
next_bucket zero offset counts = minus_one
next_bucket (suc n) offset counts =
    let rest = next_bucket n (offset + 1) counts in
    if counts (offset % max_brr_bucket) == 0 then rest else pos offset

-- The loop from a negative offset -(k + 1): `%` keeps the sign, so only a multiple of the number of
-- buckets is an index of the array, and after it comes one that is not.
below_zero : (ℕ → ℕ) → ℕ → Option ℤ
below_zero counts k =
    if suc k % max_brr_bucket == 0 then (if counts 0 == 0 then none else some (negsuc k)) else none

unfoldable pub get_next_bucket_number : (ℕ → ℕ) → ℤ → Option ℤ
unfolding below_zero
get_next_bucket_number counts (pos b) =
    some (next_bucket (max_brr_bucket + 2 - (b + 1)) (b + 1) counts)
get_next_bucket_number counts (negsuc zero) = some (next_bucket (max_brr_bucket + 2) 0 counts)
get_next_bucket_number counts (negsuc (suc k)) = below_zero counts k

-- The loop of `__dequeue_rt_entity_brr` that counts for the log.
unfoldable pub count_for_log : ℕ → (ℕ → ℕ) → ℕ → ℕ → ℕ
count_for_log zero counts b count = count
count_for_log (suc n) counts b count = count_for_log n counts b ((count + counts b) % int_mod)
