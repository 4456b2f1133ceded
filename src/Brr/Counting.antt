-- ===== src/Brr/Counting.antt =====
-- What enqueueing and dequeueing by sched_brr.c do to the buckets, and to the priority arrays.
use mathlib.Core.Option.{some-injective}
use cmsc421prj.Base.{
  ◌&&◌, ℕ, ◌<◌, ◌≡◌, refl, sym, inl, inr, ◌⊎◌, Option-cases, some, none, ◌==◌, if◌then◌else◌, arith,
  inc32, dec32, dec32-inc32, int_mod, >>=-eq-some,
}
use cmsc421prj.Base.Int.{ℤ}
use cmsc421prj.State.Data.{Sys}
use cmsc421prj.Rt.Entities.{rt_rq_of_se, rt_se_prio}
use cmsc421prj.Rt.Enqueue.{is_group_blocked}
use cmsc421prj.Rt.Core.{SameCores}
use cmsc421prj.Brr.Buckets.{bucket_to_add_to, bucket_index}
use cmsc421prj.Brr.Enqueue.{entered, left, enter_bucket, leave_bucket}

-- The bucket counts of a state.
abbrev pub buckets_of : Sys → ℕ → ℕ → ℕ
buckets_of s q = (s.rtq q).buckets

-- The bucket that an entity is put into, when it is enqueued.
abbrev pub new_bid : Sys → ℕ → ℤ
new_bid s e = bucket_to_add_to (buckets_of s (rt_rq_of_se s e)) (s.task e).bid

pub entered_counts :
    (s : Sys) (e : ℕ) (bid : ℤ) (i q j : ℕ)
    → buckets_of (entered s e bid i) q j
      ≡ (if (rt_rq_of_se s e == q) && (i == j) then inc32 (buckets_of s q j) else buckets_of s q j)
unfolding entered
entered_counts s e bid i q j = ground arith

entered_bid : (s : Sys) (e : ℕ) (bid : ℤ) (i : ℕ) → ((entered s e bid i).task e).bid ≡ bid
unfolding entered
entered_bid s e bid i = ground arith

pub left_counts :
    (s : Sys) (e i q j : ℕ)
    → buckets_of (left s e i) q j
      ≡ (if (rt_rq_of_se s e == q) && (i == j) then dec32 (buckets_of s q j) else buckets_of s q j)
unfolding left
left_counts s e i q j = ground arith

pub enter_of_index :
    (s : Sys) (e i : ℕ)
    → bucket_index (new_bid s e) ≡ some i
    → enter_bucket s e ≡ some (entered s e (new_bid s e) i)
unfolding enter_bucket
enter_of_index s e i y = rw y refl

pub enter_of_none : (s : Sys) (e : ℕ) → bucket_index (new_bid s e) ≡ none → enter_bucket s e ≡ none
unfolding enter_bucket
enter_of_none s e n = rw n refl

-- Entering a bucket writes it into the task and counts it once; no other count changes. It faults
-- exactly where the bucket is not one of the table.
pub enter_bucket_lem :
    (s : Sys) (e : ℕ)
    → ((bucket_index (new_bid s e) ≡ none) × (enter_bucket s e ≡ none))
      ⊎ ((i : ℕ) × (s' : Sys) × (bucket_index (new_bid s e) ≡ some i)
          × (enter_bucket s e ≡ some s')
          × ((s'.task e).bid ≡ new_bid s e)
          × ((q j : ℕ)
              → buckets_of s' q j ≡ (
                  if (rt_rq_of_se s e == q) && (i == j)
                  then inc32 (buckets_of s q j)
                  else buckets_of s q j)))
enter_bucket_lem s e = elim (Option-cases (bucket_index (new_bid s e))) [
  | inl n ↦ inl (n, enter_of_none s e n)
  | inr (i, y) ↦ inr (
    i,
    entered s e (new_bid s e) i,
    y,
    enter_of_index s e i y,
    entered_bid s e (new_bid s e) i,
    entered_counts s e (new_bid s e) i,
  )
]

pub entered_of :
    (s s1 : Sys) (e : ℕ)
    → enter_bucket s e ≡ some s1
    → (i : ℕ) × (bucket_index (new_bid s e) ≡ some i) × (s1 ≡ entered s e (new_bid s e) i)
unfolding enter_bucket
entered_of s s1 e h =
    let (i, y, f) = >>=-eq-some (bucket_index (new_bid s e)) _ h in
    (i, y, sym (some-injective _ _ f))

left_again :
    (s : Sys) (e i : ℕ) (bid : ℤ)
    → bucket_index bid ≡ some i
    → leave_bucket (entered s e bid i) e ≡ some (left (entered s e bid i) e i)
unfolding leave_bucket
left_again s e i bid y = rw (entered_bid s e bid i, y)

counts_again :
    (s : Sys) (e i : ℕ) (bid : ℤ) (q j : ℕ)
    → buckets_of s q j < int_mod
    → buckets_of (left (entered s e bid i) e i) q j ≡ buckets_of s q j
unfolding left entered
counts_again s e i bid q j small = ground (arith, dec32-inc32 (buckets_of s q j) small)

-- A task that enters its bucket and leaves it again leaves every count as it was.
pub leave-enter :
    (s s1 : Sys) (e : ℕ)
    → ((q j : ℕ) → buckets_of s q j < int_mod)
    → enter_bucket s e ≡ some s1
    → (s2 : Sys) × (leave_bucket s1 e ≡ some s2)
      × ((q j : ℕ) → buckets_of s2 q j ≡ buckets_of s q j)
leave-enter s s1 e small h =
    let (i, y, f) = entered_of s s1 e h in
    rw f (
      left (entered s e (new_bid s e) i) e i,
      left_again s e i (new_bid s e) y,
      λ q j. counts_again s e i (new_bid s e) q j (small q j),
    )

pub entered_keeps :
    (s : Sys) (e : ℕ) (bid : ℤ) (i : ℕ)
    → let s1 = entered s e bid i in
      SameCores s s1
      × (s1.ent ≡ s.ent)
      × (is_group_blocked s1 e ≡ is_group_blocked s e)
      × (rt_se_prio s1 e ≡ rt_se_prio s e)
unfolding entered is_group_blocked rt_se_prio
entered_keeps s e bid i = (λ j. ground arith, refl, ground arith, ground arith)
