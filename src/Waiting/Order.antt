-- ===== src/Waiting/Order.antt =====
-- Whom a wake-up reaches, and in which order.
use cmsc421prj.Base.{
  ◌⊎◌, ℕ, ◌+◌, ◌<◌, ◌≤◌, ◌≡◌, refl, Bool, true, false, ◌&&◌, List, [], ◌∷◌, ◌==◌, if◌then◌else◌,
  dec32, int_mod, arith, Bool-cases, inl, inr,
}
use cmsc421prj.Waiting.{WaitEntry, WakeCall, WakeFunction, wake_up_common}

-- A state with the calls made so far, latest first, each with its answer.
abbrev pub Log : Type 0 → Type 0
Log S = S × List (WaitEntry × Bool)

abbrev pub logged : {S : Type 0} → WakeFunction S → WakeFunction (Log S)
logged func call (s, calls) e = let (s1, woken) = func call s e in ((s1, (e, woken) ∷ calls), woken)

-- How many exclusive waiters the calls have woken.
abbrev pub exclusives : List (WaitEntry × Bool) → ℕ
exclusives [] = 0
exclusives ((e, woken) ∷ calls) = (if woken && e.exclusive then 1 else 0) + exclusives calls

-- The entries called, in the order of the calls, in front of `later`.
abbrev pub called_before : List (WaitEntry × Bool) → List WaitEntry → List WaitEntry
called_before [] later = later
called_before ((e, woken) ∷ calls) later = called_before calls (e ∷ later)

-- From `calls` on, the entries `es` are called in their order, up to the one that is the `nr`-th
-- exclusive waiter woken, or all of them.
pub record IsServed (calls : List (WaitEntry × Bool)) (nr : ℕ) (es : List WaitEntry)
    (after : List (WaitEntry × Bool)) : Type 0 where
  pub rest : List WaitEntry
  pub in_order : called_before after rest ≡ called_before calls es
  pub at_most : exclusives after ≤ exclusives calls + nr
  pub all_or_enough : (rest ≡ []) ⊎ (exclusives after ≡ exclusives calls + nr)

IsServed-end : (calls : List (WaitEntry × Bool)) (es : List WaitEntry) → IsServed calls 0 es calls
IsServed-end calls es = record {
  rest = es;
  in_order = refl;
  at_most = omega arith;
  all_or_enough = inr (omega arith);
}

module _ (e : WaitEntry) (woken : Bool) (calls after : List (WaitEntry × Bool)) where
  IsServed-woken :
      (less nr : ℕ) (es : List WaitEntry)
      → (woken && e.exclusive) ≡ true
      → less + 1 ≡ nr
      → IsServed ((e, woken) ∷ calls) less es after
      → IsServed calls nr (e ∷ es) after
  IsServed-woken less nr es y one r =
      let count : exclusives ((e, woken) ∷ calls) ≡ 1 + exclusives calls = rw y refl in
      record {
        rest = r.rest;
        in_order = r.in_order;
        at_most = omega (arith, r.at_most);
        all_or_enough = elim r.all_or_enough [ inl all ↦ inl all | inr enough ↦ inr (omega arith) ];
      }

  IsServed-next :
      (nr : ℕ) (es : List WaitEntry)
      → (woken && e.exclusive) ≡ false
      → IsServed ((e, woken) ∷ calls) nr es after
      → IsServed calls nr (e ∷ es) after
  IsServed-next nr es n r =
      let count : exclusives ((e, woken) ∷ calls) ≡ exclusives calls = rw n (omega arith) in
      record {
        rest = r.rest;
        in_order = r.in_order;
        at_most = omega (arith, r.at_most);
        all_or_enough = elim r.all_or_enough [ inl all ↦ inl all | inr enough ↦ inr (omega arith) ];
      }

module _ {S : Type 0} (func : WakeFunction S) (call : WakeCall) where
  common-IsServed :
      (nr : ℕ) (s : S) (calls : List (WaitEntry × Bool)) (es : List WaitEntry)
      → 0 < nr
      → nr < int_mod
      → IsServed calls nr es (wake_up_common (logged func) call nr (s, calls) es).1
  unfolding wake_up_common
  common-IsServed nr s calls [] p h = record {
    rest = [];
    in_order = refl;
    at_most = omega arith;
    all_or_enough = inl refl;
  }
  common-IsServed nr s calls (e ∷ es) p h =
      let (s1, woken) = func call s e in
      let now = (e, woken) ∷ calls in
      elim (Bool-cases (woken && e.exclusive)) [
        | inl y ↦ elim (Bool-cases (dec32 nr == 0)) [
          | inl z ↦
              rw (y, z)
                (IsServed-woken e woken calls now 0 nr es y (ground arith) (IsServed-end now es))
          | inr z ↦
              let r = common-IsServed (dec32 nr) s1 now es (ground arith) (omega arith) in
              rw (y, z) (IsServed-woken e woken calls _ (dec32 nr) nr es y (ground arith) r)
        ]
        | inr n ↦ rw n (IsServed-next e woken calls _ nr es n (common-IsServed nr s1 now es p h))
      ]

  -- The log does not change what is done.
  logged-same :
      (nr : ℕ) (s : S) (calls : List (WaitEntry × Bool)) (es : List WaitEntry)
      → (wake_up_common (logged func) call nr (s, calls) es).0 ≡ wake_up_common func call nr s es
  unfolding wake_up_common
  logged-same nr s calls [] = refl
  logged-same nr s calls (e ∷ es) =
      let (s1, woken) = func call s e in
      let now = (e, woken) ∷ calls in
      elim (Bool-cases (woken && e.exclusive)) [
        | inl y ↦ elim (Bool-cases (dec32 nr == 0)) [
          | inl z ↦ rw (y, z) refl
          | inr z ↦ rw (y, z) (logged-same (dec32 nr) s1 now es)
        ]
        | inr n ↦ rw n (logged-same nr s1 now es)
      ]

  -- A count that starts at 0 goes through all values.
  zero-IsServed :
      (s : S) (calls : List (WaitEntry × Bool)) (es : List WaitEntry)
      → IsServed calls int_mod es (wake_up_common (logged func) call 0 (s, calls) es).1
  unfolding wake_up_common
  zero-IsServed s calls [] = record {
    rest = [];
    in_order = refl;
    at_most = omega arith;
    all_or_enough = inl refl;
  }
  zero-IsServed s calls (e ∷ es) =
      let (s1, woken) = func call s e in
      let now = (e, woken) ∷ calls in
      elim (Bool-cases (woken && e.exclusive)) [
        | inl y ↦
            let r = common-IsServed (dec32 0) s1 now es (omega arith) (omega arith) in
            rw y (IsServed-woken e woken calls _ (dec32 0) int_mod es y (omega arith) r)
        | inr n ↦ rw n (IsServed-next e woken calls _ int_mod es n (zero-IsServed s1 now es))
      ]

-- How many exclusive waiters a wake-up may wake: 0 stands for 2^32.
abbrev pub limit : ℕ → ℕ
limit nr = if nr == 0 then int_mod else nr

-- `__wake_up_common` calls the functions of the entries in the order of the queue, without leaving
-- one out, and wakes at most `nr_exclusive` exclusive waiters, where 0 stands for 2^32. It stops
-- before the end of the queue only if it has woken as many. This is said of the calls that it makes,
-- which a log shows; the log does not change what it does.
pub wake_up_common-IsServed :
    {S : Type 0} (func : WakeFunction S) (call : WakeCall) (nr : ℕ) (s : S) (es : List WaitEntry)
    → nr < int_mod
    → let (after, calls) = wake_up_common (logged func) call nr (s, []) es in
      IsServed [] (limit nr) es calls × (after ≡ wake_up_common func call nr s es)
wake_up_common-IsServed func call nr s es h = elim (Bool-cases (nr == 0)) [
  | inl y ↦
      let e : nr ≡ 0 = ground arith in
      rw e (zero-IsServed func call s [] es, logged-same func call 0 s [] es)
  | inr n ↦
      rw n (common-IsServed func call nr s [] es (ground arith) h, logged-same func call nr s [] es)
]
