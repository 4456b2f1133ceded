-- ===== src/Fair/Timeline/Order.antt =====
-- Lists in the order of a key: insertion before the first greater key, and removal.
use native.Mathlib.Nat.{le_trans}
use cmsc421prj.Base.{
  ℕ, true, false, Option, none, some, List, [], ◌∷◌, ◌++◌, ◌≡◌, refl, ◌≤◌, ◌==◌, ltb, if◌then◌else◌,
  arith, Bool-cases, inl, inr,
}
use cmsc421prj.Fair.Data.{without, successor}

-- Every element has the property.
abbrev pub All : (ℕ → Type 0) → List ℕ → Type 0
All P [] = Unit {0}
All P (x ∷ xs) = P x × All P xs

abbrev pub IsOrdered : (ℕ → ℕ) → List ℕ → Type 0
IsOrdered f [] = Unit {0}
IsOrdered f (x ∷ xs) = All (λ y. f x ≤ f y) xs × IsOrdered f xs

abbrev pub head_of : List ℕ → Option ℕ
head_of [] = none
head_of (x ∷ xs) = some x

pub All-map : (P Q : ℕ → Type 0) (xs : List ℕ) → ((x : ℕ) → P x → Q x) → All P xs → All Q xs
All-map P Q [] h a = tt
All-map P Q (x ∷ xs) h (p, a) = (h x p, All-map P Q xs h a)

pub All-append : (P : ℕ → Type 0) (xs ys : List ℕ) → All P (xs ++ ys) → All P xs × All P ys
All-append P [] ys a = (tt, a)
All-append P (x ∷ xs) ys (p, a) = let (b, c) = All-append P xs ys a in ((p, b), c)

pub All-without : (P : ℕ → Type 0) (e : ℕ) (xs : List ℕ) → All P xs → All P (without e xs)
All-without P e [] a = tt
All-without P e (x ∷ xs) (p, a) = elim (Bool-cases (x == e)) [
  | inl y ↦ rw y a
  | inr n ↦ rw n (p, All-without P e xs a)
]

module _ (f : ℕ → ℕ) where
  -- In front of an element with a key that bounds the elements before it.
  pub IsOrdered-split :
      (xs : List ℕ) (x : ℕ) (ys : List ℕ)
      → IsOrdered f (xs ++ x ∷ ys)
      → IsOrdered f xs × All (λ y. f y ≤ f x) xs × IsOrdered f ys
  IsOrdered-split [] x ys (a, o) = (tt, tt, o)
  IsOrdered-split (z ∷ xs) x ys (a, o) =
      let (b, c, d) = IsOrdered-split xs x ys o in
      let (u, v) = All-append (λ y. f z ≤ f y) xs (x ∷ ys) a in ((u, b), (v.0, c), d)

  pub IsOrdered-without : (e : ℕ) (xs : List ℕ) → IsOrdered f xs → IsOrdered f (without e xs)
  IsOrdered-without e [] o = tt
  IsOrdered-without e (x ∷ xs) (a, o) = elim (Bool-cases (x == e)) [
    | inl y ↦ rw y o
    | inr n ↦ rw n (All-without (λ y. f x ≤ f y) e xs a, IsOrdered-without e xs o)
  ]

  -- The reference: `e`, of key `k`, goes in front of the first element with a greater key.
  abbrev pub insert_by : ℕ → ℕ → List ℕ → List ℕ
  insert_by k e [] = e ∷ []
  insert_by k e (x ∷ xs) = if ltb k (f x) then e ∷ x ∷ xs else x ∷ insert_by k e xs

  pub insert_by-left :
      (k e : ℕ) (xs : List ℕ) (x : ℕ) (ys : List ℕ)
      → ltb k (f x) ≡ true
      → insert_by k e (xs ++ x ∷ ys) ≡ insert_by k e xs ++ x ∷ ys
  insert_by-left k e [] x ys h = rw h
  insert_by-left k e (z ∷ xs) x ys h = elim (Bool-cases (ltb k (f z))) [
    | inl y ↦ rw y
    | inr n ↦ rw n (rw (insert_by-left k e xs x ys h))
  ]

  pub insert_by-right :
      (k e : ℕ) (xs : List ℕ) (x : ℕ) (ys : List ℕ)
      → ltb k (f x) ≡ false
      → All (λ y. f y ≤ f x) xs
      → insert_by k e (xs ++ x ∷ ys) ≡ xs ++ x ∷ insert_by k e ys
  insert_by-right k e [] x ys h a = rw h
  insert_by-right k e (z ∷ xs) x ys h (p, a) =
      let n : ltb k (f z) ≡ false = ground arith in rw n (rw (insert_by-right k e xs x ys h a))

  All-insert_by :
      (P : ℕ → Type 0) (k e : ℕ) (xs : List ℕ) → P e → All P xs → All P (insert_by k e xs)
  All-insert_by P k e [] p a = (p, tt)
  All-insert_by P k e (x ∷ xs) p (q, a) = elim (Bool-cases (ltb k (f x))) [
    | inl y ↦ rw y (p, (q, a))
    | inr n ↦ rw n (q, All-insert_by P k e xs p a)
  ]

  pub insert_by-IsOrdered :
      (e : ℕ) (xs : List ℕ) → IsOrdered f xs → IsOrdered f (insert_by (f e) e xs)
  insert_by-IsOrdered e [] o = (tt, tt)
  insert_by-IsOrdered e (x ∷ xs) (a, o) = elim (Bool-cases (ltb (f e) (f x))) [
    | inl y ↦
        let less : f e ≤ f x = ground arith in
        rw y ((less, All-map _ (λ z. f e ≤ f z) xs (λ z p. le_trans less p) a), (a, o))
    | inr n ↦
        let more : f x ≤ f e = ground arith in
        rw n (All-insert_by (λ z. f x ≤ f z) (f e) e xs more a, insert_by-IsOrdered e xs o)
  ]

-- Taking out `e` leaves the head that the code finds.
pub head_of-without :
    (e : ℕ) (xs : List ℕ)
    → head_of (without e xs)
      ≡ (elim (head_of xs) [ none ↦ none | some x ↦ if x == e then successor e xs else some x ])
head_of-without e [] = refl
head_of-without e (x ∷ []) = elim (Bool-cases (x == e)) [ inl y ↦ rw y | inr n ↦ rw n ]
head_of-without e (x ∷ y ∷ xs) = elim (Bool-cases (x == e)) [ inl b ↦ rw b | inr n ↦ rw n ]
