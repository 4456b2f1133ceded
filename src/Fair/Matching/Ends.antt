-- ===== src/Fair/Matching/Ends.antt =====
-- The loops of `find_matching_se` end, at ancestors that are in one runqueue.
use mathlib.Core.Option.{some-injective}
use mathlib.Core.Option.{some-injective}
use cmsc421prj.Base.{
  ℕ, zero, suc, ◌-◌, ◌+◌, ◌≤◌, ◌<◌, true, Option, none, some, List, [], ◌∷◌, ◌≡◌, refl, ◌∙◌, ◌==◌,
  length, arith, Bool-cases, inl, inr, >>=-eq-some,
}
use cmsc421prj.Rt.Core.Bits.{contains}
use cmsc421prj.Fair.Data.{FairSys, last_of}
use cmsc421prj.Fair.Slice.{parents, fair_hierarchy}
use cmsc421prj.Fair.Matching.{depth_se, climb, meet, find_matching_se}

-- `xs` are the entity `o` and its parents, up to the one without a parent.
abbrev pub Chain : FairSys → Option ℕ → List ℕ → Type 0
Chain s o [] = o ≡ none
Chain s o (x ∷ xs) = (o ≡ some x) × Chain s (s.se x).parent xs

Chain-hierarchy :
    (fuel : ℕ) (s : FairSys) (o : Option ℕ) (xs : List ℕ)
    → fair_hierarchy fuel s o ≡ some xs
    → Chain s o xs × (length xs ≤ fuel)
unfolding fair_hierarchy
Chain-hierarchy fuel s none xs h = rw (← some-injective _ _ h) (refl, omega arith)
Chain-hierarchy zero s (some e) xs h = cc
Chain-hierarchy (suc fuel) s (some e) xs h =
    let (ys, f, g) = >>=-eq-some (fair_hierarchy fuel s (s.se e).parent) _ h in
    let (c, l) = Chain-hierarchy fuel s (s.se e).parent ys f in
    rw (← some-injective _ _ g) ((refl, c), omega arith)

contains_tail : (x z : ℕ) (xs : List ℕ) → contains z xs ≡ true → contains z (x ∷ xs) ≡ true
contains_tail x z xs h = elim (Bool-cases (x == z)) [ inl y ↦ rw y refl | inr n ↦ rw n h ]

contains_self : (x : ℕ) (xs : List ℕ) → contains x (x ∷ xs) ≡ true
contains_self x xs = ground arith

record Climbed (s : FairSys) (n : ℕ) (o : Option ℕ) (xs : List ℕ) : Type 0 where
  top : Option ℕ
  rest : List ℕ
  reached : climb n s o ≡ some top
  chain : Chain s top rest
  shorter : length rest + n ≡ length xs
  same_last : last_of rest ≡ last_of xs
  among : (z : ℕ) → contains z rest ≡ true → contains z xs ≡ true

climb_lem :
    (n : ℕ) (s : FairSys) (o : Option ℕ) (xs : List ℕ)
    → Chain s o xs
    → n < length xs
    → Climbed s n o xs
unfolding climb
climb_lem zero s o xs c h = record {
  top = o;
  rest = xs;
  reached = refl;
  chain = c;
  shorter = omega arith;
  same_last = refl;
  among = λ z p. p;
}
climb_lem (suc n) s o [] c h = absurd (omega arith)
climb_lem (suc n) s o (x ∷ []) c h = absurd (omega arith)
climb_lem (suc n) s o (x ∷ y ∷ xs) (e, c) h =
    let r = climb_lem n s (s.se x).parent (y ∷ xs) c (omega arith) in
    record {
      top = r.top;
      rest = r.rest;
      reached = rw e r.reached;
      chain = r.chain;
      shorter = omega (arith, r.shorter);
      same_last = r.same_last;
      among = λ z p. contains_tail x z (y ∷ xs) (r.among z p);
    }

record Met (s : FairSys) (fuel : ℕ) (o p : Option ℕ) (xs ys : List ℕ) : Type 0 where
  first : ℕ
  second : ℕ
  found : meet fuel s o p ≡ some (first, second)
  same_group : (s.se first).cfs_rq ≡ (s.se second).cfs_rq
  in_first : contains first xs ≡ true
  in_second : contains second ys ≡ true

not_empty : (xs : List ℕ) (x : ℕ) → last_of xs ≡ some x → 0 < length xs
not_empty [] x h = cc
not_empty (y ∷ ys) x h = omega arith

-- The last entities are in one runqueue.
record SameTop (s : FairSys) (xs ys : List ℕ) : Type 0 where
  left : ℕ
  right : ℕ
  left_last : last_of xs ≡ some left
  right_last : last_of ys ≡ some right
  same : (s.se left).cfs_rq ≡ (s.se right).cfs_rq

meet_lem :
    (fuel : ℕ) (s : FairSys) (o p : Option ℕ) (xs ys : List ℕ)
    → Chain s o xs
    → Chain s p ys
    → length xs ≡ length ys
    → length xs ≤ fuel
    → SameTop s xs ys
    → Met s fuel o p xs ys
unfolding meet
meet_lem fuel s o p [] ys c d l f t = cc (t.left_last)
meet_lem fuel s o p (x ∷ xs) [] c d l f t = cc (t.right_last)
meet_lem zero s o p (x ∷ xs) (y ∷ ys) c d l f t = absurd (omega arith)
meet_lem (suc fuel) s o p (x ∷ []) (y ∷ y2 ∷ ys) c d l f t = absurd (omega arith)
meet_lem (suc fuel) s o p (x ∷ x2 ∷ xs) (y ∷ []) c d l f t = absurd (omega arith)
meet_lem (suc fuel) s o p (x ∷ []) (y ∷ []) (c, cs) (d, ds) l f t =
    let a : x ≡ t.left = some-injective _ _ t.left_last in
    let b : y ≡ t.right = some-injective _ _ t.right_last in
    let e : (s.se x).cfs_rq ≡ (s.se y).cfs_rq = rw (a, b) t.same in
    record {
      first = x;
      second = y;
      found = rw (c, d) (ground arith);
      same_group = e;
      in_first = contains_self x [];
      in_second = contains_self y [];
    }
meet_lem (suc fuel) s o p (x ∷ x2 ∷ xs) (y ∷ y2 ∷ ys) (c, cs) (d, ds) l f t =
    elim (Bool-cases ((s.se x).cfs_rq == (s.se y).cfs_rq)) [
      | inl b ↦ record {
        first = x;
        second = y;
        found = rw (c, d, b) refl;
        same_group = ground arith;
        in_first = contains_self x (x2 ∷ xs);
        in_second = contains_self y (y2 ∷ ys);
      }
      | inr b ↦
          let t' : SameTop s (x2 ∷ xs) (y2 ∷ ys) = record {
            left = t.left;
            right = t.right;
            left_last = t.left_last;
            right_last = t.right_last;
            same = t.same;
          } in
          let r =
            meet_lem fuel s (s.se x).parent (s.se y).parent (x2 ∷ xs) (y2 ∷ ys) cs ds (omega arith)
              (omega arith) t' in
          record {
            first = r.first;
            second = r.second;
            found = rw (c, d, b) r.found;
            same_group = r.same_group;
            in_first = contains_tail x r.first (x2 ∷ xs) r.in_first;
            in_second = contains_tail y r.second (y2 ∷ ys) r.in_second;
          }
    ]

-- For two entities whose top ancestors are in one runqueue, `find_matching_se` ends without a null
-- pointer, and finds an ancestor of each (or itself) such that both are in one runqueue.
pub find_matching_se-ends :
    (s : FairSys) (a b : ℕ) (xs ys : List ℕ) (x y : ℕ)
    → parents s a ≡ some xs
    → parents s b ≡ some ys
    → last_of xs ≡ some x
    → last_of ys ≡ some y
    → (s.se x).cfs_rq ≡ (s.se y).cfs_rq
    → (a' : ℕ) × (b' : ℕ) × (find_matching_se s a b ≡ some (a', b'))
      × ((s.se a').cfs_rq ≡ (s.se b').cfs_rq)
      × (contains a' xs ≡ true)
      × (contains b' ys ≡ true)
unfolding find_matching_se depth_se
find_matching_se-ends s a b xs ys x y p q u v same =
    let (c, f) = Chain-hierarchy s.sys.depth s (some a) xs p in
    let (d, g) = Chain-hierarchy s.sys.depth s (some b) ys q in
    let i =
      climb_lem (length xs - length ys) s (some a) xs c
        (omega (arith, not_empty xs x u, not_empty ys y v)) in
    let j =
      climb_lem (length ys - length xs) s (some b) ys d
        (omega (arith, not_empty xs x u, not_empty ys y v)) in
    let t : SameTop s i.rest j.rest = record {
      left = x;
      right = y;
      left_last = i.same_last ∙ u;
      right_last = j.same_last ∙ v;
      same = same;
    } in
    let m =
      meet_lem s.sys.depth s i.top j.top i.rest j.rest i.chain j.chain
        (omega (arith, i.shorter, j.shorter)) (omega (arith, i.shorter)) t in
    (
      m.first,
      m.second,
      rw (p, q, i.reached, j.reached) m.found,
      m.same_group,
      i.among m.first m.in_first,
      j.among m.second m.in_second,
    )
