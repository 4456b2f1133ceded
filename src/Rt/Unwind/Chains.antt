-- ===== src/Rt/Unwind/Chains.antt =====
-- The chain of an entity and its parents, and the chain of `back` pointers that `dequeue_rt_stack`
-- winds along it.
use mathlib.Core.Option.{some-injective}
use cmsc421prj.Base.{
  ℕ, zero, suc, ◌≤◌, true, false, Option, none, some, List, [], ◌∷◌, ◌≡◌, refl, sym, ◌∙◌, ap, ◌==◌,
  arith, Bool-cases, inl, inr, length, >>=-eq-some,
}
use cmsc421prj.State.Data.{Sys}
use cmsc421prj.Rt.Walk.{hierarchy}
use cmsc421prj.Rt.Core.Bits.{contains}

-- `xs` are the entity `o` and its parents, up to the one without a parent.
abbrev pub Chain : Sys → Option ℕ → List ℕ → Type 0
Chain s o [] = o ≡ none
Chain s o (x ∷ xs) = (o ≡ some x) × Chain s (s.ent x).parent xs

-- `xs` are the entity `o`, whose parent is `p`, and those after it by `back`, each the parent of the
-- next.
abbrev pub Wound : Sys → Option ℕ → Option ℕ → List ℕ → Type 0
Wound s p o [] = o ≡ none
Wound s p o (x ∷ xs) = (o ≡ some x) × ((s.ent x).parent ≡ p) × Wound s (some x) (s.ent x).back xs

pub hierarchy-Chain :
    (fuel : ℕ) (s : Sys) (o : Option ℕ) (xs : List ℕ)
    → hierarchy fuel s o ≡ some xs
    → Chain s o xs × (length xs ≤ fuel)
unfolding hierarchy
hierarchy-Chain fuel s none xs h = rw (← some-injective _ _ h) (refl, omega arith)
hierarchy-Chain zero s (some e) xs h = cc
hierarchy-Chain (suc fuel) s (some e) xs h =
    let (ys, f, g) = >>=-eq-some (hierarchy fuel s (s.ent e).parent) _ h in
    let (c, l) = hierarchy-Chain fuel s (s.ent e).parent ys f in
    rw (← some-injective _ _ g) ((refl, c), omega arith)

Chain-length :
    (s : Sys) (o : Option ℕ) (xs ys : List ℕ) → Chain s o xs → Chain s o ys → length xs ≡ length ys
Chain-length s o [] [] c d = refl
Chain-length s o [] (y ∷ ys) c (d, ds) = cc
Chain-length s o (x ∷ xs) [] (c, cs) d = cc
Chain-length s o (x ∷ xs) (y ∷ ys) (c, cs) (d, ds) =
    let e : x ≡ y = some-injective _ _ (sym c ∙ d) in
    omega (arith, Chain-length s (s.ent y).parent xs ys (rw (← e) cs) ds)

Chain-inside :
    (s : Sys) (o : Option ℕ) (xs : List ℕ) (y : ℕ)
    → Chain s o xs
    → contains y xs ≡ true
    → (ys : List ℕ) × Chain s (some y) ys × (length ys ≤ length xs)
Chain-inside s o [] y c h = cc
Chain-inside s o (x ∷ xs) y (c, cs) h = elim (Bool-cases (x == y)) [
  | inl b ↦ let e : x ≡ y = ground arith in (x ∷ xs, (ap some (sym e), cs), omega arith)
  | inr n ↦
      let (ys, d, l) = Chain-inside s (s.ent x).parent xs y cs (rw n at h) in (ys, d, omega arith)
]

-- No entity is its own ancestor.
pub Chain-fresh :
    (s : Sys) (x : ℕ) (xs : List ℕ) → Chain s (some x) (x ∷ xs) → contains x xs ≡ false
Chain-fresh s x xs (c, cs) = elim (Bool-cases (contains x xs)) [
  | inl y ↦
      let (ys, d, l) = Chain-inside s (s.ent x).parent xs x cs y in
      absurd (omega (arith, Chain-length s (some x) (x ∷ xs) ys (c, cs) d))
  | inr n ↦ n
]
