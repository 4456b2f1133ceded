-- ===== src/Groups/Walk.antt =====
-- `walk_tg_tree` with a visitor that only tests: it returns 0 exactly if the test does at every group.
use mathlib.Core.Option.{some-injective}
use cmsc421prj.Base.{
  false, ◌==◌, >>=-eq-some, none, sym, ◌∙◌, ap, ◌>>=◌, refl, ℕ, zero, suc, true, Option, some, List,
  [], ◌∷◌, ◌≡◌, arith, Bool-cases, inl, inr,
}
use cmsc421prj.Base.Int.{ℤ, pos, negsuc}
use cmsc421prj.State.Data.{Sys}
use cmsc421prj.Groups.{Visitor, and_then, visit_all, visit, tg_nop}
use cmsc421prj.Rt.Core.Bits.{contains}

-- The second group is the first one or below it.
pub data Below (s : Sys) : ℕ → ℕ → Type 0 where
  here : {g h : ℕ} → g ≡ h → Below s g h
  under : {g c h : ℕ} → contains c (s.group g).children ≡ true → Below s c h → Below s g h

and_then-ok :
    (m : Option (Sys × ℤ)) (next : Sys → Option (Sys × ℤ)) (s' : Sys)
    → (m >>= λ r. and_then r next) ≡ some (s', pos 0)
    → (s : Sys) × (m ≡ some (s, pos 0)) × (next s ≡ some (s', pos 0))
and_then-ok none next s' h = cc
and_then-ok (some (s, pos zero)) next s' h = (s, refl, h)
and_then-ok (some (s, pos (suc n))) next s' h =
    let ne : (suc n == 0) ≡ false = ground arith in
    let e = ap (λ x. x.1) (some-injective (s, pos (suc n)) (s', pos 0) (rw ne at h)) in
    absurd (ground arith)
and_then-ok (some (s, negsuc k)) next s' h = absurd (cc)

module _ (test : Sys → ℕ → Option ℤ) where
  abbrev pub tester : Visitor
  tester s g = test s g >>= λ r. some (s, r)

  tester-ok :
      (s s' : Sys) (g : ℕ) → tester s g ≡ some (s', pos 0) → (test s g ≡ some (pos 0)) × (s' ≡ s)
  tester-ok s s' g h =
      let (r, f, e) = >>=-eq-some (test s g) _ h in
      let p = some-injective _ _ e in (f ∙ ap some (ap (λ x. x.1) p), sym (ap (λ x. x.0) p))

  visit_all-ok :
      (n : ℕ) (s s' : Sys) (cs : List ℕ)
      → ((c : ℕ) (t : Sys) → visit tester tg_nop n s c ≡ some (t, pos 0) → t ≡ s)
      → visit_all (visit tester tg_nop n) s cs ≡ some (s', pos 0)
      → (s' ≡ s) × ((c : ℕ) → contains c cs ≡ true → visit tester tg_nop n s c ≡ some (s, pos 0))
  unfolding visit_all
  visit_all-ok n s s' [] keeps h = (sym (ap (λ x. x.0) (some-injective _ _ h)), λ c m. cc)
  visit_all-ok n s s' (x ∷ cs) keeps h =
      let (s1, f, rest) = and_then-ok (visit tester tg_nop n s x) _ s' h in
      let same = keeps x s1 f in
      let (kept, all) = visit_all-ok n s s' cs keeps (rw same at rest) in
      (
        kept,
        λ c m. elim (Bool-cases (x == c)) [
          | inl y ↦ let e : x ≡ c = ground arith in rw (← e) (rw same at f)
          | inr ne ↦ all c (rw ne at m)
        ],
      )

  Below-ok :
      (s : Sys) (g : ℕ)
      → test s g ≡ some (pos 0)
      → ((c : ℕ)
          → contains c (s.group g).children ≡ true
          → (h : ℕ) → Below s c h
          → test s h ≡ some (pos 0))
      → (h : ℕ) → Below s g h
      → test s h ≡ some (pos 0)
  Below-ok s g t all h (here e) = rw (← e) t
  Below-ok s g t all h (under m b) = all _ m h b

  -- One level of the walk, with the level below shut.
  visit-suc :
      (n : ℕ) (s : Sys) (g : ℕ)
      → visit tester tg_nop (suc n) s g ≡ (
          tester s g >>= λ r. and_then r (λ s1.
            visit_all (visit tester tg_nop n) s1 (s1.group g).children >>= λ r2.
            and_then r2 (λ s2. tg_nop s2 g)))
  unfolding visit
  visit-suc n s g = refl

  visit-zero : (s : Sys) (g : ℕ) → visit tester tg_nop zero s g ≡ none
  unfolding visit
  visit-zero s g = refl

  -- A walk that returns 0 has changed nothing and found no error at any group.
  pub visit-ok :
      (n : ℕ) (s s' : Sys) (g : ℕ)
      → visit tester tg_nop n s g ≡ some (s', pos 0)
      → (s' ≡ s) × ((h : ℕ) → Below s g h → test s h ≡ some (pos 0))
  visit-ok zero s s' g e = absurd (cc (visit-zero s g))
  visit-ok (suc n) s s' g e =
      let (s1, f, rest) = and_then-ok (tester s g) _ s' (sym (visit-suc n s g) ∙ e) in
      let (t, same) = tester-ok s s1 g f in
      let (s2, f2, rest2) =
        and_then-ok (visit_all (visit tester tg_nop n) s (s.group g).children) _ s'
          (rw same at rest) in
      let (kept, all) =
        visit_all-ok n s s2 (s.group g).children (λ c u v. (visit-ok n s u c v).0) f2 in
      (
        sym (ap (λ x. x.0) (some-injective _ _ rest2)) ∙ kept,
        λ h below. Below-ok s g t (λ c m. (visit-ok n s s c (all c m)).1) h below,
      )
