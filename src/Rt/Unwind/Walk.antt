-- ===== src/Rt/Unwind/Walk.antt =====
-- The second loop of `dequeue_rt_stack`, and the whole of it.
use cmsc421prj.Base.{
  ℕ, zero, suc, ◌≤◌, true, Option, none, some, List, [], ◌∷◌, ◌≡◌, refl, sym, ◌∙◌, ap, ◌==◌, arith,
  Bool-cases, inl, inr, length,
}
use cmsc421prj.State.Data.{Sys}
use cmsc421prj.Rt.Entities.{rt_rq_of_se}
use cmsc421prj.Rt.Enqueue.{dequeue_one}
use cmsc421prj.Rt.Walk.{walk_back}
use cmsc421prj.Rt.Core.Bits.{contains}
use cmsc421prj.Rt.Unwind.Frames.{SameLinks}
use cmsc421prj.Rt.Unwind.Step.{IsTree, IsLinked, IsClear, dequeue_if_queued-IsLinked}
use cmsc421prj.Rt.Unwind.Chains.{Wound}

abbrev pub IsOff : Sys → Option ℕ → Type 0
IsOff s none = Unit {0}
IsOff s (some p) = (s.ent p).run_list ≡ none

IsClear-below :
    (s : Sys) (x : ℕ) (p : Option ℕ) → IsTree s → (s.ent x).parent ≡ p → IsOff s p → IsClear s x
IsClear-below s x none t e off a h = absurd (t.top x a e h)
IsClear-below s x (some b) t e off a h = rw (t.owner a b (rt_rq_of_se s x) h (t.up x b e)) off

IsTree-links : (s s' : Sys) → ((j : ℕ) → SameLinks (s.ent j) (s'.ent j)) → IsTree s → IsTree s'
IsTree-links s s' l t = record {
  owner = λ p e q a b. t.owner p e q (sym (l p).my_q ∙ a) (sym (l e).my_q ∙ b);
  up = λ e p a. (l p).my_q ∙ t.up e p (sym (l e).parent ∙ a) ∙ ap some (sym (l e).rt_rq);
  top = λ e p a b. t.top e p (sym (l e).parent ∙ a) (sym (l p).my_q ∙ b ∙ ap some (l e).rt_rq);
}

Wound-links :
    (s s' : Sys) (p o : Option ℕ) (xs : List ℕ)
    → ((j : ℕ) → SameLinks (s.ent j) (s'.ent j))
    → Wound s p o xs
    → Wound s' p o xs
Wound-links s s' p o [] l w = w
Wound-links s s' p o (x ∷ xs) l (w, v, ws) =
    (w, (l x).parent ∙ v, rw (l x).back (Wound-links s s' (some x) (s.ent x).back xs l ws))

-- The walk ends with the entities of the chain on no queue, and puts no other on one.
pub record IsUnwound (s : Sys) (fuel : ℕ) (o : Option ℕ) (xs : List ℕ) : Type 0 where
  pub after : Sys
  pub ends : walk_back dequeue_one fuel s o ≡ some after
  pub linked : IsLinked after
  pub stays_off : (j : ℕ) → (s.ent j).run_list ≡ none → (after.ent j).run_list ≡ none
  pub all_off : (j : ℕ) → contains j xs ≡ true → (after.ent j).run_list ≡ none

pub walk_back-IsUnwound :
    (fuel : ℕ) (s : Sys) (p o : Option ℕ) (xs : List ℕ)
    → IsTree s
    → IsLinked s
    → IsOff s p
    → Wound s p o xs
    → length xs ≤ fuel
    → IsUnwound s fuel o xs
unfolding walk_back
walk_back-IsUnwound fuel s p o [] t l off w f = record {
  after = s;
  ends = rw w refl;
  linked = l;
  stays_off = λ j h. h;
  all_off = λ j h. cc;
}
walk_back-IsUnwound zero s p o (x ∷ xs) t l off w f = absurd (omega arith)
walk_back-IsUnwound (suc fuel) s p o (x ∷ xs) t l off (w, v, ws) f =
    let (s1, d, l1, u) = dequeue_if_queued-IsLinked s x l (IsClear-below s x p t v off) in
    let self : (s1.ent x).run_list ≡ none = ground (arith, u.run x) in
    let r =
      walk_back-IsUnwound fuel s1 (some x) (s1.ent x).back xs (IsTree-links s s1 u.links t) l1 self
        (rw (u.links x).back (Wound-links s s1 (some x) (s.ent x).back xs u.links ws))
        (omega arith) in
    record {
      after = r.after;
      ends = rw (w, d) r.ends;
      linked = r.linked;
      stays_off = λ j h. r.stays_off j (ground (arith, u.run j));
      all_off = λ j h. elim (Bool-cases (x == j)) [
        | inl y ↦ r.stays_off j (ground (arith, u.run j))
        | inr n ↦ r.all_off j (rw n at h)
      ];
    }
