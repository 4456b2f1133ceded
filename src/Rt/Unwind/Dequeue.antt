-- ===== src/Rt/Unwind/Dequeue.antt =====
-- The whole of `dequeue_rt_stack`.
use cmsc421prj.Base.{ℕ, true, none, some, List, [], ◌≡◌, refl, sym, ◌∙◌, ap, arith}
use cmsc421prj.State.Data.{Sys}
use cmsc421prj.Rt.Entities.{rt_se_prio}
use cmsc421prj.Rt.Walk.{hierarchy, link_back, dequeue_stack}
use cmsc421prj.Rt.Enqueue.{dequeue_rt_stack}
use cmsc421prj.Rt.Core.Bits.{contains}
use cmsc421prj.Rt.Unwind.Step.{IsTree, IsLinked, IsPlaced}
use cmsc421prj.Rt.Unwind.Chains.{hierarchy-Chain}
use cmsc421prj.Rt.Unwind.Wind.{SameButBack, link_back-IsWound}
use cmsc421prj.Rt.Unwind.Walk.{walk_back-IsUnwound}

IsTree-same : (s s' : Sys) → SameButBack s s' → IsTree s → IsTree s'
IsTree-same s s' u t = record {
  owner = λ p e q a b. t.owner p e q (sym (u.my_q p) ∙ a) (sym (u.my_q e) ∙ b);
  up = λ e p a. u.my_q p ∙ t.up e p (sym (u.parent e) ∙ a) ∙ ap some (sym (u.rt_rq e));
  top = λ e p a b. t.top e p (sym (u.parent e) ∙ a) (sym (u.my_q p) ∙ b ∙ ap some (u.rt_rq e));
}

prio-same : (s s' : Sys) (e : ℕ) → SameButBack s s' → rt_se_prio s' e ≡ rt_se_prio s e
unfolding rt_se_prio
prio-same s s' e u = rw (u.my_q e, u.tasks, u.queues) refl

IsPlaced-same :
    (s s' : Sys) (e : ℕ) (x : ℕ × ℕ) → SameButBack s s' → IsPlaced s e x → IsPlaced s' e x
IsPlaced-same s s' e x u p = record {
  place = rw (u.rt_rq e, prio-same s s' e u) p.place;
  in_range = rw (prio-same s s' e u) p.in_range;
  held = rw (u.rt_rq e, prio-same s s' e u, u.queues) p.held;
}

IsLinked-same : (s s' : Sys) → SameButBack s s' → IsLinked s → IsLinked s'
IsLinked-same s s' u l = record {
  valid = rw u.queues l.valid;
  small = rw u.queues l.small;
  placed = λ e x h. IsPlaced-same s s' e x u (l.placed e x (sym (u.run_list e) ∙ h));
}

-- `dequeue_rt_stack` takes an entity and all its parents off their queues, from the top down, and
-- does not fault: in a tree of groups whose linked entities are each in the queue of their priority,
-- on valid runqueues, none of the entities of the chain is linked afterwards, no entity has become
-- linked, and every runqueue and every entity still linked is as valid as before. The chain must be
-- within the bound of the walk.
pub dequeue_rt_stack-IsLinked :
    (s : Sys) (e : ℕ) (es : List ℕ)
    → IsTree s
    → IsLinked s
    → hierarchy s.depth s (some e) ≡ some es
    → (s' : Sys) × (dequeue_rt_stack s e ≡ some s')
      × IsLinked s'
      × ((j : ℕ) → contains j es ≡ true → (s'.ent j).run_list ≡ none)
      × ((j : ℕ) → (s.ent j).run_list ≡ none → (s'.ent j).run_list ≡ none)
unfolding dequeue_rt_stack dequeue_stack
dequeue_rt_stack-IsLinked s e es t l h =
    let (chain, size) = hierarchy-Chain s.depth s (some e) es h in
    let w = link_back-IsWound s (some e) none es [] chain refl (λ j m. refl) in
    let s1 = (link_back s none es).0 in
    let r =
      walk_back-IsUnwound s.depth s1 none (link_back s none es).1 w.down (IsTree-same s s1 w.same t)
        (IsLinked-same s s1 w.same l) tt w.wound (omega (arith, w.size, size)) in
    (
      r.after,
      rw h r.ends,
      r.linked,
      (λ j m. r.all_off j (w.covers j m)),
      (λ j m. r.stays_off j (w.same.run_list j ∙ m)),
    )
