-- ===== src/Fair/Tasks/Staying.antt =====
-- A task of the fair class that stops or starts to run stays on its runqueue, or off it.
use cmsc421prj.Base.{
  List, [], ◌∷◌, ℕ, some, ◌≡◌, refl, Bool-cases, inl, inr, arith, ◌∙◌, >>=-eq-some, sym, ap,
  if◌then◌else◌,
}
use mathlib.Core.Option.{some-injective}
use cmsc421prj.Fair.Data.{FairSys, RbTree}
use cmsc421prj.Fair.Clock.{update_curr_fair}
use cmsc421prj.Fair.Clock.Staying.{Stays, update_curr_fair-Stays}
use cmsc421prj.Fair.Timeline.{enqueue_node, dequeue_node}
use cmsc421prj.Fair.Slice.{parents}
use cmsc421prj.Fair.Pick.{set_next_entity, put_prev_entity}
use cmsc421prj.Fair.Tasks.{put_prev_loop, put_prev_task_fair, set_curr_loop, set_curr_task_fair}

module _ (rb : RbTree) (p : ℕ) where
  enqueue_node-Stays : (s : FairSys) (q e : ℕ) → Stays s (enqueue_node rb s q e) p
  unfolding enqueue_node
  enqueue_node-Stays s q e = refl

  dequeue_node-Stays : (s : FairSys) (q e : ℕ) → Stays s (dequeue_node rb s q e) p
  unfolding dequeue_node
  dequeue_node-Stays s q e = refl

  put_prev_entity-Stays : (s : FairSys) (q e : ℕ) → Stays s (put_prev_entity rb s q e) p
  unfolding put_prev_entity
  put_prev_entity-Stays s q e =
      let s1 = if (s.sys.task e).on_rq then update_curr_fair s q else s in
      let s2 = if (s1.sys.task e).on_rq then enqueue_node rb s1 q e else s1 in
      let first : Stays s s1 p = elim (Bool-cases (s.sys.task e).on_rq) [
        | inl y ↦ rw y (update_curr_fair-Stays s q p)
        | inr n ↦ rw n refl
      ] in
      let second : Stays s1 s2 p = elim (Bool-cases (s1.sys.task e).on_rq) [
        | inl y ↦ rw y (enqueue_node-Stays s1 q e)
        | inr n ↦ rw n refl
      ] in
      second ∙ first

  set_next_entity-Stays : (s : FairSys) (q e : ℕ) → Stays s (set_next_entity rb s q e) p
  unfolding set_next_entity
  set_next_entity-Stays s q e =
      let s1 = if (s.sys.task e).on_rq then dequeue_node rb s q e else s in
      let first : Stays s s1 p = elim (Bool-cases (s.sys.task e).on_rq) [
        | inl y ↦ rw y (dequeue_node-Stays s q e)
        | inr n ↦ rw n refl
      ] in
      ground (arith, first)

  put_prev_loop-Stays : (s : FairSys) (es : List ℕ) → Stays s (put_prev_loop rb s es) p
  unfolding put_prev_loop
  put_prev_loop-Stays s [] = refl
  put_prev_loop-Stays s (e ∷ es) =
      put_prev_loop-Stays (put_prev_entity rb s (s.se e).cfs_rq e) es
      ∙ put_prev_entity-Stays s (s.se e).cfs_rq e

  set_curr_loop-Stays : (s : FairSys) (es : List ℕ) → Stays s (set_curr_loop rb s es) p
  unfolding set_curr_loop
  set_curr_loop-Stays s [] = refl
  set_curr_loop-Stays s (e ∷ es) =
      set_curr_loop-Stays (set_next_entity rb s (s.se e).cfs_rq e) es
      ∙ set_next_entity-Stays s (s.se e).cfs_rq e

  pub put_prev_task_fair-Stays :
      (s : FairSys) (e : ℕ) (s' : FairSys) → put_prev_task_fair rb s e ≡ some s' → Stays s s' p
  unfolding put_prev_task_fair
  put_prev_task_fair-Stays s e s' h =
      let (es, f, g) = >>=-eq-some (parents s e) _ h in
      sym (ap (λ x. (x.sys.task p).on_rq) (some-injective _ s' g)) ∙ put_prev_loop-Stays s es

  pub set_curr_task_fair-Stays :
      (s : FairSys) (c : ℕ) (s' : FairSys) → set_curr_task_fair rb s c ≡ some s' → Stays s s' p
  unfolding set_curr_task_fair
  set_curr_task_fair-Stays s c s' h =
      let (es, f, g) = >>=-eq-some (parents s (s.sys.rq c).curr) _ h in
      sym (ap (λ x. (x.sys.task p).on_rq) (some-injective _ s' g)) ∙ set_curr_loop-Stays s es
