-- ===== src/Rt/Descent.antt =====
-- `pick_next_task_rt` goes down through the groups and ends at a task.
use cmsc421prj.Rt.Migration.{dequeue_pushable_task}
use cmsc421prj.Base.{
  ◌∙◌, ap, ℕ, zero, suc, ◌<◌, true, false, none, some, ◌≡◌, ◌≢◌, refl, ◌>>=◌, arith, Option-cases,
  inl, inr,
}
use cmsc421prj.State.Data.{Sys}
use cmsc421prj.Rt.Core.Bits.{contains}
use cmsc421prj.Rt.Keeps.{AllValid}
use cmsc421prj.Rt.Pick.{
  start_exec, pick_next_rt_entity, descend, nothing_to_pick, pick_task, unpush, pick_next_task_rt,
  root_q,
}
use cmsc421prj.Rt.Choice.{pick_next_rt_entity-IsNext, IsNext}

-- The runqueues are valid, and every group that has an entity on a queue has an entity itself, and is
-- at a lower level than the runqueue of that entity.
pub record IsDescent (s : Sys) (level : ℕ → ℕ) : Type 0 where
  pub valid : AllValid s
  pub filled :
      (q i e g : ℕ)
      → contains e ((s.rtq q).queue i) ≡ true
      → (s.ent e).my_q ≡ some g
      → (s.rtq g).rt_nr_running ≢ 0
  pub lower :
      (q i e g : ℕ)
      → contains e ((s.rtq q).queue i) ≡ true
      → (s.ent e).my_q ≡ some g
      → level g < level q

next_queued :
    (s : Sys) (q i e : ℕ) → IsNext (s.rtq q).queue i e → contains e ((s.rtq q).queue i) ≡ true
next_queued s q i e n = rw n.head (ground arith)

not_empty : (s : Sys) (c : ℕ) → nothing_to_pick s c ≡ false → (s.rtq (root_q s c)).rt_nr_running ≢ 0
unfolding nothing_to_pick
not_empty s c h e = ground arith

-- One round of the loop, with the loop shut.
descend_round :
    (fuel : ℕ) (s : Sys) (q : ℕ)
    → descend (suc fuel) s (some q) ≡ (
        pick_next_rt_entity s q >>= λ e.
        (let below = descend fuel s (s.ent e).my_q in
          elim (s.ent e).my_q [ none ↦ some e | some g ↦ below ]))
unfolding descend
descend_round fuel s q = refl

module _ (s : Sys) (level : ℕ → ℕ) (d : IsDescent s level) where
  descend_ends :
      (fuel q : ℕ)
      → level q < fuel
      → (s.rtq q).rt_nr_running ≢ 0
      → (p : ℕ) × (descend fuel s (some q) ≡ some p) × ((s.ent p).my_q ≡ none)
  descend_ends zero q h ne = absurd (omega arith)
  descend_ends (suc fuel) q h ne =
      let (e, picked, n) = pick_next_rt_entity-IsNext s q (d.valid q) ne in
      let queued = next_queued s q (s.rtq q).highest_curr e n in
      elim (Option-cases (s.ent e).my_q) [
        | inl y ↦ (e, rw (descend_round fuel s q, picked, y) refl, y)
        | inr (g, y) ↦
            let less = d.lower q (s.rtq q).highest_curr e g queued y in
            let (p, f, t) =
              descend_ends fuel g (omega arith) (d.filled q (s.rtq q).highest_curr e g queued y) in
            (p, rw (descend_round fuel s q, picked, y) (ap (descend fuel s) y ∙ f), t)
      ]

  -- Where the runqueue of a cpu has entities and is not throttled, `pick_next_task_rt` ends at a task
  -- and not at a group, and no BUG_ON fires on the way. This needs that all runqueues are valid, that
  -- every group with an entity on a queue has an entity itself and is at a lower level than the
  -- runqueue of that entity, and that the level of the cpu's runqueue is below the bound on the depth.
  pub pick_next_task_rt-ends :
      (c : ℕ)
      → level (root_q s c) < s.depth
      → nothing_to_pick s c ≡ false
      → (s' : Sys) × (p : ℕ) × (pick_next_task_rt s c ≡ some (s', some p)) × ((s.ent p).my_q ≡ none)
  unfolding pick_next_task_rt pick_task unpush
  pick_next_task_rt-ends c h busy =
      let (p, f, t) = descend_ends s.depth (root_q s c) h (not_empty s c busy) in
      (dequeue_pushable_task (start_exec s c p) c p, p, rw (busy, f) refl, t)
