-- ===== src/Rt/Unwind/Step.antt =====
-- One step of the walk: dequeueing an entity while the entity of its own runqueue is on no queue.
use cmsc421prj.Rt.Walk.{dequeue_if_queued}
use cmsc421prj.Base.{
  ℕ, ◌<◌, true, false, none, some, List, [], ◌∷◌, ◌≡◌, ◌≢◌, refl, sym, ◌∙◌, ap, ◌==◌, if◌then◌else◌,
  arith, Bool-cases, Option-cases, inl, inr, word,
}
use cmsc421prj.State.Data.{Sys, max_rt_prio}
use cmsc421prj.Rt.Lists.{remove}
use cmsc421prj.Rt.Entities.{on_rt_rq, rt_rq_of_se, rt_se_prio}
use cmsc421prj.Rt.Enqueue.{dequeue_one, take_off_queue}
use cmsc421prj.Rt.Core.{Core, core, drop_core}
use cmsc421prj.Rt.Core.Bits.{contains}
use cmsc421prj.Rt.Core.Refine.{take_off_queue-core}
use cmsc421prj.Rt.Keeps.{AllValid, take_off_queue-AllValid}
use cmsc421prj.Rt.Unwind.Frames.{take_off-IsUnlinked, IsUnlinked}

-- The groups form a tree: the parent of an entity owns the runqueue that the entity is for, no other
-- entity does, and the runqueue of an entity without a parent has no owner.
pub record IsTree (s : Sys) : Type 0 where
  pub owner : (p e q : ℕ) → (s.ent p).my_q ≡ some q → (s.ent e).my_q ≡ some q → p ≡ e
  pub up : (e p : ℕ) → (s.ent e).parent ≡ some p → (s.ent p).my_q ≡ some (s.ent e).rt_rq
  pub top : (e p : ℕ) → (s.ent e).parent ≡ none → (s.ent p).my_q ≢ some (s.ent e).rt_rq

-- An entity that is linked at `x` is in the queue of its priority there.
pub record IsPlaced (s : Sys) (e : ℕ) (x : ℕ × ℕ) : Type 0 where
  pub place : x ≡ (rt_rq_of_se s e, rt_se_prio s e)
  pub in_range : rt_se_prio s e < max_rt_prio
  pub held : contains e ((s.rtq (rt_rq_of_se s e)).queue (rt_se_prio s e)) ≡ true

-- Valid runqueues, with every linked entity in the queue of its priority.
pub record IsLinked (s : Sys) : Type 0 where
  pub valid : AllValid s
  pub small : (q : ℕ) → (s.rtq q).rt_nr_running < word
  pub placed : (e : ℕ) (x : ℕ × ℕ) → (s.ent e).run_list ≡ some x → IsPlaced s e x

contains-remove :
    (e j : ℕ) (xs : List ℕ) → e ≢ j → contains j xs ≡ true → contains j (remove e xs) ≡ true
unfolding remove
contains-remove e j [] ne h = h
contains-remove e j (x ∷ xs) ne h = ground (arith, contains-remove e j xs ne)

held-drop_core :
    (prio e j i : ℕ) (c : Core)
    → e ≢ j
    → contains j (c.queue i) ≡ true
    → contains j ((drop_core prio e c).queue i) ≡ true
unfolding drop_core
held-drop_core prio e j i c ne h = elim (Bool-cases (prio == i)) [
  | inl y ↦
      let eq : prio ≡ i = ground arith in rw y (contains-remove e j (c.queue prio) ne (rw eq h))
  | inr n ↦ rw n h
]

running-drop_core : (prio e : ℕ) (c : Core) → (drop_core prio e c).running < word
unfolding drop_core
running-drop_core prio e c = omega arith

-- No entity that owns the runqueue of `e` is on a queue.
abbrev pub IsClear : Sys → ℕ → Type 0
IsClear s e = (p : ℕ) → (s.ent p).my_q ≡ some (rt_rq_of_se s e) → (s.ent p).run_list ≡ none

module _ (s s' : Sys) (e : ℕ) (l : IsLinked s) (clear : IsClear s e) (u : IsUnlinked s s' e)
    (x : ℕ × ℕ) (on : (s.ent e).run_list ≡ some x) (t : take_off_queue s e ≡ some s') where
  at_place : (s.ent e).run_list ≡ some (rt_rq_of_se s e, rt_se_prio s e)
  at_place = on ∙ ap some (l.placed e x on).place

  core_of :
      (j : ℕ)
      → core (s'.rtq j) ≡ (
          if rt_rq_of_se s e == j
          then drop_core (rt_se_prio s e) e (core (s.rtq (rt_rq_of_se s e)))
          else core (s.rtq j))
  core_of j = take_off_queue-core s s' e j at_place t

  other_core : (j : ℕ) → rt_rq_of_se s e ≢ j → core (s'.rtq j) ≡ core (s.rtq j)
  other_core j ne = let n : (rt_rq_of_se s e == j) ≡ false = ground arith in core_of j ∙ rw n refl

  not_owned :
      (j : ℕ) (y : ℕ × ℕ) (g : ℕ)
      → (s.ent j).run_list ≡ some y
      → (s.ent j).my_q ≡ some g
      → rt_rq_of_se s e ≢ g
  not_owned j y g h n eq = cc (clear j (n ∙ ap some (sym eq)))

  -- The priority of another entity that is linked stays.
  same_prio : (j : ℕ) (y : ℕ × ℕ) → (s.ent j).run_list ≡ some y → rt_se_prio s' j ≡ rt_se_prio s j
  unfolding rt_se_prio
  same_prio j y h = elim (Option-cases (s.ent j).my_q) [
    | inl n ↦ rw ((u.links j).my_q, n, u.tasks) refl
    | inr (g, n) ↦
        rw ((u.links j).my_q, n) (ap (λ c. c.highest) (other_core g (not_owned j y g h n)))
  ]

  same_queue :
      (j i : ℕ)
      → e ≢ j
      → i < max_rt_prio
      → contains j ((s.rtq (rt_rq_of_se s j)).queue i) ≡ true
      → contains j ((s'.rtq (rt_rq_of_se s j)).queue i) ≡ true
  same_queue j i ne lt h = elim (Bool-cases (rt_rq_of_se s e == rt_rq_of_se s j)) [
    | inl y ↦
        let eq : rt_rq_of_se s e ≡ rt_rq_of_se s j = ground arith in
        rw (ap (λ c. c.queue i) (core_of (rt_rq_of_se s j)), y)
          (held-drop_core (rt_se_prio s e) e j i (core (s.rtq (rt_rq_of_se s e))) ne (rw eq h))
    | inr n ↦ rw (ap (λ c. c.queue i) (core_of (rt_rq_of_se s j)), n) h
  ]

  linked_after :
      (j : ℕ) (y : ℕ × ℕ) → (s'.ent j).run_list ≡ some y → (e ≢ j) × ((s.ent j).run_list ≡ some y)
  linked_after j y h = let r = u.run j in ((λ eq. ground (arith)), ground arith)

  placed_after : (j : ℕ) (y : ℕ × ℕ) → (s'.ent j).run_list ≡ some y → IsPlaced s' j y
  placed_after j y h =
      let (ne, h0) = linked_after j y h in
      let p = l.placed j y h0 in
      let same = same_prio j y h0 in
      record {
        place = rw ((u.links j).rt_rq, same) p.place;
        in_range = rw same p.in_range;
        held = rw ((u.links j).rt_rq, same) (same_queue j (rt_se_prio s j) ne p.in_range p.held);
      }

  small_after : (q : ℕ) → (s'.rtq q).rt_nr_running < word
  small_after q = elim (Bool-cases (rt_rq_of_se s e == q)) [
    | inl y ↦
        rw (ap (λ c. c.running) (core_of q), y)
          (running-drop_core (rt_se_prio s e) e (core (s.rtq (rt_rq_of_se s e))))
    | inr n ↦ rw (ap (λ c. c.running) (core_of q), n) (l.small q)
  ]

  off-IsLinked : IsLinked s'
  off-IsLinked =
      let p = l.placed e x on in
      record {
        valid =
            take_off_queue-AllValid s s' e l.valid
              (record { linked = at_place; held = p.held; counted = l.small (rt_rq_of_se s e) }) t;
        small = small_after;
        placed = placed_after;
      }

IsUnlinked-self : (s : Sys) (e : ℕ) → (s.ent e).run_list ≡ none → IsUnlinked s s e
IsUnlinked-self s e h = record {
  tasks = refl;
  depth = refl;
  links = λ j. record { parent = refl; rt_rq = refl; my_q = refl; back = refl };
  run = λ j. ground arith;
}

-- One step of the walk does not fault and leaves the entity on no queue.
pub dequeue_if_queued-IsLinked :
    (s : Sys) (e : ℕ)
    → IsLinked s
    → IsClear s e
    → (s' : Sys) × (dequeue_if_queued dequeue_one s e ≡ some s') × IsLinked s' × IsUnlinked s s' e
unfolding dequeue_if_queued dequeue_one on_rt_rq
dequeue_if_queued-IsLinked s e l clear = elim (Option-cases (s.ent e).run_list) [
  | inl n ↦ (s, rw n refl, l, IsUnlinked-self s e n)
  | inr (x, n) ↦
      let (s', t, u) = take_off-IsUnlinked s e (l.placed e x n).in_range in
      (s', rw n t, off-IsLinked s s' e l clear u x n t, u)
]
