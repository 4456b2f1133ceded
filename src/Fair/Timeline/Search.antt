-- ===== src/Fair/Timeline/Search.antt =====
-- The tree of a runqueue against the list of its entities in the order of their keys.
use mathlib.Core.Path.{fun_ext}
use cmsc421prj.Base.{
  ap, ◌∙◌, sym, ℕ, Bool, true, false, none, some, List, [], ◌∷◌, ◌++◌, ◌≡◌, refl, ◌^◌,
  if◌then◌else◌, arith, Bool-cases, inl, inr, add64,
}
use cmsc421prj.Fair.Data.{FairSys, Tree, leaf, node, in_order, without, RbTree}
use cmsc421prj.Fair.Clock.{slt64, entity_key}
use cmsc421prj.Fair.Timeline.{link_entity, enqueue_node, dequeue_node}
use cmsc421prj.Fair.Timeline.Order.{
  IsOrdered, head_of, insert_by, insert_by-left, insert_by-right, insert_by-IsOrdered,
  IsOrdered-split, IsOrdered-without, head_of-without,
}

-- The key of an entity in a runqueue, moved so that the signed order is that of the numbers.
unfoldable pub rank : FairSys → ℕ → ℕ → ℕ
unfolding entity_key
rank s q e = add64 (entity_key s q e) (2 ^ 63)

-- The tree is in order, and its leftmost entity is cached.
pub record IsTimeline (s : FairSys) (q : ℕ) : Type 0 where
  pub ordered : IsOrdered (rank s q) (in_order (s.cfs q).tasks_timeline)
  pub cached : (s.cfs q).rb_leftmost ≡ head_of (in_order (s.cfs q).tasks_timeline)

module _ (s : FairSys) (q key e : ℕ) where
  abbrev spot : ℕ
  spot = add64 key (2 ^ 63)

  link_order :
      (t : Tree)
      → IsOrdered (rank s q) (in_order t)
      → in_order (link_entity s q key e t).0 ≡ insert_by (rank s q) spot e (in_order t)
  unfolding link_entity rank
  link_order leaf o = refl
  link_order (node l x r) o =
      let (ol, al, or) = IsOrdered-split (rank s q) (in_order l) x (in_order r) o in
      elim (Bool-cases (slt64 key (entity_key s q x))) [
        | inl y ↦
            rw (y, link_order l ol)
              (sym (insert_by-left (rank s q) spot e (in_order l) x (in_order r) y))
        | inr n ↦
            rw (n, link_order r or)
              (sym (insert_by-right (rank s q) spot e (in_order l) x (in_order r) n al))
      ]

  head_append :
      (xs : List ℕ) (x : ℕ) (ys : List ℕ)
      → head_of (xs ++ x ∷ ys) ≡ (elim (head_of xs) [ none ↦ some x | some y ↦ some y ])
  head_append [] x ys = refl
  head_append (y ∷ xs) x ys = refl

  head_before :
      (b : Bool) (xs ys : List ℕ) (x : ℕ) (zs : List ℕ)
      → head_of xs ≡ (if b then some e else head_of ys)
      → head_of (xs ++ x ∷ zs) ≡ (if b then some e else head_of (ys ++ x ∷ zs))
  head_before true xs ys x zs h = rw (head_append xs x zs, h)
  head_before false xs ys x zs h = rw (head_append xs x zs, head_append ys x zs, h)

  link_leftmost :
      (t : Tree)
      → head_of (in_order (link_entity s q key e t).0)
        ≡ (if (link_entity s q key e t).1 then some e else head_of (in_order t))
  unfolding link_entity
  link_leftmost leaf = refl
  link_leftmost (node l x r) = elim (Bool-cases (slt64 key (entity_key s q x))) [
    | inl y ↦ rw y (
        head_before _ (in_order (link_entity s q key e l).0) (in_order l) x (in_order r)
          (link_leftmost l))
    | inr n ↦ rw n (head_append (in_order l) x _ ∙ sym (head_append (in_order l) x (in_order r)))
  ]

-- The order of the keys goes by the virtual times alone.
rank_of_same :
    (s s' : FairSys) (q : ℕ)
    → ((e : ℕ) → (s'.se e).vruntime ≡ (s.se e).vruntime)
    → (s'.cfs q).min_vruntime ≡ (s.cfs q).min_vruntime
    → rank s' q ≡ rank s q
unfolding rank entity_key
rank_of_same s s' q v m = fun_ext (λ e. rw (v e, m))

module _ (rb : RbTree) (s : FairSys) (q e : ℕ) where
  abbrev linked : Tree × Bool
  linked = link_entity s q (entity_key s q e) e (s.cfs q).tasks_timeline

  recoloured : ((enqueue_node rb s q e).cfs q).tasks_timeline ≡ rb.rb_insert_color linked.0 e
  unfolding enqueue_node
  recoloured = ground arith

  recached :
      ((enqueue_node rb s q e).cfs q).rb_leftmost
      ≡ (if linked.1 then some e else (s.cfs q).rb_leftmost)
  unfolding enqueue_node
  recached = ground arith

  enqueued_tree : in_order ((enqueue_node rb s q e).cfs q).tasks_timeline ≡ in_order linked.0
  enqueued_tree = ap in_order recoloured ∙ rb.insert_color_order linked.0 e

  enqueued_rank : rank (enqueue_node rb s q e) q ≡ rank s q
  unfolding enqueue_node
  enqueued_rank = rank_of_same s (enqueue_node rb s q e) q (λ x. refl) (ground arith)

  -- `__enqueue_entity` puts an entity into a timeline that is in order in front of the first entity
  -- with a greater key, in the signed order, and so behind those of the same key.
  pub enqueue_node-order :
      IsTimeline s q
      → in_order ((enqueue_node rb s q e).cfs q).tasks_timeline
        ≡ insert_by (rank s q) (rank s q e) e (in_order (s.cfs q).tasks_timeline)
  unfolding rank
  enqueue_node-order t = enqueued_tree ∙ link_order s q (entity_key s q e) e _ t.ordered

  enqueued_cached :
      IsTimeline s q
      → ((enqueue_node rb s q e).cfs q).rb_leftmost
        ≡ head_of (in_order ((enqueue_node rb s q e).cfs q).tasks_timeline)
  enqueued_cached t =
      rw (recached, enqueued_tree, t.cached)
        (sym (link_leftmost s q (entity_key s q e) e (s.cfs q).tasks_timeline))

  -- `__enqueue_entity` keeps a timeline in order, with its leftmost entity cached.
  pub enqueue_node-IsTimeline : IsTimeline s q → IsTimeline (enqueue_node rb s q e) q
  enqueue_node-IsTimeline t = record {
    ordered =
        rw (enqueued_rank, enqueue_node-order t) (insert_by-IsOrdered (rank s q) e _ t.ordered);
    cached = enqueued_cached t;
  }

  dequeued_tree :
      in_order ((dequeue_node rb s q e).cfs q).tasks_timeline
      ≡ without e (in_order (s.cfs q).tasks_timeline)
  unfolding dequeue_node
  dequeued_tree = ground (arith, rb.erase_order e (s.cfs q).tasks_timeline)

  dequeued_rank : rank (dequeue_node rb s q e) q ≡ rank s q
  unfolding dequeue_node
  dequeued_rank = rank_of_same s (dequeue_node rb s q e) q (λ x. refl) (ground arith)

  dequeued_cached :
      IsTimeline s q
      → ((dequeue_node rb s q e).cfs q).rb_leftmost
        ≡ head_of (without e (in_order (s.cfs q).tasks_timeline))
  unfolding dequeue_node
  dequeued_cached t = ground (
    arith,
    t.cached,
    rb.next_order (s.cfs q).tasks_timeline e,
    head_of-without e (in_order (s.cfs q).tasks_timeline),
  )

  -- `__dequeue_entity` takes the entity out of the timeline and keeps it in order, with the leftmost
  -- of the entities that are left cached.
  pub dequeue_node-IsTimeline :
      IsTimeline s q
      → IsTimeline (dequeue_node rb s q e) q
        × (in_order ((dequeue_node rb s q e).cfs q).tasks_timeline
            ≡ without e (in_order (s.cfs q).tasks_timeline))
  dequeue_node-IsTimeline t = (
    record {
      ordered = rw (dequeued_rank, dequeued_tree) (IsOrdered-without (rank s q) e _ t.ordered);
      cached = dequeued_cached t ∙ sym (ap head_of dequeued_tree);
    },
    dequeued_tree,
  )
