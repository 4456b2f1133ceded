-- ===== src/Fair/Timeline.antt =====
-- The timeline of a runqueue, sched_fair.c: the tree of the entities that wait, by virtual time.
pub mod Order
pub mod Search
use cmsc421prj.Base.{ℕ, Bool, true, false, Option, none, some, ◌==◌, if◌then◌else◌}
use cmsc421prj.Fair.Data.{FairSys, Tree, leaf, node, RbTree, CfsRq, set_cfs}
use cmsc421prj.Fair.Clock.{slt64, entity_key}

-- The loop of `__enqueue_entity` from `*link` on, with the node linked in where it ends, and
-- `leftmost`.
unfoldable pub link_entity : FairSys → ℕ → ℕ → ℕ → Tree → Tree × Bool
unfolding entity_key
link_entity s q key e leaf = (node leaf e leaf, true)
link_entity s q key e (node l x r) =
    let left = link_entity s q key e l in
    let right = link_entity s q key e r in
    if slt64 key (entity_key s q x) then (node left.0 x r, left.1) else (node l x right.0, false)

is_entity : Option ℕ → ℕ → Bool
is_entity none e = false
is_entity (some x) e = x == e

module _ (rb : RbTree) where
  -- `__enqueue_entity`
  unfoldable pub enqueue_node : FairSys → ℕ → ℕ → FairSys
  unfolding link_entity entity_key
  enqueue_node s q e =
      let (tree, leftmost) = link_entity s q (entity_key s q e) e (s.cfs q).tasks_timeline in
      set_cfs s q (record (s.cfs q) {
        tasks_timeline = rb.rb_insert_color tree e;
        rb_leftmost = if leftmost then some e else (s.cfs q).rb_leftmost;
      })

  -- `__dequeue_entity`
  unfoldable pub dequeue_node : FairSys → ℕ → ℕ → FairSys
  unfolding is_entity
  dequeue_node s q e = set_cfs s q (record (s.cfs q) {
    tasks_timeline = rb.rb_erase e (s.cfs q).tasks_timeline;
    rb_leftmost =
        if is_entity (s.cfs q).rb_leftmost e
        then rb.rb_next (s.cfs q).tasks_timeline e
        else (s.cfs q).rb_leftmost;
  })

  -- `__pick_last_entity`
  unfoldable pub pick_last_entity : FairSys → ℕ → Option ℕ
  pick_last_entity s q = rb.rb_last (s.cfs q).tasks_timeline

-- `__pick_next_entity`
unfoldable pub pick_first_entity : FairSys → ℕ → Option ℕ
pick_first_entity s q = (s.cfs q).rb_leftmost
