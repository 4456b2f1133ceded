-- ===== src/Fair/Advance.antt =====
-- How the virtual time of a runqueue goes on, and that the order of its entities stays.
use cmsc421prj.Fair.Timeline.Search.{rank, IsTimeline}
use cmsc421prj.Base.{
  none, refl, some, ◌∙◌, Option, sym, ℕ, false, List, [], ◌∷◌, ◌≡◌, ◌≤◌, ◌<◌, ◌^◌, ◌+◌, ◌*◌, arith,
  word, add64, sub64, neg64,
}
use cmsc421prj.Fair.Data.{FairSys, in_order}
use cmsc421prj.Fair.Clock.{entity_key, candidate, update_min_vruntime, max_vruntime}
use cmsc421prj.Fair.Timeline.Order.{head_of, IsOrdered, All}

-- A time less than 2^62 away from another one, in either direction.
abbrev pub IsNear : ℕ → ℕ → Type 0
IsNear m v = (2 ^ 62 ≤ add64 (sub64 v m) (2 ^ 63)) × (add64 (sub64 v m) (2 ^ 63) ≤ 3 * 2 ^ 62)

-- All times that the new minimum is computed from.
pub record IsClose (s : FairSys) (q : ℕ) : Type 0 where
  pub small : (s.cfs q).min_vruntime < word
  pub curr_small : (c : ℕ) → (s.cfs q).curr ≡ some c → (s.se c).vruntime < word
  pub curr_near :
      (c : ℕ) → (s.cfs q).curr ≡ some c → IsNear (s.cfs q).min_vruntime (s.se c).vruntime
  pub queued_near :
      All (λ e. IsNear (s.cfs q).min_vruntime (s.se e).vruntime) (in_order (s.cfs q).tasks_timeline)
  pub queued_small : All (λ e. (s.se e).vruntime < word) (in_order (s.cfs q).tasks_timeline)

max_forward :
    (m v : ℕ)
    → m < word
    → v < word
    → IsNear m v
    → (neg64 (sub64 (max_vruntime m v) m) ≡ false)
      × (sub64 (max_vruntime m v) m ≤ 2 ^ 62)
      × (max_vruntime m v < word)
unfolding max_vruntime
max_forward m v a b (c, d) = (ground arith, ground arith, ground arith)

-- The minimum never goes back, whatever the times are.
max_never_back : (m v : ℕ) → m < word → v < word → neg64 (sub64 (max_vruntime m v) m) ≡ false
unfolding max_vruntime
max_never_back m v a b = ground arith

-- Moving the base of the keys by `d` moves every key by `d`.
moved :
    (m m' v : ℕ)
    → m < word
    → m' < word
    → v < word
    → IsNear m v
    → sub64 m' m ≤ 2 ^ 62
    → add64 (sub64 v m') (2 ^ 63) + sub64 m' m ≡ add64 (sub64 v m) (2 ^ 63)
moved m m' v a b c (d, e) h = omega arith

IsOrdered-moved :
    (f g : ℕ → ℕ) (d : ℕ) (xs : List ℕ)
    → All (λ x. g x + d ≡ f x) xs
    → IsOrdered f xs
    → IsOrdered g xs
IsOrdered-moved f g d [] a o = tt
IsOrdered-moved f g d (x ∷ xs) (p, a) (u, o) = (below xs a u, IsOrdered-moved f g d xs a o)
  where
    below :
        (ys : List ℕ)
        → All (λ y. g y + d ≡ f y) ys
        → All (λ y. f x ≤ f y) ys
        → All (λ y. g x ≤ g y) ys
    below [] b c = tt
    below (y ∷ ys) (b, bs) (c, cs) = (omega arith, below ys bs cs)

module _ (s : FairSys) (q : ℕ) where
  abbrev base : ℕ
  base = (s.cfs q).min_vruntime

  -- The times that `update_min_vruntime` may choose from.
  abbrev IsGood : ℕ → Type 0
  IsGood e = ((s.se e).vruntime < word) × IsNear base (s.se e).vruntime

  candidate_good :
      base < word
      → (c l : Option ℕ) → ((e : ℕ) → c ≡ some e → IsGood e)
      → ((e : ℕ) → l ≡ some e → IsGood e)
      → (candidate s q c l < word) × IsNear base (candidate s q c l)
  unfolding candidate
  candidate_good b none none hc hl = (b, omega arith)
  candidate_good b none (some e) hc hl = hl e refl
  candidate_good b (some c) none hc hl = hc c refl
  candidate_good b (some c) (some e) hc hl =
      let (u, (v, w)) = hc c refl in
      let (x, (y, z)) = hl e refl in (ground arith, (ground arith, ground arith))

  head-IsGood :
      (xs : List ℕ)
      → All (λ e. (s.se e).vruntime < word) xs
      → All (λ e. IsNear base (s.se e).vruntime) xs
      → (e : ℕ) → head_of xs ≡ some e
      → IsGood e
  head-IsGood [] a b e h = cc
  head-IsGood (x ∷ xs) (a, more) (b, others) e h = let y : x ≡ e = cc in rw (← y) (a, b)

  next_base : ℕ
  next_base = max_vruntime base (candidate s q (s.cfs q).curr (s.cfs q).rb_leftmost)

  updated_base : ((update_min_vruntime s q).cfs q).min_vruntime ≡ next_base
  unfolding update_min_vruntime next_base
  updated_base = ground arith

  updated_tree : ((update_min_vruntime s q).cfs q).tasks_timeline ≡ (s.cfs q).tasks_timeline
  unfolding update_min_vruntime
  updated_tree = ground arith

  updated_leftmost : ((update_min_vruntime s q).cfs q).rb_leftmost ≡ (s.cfs q).rb_leftmost
  unfolding update_min_vruntime
  updated_leftmost = ground arith

  module _ (t : IsTimeline s q) (k : IsClose s q) where
    advance_ok :
        (neg64 (sub64 next_base base) ≡ false)
        × (sub64 next_base base ≤ 2 ^ 62)
        × (next_base < word)
    unfolding next_base
    advance_ok =
        let (a, b) =
          candidate_good k.small (s.cfs q).curr (s.cfs q).rb_leftmost
            (λ e h. (k.curr_small e h, k.curr_near e h))
            (λ e h.
              head-IsGood (in_order (s.cfs q).tasks_timeline) k.queued_small k.queued_near e
                (sym t.cached ∙ h)) in
        max_forward base _ k.small a b

    ranks_moved :
        (xs : List ℕ)
        → All (λ e. (s.se e).vruntime < word) xs
        → All (λ e. IsNear base (s.se e).vruntime) xs
        → All (λ e. rank (update_min_vruntime s q) q e + sub64 next_base base ≡ rank s q e) xs
    unfolding rank entity_key update_min_vruntime next_base
    ranks_moved [] a b = tt
    ranks_moved (x ∷ xs) (a, more) (b, others) = (
      rw updated_base
          (moved base next_base (s.se x).vruntime k.small advance_ok.2 a b advance_ok.1),
      ranks_moved xs more others,
    )

    -- With all virtual times within 2^62 of the minimum, `update_min_vruntime` moves the minimum
    -- forward or leaves it, and the timeline stays in order, although every key changes.
    pub update_min_vruntime-IsTimeline :
        IsTimeline (update_min_vruntime s q) q
        × (neg64 (sub64 ((update_min_vruntime s q).cfs q).min_vruntime (s.cfs q).min_vruntime)
            ≡ false)
    update_min_vruntime-IsTimeline = (
      record {
        ordered = rw updated_tree (
            IsOrdered-moved (rank s q) (rank (update_min_vruntime s q) q) (sub64 next_base base) _
              (ranks_moved _ k.queued_small k.queued_near) t.ordered);
        cached = rw (updated_leftmost, updated_tree) t.cached;
      },
      rw updated_base advance_ok.0,
    )
