-- ===== src/Fair/Slice.antt =====
-- The slice of an entity in a period, sched_fair.c, and the walk up the groups.
use cmsc421prj.Base.{
  ℕ, zero, suc, Bool, true, false, Option, none, some, List, [], ◌∷◌, ◌>>=◌, ◌*◌, ◌%◌, ltb,
  if◌then◌else◌, word, add64,
}
use cmsc421prj.Fair.Data.{FairSys, set_cfs}
use cmsc421prj.Fair.Weight.{calc_delta_mine, calc_delta_fair}

-- `for_each_sched_entity`: the entity and its parents, bottom up. `none` if there are more than
-- `fuel` of them.
unfoldable pub fair_hierarchy : ℕ → FairSys → Option ℕ → Option (List ℕ)
fair_hierarchy fuel s none = some []
fair_hierarchy zero s (some e) = none
fair_hierarchy (suc fuel) s (some e) = fair_hierarchy fuel s (s.se e).parent >>= λ es. some (e ∷ es)

abbrev pub parents : FairSys → ℕ → Option (List ℕ)
parents s e = fair_hierarchy s.sys.depth s (some e)

-- `__sched_period`
unfoldable pub sched_period : FairSys → ℕ → ℕ
sched_period s nr_running =
    if ltb s.tunables.nr_latency nr_running
    then (s.tunables.min_granularity * nr_running) % word
    else s.tunables.sched_latency

-- One round: the part of the slice that the entity has of its runqueue. The weight of an entity
-- that is not queued is added to a copy of the load.
slice_round : FairSys → ℕ → ℕ → FairSys × ℕ
unfolding calc_delta_mine
slice_round s slice e =
    let q = (s.se e).cfs_rq in
    let weight = (s.sys.task e).weight in
    if (s.sys.task e).on_rq
    then (let (r, inv) = calc_delta_mine slice weight (s.cfs q).load (s.cfs q).load_inv in
        (set_cfs s q (record (s.cfs q) { load_inv = inv }), r))
    else (s, (calc_delta_mine slice weight (add64 (s.cfs q).load weight) 0).0)

unfoldable pub slice_loop : FairSys → ℕ → List ℕ → FairSys × ℕ
unfolding slice_round
slice_loop s slice [] = (s, slice)
slice_loop s slice (e ∷ es) = let (s', r) = slice_round s slice e in slice_loop s' r es

abbrev waits : Bool → ℕ
waits true = 0
waits false = 1

unfoldable pub sched_slice : FairSys → ℕ → ℕ → Option (FairSys × ℕ)
unfolding fair_hierarchy slice_loop sched_period
sched_slice s q e = parents s e >>= λ es.
    some
      (slice_loop s (sched_period s (add64 (s.cfs q).nr_running (waits (s.sys.task e).on_rq))) es)

unfoldable pub sched_vslice : FairSys → ℕ → ℕ → Option (FairSys × ℕ)
unfolding sched_slice calc_delta_fair
sched_vslice s q e = sched_slice s q e >>= λ (s', slice). some (calc_delta_fair s' slice e)
