-- ===== src/Fair/Data.antt =====
-- The structures of the fair class: `struct cfs_rq` of sched.c, the fields of `struct sched_entity`
-- of sched.h that only this class uses, and the red-black tree, whose code is not in the repository.
use cmsc421prj.Base.{
  ℕ, Bool, Option, List, [], ◌∷◌, ◌++◌, none, some, ◌≡◌, ◌==◌, if◌then◌else◌, upd,
}
use cmsc421prj.State.Data.{Sys}

-- A search tree of entities.
pub data Tree : Type 0 where
  leaf : Tree
  node : Tree → ℕ → Tree → Tree

-- Its entities from left to right.
abbrev pub in_order : Tree → List ℕ
in_order leaf = []
in_order (node l e r) = in_order l ++ e ∷ in_order r

abbrev pub without : ℕ → List ℕ → List ℕ
without e [] = []
without e (x ∷ xs) = if x == e then xs else x ∷ without e xs

-- The entity after `e`.
abbrev pub successor : ℕ → List ℕ → Option ℕ
successor e [] = none
successor e (x ∷ []) = none
successor e (x ∷ y ∷ xs) = if x == e then some y else successor e (y ∷ xs)

abbrev pub last_of : List ℕ → Option ℕ
last_of [] = none
last_of (x ∷ []) = some x
last_of (x ∷ y ∷ xs) = last_of (y ∷ xs)

-- What the code relies on of lib/rbtree.c: recolouring after an insertion keeps the order of the
-- nodes, erasing takes one node out of it, and `rb_next` and `rb_last` go by it.
pub record RbTree : Type 0 where
  pub rb_insert_color : Tree → ℕ → Tree
  pub rb_erase : ℕ → Tree → Tree
  pub rb_next : Tree → ℕ → Option ℕ
  pub rb_last : Tree → Option ℕ
  pub insert_color_order : (t : Tree) (e : ℕ) → in_order (rb_insert_color t e) ≡ in_order t
  pub erase_order : (e : ℕ) (t : Tree) → in_order (rb_erase e t) ≡ without e (in_order t)
  pub next_order : (t : Tree) (e : ℕ) → rb_next t e ≡ successor e (in_order t)
  pub last_order : (t : Tree) → rb_last t ≡ last_of (in_order t)

-- The fields of `struct sched_entity` that are not in the task of `State`.
pub record FairEntity : Type 0 where
  pub parent : Option ℕ
  pub cfs_rq : ℕ
  pub my_q : Option ℕ
  pub vruntime : ℕ
  pub prev_sum_exec_runtime : ℕ
  pub avg_overlap : ℕ
  pub avg_wakeup : ℕ
  pub last_wakeup : ℕ

-- `struct cfs_rq`; `cpu` is the number of `rq`.
pub record CfsRq : Type 0 where
  pub load : ℕ
  pub load_inv : ℕ
  pub nr_running : ℕ
  pub min_vruntime : ℕ
  pub tasks_timeline : Tree
  pub rb_leftmost : Option ℕ
  pub tasks : List ℕ
  pub curr : Option ℕ
  pub next : Option ℕ
  pub last : Option ℕ
  pub task_weight : ℕ
  pub cpu : ℕ
  pub tg : ℕ

-- The tunables of the class, and the scheduler features, whose defaults are not in the repository.
pub record Tunables : Type 0 where
  pub sched_latency : ℕ
  pub min_granularity : ℕ
  pub nr_latency : ℕ
  pub wakeup_granularity : ℕ
  pub child_runs_first : Bool
  pub compat_yield : Bool
  pub migration_cost : ℕ
  pub start_debit : Bool
  pub new_fair_sleepers : Bool
  pub normalized_sleeper : Bool
  pub adaptive_gran : Bool
  pub asym_gran : Bool
  pub wakeup_preempt : Bool
  pub wakeup_overlap : Bool
  pub last_buddy : Bool

-- The state of `State` with that of the fair class. The entity `p->se` has the number of its task.
-- `cfs_of` and `se_of` are the arrays `cfs_rq` and `se` of a group, by cpu.
pub record FairSys : Type 0 where
  pub sys : Sys
  pub se : ℕ → FairEntity
  pub cfs : ℕ → CfsRq
  pub root_cfs : ℕ → ℕ
  pub cfs_of : ℕ → ℕ → ℕ
  pub se_of : ℕ → ℕ → Option ℕ
  pub tunables : Tunables

abbrev pub set_sys : FairSys → Sys → FairSys
set_sys s x = record s { sys = x }

abbrev pub set_se : FairSys → ℕ → FairEntity → FairSys
set_se s e x = record s { se = upd s.se e x }

abbrev pub set_cfs : FairSys → ℕ → CfsRq → FairSys
set_cfs s q x = record s { cfs = upd s.cfs q x }
