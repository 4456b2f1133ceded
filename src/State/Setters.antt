-- ===== src/State/Setters.antt =====
-- Writes to one object of the state.
use cmsc421prj.Base.{ℕ, upd}
use cmsc421prj.State.Data.{Entity, Task, RtRq, Rq, RootDomain, Group, Sys}

abbrev pub set_ent : Sys → ℕ → Entity → Sys
set_ent s e x = record s { ent = upd s.ent e x }

abbrev pub set_task : Sys → ℕ → Task → Sys
set_task s p x = record s { task = upd s.task p x }

abbrev pub set_rtq : Sys → ℕ → RtRq → Sys
set_rtq s q x = record s { rtq = upd s.rtq q x }

abbrev pub set_rq : Sys → ℕ → Rq → Sys
set_rq s c x = record s { rq = upd s.rq c x }

abbrev pub set_rd : Sys → ℕ → RootDomain → Sys
set_rd s d x = record s { rd = upd s.rd d x }

abbrev pub set_group : Sys → ℕ → Group → Sys
set_group s g x = record s { group = upd s.group g x }
