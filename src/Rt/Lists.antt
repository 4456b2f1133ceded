-- ===== src/Rt/Lists.antt =====
-- The queues and the bitmap of `struct rt_prio_array`: what sched_rt.c does to them by the kernel's
-- list and bit operations.
use cmsc421prj.Base.{
  ℕ, zero, suc, ◌+◌, ◌-◌, Bool, true, false, Option, none, some, List, [], ◌∷◌, ◌++◌, ◌==◌,
  if◌then◌else◌, upd,
}
use cmsc421prj.State.Data.{RtRq, Sys, max_rt_prio}
use cmsc421prj.State.Setters.{set_ent, set_rtq}

-- The first set bit among `n` bits from `i` on, or `i + n`.
unfoldable pub find_bit : ℕ → ℕ → (ℕ → Bool) → ℕ
find_bit zero i bits = i
find_bit (suc n) i bits = let rest = find_bit n (i + 1) bits in if bits i then i else rest

unfoldable pub sched_find_first_bit : (ℕ → Bool) → ℕ
sched_find_first_bit bits = find_bit (max_rt_prio + 1) 0 bits

unfoldable pub find_next_bit : (ℕ → Bool) → ℕ → ℕ → ℕ
find_next_bit bits size from = find_bit (size - from) from bits

unfoldable pub remove : ℕ → List ℕ → List ℕ
remove e [] = []
remove e (x ∷ xs) = if x == e then xs else x ∷ remove e xs

abbrev pub is_empty : List ℕ → Bool
is_empty [] = true
is_empty (x ∷ xs) = false

-- One queue of the array given anew.
abbrev pub put_queue : RtRq → ℕ → List ℕ → RtRq
put_queue q i xs = record q { queue = upd q.queue i xs }

abbrev pub put_bit : RtRq → ℕ → Bool → RtRq
put_bit q i b = record q { bitmap = upd q.bitmap i b }

-- `list_add_tail(&rt_se->run_list, queue)`
unfoldable pub list_add_tail : Sys → ℕ → ℕ → ℕ → Sys
list_add_tail s e q i =
    set_rtq (set_ent s e (record (s.ent e) { run_list = some (q, i) })) q
      (put_queue (s.rtq q) i ((s.rtq q).queue i ++ (e ∷ [])))

-- `list_add(&rt_se->run_list, queue)`
unfoldable pub list_add : Sys → ℕ → ℕ → ℕ → Sys
list_add s e q i =
    set_rtq (set_ent s e (record (s.ent e) { run_list = some (q, i) })) q
      (put_queue (s.rtq q) i (e ∷ (s.rtq q).queue i))

unlink : Sys → ℕ → Option (ℕ × ℕ) → Sys
unlink s e none = s
unlink s e (some (q, i)) =
    set_rtq (set_ent s e (record (s.ent e) { run_list = none })) q
      (put_queue (s.rtq q) i (remove e ((s.rtq q).queue i)))

-- `list_del_init(&rt_se->run_list)`: nothing happens to an entity that is in no list.
unfoldable pub list_del_init : Sys → ℕ → Sys
unfolding unlink remove
list_del_init s e = unlink s e (s.ent e).run_list
