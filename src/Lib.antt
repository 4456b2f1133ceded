-- ===== src/Lib.antt =====
-- The scheduler of this kernel: the real-time class (sched_rt.c), the bucket round robin class (BRR)
-- that is built on it (sched_brr.c), the fair class (sched_fair.c), and of sched.c and sched.h what they
-- use, the change of a task's policy, wakeups and the switch of tasks, the bandwidth of groups,
-- completions, and the search for the busiest cpus.
--
-- The program. Each cpu has a runqueue (`struct rq`) with a real-time runqueue inside it (`struct
-- rt_rq`): a queue for each priority, a bitmap of the queues in use, counts, and the highest
-- priority. A task group has a real-time runqueue for each cpu of its own, and an entity for it in
-- the runqueue of its parent. The real-time class enqueues the entity of a task and those of the
-- groups above it, and picks a task by going down from the root. The time that a runqueue may use
-- is limited: charging, throttling, borrowing from other cpus, a period timer. The BRR class
-- (sched_brr.c) is a copy of the real-time class with a table of buckets added: it counts the tasks
-- of each bucket, and means to pick from one bucket after the other. sched.c walks over the classes
-- to pick the next task, and changes policies, priorities, classes and buckets.
--
-- The files.
-- - State/Data, State/Setters: the structures of sched.h and sched.c, as records, and the state
--   `Sys` that maps the numbers of objects to them. A pointer is a number, and a null pointer is
--   `none`. A task has the number of the entity inside it.
-- - Policy: `rt_policy`, `normal_prio`, `effective_prio`, the range of priorities (sched.c).
-- - Rt: sched_rt.c. Rt/Lists lists and bitmaps; Rt/Entities accessors; Rt/Migration overload and
--   migration; Rt/Prio highest priorities; Rt/Counts counts; Rt/Walk walks over the groups, for the
--   functions of either class; Rt/Enqueue one entity and the whole walk; Rt/Bandwidth, Rt/Timer,
--   Rt/Account the limit of time, Rt/Borrowing, Rt/Conservation and Rt/Release (with
--   Rt/Release/Balanced) proofs on it; Rt/Queueing,
--   Rt/Tasks the functions on tasks; Rt/Pick the choice and preemption; Rt/Tick the tick. A function with the suffix `_by` or without the suffix of a
--   class takes the functions that differ between the two classes as arguments.
-- - Rt/Core: the specification of a runqueue, its invariant, and the refinement; Rt/Keeps the
--   invariant over the operations; Rt/Choice and Rt/Descent the choice; Rt/Unwind the walk that takes a
--   chain of entities off the queues.
-- - Brr: sched_brr.c. Brr/Buckets the searches in the table; Brr/Enqueue entities; Brr/Pick the
--   choice; Brr/Tasks the functions on tasks. Proofs: Brr/Buckets/Search, Brr/Counting, Brr/Keeps,
--   Brr/Faults, Brr/Choice, Brr/Ticking.
-- - Fair: the fair class, sched_fair.c, on a state `FairSys` that holds `Sys` and what only this class
--   has. Fair/Weight weights and scaled time; Fair/Clock virtual time; Fair/Timeline the tree, Fair/Slice slices; Fair/Entities entities; Fair/Pick choice;
--   Fair/Matching wakeup preemption; Fair/Tasks tasks. Proofs: Fair/Timeline/Order,
--   Fair/Timeline/Search, Fair/Advance, Fair/Accounting, Fair/Matching/Ends; Fair/Clock/Staying,
--   Fair/Matching/Staying and Fair/Tasks/Staying on who stays on a runqueue.
-- - Classes: the order of the classes and `pick_next_task` (sched.c); proofs in Classes/Order.
-- - Dispatch: a task enters and leaves its runqueue through the functions of its class (sched.c). The
--   table of a class, `ClassOps`, is an interface that the change of policy and of priority take.
-- - Setscheduler: the checks of `__sched_setscheduler`, and `__setscheduler` (sched.c);
--   Setscheduler/Change the rest of `__sched_setscheduler`, and `rt_mutex_setprio`; proofs in
--   Setscheduler/Checks, Setscheduler/Brr, Setscheduler/Requeue and Setscheduler/Calls.
--   Setscheduler/Syscalls the system calls; Setscheduler/FairClass the table of the fair class, which
--   has the laws that a wakeup and a change of policy need.
-- - Pulling: the choice of a cpu for a real-time task and `set_task_cpu`; Pulling/Moves pushing and
--   pulling (sched_rt.c). Rt/Online a cpu that goes on or off line, Rt/Init the first state.
-- - Groups: the tree of task groups and the real-time constraints (sched.c). Groups/Walk what a walk
--   reaches; Groups/Schedulable, Groups/Bandwidth proofs.
-- - Waiting: wake-ups of a wait queue; Waiting/Completion completions (sched.c); proofs in
--   Waiting/Order.
-- - Balance: the balance between cpus (sched.c). Balance/Loads counters and the load of a cpu;
--   Balance/Idlest the choice of a cpu for a new task; Balance/Stats the statistics of the groups,
--   Balance/Busiest the busiest one and the imbalance, Balance/Find `find_busiest_group`,
--   Balance/Moves the tasks that are moved. Proofs:
--   Balance/Settling, Balance/Least, Balance/Tallies, Balance/Self, Balance/Imbalance, Balance/Remote,
--   Balance/Heaviest, Balance/Measured, Balance/Pulled.
-- - Wakeup: a task wakes up or is forked (sched.c); Wakeup/Switch the scheduler and the tick. Proofs:
--   Wakeup/Awake, Wakeup/Sleeps.
-- - Nice: nice values (sched.c).
-- - Base: library names, options, maps, machine words, integers. Tests: a small machine, runs of the
--   code, and each theorem applied at a concrete state.
--
-- How the code is read. The configuration is CONFIG_SMP, CONFIG_RT_GROUP_SCHED and
-- CONFIG_BRR_GROUP_SCHED; sched_brr.c reads `rt_se` of a runqueue, which only that one has. Functions run
-- one at a time, so locks are left out, and so are printk, WARN_ON and statistics that nothing reads.
-- An operation gives `none` where the code would fault: a BUG_ON, a null pointer, an index outside of
-- an array. Counts of 32 and 64 bits wrap around. `rt_task_of` of the entity of a group is
-- memory that is no task; the model keeps a record of its own for it. A list of pushable tasks and
-- the cpu priorities are histories of calls, as plist and cpupri are not in the repository.
--
-- Bounds. `depth` in `Sys` bounds the height of the group hierarchy: a walk that goes further, up or
-- down, gives `none`. The BRR choice has two rounds of its outer loop, as the second one starts from a
-- null pointer. `sched_balance_self` has one more move than the widest domain has cpus, as each move goes
-- to a narrower one. The search for a second task has MAX_RT_PRIO + 1 rounds, as each goes to a higher bit.
--
-- Parameters. The red-black tree (`RbTree`, an interface with laws on the order of the nodes), the
-- scheduler features, the choices of the fair and idle classes in the walk over the classes,
-- `cpupri_find`, `rt_mutex_getprio`, the adjustment of mutexes, the number of microseconds of a tick,
-- the clock of a cpu, the masks, groups and domains of cpus, the order of a plist, the list of threads,
-- `proc_dointvec`, the function of an entry of a wait queue, what happens while a task sleeps or a
-- runqueue is unlocked, the signals of a task, `reciprocal_divide`, and what the caller of a system call
-- may do. `update_shares`, `idle_balance`, `trigger_load_balance` and, in `schedule`, the choice of the
-- next task are arguments too.
--
-- Not modelled: the loop that repeats a push and its hooks, `select_task_rq_fair`, which a table of the
-- fair class takes as an argument, the idle class, the switch of the stack, `load_balance`
-- around its parts with the fair class's iterator, `update_shares`, the set-up of domains, the set-up of
-- groups but for a real-time runqueue, control groups, and the drivers, which are user programs.
pub mod Base
pub mod State
pub mod Policy
pub mod Rt
pub mod Brr
pub mod Classes
pub mod Fair
pub mod Dispatch
pub mod Nice
pub mod Waiting
pub mod Balance
pub mod Wakeup
pub mod Groups
pub mod Pulling
pub mod Setscheduler
pub mod Tests
