-- ===== src/Sched.antt =====
-- kernel/process/process.h and kernel/process/sched.h: tasks, run queues and the scheduler's state.
-- A task is known by a number, which stands for the pointer to its PCB; a list of the kernel is the
-- list of the tasks whose nodes it links. A task's `run_list` node is on one list at most, so that
-- `list_del_init` takes the task out of the list of its run queue that has it.
-- `g_scheduler_lock` makes each call one step and does not appear; the log calls have no effect.
pub mod Queue
pub mod Rr
pub mod Prio
pub mod Core
pub mod Levels
pub mod Pick
pub mod Counters
pub mod Rotate
pub mod Frame
pub mod Fairness
pub mod Preempt
mod Tests
use ccoperating_system_x.Common.{ℕ, ◌^◌, Bool, Option, List, ℤ}

-- `process_state_t`
pub data ProcState : Type 0 where
  ready running blocked zombie : ProcState

-- `sched_policy_t`, whose last value counts the others.
pub data Policy : Type 0 where
  normal priority max : Policy

-- The two `sched_class_t` objects of the kernel.
pub data Class : Type 0 where
  rr prio : Class

-- The parts of `pcb_t` and of its `sched_entity_t` that the scheduler uses.
pub record Task : Type 0 where
  pub state : ProcState
  pub policy : Policy
  pub sched_class : Option Class
  pub time_slice : ℕ
  pub time_slice_total : ℕ
  pub priority : ℤ
  pub nice : ℤ

-- `prio_rq_data_t`: the lists of the 128 levels.
pub record PrioData : Type 0 where
  pub active : List (List ℕ)
  pub expired : List (List ℕ)
  pub nr_active : ℕ
  pub nr_expired : ℕ
  pub highest_prio : ℕ
  pub active_expired : Bool

-- `sched_rq_t`. Only the PRIO class uses `class_data`, once it is registered.
pub record Rq : Type 0 where
  pub sched_class : Option Class
  pub queue : List ℕ
  pub nr_running : ℕ
  pub class_data : PrioData

-- `scheduler_t`, with the array of run queues spelled out, and the store of the tasks.
pub record Scheduler : Type 0 where
  pub task : ℕ → Task
  pub run_queue : List ℕ
  pub current : Option ℕ
  pub idle : Option ℕ
  pub nr_running : ℕ
  pub need_resched : Bool
  pub normal_rq : Rq
  pub priority_rq : Rq
  pub normal_class : Option Class
  pub priority_class : Option Class

abbrev pub u32 : ℕ
u32 = 2 ^ 32
