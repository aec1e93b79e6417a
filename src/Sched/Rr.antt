-- ===== src/Sched/Rr.antt =====
-- kernel/process/sched_rr.c: the round-robin class.
use ccoperating_system_x.Common.{
  ℕ, ◌+◌, ◌-◌, ◌%◌, Bool, Option, none, some, ltb, ◌==◌, if◌then◌else◌, ℤ, pos,
}
use ccoperating_system_x.Sched.{Task, Rq, rr, normal, u32}
use ccoperating_system_x.Sched.Queue.{add, del, first, is_empty}

-- `RR_TIMESLICE_DEFAULT`, which is `DEF_TIMESLICE_MS`
abbrev pub timeslice_default : ℕ
timeslice_default = 10

unfoldable pub enqueue_task : Rq → ℕ → Bool → Rq
unfolding add
enqueue_task rq p head = record rq {
  queue = add head p rq.queue;
  nr_running = (rq.nr_running + 1) % u32;
}

unfoldable pub dequeue_task : Rq → ℕ → Rq
unfolding del
dequeue_task rq p = record rq {
  queue = del p rq.queue;
  nr_running = (rq.nr_running + u32 - 1) % u32;
}

unfoldable pub pick_next_task : Rq → Option ℕ
unfolding is_empty first
pick_next_task rq = if is_empty rq.queue then none else first rq.queue

unfoldable pub should_preempt : Task → Task → Bool
should_preempt p curr = curr.time_slice == 0

unfoldable pub task_tick : Task → Task
task_tick t = if ltb 0 t.time_slice then record t { time_slice = t.time_slice - 1 } else t

unfoldable pub task_fork : Task → ℤ → Task
task_fork t nice = record t {
  sched_class = some rr;
  policy = normal;
  priority = pos 0;
  time_slice = timeslice_default;
  time_slice_total = timeslice_default;
  nice = pos 0;
}

unfoldable pub get_time_slice : Task → ℕ
get_time_slice t = timeslice_default
