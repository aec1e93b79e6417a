-- ===== src/Sched/Tests.antt =====
-- The scheduler of kernel/process on a few tasks.
use ccoperating_system_x.Common.{
  get_or, ℕ, ◌<◌, ◌≡◌, refl, inl, true, false, some, none, [], ◌∷◌, ◌==◌, if◌then◌else◌, pos, arith,
}
use ccoperating_system_x.Sched.{Scheduler, Task, PrioData, rr, prio, normal, ready, running}
use ccoperating_system_x.Sched.Prio.{init_data, enqueue_data, dequeue_data, add_at, pick_data}
use ccoperating_system_x.Sched.Queue.{add}
use ccoperating_system_x.Sched.Levels.{occurs_in, total}
use ccoperating_system_x.Sched.Core.{schedule, same}
use ccoperating_system_x.Sched.Pick.{IsValid, Picked, pick_data-Picked}
use ccoperating_system_x.Sched.Counters
use ccoperating_system_x.Sched.Rotate.{Waiting, schedule_rotates}
use ccoperating_system_x.Sched.Fairness.{Line, rounds, waiting_task_runs}

-- The task 7 on the level 10 of the expired array, and then 8 on the level 3 of the active one.
abbrev one_expired : PrioData
one_expired = enqueue_data init_data 10 true false 7

abbrev both : PrioData
both = enqueue_data one_expired 3 false false 8

one_expired-IsValid : IsValid one_expired
unfolding enqueue_data add_at add init_data
one_expired-IsValid = record {
  active_levels = refl;
  expired_levels = refl;
  active_count = refl;
  expired_count = refl;
}

both-IsValid : IsValid both
unfolding enqueue_data add_at add init_data
both-IsValid = record {
  active_levels = refl;
  expired_levels = refl;
  active_count = refl;
  expired_count = refl;
}

pick_data-Picked_example : Picked one_expired (pick_data one_expired)
pick_data-Picked_example = pick_data-Picked one_expired one_expired-IsValid

seven_expired : (occurs_in 7 both.expired ≡ 1) × (occurs_in 7 both.active ≡ 0)
unfolding enqueue_data add_at add init_data
seven_expired = (refl, refl)

eight_active :
    (occurs_in 8 both.active ≡ 1)
    × (total both.active ≡ 1)
    × (occurs_in 8 both.expired ≡ 0)
    × (0 < both.nr_expired)
unfolding enqueue_data add_at add init_data
eight_active = (refl, refl, refl, omega arith)

dequeue-IsValid_example : IsValid (dequeue_data both 7 0)
dequeue-IsValid_example =
    Counters.dequeue-IsValid both 7 0 both-IsValid (inl (refl, seven_expired.0, seven_expired.1))

pick-dequeue_stranded_example :
    (pick_data (dequeue_data both 8 0) ≡ (none, dequeue_data both 8 0))
    × (0 < total (dequeue_data both 8 0).expired)
pick-dequeue_stranded_example =
    Counters.pick-dequeue_stranded both 8 both-IsValid eight_active.0 eight_active.1 eight_active.2
      eight_active.3

-- The task 1 runs, with the time that is given; 2 and 3 wait.
abbrev task_of : ℕ → ℕ → Task
task_of time_slice p = record {
  state = if p == 1 then running else ready;
  policy = normal;
  sched_class = some rr;
  time_slice = if p == 1 then time_slice else 10;
  time_slice_total = 10;
  priority = pos 0;
  nice = pos 0;
}

abbrev three_tasks : ℕ → Scheduler
three_tasks time_slice = record {
  task = task_of time_slice;
  run_queue = 2 ∷ 3 ∷ [];
  current = some 1;
  idle = some 0;
  nr_running = 2;
  need_resched = true;
  normal_rq = record {
    sched_class = some rr;
    queue = 2 ∷ 3 ∷ [];
    nr_running = 2;
    class_data = init_data;
  };
  priority_rq = record {
    sched_class = some prio;
    queue = [];
    nr_running = 0;
    class_data = init_data;
  };
  normal_class = some rr;
  priority_class = some prio;
}

three-Waiting : Waiting (three_tasks 0) 1 2 (3 ∷ [])
unfolding same
three-Waiting = record {
  now = refl;
  prev_rr = record { of_class = refl; of_policy = refl; not_idle = refl };
  next_rr = record { of_class = refl; of_policy = refl; not_idle = refl };
  distinct = refl;
  used_up = refl;
  is_running = refl;
  no_priority = refl;
  class = refl;
  queue = refl;
  counted = refl;
  small = omega arith;
}

schedule_rotates_example :
    ((schedule (three_tasks 0)).normal_rq.queue ≡ 3 ∷ 1 ∷ [])
    × ((schedule (three_tasks 0)).current ≡ some 2)
    × (((schedule (three_tasks 0)).task 2).state ≡ running)
    × (((schedule (three_tasks 0)).task 2).time_slice ≡ 10)
    × (((schedule (three_tasks 0)).task 1).state ≡ ready)
schedule_rotates_example = schedule_rotates (three_tasks 0) 1 2 (3 ∷ []) three-Waiting

-- The task 1 has used up 7 of its 10 ticks.
three-Line : Line (three_tasks 3) 1 (2 ∷ 3 ∷ [])
unfolding same
three-Line = record {
  now = refl;
  is_running = refl;
  tasks_rr = λ x i. record { of_class = refl; of_policy = refl; not_idle = ground (arith, i) };
  distinct = (refl, (refl, (refl, tt)));
  no_priority = refl;
  class = refl;
  queue = refl;
  counted = refl;
  small = omega arith;
}

waiting_task_runs_example : (rounds 2 (three_tasks 3)).current ≡ some (get_or (1 ∷ 2 ∷ 3 ∷ []) 2 0)
waiting_task_runs_example =
    waiting_task_runs 2 (three_tasks 3) 1 (2 ∷ 3 ∷ []) three-Line (omega arith)
