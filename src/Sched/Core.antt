-- ===== src/Sched/Core.antt =====
-- kernel/process/sched.c, and `schedule` of kernel/process/process.c.
-- The calls of a class go through its `sched_class_t`: here through the constructor of `Class`.
-- A task pointer that is passed in is not NULL.
use ccoperating_system_x.Common.{
  ℕ, ◌+◌, ◌-◌, ◌%◌, Bool, true, false, ◌&&◌, Option, none, some, [], ◌∷◌, ◌++◌, ltb, ◌==◌,
  if◌then◌else◌, ℤ,
}
use ccoperating_system_x.Sched.{
  Scheduler, Task, Rq, Class, rr, prio, Policy, normal, priority, max, ProcState, ready, running,
  u32,
}
use ccoperating_system_x.Sched.Queue.{del}
use ccoperating_system_x.Sched.Rr
use ccoperating_system_x.Sched.Prio

unfoldable pub set_task : Scheduler → ℕ → Task → Scheduler
set_task s p t = record s { task = λ q. if p == q then t else s.task q }

-- `scheduler.rq[policy]`
unfoldable pub rq_of : Scheduler → Policy → Rq
rq_of s normal = s.normal_rq
rq_of s priority = s.priority_rq
rq_of s max = s.normal_rq

unfoldable pub set_rq : Scheduler → Policy → Rq → Scheduler
set_rq s normal rq = record s { normal_rq = rq }
set_rq s priority rq = record s { priority_rq = rq }
set_rq s max rq = s

unfoldable pub class_of : Scheduler → Policy → Option Class
class_of s normal = s.normal_class
class_of s priority = s.priority_class
class_of s max = none

-- The calls through a `sched_class_t`.
unfoldable pub class_enqueue : Class → Rq → ℕ → Task → Bool → Rq
unfolding Rr.enqueue_task Prio.enqueue_task
class_enqueue rr rq p t head = Rr.enqueue_task rq p head
class_enqueue prio rq p t head = Prio.enqueue_task rq p t head

unfoldable pub class_dequeue : Class → Rq → ℕ → Task → Rq
unfolding Rr.dequeue_task Prio.dequeue_task
class_dequeue rr rq p t = Rr.dequeue_task rq p
class_dequeue prio rq p t = Prio.dequeue_task rq p t

unfoldable pub class_pick : Class → Rq → Option ℕ × Rq
unfolding Rr.pick_next_task Prio.pick_next_task
class_pick rr rq = (Rr.pick_next_task rq, rq)
class_pick prio rq = Prio.pick_next_task rq

unfoldable pub class_preempts : Class → Task → Task → Bool
unfolding Rr.should_preempt Prio.should_preempt
class_preempts rr p curr = Rr.should_preempt p curr
class_preempts prio p curr = Prio.should_preempt p curr

unfoldable pub class_tick : Class → Task → Task
unfolding Rr.task_tick Prio.task_tick
class_tick rr t = Rr.task_tick t
class_tick prio t = Prio.task_tick t

unfoldable pub class_fork : Class → Task → ℤ → Task
unfolding Rr.task_fork Prio.task_fork
class_fork rr t nice = Rr.task_fork t nice
class_fork prio t nice = Prio.task_fork t nice

unfoldable pub class_time_slice : Class → Task → ℕ
unfolding Rr.get_time_slice Prio.get_time_slice
class_time_slice rr t = Rr.get_time_slice t
class_time_slice prio t = Prio.get_time_slice t

-- `sched_timer_tick_handler`, behind `sched_class_init`, which sets `scheduler.rq`.
unfoldable pub tick_task : Scheduler → ℕ → Option Class → Scheduler
tick_task s p none = s
tick_task s p (some c) = set_task s p (class_tick c (s.task p))

unfoldable pub tick_current : Scheduler → Option ℕ → Scheduler
unfolding tick_task set_task class_tick
tick_current s none = s
tick_current s (some p) = tick_task s p (s.task p).sched_class

unfoldable pub timer_tick_handler : Scheduler → Scheduler
unfolding tick_current
timer_tick_handler s = tick_current s s.current

unfoldable pub init_time_slice : Task → Task
unfolding class_time_slice
init_time_slice t = elim t.sched_class [
  | none ↦ t
  | some c ↦ record t { time_slice = class_time_slice c t; time_slice_total = class_time_slice c t }
]

unfoldable pub reset_time_slice : Task → Task
reset_time_slice t = elim t.sched_class [
  | none ↦ t
  | some c ↦ record t { time_slice = t.time_slice_total }
]

-- `sched_class_register`: what it returns (`true` for 0, `false` for -1), and the new state.
unfoldable pub class_register : Scheduler → Class → Policy → Bool × Scheduler
unfolding class_of
class_register s c max = (false, s)
class_register s c normal = elim s.normal_class [
  | some _ ↦ (false, s)
  | none ↦ (
    true,
    record s { normal_class = some c; normal_rq = record (s.normal_rq) { sched_class = some c } },
  )
]
class_register s c priority = elim s.priority_class [
  | some _ ↦ (false, s)
  | none ↦ (
    true,
    record s {
      priority_class = some c;
      priority_rq = record (s.priority_rq) { sched_class = some c };
    },
  )
]

unfoldable pub enqueue_as : Scheduler → ℕ → Bool → Option Class → Scheduler
enqueue_as s p head none = s
enqueue_as s p head (some c) =
    let t = s.task p in
    let s' : Scheduler = set_rq s t.policy (class_enqueue c (rq_of s t.policy) p t head) in
    record s' { nr_running = (s.nr_running + 1) % u32; run_queue = s.run_queue ++ p ∷ [] }

-- `sched_enqueue_task`
unfoldable pub enqueue_task : Scheduler → ℕ → Bool → Scheduler
unfolding enqueue_as set_rq rq_of class_enqueue
enqueue_task s p head = enqueue_as s p head (s.task p).sched_class

unfoldable pub dequeue_as : Scheduler → ℕ → Option Class → Scheduler
dequeue_as s p none = s
dequeue_as s p (some c) =
    let t = s.task p in
    let s' : Scheduler = set_rq s t.policy (class_dequeue c (rq_of s t.policy) p t) in
    record s' {
      nr_running = if ltb 0 s.nr_running then s.nr_running - 1 else s.nr_running;
      run_queue = del p s.run_queue;
    }

-- `sched_dequeue_task`
unfoldable pub dequeue_task : Scheduler → ℕ → Scheduler
unfolding dequeue_as set_rq rq_of class_dequeue del
dequeue_task s p = dequeue_as s p (s.task p).sched_class

-- A pick from a run queue, if it has tasks and a class.
unfoldable pub pick_from : Scheduler → Policy → Option ℕ × Scheduler
unfolding class_pick set_rq rq_of
pick_from s policy =
    let rq = rq_of s policy in
    if ltb 0 rq.nr_running
    then elim rq.sched_class [
      | none ↦ (none, s)
      | some c ↦ ((class_pick c rq).0, set_rq s policy (class_pick c rq).1)
    ]
    else (none, s)

-- The picks from the priority queue and then from the normal one.
unfoldable pub pick_queued : Scheduler → Option ℕ × Scheduler
unfolding pick_from
pick_queued s = elim ((pick_from s priority).0) [
  | some p ↦ (some p, (pick_from s priority).1)
  | none ↦ pick_from (pick_from s priority).1 normal
]

-- Whether a task that was picked takes the place of the current one; a task with no class would
-- be a call through NULL, and a task in a queue has one.
unfoldable pub preempts : Scheduler → ℕ → ℕ → Bool
preempts s p prev = elim ((s.task p).sched_class) [
  | none ↦ false
  | some c ↦ class_preempts c (s.task p) (s.task prev)
]

-- The current task is running and has time left.
unfoldable pub keep_or_preempt : ℕ → Option ℕ × Scheduler → Option ℕ × Scheduler
unfolding preempts class_preempts
keep_or_preempt prev (none, s) = (some prev, s)
keep_or_preempt prev (some p, s) = if preempts s p prev then (some p, s) else (some prev, s)

unfoldable pub is_running : ProcState → Bool
is_running running = true
is_running _ = false

-- `sched_pick_next_task`, where the current task is `prev`.
unfoldable pub pick_with : Scheduler → Option ℕ → Option ℕ × Scheduler
unfolding pick_from pick_queued keep_or_preempt is_running
pick_with s none = pick_queued s
pick_with s (some prev) =
    if is_running (s.task prev).state && ltb 0 (s.task prev).time_slice
    then keep_or_preempt prev (pick_from s priority)
    else pick_queued s

unfoldable pub pick_next_task : Scheduler → Option ℕ × Scheduler
unfolding pick_with
pick_next_task s = pick_with s s.current

-- `sched_set_policy`
unfoldable pub set_policy : Scheduler → ℕ → Policy → ℤ → Bool × Scheduler
unfolding class_of set_task class_fork
set_policy s p policy level = elim (class_of s policy) [
  | none ↦ (false, s)
  | some c ↦ (
    true,
    set_task s p (class_fork c (record (s.task p) { policy = policy; sched_class = some c }) level),
  )
]

unfoldable pub set_resched : Scheduler → Scheduler
set_resched s = record s { need_resched = true }

unfoldable pub clear_resched : Scheduler → Scheduler
clear_resched s = record s { need_resched = false }

unfoldable pub same : Option ℕ → ℕ → Bool
same none q = false
same (some p) q = p == q

-- The `if (prev && prev != scheduler.idle)` block of `schedule`.
unfoldable pub put_prev : Scheduler → Option ℕ → Scheduler
unfolding same is_running set_task enqueue_task
put_prev s none = s
put_prev s (some p) =
    if same s.idle p
    then s
    else let t = s.task p in
      let s' : Scheduler =
        if is_running t.state then set_task s p (record t { state = ready }) else s in
      elim ((s'.task p).state) [ ready ↦ enqueue_task s' p false | _ ↦ s' ]

-- The rest of `schedule`: the new task leaves its queue, runs, and has a full time slice.
unfoldable pub switch_to : Scheduler → ℕ → Scheduler
unfolding same dequeue_task set_task reset_time_slice
switch_to s next =
    let s1 : Scheduler = if same s.idle next then s else dequeue_task s next in
    let s2 : Scheduler = set_task s1 next (record (s1.task next) { state = running }) in
    let s3 : Scheduler = record s2 { current = some next } in
    set_task s3 next (reset_time_slice (s3.task next))

unfoldable pub choose : Scheduler → Option ℕ → Option ℕ
choose s none = s.idle
choose s (some p) = some p

-- `schedule`, up to the context switch itself, which is the change of `current`.
unfoldable pub schedule : Scheduler → Scheduler
unfolding choose same
schedule s =
    let (picked, s') = pick_next_task (clear_resched s) in
    elim (choose s' picked) [
      | none ↦ s'
      | some next ↦ if same s.current next then s' else switch_to (put_prev s' s.current) next
    ]
