-- ===== src/Sched/Frame.antt =====
-- What ticks and turns of kernel/process leave as it is: classes and policies of the tasks, and the
-- counters of the run queues.
use native.Mathlib.Decide.{ℕ_discrete}
use ccoperating_system_x.Common.{ℕ, ◌+◌, ◌-◌, ◌<◌, ◌≡◌, refl, ap, ◌∙◌, some, List, length, arith}
use ccoperating_system_x.Sched.{Scheduler, Task, u32}
use ccoperating_system_x.Sched.Core.{
  schedule, put_prev, switch_to, set_task, clear_resched, same, timer_tick_handler, tick_current,
  tick_task, class_tick,
}
use ccoperating_system_x.Sched.Rr
use ccoperating_system_x.Sched.Rotate.{
  IsRr, Waiting, pick-first, pick-state, clear-Waiting, schedule-switch,
}

-- The second state has the tasks' classes and policies, the idle task, the priority queue and the
-- class of the round-robin queue of the first.
pub record Framed (s s' : Scheduler) : Type 0 where
  pub classes : (y : ℕ) → (s'.task y).sched_class ≡ (s.task y).sched_class
  pub policies : (y : ℕ) → (s'.task y).policy ≡ (s.task y).policy
  pub idle : s'.idle ≡ s.idle
  pub priority : s'.priority_rq ≡ s.priority_rq
  pub class : s'.normal_rq.sched_class ≡ s.normal_rq.sched_class

pub Framed-trans : (s s' s'' : Scheduler) → Framed s s' → Framed s' s'' → Framed s s''
Framed-trans s s' s'' f g = record {
  classes = λ y. g.classes y ∙ f.classes y;
  policies = λ y. g.policies y ∙ f.policies y;
  idle = g.idle ∙ f.idle;
  priority = g.priority ∙ f.priority;
  class = g.class ∙ f.class;
}

pub Framed-IsRr : (s s' : Scheduler) (p : ℕ) → Framed s s' → IsRr s p → IsRr s' p
Framed-IsRr s s' p f r = record {
  of_class = f.classes p ∙ r.of_class;
  of_policy = f.policies p ∙ r.of_policy;
  not_idle = ap (λ i. same i p) f.idle ∙ r.not_idle;
}

set_task-class :
    (s : Scheduler) (p y : ℕ) (t : Task)
    → t.sched_class ≡ (s.task p).sched_class
    → t.policy ≡ (s.task p).policy
    → (((set_task s p t).task y).sched_class ≡ (s.task y).sched_class)
      × (((set_task s p t).task y).policy ≡ (s.task y).policy)
unfolding set_task
set_task-class s p y t e e' = elim (ℕ_discrete p y) [
  | yes q ↦ (ground (arith, ap s.task q), ground (arith, ap s.task q))
  | no q ↦ (ground arith, ground arith)
]

set_task-Framed :
    (s : Scheduler) (p : ℕ) (t : Task)
    → t.sched_class ≡ (s.task p).sched_class
    → t.policy ≡ (s.task p).policy
    → Framed s (set_task s p t)
unfolding set_task
set_task-Framed s p t e e' = record {
  classes = λ y. (set_task-class s p y t e e').0;
  policies = λ y. (set_task-class s p y t e e').1;
  idle = refl;
  priority = refl;
  class = refl;
}

-- A tick of a round-robin task.
pub tick_eq :
    (s : Scheduler) (p : ℕ)
    → s.current ≡ some p
    → IsRr s p
    → timer_tick_handler s ≡ set_task s p (Rr.task_tick (s.task p))
unfolding timer_tick_handler tick_current tick_task class_tick
tick_eq s p now r = ap (tick_current s) now ∙ ap (tick_task s p) r.of_class

tick_same :
    (t : Task)
    → ((Rr.task_tick t).sched_class ≡ t.sched_class)
      × ((Rr.task_tick t).policy ≡ t.policy)
      × ((Rr.task_tick t).state ≡ t.state)
      × ((Rr.task_tick t).time_slice ≡ t.time_slice - 1)
unfolding Rr.task_tick
tick_same t = (ground arith, ground arith, ground arith, ground arith)

pub tick-Framed :
    (s : Scheduler) (p : ℕ) → s.current ≡ some p → IsRr s p → Framed s (timer_tick_handler s)
tick-Framed s p now r =
    let t = tick_same (s.task p) in rw (tick_eq s p now r) (set_task-Framed s p _ t.0 t.1)

-- A tick takes one off the slice of the running task.
pub tick-counts :
    (s : Scheduler) (p : ℕ)
    → s.current ≡ some p
    → IsRr s p
    → ((timer_tick_handler s).current ≡ some p)
      × (((timer_tick_handler s).task p).time_slice ≡ (s.task p).time_slice - 1)
      × (((timer_tick_handler s).task p).state ≡ (s.task p).state)
      × ((timer_tick_handler s).normal_rq ≡ s.normal_rq)
unfolding set_task
tick-counts s p now r =
    let (c, y, st, sl) = tick_same (s.task p) in
    rw (tick_eq s p now r) (now, ground (arith, sl), ground (arith, st), refl)

put_prev-Framed :
    (s : Scheduler) (p x : ℕ) (q : List ℕ)
    → Waiting s p x q
    → Framed s (put_prev s (some p))
      × ((put_prev s (some p)).normal_rq.nr_running ≡ s.normal_rq.nr_running + 1)
unfolding put_prev set_task
put_prev-Framed s p x q w = (
  record {
    classes = λ y. elim (ℕ_discrete p y) [
      | yes e ↦ ground (arith, ap s.task e, w.prev_rr.of_class, w.prev_rr.of_policy)
      | no e ↦ ground (arith, w.prev_rr.of_class, w.prev_rr.of_policy)
    ];
    policies = λ y. elim (ℕ_discrete p y) [
      | yes e ↦ ground (arith, ap s.task e, w.prev_rr.of_class, w.prev_rr.of_policy)
      | no e ↦ ground (arith, w.prev_rr.of_class, w.prev_rr.of_policy)
    ];
    idle = ground (arith, w.prev_rr.of_class, w.prev_rr.of_policy);
    priority = ground (arith, w.prev_rr.of_class, w.prev_rr.of_policy);
    class = ground (arith, w.prev_rr.of_class, w.prev_rr.of_policy);
  },
  ground (arith, w.prev_rr.of_class, w.prev_rr.of_policy),
)

switch_to-Framed :
    (s : Scheduler) (x n : ℕ)
    → IsRr s x
    → s.normal_rq.nr_running ≡ n + 1
    → n < u32
    → Framed s (switch_to s x) × ((switch_to s x).normal_rq.nr_running ≡ n)
unfolding switch_to set_task
switch_to-Framed s x n r e lt = (
  record {
    classes = λ y. elim (ℕ_discrete x y) [
      | yes q ↦ ground (arith, ap s.task q, r.of_class, r.of_policy)
      | no q ↦ ground (arith, r.of_class, r.of_policy)
    ];
    policies = λ y. elim (ℕ_discrete x y) [
      | yes q ↦ ground (arith, ap s.task q, r.of_class, r.of_policy)
      | no q ↦ ground (arith, r.of_class, r.of_policy)
    ];
    idle = ground (arith, r.of_class, r.of_policy);
    priority = ground (arith, r.of_class, r.of_policy);
    class = ground (arith, r.of_class, r.of_policy);
  },
  ground (arith, r.of_class, r.of_policy),
)

clear-Framed : (s : Scheduler) → Framed s (clear_resched s)
unfolding clear_resched
clear-Framed s = record {
  classes = λ y. refl;
  policies = λ y. refl;
  idle = refl;
  priority = refl;
  class = refl;
}

-- A turn of the queue leaves as many tasks in it.
pub schedule-Framed :
    (s : Scheduler) (p x : ℕ) (q : List ℕ)
    → Waiting s p x q
    → Framed s (schedule s) × ((schedule s).normal_rq.nr_running ≡ length q + 1)
schedule-Framed s p x q w =
    let w' : Waiting (clear_resched s) p x q = clear-Waiting s p x q w in
    let c : Scheduler = clear_resched s in
    let m : Scheduler = put_prev c (some p) in
    let (f, n) = put_prev-Framed c p x q w' in
    let (g, k) =
      switch_to-Framed m x (length q + 1) (Framed-IsRr c m x f w'.next_rr)
        (omega (arith, n, w'.counted)) (omega (arith, w'.small, w'.counted)) in
    let all = Framed-trans s c (switch_to m x) (clear-Framed s) (Framed-trans c m _ f g) in
    rw (schedule-switch s p x (pick-first c p x q w') (pick-state c p x q w') w.now w.distinct)
      (all, k)
