-- ===== src/Sched/Rotate.antt =====
-- `schedule` of kernel/process/process.c over the round-robin class: what one call does.
use ccoperating_system_x.Common.{
  ℕ, ◌+◌, ◌<◌, ◌≡◌, refl, ap, ◌∙◌, false, some, List, [], ◌∷◌, ◌++◌, length, ◌==◌, arith,
}
use ccoperating_system_x.Sched.{Scheduler, u32, rr, normal, ready, running}
use ccoperating_system_x.Sched.Core.{
  schedule, put_prev, switch_to, pick_next_task, same, clear_resched,
}

-- The task is one of the round-robin class, and not the idle task.
pub record IsRr (s : Scheduler) (p : ℕ) : Type 0 where
  pub of_class : (s.task p).sched_class ≡ some rr
  pub of_policy : (s.task p).policy ≡ normal
  pub not_idle : same s.idle p ≡ false

-- Only round-robin tasks are queued, and `x` is first.
pub record Waiting (s : Scheduler) (p x : ℕ) (q : List ℕ) : Type 0 where
  pub now : s.current ≡ some p
  pub prev_rr : IsRr s p
  pub next_rr : IsRr s x
  pub distinct : (p == x) ≡ false
  pub used_up : (s.task p).time_slice ≡ 0
  pub is_running : (s.task p).state ≡ running
  pub no_priority : s.priority_rq.nr_running ≡ 0
  pub class : s.normal_rq.sched_class ≡ some rr
  pub queue : s.normal_rq.queue ≡ x ∷ q
  pub counted : s.normal_rq.nr_running ≡ length q + 1
  pub small : s.normal_rq.nr_running + 1 < u32

pub pick-first :
    (s : Scheduler) (p x : ℕ) (q : List ℕ) → Waiting s p x q → (pick_next_task s).0 ≡ some x
unfolding pick_next_task
pick-first s p x q w = ground arith

pub pick-state : (s : Scheduler) (p x : ℕ) (q : List ℕ) → Waiting s p x q → (pick_next_task s).1 ≡ s
unfolding pick_next_task
pick-state s p x q w = ground arith

put_prev-queue :
    (s : Scheduler) (p x : ℕ) (q : List ℕ)
    → Waiting s p x q
    → (put_prev s (some p)).normal_rq.queue ≡ x ∷ (q ++ p ∷ [])
unfolding put_prev
put_prev-queue s p x q w = ground (arith, w.prev_rr.of_class, w.prev_rr.of_policy)

switch_to-queue :
    (s : Scheduler) (x : ℕ) (q : List ℕ)
    → IsRr s x
    → s.normal_rq.queue ≡ x ∷ q
    → ((switch_to s x).normal_rq.queue ≡ q)
      × ((switch_to s x).current ≡ some x)
      × (((switch_to s x).task x).state ≡ running)
      × (((switch_to s x).task x).time_slice ≡ (s.task x).time_slice_total)
unfolding switch_to
switch_to-queue s x q r e = ground (arith, r.of_class, r.of_policy)

pub put_prev-next :
    (s : Scheduler) (p x : ℕ) (q : List ℕ)
    → Waiting s p x q
    → ((put_prev s (some p)).task x ≡ s.task x)
      × (((put_prev s (some p)).task p).state ≡ ready)
      × ((put_prev s (some p)).idle ≡ s.idle)
unfolding put_prev
put_prev-next s p x q w = ground (arith, w.prev_rr.of_class, w.prev_rr.of_policy)

switch_to-other :
    (s : Scheduler) (p x : ℕ) → IsRr s x → (p == x) ≡ false → (switch_to s x).task p ≡ s.task p
unfolding switch_to
switch_to-other s p x r e = ground (arith, r.of_class, r.of_policy)

pub schedule-switch :
    (s : Scheduler) (p x : ℕ)
    → (pick_next_task (clear_resched s)).0 ≡ some x
    → (pick_next_task (clear_resched s)).1 ≡ clear_resched s
    → s.current ≡ some p
    → (p == x) ≡ false
    → schedule s ≡ switch_to (put_prev (clear_resched s) (some p)) x
unfolding schedule
schedule-switch s p x e e' now ne = ground arith

pub clear-Waiting :
    (s : Scheduler) (p x : ℕ) (q : List ℕ) → Waiting s p x q → Waiting (clear_resched s) p x q
unfolding clear_resched
clear-Waiting s p x q w = record {
  now = w.now;
  prev_rr = record {
    of_class = w.prev_rr.of_class;
    of_policy = w.prev_rr.of_policy;
    not_idle = w.prev_rr.not_idle;
  };
  next_rr = record {
    of_class = w.next_rr.of_class;
    of_policy = w.next_rr.of_policy;
    not_idle = w.next_rr.not_idle;
  };
  distinct = w.distinct;
  used_up = w.used_up;
  is_running = w.is_running;
  no_priority = w.no_priority;
  class = w.class;
  queue = w.queue;
  counted = w.counted;
  small = w.small;
}

total_same :
    (s : Scheduler) (x : ℕ)
    → ((clear_resched s).task x).time_slice_total ≡ (s.task x).time_slice_total
unfolding clear_resched
total_same s x = refl

-- Where the running task has used up its time slice and only round-robin tasks are queued, one call
-- of `schedule` turns the queue by one: the first task runs with a full time slice, and the task
-- that ran is ready at the end of the queue.
pub schedule_rotates :
    (s : Scheduler) (p x : ℕ) (q : List ℕ)
    → Waiting s p x q
    → ((schedule s).normal_rq.queue ≡ q ++ p ∷ [])
      × ((schedule s).current ≡ some x)
      × (((schedule s).task x).state ≡ running)
      × (((schedule s).task x).time_slice ≡ (s.task x).time_slice_total)
      × (((schedule s).task p).state ≡ ready)
schedule_rotates s p x q w =
    let w' : Waiting (clear_resched s) p x q = clear-Waiting s p x q w in
    let c : Scheduler = clear_resched s in
    let m : Scheduler = put_prev c (some p) in
    let (same_x, p_ready, same_idle) = put_prev-next c p x q w' in
    let r : IsRr m x = record {
      of_class = ap (λ t. t.sched_class) same_x ∙ w'.next_rr.of_class;
      of_policy = ap (λ t. t.policy) same_x ∙ w'.next_rr.of_policy;
      not_idle = ap (λ i. same i x) same_idle ∙ w'.next_rr.not_idle;
    } in
    let (queue, now, runs, slice) =
      switch_to-queue m x (q ++ p ∷ []) r (put_prev-queue c p x q w') in
    rw (schedule-switch s p x (pick-first c p x q w') (pick-state c p x q w') w.now w.distinct) (
      queue,
      now,
      runs,
      slice ∙ ap (λ t. t.time_slice_total) same_x ∙ total_same s x,
      ap (λ t. t.state) (switch_to-other m p x r w.distinct) ∙ p_ready,
    )
