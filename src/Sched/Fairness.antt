-- ===== src/Sched/Fairness.antt =====
-- The round-robin queue of kernel/process under timer ticks and calls of `schedule`.
use ccoperating_system_x.Common.{
  ℕ, zero, suc, ◌+◌, ◌-◌, ◌≤◌, ◌<◌, ◌≡◌, refl, true, false, sym, ap, subst, ◌∙◌, Option, some, none,
  List, [], ◌∷◌, ◌++◌, length, length-append, get_or, get_or-append, ◌==◌, ◌⊎◌, inl, inr, arith,
  Bool-cases,
}
use ccoperating_system_x.Sched.{Scheduler, rr, running, u32}
use ccoperating_system_x.Sched.Core.{schedule, timer_tick_handler}
use ccoperating_system_x.Sched.Queue.{has}
use ccoperating_system_x.Sched.Rotate.{IsRr, Waiting, schedule_rotates}
use ccoperating_system_x.Sched.Frame.{Framed-IsRr, tick-Framed, tick-counts, schedule-Framed}

-- `n` ticks of the timer.
unfoldable pub ticks : ℕ → Scheduler → Scheduler
ticks zero s = s
ticks (suc n) s = ticks n (timer_tick_handler s)

-- What is left of the slice of the running task.
abbrev pub slice_of : Scheduler → Option ℕ → ℕ
slice_of s none = 0
slice_of s (some p) = (s.task p).time_slice

-- The ticks until the slice of the running task has run out, and then a call of `schedule`.
abbrev pub round : Scheduler → Scheduler
round s = schedule (ticks (slice_of s s.current) s)

unfoldable pub rounds : ℕ → Scheduler → Scheduler
rounds zero s = s
rounds (suc k) s = rounds k (round s)

-- No task is in the list twice.
abbrev pub Distinct : List ℕ → Type 0
Distinct [] = Unit
Distinct (x ∷ xs) = (has x xs ≡ false) × Distinct xs

-- The task `p` runs and the tasks of `q` wait behind it, all of them of the round-robin class.
pub record Line (s : Scheduler) (p : ℕ) (q : List ℕ) : Type 0 where
  pub now : s.current ≡ some p
  pub is_running : (s.task p).state ≡ running
  pub tasks_rr : (x : ℕ) → has x (p ∷ q) ≡ true → IsRr s x
  pub distinct : Distinct (p ∷ q)
  pub no_priority : s.priority_rq.nr_running ≡ 0
  pub class : s.normal_rq.sched_class ≡ some rr
  pub queue : s.normal_rq.queue ≡ q
  pub counted : s.normal_rq.nr_running ≡ length q
  pub small : length q + 1 < u32

first-IsRr : (s : Scheduler) (p : ℕ) (q : List ℕ) → Line s p q → IsRr s p
first-IsRr s p q l = l.tasks_rr p (ground arith)

tick-Line :
    (s : Scheduler) (p : ℕ) (q : List ℕ)
    → Line s p q
    → Line (timer_tick_handler s) p q
      × (((timer_tick_handler s).task p).time_slice ≡ (s.task p).time_slice - 1)
tick-Line s p q l =
    let r = first-IsRr s p q l in
    let f = tick-Framed s p l.now r in
    let (now, slice, state, rq) = tick-counts s p l.now r in
    (
      record {
        now = now;
        is_running = state ∙ l.is_running;
        tasks_rr = λ x i. Framed-IsRr s (timer_tick_handler s) x f (l.tasks_rr x i);
        distinct = l.distinct;
        no_priority = ap (λ k. k.nr_running) f.priority ∙ l.no_priority;
        class = f.class ∙ l.class;
        queue = ap (λ k. k.queue) rq ∙ l.queue;
        counted = ap (λ k. k.nr_running) rq ∙ l.counted;
        small = l.small;
      },
      slice,
    )

-- As many ticks as the slice has left use it up.
ticks-Line :
    (n : ℕ) (s : Scheduler) (p : ℕ) (q : List ℕ)
    → Line s p q
    → (s.task p).time_slice ≡ n
    → Line (ticks n s) p q × (((ticks n s).task p).time_slice ≡ 0)
unfolding ticks
ticks-Line zero s p q l e = (l, e)
ticks-Line (suc n) s p q l e =
    let t = tick-Line s p q l in ticks-Line n (timer_tick_handler s) p q t.0 (omega (arith, t.1))

-- A task that goes to the end of the list.
has-append :
    (x p : ℕ) (q : List ℕ) → has x (q ++ p ∷ []) ≡ true → (has x q ≡ true) ⊎ ((p == x) ≡ true)
has-append x p [] h = inr (ground arith)
has-append x p (y ∷ q) h = elim (Bool-cases (y == x)) [
  | inl e ↦ inl (rw e refl)
  | inr e ↦ elim (has-append x p q (rw e at h)) [ inl i ↦ inl (rw e i) | inr i ↦ inr i ]
]

not_has-append :
    (x p : ℕ) (q : List ℕ) → has x q ≡ false → (p == x) ≡ false → has x (q ++ p ∷ []) ≡ false
not_has-append x p [] h e = rw e refl
not_has-append x p (y ∷ q) h e = ground (arith, not_has-append x p q)

distinct-append : (p : ℕ) (q : List ℕ) → Distinct q → has p q ≡ false → Distinct (q ++ p ∷ [])
distinct-append p [] d h = (refl, tt)
distinct-append p (y ∷ q) d h =
    (not_has-append y p q d.0 (ground arith), distinct-append p q d.1 (ground arith))

waits :
    (s : Scheduler) (p x : ℕ) (q : List ℕ)
    → Line s p (x ∷ q)
    → (s.task p).time_slice ≡ 0
    → Waiting s p x q
waits s p x q l e = record {
  now = l.now;
  prev_rr = first-IsRr s p (x ∷ q) l;
  next_rr = l.tasks_rr x (ground arith);
  distinct = ground (arith, l.distinct.0);
  used_up = e;
  is_running = l.is_running;
  no_priority = l.no_priority;
  class = l.class;
  queue = l.queue;
  counted = omega (arith, l.counted);
  small = omega (arith, l.counted, l.small);
}

moved_has : (y p x : ℕ) (q : List ℕ) → has y (x ∷ (q ++ p ∷ [])) ≡ true → has y (p ∷ x ∷ q) ≡ true
moved_has y p x q h = elim (Bool-cases (x == y)) [
  | inl e ↦ ground arith
  | inr e ↦ elim (has-append y p q (rw e at h)) [ inl i ↦ ground arith | inr i ↦ rw i refl ]
]

schedule-Line :
    (s : Scheduler) (p x : ℕ) (q : List ℕ)
    → Line s p (x ∷ q)
    → (s.task p).time_slice ≡ 0
    → Line (schedule s) x (q ++ p ∷ [])
schedule-Line s p x q l e =
    let w = waits s p x q l e in
    let (queue, now, state, _, _) = schedule_rotates s p x q w in
    let (f, n) = schedule-Framed s p x q w in
    let as_long = length-append q (p ∷ []) in
    record {
      now = now;
      is_running = state;
      tasks_rr = λ y i. Framed-IsRr s (schedule s) y f (l.tasks_rr y (moved_has y p x q i));
      distinct = (
        not_has-append x p q l.distinct.1.0 w.distinct,
        distinct-append p q l.distinct.1.1 (ground (arith, l.distinct.0)),
      );
      no_priority = ap (λ k. k.nr_running) f.priority ∙ l.no_priority;
      class = f.class ∙ l.class;
      queue = queue;
      counted = omega (arith, n, as_long);
      small = omega (arith, l.small, as_long);
    }

round-Line :
    (s : Scheduler) (p x : ℕ) (q : List ℕ) → Line s p (x ∷ q) → Line (round s) x (q ++ p ∷ [])
round-Line s p x q l =
    let t = ticks-Line (s.task p).time_slice s p (x ∷ q) l refl in
    subst (λ c. Line (schedule (ticks (slice_of s c) s)) x (q ++ p ∷ [])) (sym l.now)
      (schedule-Line (ticks (s.task p).time_slice s) p x q t.0 t.1)

-- Where round-robin tasks alone are queued, a task that waits runs: the timer ticks until the slice
-- of the running task has run out and `schedule` is called, and after `k` such rounds the running
-- task is the one that was the `k`th behind the task that ran at the start, as long as there is
-- one.
pub waiting_task_runs :
    (k : ℕ) (s : Scheduler) (p : ℕ) (q : List ℕ)
    → Line s p q
    → k ≤ length q
    → (rounds k s).current ≡ some (get_or (p ∷ q) k 0)
unfolding rounds
waiting_task_runs zero s p q l le = l.now
waiting_task_runs (suc k) s p [] l le = absurd (omega arith)
waiting_task_runs (suc k) s p (x ∷ q) l le =
    let inside : (k == length (x ∷ q)) ≡ false = ground arith in
    waiting_task_runs k (round s) x (q ++ p ∷ []) (round-Line s p x q l)
      (omega (arith, length-append q (p ∷ [])))
    ∙ ap some (get_or-append (x ∷ q) p k 0 ∙ rw inside refl)
