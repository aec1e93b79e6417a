-- ===== src/Sched/Preempt.antt =====
-- Policies, priorities and preemption in kernel/process/sched.c and kernel/process/sched_prio.c.
use ccoperating_system_x.Common.{
  ℕ, suc, ◌-◌, ◌≤◌, ◌<◌, ◌≡◌, refl, ap, ◌∙◌, ◌⊎◌, inl, inr, true, Option, none, some, if◌then◌else◌,
  arith, ℤ, pos, negsuc, lt_ℤ, Bool-cases, Option-cases, ltb, ◌&&◌,
}
use ccoperating_system_x.Sched.{Scheduler, Task, prio, Policy, normal, priority, max, running}
use ccoperating_system_x.Sched.Prio.{
  prio_timeslice, clamp_prio, clamp_range, fork_prio, prio_default, prio_min,
}
use ccoperating_system_x.Sched.Prio
use ccoperating_system_x.Sched.Core.{
  pick_next_task, pick_with, pick_from, keep_or_preempt, is_running, pick_queued, preempts,
  class_preempts, set_policy,
}

fork_range : (nice : ℤ) → (n : ℕ) × (clamp_range (fork_prio nice) ≡ pos n) × (n ≤ prio_default)
unfolding clamp_range fork_prio
fork_range (pos n) = (prio_default, refl, omega arith)
fork_range (negsuc n) = (prio_default - suc n, ground arith, omega arith)

-- A new priority task has, for every nice value, a priority from 0 to 64 that is its level, and the
-- time slice of that priority, which is not 0 and is its full slice too.
pub task_fork-level :
    (t : Task) (nice : ℤ)
    → let t' = Prio.task_fork t nice in
      (n : ℕ) × (t'.priority ≡ pos n)
      × (n ≤ prio_default)
      × (clamp_prio t'.priority ≡ n)
      × (t'.time_slice ≡ Prio.get_time_slice t')
      × (t'.time_slice_total ≡ t'.time_slice)
      × (20 ≤ t'.time_slice)
      × (t'.time_slice ≤ 100)
unfolding Prio.task_fork Prio.get_time_slice clamp_prio
task_fork-level t nice =
    let (n, e, le) = fork_range nice in
    (n, e, le, rw e (ground arith), refl, refl, ground arith, ground arith)

-- A higher priority never gets a shorter time slice.
pub prio_timeslice-antitone : (p q : ℕ) → p ≤ q → prio_timeslice (pos q) ≤ prio_timeslice (pos p)
unfolding prio_timeslice
prio_timeslice-antitone p q h = ground arith

-- `sched_set_policy` takes its third argument as a nice value: with the priority class registered,
-- every priority level that is asked for gives the task the default priority 64.
pub set_policy_default :
    (s : Scheduler) (p level : ℕ)
    → s.priority_class ≡ some prio
    → ((set_policy s p priority (pos level)).0 ≡ true)
      × (((set_policy s p priority (pos level)).1.task p).priority ≡ pos prio_default)
unfolding set_policy clamp_range
set_policy_default s p level e = ground arith

-- What may take the place of a running task.
preempts-lt :
    (s : Scheduler) (p c : ℕ)
    → 0 < (s.task c).time_slice
    → preempts s p c ≡ true
    → lt_ℤ (s.task p).priority (s.task c).priority ≡ true
unfolding preempts class_preempts
preempts-lt s p c h e = ground arith

-- A pick leaves the tasks as they are.
pick_from-task : (s : Scheduler) (y : Policy) → (pick_from s y).1.task ≡ s.task
unfolding pick_from
pick_from-task s normal = elim (Option-cases s.normal_rq.sched_class) [
  | inl e ↦ ground arith
  | inr (c, e) ↦ ground arith
]
pick_from-task s priority = elim (Option-cases s.priority_rq.sched_class) [
  | inl e ↦ ground arith
  | inr (c, e) ↦ ground arith
]
pick_from-task s max = elim (Option-cases s.normal_rq.sched_class) [
  | inl e ↦ ground arith
  | inr (c, e) ↦ ground arith
]

keep_or_preempt-lt :
    (s : Scheduler) (c : ℕ) (o : Option ℕ)
    → 0 < (s.task c).time_slice
    → ((keep_or_preempt c (o, s)).0 ≡ some c)
      ⊎ ((p : ℕ) × ((keep_or_preempt c (o, s)).0 ≡ some p)
          × (lt_ℤ (s.task p).priority (s.task c).priority ≡ true))
unfolding keep_or_preempt
keep_or_preempt-lt s c none h = inl refl
keep_or_preempt-lt s c (some p) h = elim (Bool-cases (preempts s p c)) [
  | inl e ↦ inr (p, rw e, preempts-lt s p c h e)
  | inr e ↦ inl (rw e)
]

pick-keep :
    (s : Scheduler) (c : ℕ)
    → s.current ≡ some c
    → (s.task c).state ≡ running
    → 0 < (s.task c).time_slice
    → pick_next_task s ≡ keep_or_preempt c (pick_from s priority)
unfolding pick_next_task
pick-keep s c e run h =
    let t : is_running (s.task c).state && ltb 0 (s.task c).time_slice ≡ true = ground arith in
    ap (pick_with s) e
    ∙ ap (λ b. if b then keep_or_preempt c (pick_from s priority) else pick_queued s) t

-- While the running task has time left, the scheduler picks that task, or a task whose priority is
-- strictly higher.
pub pick_next_task-keeps :
    (s : Scheduler) (c : ℕ)
    → s.current ≡ some c
    → (s.task c).state ≡ running
    → 0 < (s.task c).time_slice
    → ((pick_next_task s).0 ≡ some c)
      ⊎ ((p : ℕ) × ((pick_next_task s).0 ≡ some p)
          × (lt_ℤ (s.task p).priority (s.task c).priority ≡ true))
pick_next_task-keeps s c e run h =
    let t = pick_from-task s priority in
    let r = keep_or_preempt-lt (pick_from s priority).1 c (pick_from s priority).0 (rw t h) in
    rw (pick-keep s c e run h) (rw t at r)
