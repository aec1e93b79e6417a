-- ===== src/Sync/WaitQueue/Wake.antt =====
-- Which waiters the calls of kernel/sync/waitqueue.c wake, and which they leave.
use ccoperating_system_x.Common.{
  ℕ, ◌+◌, ◌≡◌, refl, true, false, some, List, [], ◌∷◌, arith, All, length,
}
use ccoperating_system_x.Sched.{Scheduler}
use ccoperating_system_x.Sched.Core.{set_resched}
use ccoperating_system_x.Sync.WaitQueue.{
  Entry, wake_entry, woken_by, wake_exclusive, wake_normal, wake_more, resched_if, wake_up_common,
  wake_up, wake_up_all,
}

-- Every entry has a process, as `init_waitqueue_entry` sets it.
abbrev pub HasTask : Entry → Type 0
HasTask e = (p : ℕ) × (e.task ≡ some p)

abbrev pub IsNormal : Entry → Type 0
IsNormal e = HasTask e × (e.exclusive ≡ false)

-- The entries are woken one after the other, in the order of the queue.
abbrev pub wake_list : List Entry → Scheduler → Scheduler
wake_list [] s = s
wake_list (e ∷ wq) s = wake_list wq (wake_entry e s)

woken_by-one : (e : Entry) → HasTask e → woken_by e ≡ 1
unfolding woken_by
woken_by-one e (p, h) = rw h

-- With normal waiters alone the first loop finds nothing.
wake_exclusive-normal :
    (nr : ℕ) (wq : List Entry) (s : Scheduler)
    → All IsNormal wq
    → wake_exclusive false nr wq 0 s ≡ record { left = wq; count = 0; sched = s }
unfolding wake_exclusive
wake_exclusive-normal nr [] s h = refl
wake_exclusive-normal nr (e ∷ wq) s h = ground (arith, wake_exclusive-normal nr wq s h.1, h.0.1)

-- Without a bound the second loop wakes them all.
wake_normal_unbounded :
    (wq : List Entry) (n : ℕ) (s : Scheduler)
    → All IsNormal wq
    → wake_normal 0 wq n s ≡ record { left = []; count = n + length wq; sched = wake_list wq s }
unfolding wake_normal
wake_normal_unbounded [] n s h = ground arith
wake_normal_unbounded (e ∷ wq) n s h = ground (
  arith,
  h.0.1,
  woken_by-one e h.0.0,
  wake_normal_unbounded wq (n + woken_by e) (wake_entry e s) h.1,
)

-- `wake_up` on a queue of waiters that `sleep_on` put there wakes the first and leaves the others
-- as they are, in their order, and asks for a reschedule.
pub wake_up-first :
    (e : Entry) (wq : List Entry) (s : Scheduler)
    → IsNormal e
    → All IsNormal wq
    → wake_up (e ∷ wq) s ≡ record { left = wq; count = 1; sched = set_resched (wake_entry e s) }
unfolding wake_up wake_up_common wake_more resched_if wake_normal
wake_up-first e [] s h hs =
    ground (arith, wake_exclusive-normal 1 (e ∷ []) s (h, hs), woken_by-one e h.0, h.1)
wake_up-first e (e' ∷ wq) s h hs =
    ground (arith, wake_exclusive-normal 1 (e ∷ e' ∷ wq) s (h, hs), woken_by-one e h.0, h.1)

-- `wake_up_all` on a queue of waiters that `sleep_on` put there wakes each of them, in the order of
-- the queue, leaves none and asks for a reschedule.
pub wake_up_all-every :
    (e : Entry) (wq : List Entry) (s : Scheduler)
    → IsNormal e
    → All IsNormal wq
    → wake_up_all (e ∷ wq) s
      ≡ record { left = []; count = length (e ∷ wq); sched = set_resched (wake_list (e ∷ wq) s) }
unfolding wake_up_all wake_up_common wake_more resched_if
wake_up_all-every e wq s h hs =
    ground (
      arith,
      wake_exclusive-normal 0 (e ∷ wq) s (h, hs),
      wake_normal_unbounded (e ∷ wq) 0 s (h, hs),
    )

wake_normal-none :
    (wq : List Entry) (n : ℕ) (s : Scheduler)
    → All (λ e. e.exclusive ≡ true) wq
    → wake_normal 0 wq n s ≡ record { left = wq; count = n; sched = s }
unfolding wake_normal
wake_normal-none [] n s h = refl
wake_normal-none (e ∷ wq) n s h = ground (arith, h.0, wake_normal-none wq n s h.1)

-- With exclusive waiters alone, the first of which has a process, `wake_up_all` wakes only the first:
-- the others stay in the queue, asleep.
pub wake_up_all-exclusive :
    (e : Entry) (wq : List Entry) (s : Scheduler)
    → HasTask e
    → All (λ e. e.exclusive ≡ true) (e ∷ wq)
    → wake_up_all (e ∷ wq) s ≡ record { left = wq; count = 1; sched = set_resched (wake_entry e s) }
unfolding wake_up_all wake_up_common wake_more resched_if wake_exclusive
wake_up_all-exclusive e wq s h x =
    ground (arith, woken_by-one e h, x.0, wake_normal-none wq 1 (wake_entry e s) x.1)
