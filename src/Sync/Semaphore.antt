-- ===== src/Sync/Semaphore.antt =====
-- kernel/sync/semaphore.c, by the atomic steps that its calls make, with the operations of
-- kernel/sync/atomic.c that they use. A spinning loop is a call that has not yet made its step.
pub mod Ledger
use ccoperating_system_x.Common.{
  ℕ, ◌+◌, ◌-◌, ◌^◌, negsuc, Bool, true, false, Option, none, some, List, [], ◌∷◌, ◌++◌, ◌==◌,
  if◌then◌else◌, ℤ, pos, inc, dec, eq_ℤ, positive,
}
use ccoperating_system_x.Sched.{Scheduler}
use ccoperating_system_x.Sched.Queue.{del}
use ccoperating_system_x.Sched.Core.{set_resched}
use ccoperating_system_x.Sync.WaitQueue.{wake_task}

-- A waiter of `wait_list`, which lies on the stack of its task; the list holds the tasks.
pub record Semaphore : Type 0 where
  pub count : ℤ
  pub wait_list : List ℕ

-- `atomic_compare_and_swap`
unfoldable pub compare_and_swap : ℤ → ℤ → ℤ → Bool × ℤ
compare_and_swap counter old new = if eq_ℤ counter old then (true, new) else (false, counter)

unfoldable pub sem_init : ℤ → Semaphore
sem_init value = record { count = value; wait_list = [] }

-- A try to take one, by a call that has read `old`: the step of `sem_trywait`, of the fast path of
-- `sem_wait` and of its second check.
unfoldable pub try_take : Semaphore → ℤ → Bool × Semaphore
unfolding compare_and_swap
try_take s old =
    if positive old
    then (
      (compare_and_swap s.count old (dec old)).0,
      record s { count = (compare_and_swap s.count old (dec old)).1 },
    )
    else (false, s)

-- The slow path of `sem_wait` puts the task on the list.
unfoldable pub enlist : Semaphore → ℕ → Semaphore
enlist s p = record s { wait_list = s.wait_list ++ p ∷ [] }

-- It takes one, once it is awake, by a swap of 1 for 0.
unfoldable pub take_last : Semaphore → Bool × Semaphore
unfolding compare_and_swap
take_last s = (
  (compare_and_swap s.count (pos 1) (pos 0)).0,
  record s { count = (compare_and_swap s.count (pos 1) (pos 0)).1 },
)

-- At last its task leaves the list, if `sem_post` has not taken it off.
unfoldable pub delist : Semaphore → ℕ → Semaphore
delist s p = record s { wait_list = del p s.wait_list }

-- `atomic_inc` on an `int`, which wraps behind INT_MAX.
unfoldable pub atomic_inc : ℤ → ℤ
atomic_inc (pos n) = if n + 1 == 2 ^ 31 then negsuc (2 ^ 31 - 1) else pos (n + 1)
atomic_inc (negsuc n) = inc (negsuc n)

-- The first part of `sem_post`, and its second part, under the spinlock.
unfoldable pub post : Semaphore → Semaphore
unfolding atomic_inc
post s = record s { count = atomic_inc s.count }

unfoldable pub wake_from : Semaphore → List ℕ → Scheduler → Semaphore × Scheduler
wake_from s [] sched = (s, sched)
wake_from s (p ∷ rest) sched = (record s { wait_list = rest }, set_resched (wake_task sched p))

unfoldable pub wake_first : Semaphore → Scheduler → Semaphore × Scheduler
unfolding wake_from
wake_first s sched = wake_from s s.wait_list sched

unfoldable pub sem_getvalue : Semaphore → ℤ
sem_getvalue s = s.count
