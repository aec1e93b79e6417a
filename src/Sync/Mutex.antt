-- ===== src/Sync/Mutex.antt =====
-- kernel/sync/mutex.c, by the atomic steps that its calls make. The stores to `owner` and `count`
-- are not atomic in the source, and stand in a step behind the one that sets `locked`.
pub mod Race
use ccoperating_system_x.Common.{
  ℕ, Bool, true, false, not, ◌&&◌, Option, none, some, List, [], ◌∷◌, ◌++◌, ◌==◌, if◌then◌else◌,
}
use ccoperating_system_x.Sched.{Scheduler}
use ccoperating_system_x.Sched.Core.{set_resched}
use ccoperating_system_x.Sched.Queue.{del}
use ccoperating_system_x.Sync.WaitQueue.{wake_task}

-- `mutex_t`; the owner is a task, and `wait_list` holds the tasks of the waiters.
pub record Mutex : Type 0 where
  pub locked : ℕ
  pub owner : Option ℕ
  pub count : ℕ
  pub wait_list : List ℕ

unfoldable pub mutex_init : Mutex
mutex_init = record { locked = 0; owner = none; count = 0; wait_list = [] }

-- `atomic_compare_and_swap(&m->locked, 0, 1)`, as `mutex_lock` and `mutex_trylock` make it.
unfoldable pub swap_locked : Mutex → Bool × Mutex
swap_locked m = if m.locked == 0 then (true, record m { locked = 1 }) else (false, m)

-- The stores behind a swap that succeeded.
unfoldable pub take_ownership : Mutex → ℕ → Mutex
take_ownership m p = record m { owner = some p; count = 1 }

-- The slow path of `mutex_lock` puts the task on the list.
unfoldable pub enlist : Mutex → ℕ → Mutex
enlist m p = record m { wait_list = m.wait_list ++ p ∷ [] }

-- Its loop ends where the mutex is free.
unfoldable pub may_enter : Mutex → Bool
may_enter m = m.locked == 0 && elim m.owner [ none ↦ true | some p ↦ false ]

-- Then it stores to `locked`, whatever is there.
unfoldable pub write_locked : Mutex → Mutex
write_locked m = record m { locked = 1 }

-- At last the task leaves the list.
unfoldable pub delist : Mutex → ℕ → Mutex
delist m p = record m { wait_list = del p m.wait_list }

-- The guard of `mutex_unlock`.
unfoldable pub owned_by : Mutex → ℕ → Bool
owned_by m p = elim m.owner [ none ↦ false | some q ↦ q == p ]

-- Its stores, for the owner, and the wake-up under the spinlock.
unfoldable pub drop_ownership : Mutex → Mutex
drop_ownership m = record m { owner = none; count = 0 }

unfoldable pub write_unlocked : Mutex → Mutex
write_unlocked m = record m { locked = 0 }

unfoldable pub wake_from : Mutex → List ℕ → Scheduler → Mutex × Scheduler
wake_from m [] sched = (m, sched)
wake_from m (p ∷ rest) sched = (record m { wait_list = rest }, set_resched (wake_task sched p))

unfoldable pub mutex_is_locked : Mutex → Bool
mutex_is_locked m = not (m.locked == 0)

unfoldable pub mutex_owner : Mutex → Option ℕ
mutex_owner m = m.owner
