-- ===== src/Sync/Rwlock.antt =====
-- kernel/sync/rwlock.c: the read-write lock, by the atomic steps that its calls make.
-- A spinning loop is a thread that has not yet made the step behind it.
pub mod Threads
pub mod Counting
pub mod Safety
pub mod Exclusion
use ccoperating_system_x.Common.{
  ℕ, Bool, true, false, ◌||◌, ℤ, pos, inc, dec, positive, if◌then◌else◌,
}

-- `rwlock_t`; its spinlock makes the steps under it atomic.
pub record Rwlock : Type 0 where
  pub readers : ℤ
  pub writers : ℤ

unfoldable pub init : Rwlock
init = record { readers = pos 0; writers = pos 0 }

-- The loop of `rwlock_read_lock` ends where no writer is active.
unfoldable pub read_may_enter : Rwlock → Bool
read_may_enter rw = if positive rw.writers then false else true

-- The step of `rwlock_read_lock` under the spinlock.
unfoldable pub read_enter : Rwlock → Rwlock
read_enter rw = record rw { readers = inc rw.readers }

-- `rwlock_read_trylock`: the check under the spinlock decides.
unfoldable pub read_trylock : Rwlock → Bool × Rwlock
read_trylock rw =
    if positive rw.writers then (false, rw) else (true, record rw { readers = inc rw.readers })

unfoldable pub read_unlock : Rwlock → Rwlock
read_unlock rw = record rw { readers = dec rw.readers }

-- The first part of `rwlock_write_lock`: a try to claim writer status, under the spinlock.
unfoldable pub write_claim : Rwlock → Bool × Rwlock
write_claim rw =
    if positive rw.writers then (false, rw) else (true, record rw { writers = inc rw.writers })

-- Its second loop ends where no reader is left.
unfoldable pub write_may_enter : Rwlock → Bool
write_may_enter rw = if positive rw.readers then false else true

unfoldable pub write_trylock : Rwlock → Bool × Rwlock
write_trylock rw =
    if positive rw.writers || positive rw.readers
    then (false, rw)
    else (true, record rw { writers = inc rw.writers })

unfoldable pub write_unlock : Rwlock → Rwlock
write_unlock rw = record rw { writers = dec rw.writers }

-- `rwlock_write_downgrade` makes two steps: the reader comes first.
unfoldable pub downgrade_enter : Rwlock → Rwlock
downgrade_enter rw = record rw { readers = inc rw.readers }

unfoldable pub downgrade_leave : Rwlock → Rwlock
downgrade_leave rw = record rw { writers = dec rw.writers }

unfoldable pub is_read_locked : Rwlock → Bool
is_read_locked rw = positive rw.readers

unfoldable pub is_write_locked : Rwlock → Bool
is_write_locked rw = positive rw.writers

unfoldable pub is_locked : Rwlock → Bool
unfolding is_read_locked is_write_locked
is_locked rw = is_read_locked rw || is_write_locked rw
