-- ===== src/Sync/Rwlock/Threads.antt =====
-- Threads that use one lock of kernel/sync/rwlock.c, with any interleaving of their steps.
use ccoperating_system_x.Common.{ℕ, ◌<◌, ◌≡◌, true, List, set, get_or, length}
use ccoperating_system_x.Sync.Rwlock.{
  Rwlock, read_may_enter, read_enter, read_trylock, read_unlock, write_claim, write_may_enter,
  write_trylock, write_unlock, downgrade_enter, downgrade_leave,
}

-- Where a thread stands. `entering` has passed the loop of `rwlock_read_lock`, `claimed` waits in
-- the second loop of `rwlock_write_lock`, and `downgrading` is between the two steps of
-- `rwlock_write_downgrade`.
pub data Pc : Type 0 where
  idle entering reading claimed writing downgrading : Pc

pub record State : Type 0 where
  pub lock : Rwlock
  pub pcs : List Pc

abbrev pub pc : State → ℕ → Pc
pc s i = get_or s.pcs i idle

-- The state in which the thread `i` has gone to `p` and the lock is `l`.
abbrev pub go : State → ℕ → Pc → Rwlock → State
go s i p l = record { lock = l; pcs = set s.pcs i p }

-- The steps that all calls but `rwlock_read_lock` make.
pub data Step (s : State) : State → Type 0 where
  trylock_reads :
      (i : ℕ)
      → i < length s.pcs
      → pc s i ≡ idle
      → (read_trylock s.lock).0 ≡ true
      → Step s (go s i reading (read_trylock s.lock).1)
  unlocks_read :
      (i : ℕ) → i < length s.pcs → pc s i ≡ reading → Step s (go s i idle (read_unlock s.lock))
  claims :
      (i : ℕ)
      → i < length s.pcs
      → pc s i ≡ idle
      → (write_claim s.lock).0 ≡ true
      → Step s (go s i claimed (write_claim s.lock).1)
  starts_write :
      (i : ℕ)
      → i < length s.pcs
      → pc s i ≡ claimed
      → write_may_enter s.lock ≡ true
      → Step s (go s i writing s.lock)
  trylock_writes :
      (i : ℕ)
      → i < length s.pcs
      → pc s i ≡ idle
      → (write_trylock s.lock).0 ≡ true
      → Step s (go s i writing (write_trylock s.lock).1)
  unlocks_write :
      (i : ℕ) → i < length s.pcs → pc s i ≡ writing → Step s (go s i idle (write_unlock s.lock))
  downgrades :
      (i : ℕ)
      → i < length s.pcs
      → pc s i ≡ writing
      → Step s (go s i downgrading (downgrade_enter s.lock))
  downgraded :
      (i : ℕ)
      → i < length s.pcs
      → pc s i ≡ downgrading
      → Step s (go s i reading (downgrade_leave s.lock))

-- The two steps of `rwlock_read_lock`, beside the others.
pub data AnyStep (s : State) : State → Type 0 where
  other : {t : State} → Step s t → AnyStep s t
  passes :
      (i : ℕ)
      → i < length s.pcs
      → pc s i ≡ idle
      → read_may_enter s.lock ≡ true
      → AnyStep s (go s i entering s.lock)
  enters :
      (i : ℕ)
      → i < length s.pcs
      → pc s i ≡ entering
      → AnyStep s (go s i reading (read_enter s.lock))

pub data Reach (s : State) : State → Type 0 where
  here : Reach s s
  next : {t u : State} → Reach s t → Step t u → Reach s u

pub data AnyReach (s : State) : State → Type 0 where
  here : AnyReach s s
  next : {t u : State} → AnyReach s t → AnyStep t u → AnyReach s u
