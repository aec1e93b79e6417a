-- ===== src/Sync.antt =====
-- kernel/sync: wait queues, the read-write lock, the semaphore and the mutex. Sections under a
-- spinlock are single steps, and each atomic access outside one is a step of its own.
pub mod WaitQueue
pub mod Rwlock
pub mod Semaphore
pub mod Mutex
mod Tests
