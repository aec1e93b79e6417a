-- ===== src/Sync/Tests.antt =====
-- The wait queues and the read-write lock of kernel/sync with two waiters or two threads.
use ccoperating_system_x.Common.{
  ℕ, ◌+◌, ◌≡◌, ◌≢◌, refl, Bool, false, some, none, [], ◌∷◌, pos, arith,
}
use ccoperating_system_x.Sched.{Scheduler, Task, rr, prio, normal, blocked}
use ccoperating_system_x.Sched.Prio.{init_data}
use ccoperating_system_x.Sync.WaitQueue.{Entry}
use ccoperating_system_x.Sync.WaitQueue.Wake.{IsNormal}
use ccoperating_system_x.Sync.Rwlock.{init, write_trylock}
use ccoperating_system_x.Sync.Rwlock.Threads.{
  State, pc, go, idle, reading, writing, trylock_writes, Reach,
}
use ccoperating_system_x.Sync.Semaphore.{sem_init, post, sem_getvalue}
use ccoperating_system_x.Sync.Semaphore.Ledger as Sem
use ccoperating_system_x.Sync.Mutex.{mutex_init}
use ccoperating_system_x.Sync.Mutex.Race as Mtx
use ccoperating_system_x.Sync.Rwlock.Exclusion.{writer_alone}

abbrev asleep : ℕ → Task
asleep p = record {
  state = blocked;
  policy = normal;
  sched_class = some rr;
  time_slice = 3;
  time_slice_total = 10;
  priority = pos 0;
  nice = pos 0;
}

abbrev nothing_ready : Scheduler
nothing_ready = record {
  task = asleep;
  run_queue = [];
  current = none;
  idle = none;
  nr_running = 0;
  need_resched = false;
  normal_rq = record { sched_class = some rr; queue = []; nr_running = 0; class_data = init_data };
  priority_rq = record {
    sched_class = some prio;
    queue = [];
    nr_running = 0;
    class_data = init_data;
  };
  normal_class = some rr;
  priority_class = some prio;
}

abbrev waiter : Bool → ℕ → Entry
waiter exclusive p = record { task = some p; exclusive = exclusive }

waiter-IsNormal : (p : ℕ) → IsNormal (waiter false p)
waiter-IsNormal p = ((p, refl), refl)

abbrev two_idle : State
two_idle = record { lock = init; pcs = idle ∷ idle ∷ [] }

-- The first thread has made `rwlock_write_trylock`.
abbrev one_writes : State
one_writes = go two_idle 0 writing (write_trylock init).1

one_writes-Reach : Reach two_idle one_writes
unfolding write_trylock init
one_writes-Reach = Reach.next Reach.here (trylock_writes 0 (omega arith) refl refl)

writer_alone_example : (pc one_writes 1 ≢ writing) × (pc one_writes 1 ≢ reading)
writer_alone_example = writer_alone 2 0 1 one_writes-Reach (omega arith) refl

init-free : (init.writers ≡ pos 0) × (init.readers ≡ pos 0)
unfolding init
init-free = (refl, refl)

-- One post and one take of a semaphore that starts empty.
abbrev empty_sem : Sem.State
empty_sem = record { sem = sem_init (pos 0); taken = 0; posted = 0 }

abbrev posted_once : Sem.State
posted_once = record { sem = post (sem_init (pos 0)); taken = 0; posted = 1 }

posted_once-Reach : Sem.Reach empty_sem posted_once
posted_once-Reach = Sem.Reach.next Sem.Reach.here Sem.posts

sem_balanced_example :
    (n : ℕ) × (sem_getvalue posted_once.sem ≡ pos n) × (n + posted_once.taken ≡ 0 + 1)
sem_balanced_example = Sem.sem_balanced 0 posted_once-Reach (omega arith)

abbrev one_waits : Mtx.State
one_waits = record { mutex = mutex_init; pcs = Mtx.waiting ∷ Mtx.idle ∷ [] }

mutex-free : (mutex_init.locked ≡ 0) × (mutex_init.owner ≡ none)
unfolding mutex_init
mutex-free = (refl, refl)

mutex_lock_race_example :
    (t : Mtx.State) × Mtx.Reach one_waits t
    × (Mtx.pc t 0 ≡ Mtx.holding)
    × (Mtx.pc t 1 ≡ Mtx.holding)
mutex_lock_race_example =
    Mtx.mutex_lock_race one_waits 0 1 (omega arith) (omega arith) (omega arith) refl refl
      mutex-free.0 mutex-free.1
