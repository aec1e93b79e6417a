-- ===== src/Sync/WaitQueue.antt =====
-- kernel/sync/waitqueue.c: sleeping on a wait queue, and waking its waiters.
pub mod Wake
use ccoperating_system_x.Common.{
  ℕ, ◌+◌, Bool, true, false, not, ◌&&◌, ◌||◌, Option, none, some, List, [], ◌∷◌, ◌++◌, ltb, leb,
  ◌==◌, if◌then◌else◌,
}
use ccoperating_system_x.Sched.{Scheduler, ready, blocked}
use ccoperating_system_x.Sched.Core.{set_task, enqueue_task, set_resched, schedule}

-- `wait_queue_entry_t`; a `wait_queue_head_t` is the list of its entries.
pub record Entry : Type 0 where
  pub task : Option ℕ
  pub exclusive : Bool

-- The result of `__wake_up_common`: the entries left, how many processes it woke, the scheduler.
pub record Woken : Type 0 where
  pub left : List Entry
  pub count : ℕ
  pub sched : Scheduler

-- `add_to_waitqueue_and_block`: the new queue and the scheduler; `none` without a current process,
-- where the code writes through a null pointer.
unfoldable pub add_and_block : List Entry → Bool → Scheduler → Option (List Entry × Scheduler)
add_and_block wq exclusive s = elim s.current [
  | none ↦ none
  | some p ↦ some (
    wq ++ record { task = some p; exclusive = exclusive } ∷ [],
    schedule (set_task s p (record (s.task p) { state = blocked })),
  )
]

-- `sleep_on` at a queue that is not NULL.
unfoldable pub sleep_on : List Entry → Scheduler → Option (List Entry × Scheduler)
unfolding add_and_block
sleep_on wq s = add_and_block wq false s

-- Waking the process of an entry.
unfoldable pub wake_task : Scheduler → ℕ → Scheduler
wake_task s p = enqueue_task (set_task s p (record (s.task p) { state = ready })) p false

unfoldable pub wake_entry : Entry → Scheduler → Scheduler
unfolding wake_task
wake_entry e s = elim e.task [ none ↦ s | some p ↦ wake_task s p ]

unfoldable pub woken_by : Entry → ℕ
woken_by e = elim e.task [ none ↦ 0 | some p ↦ 1 ]

-- An entry that stays in the queue, in front of what a loop leaves.
unfoldable pub keep : Entry → Woken → Woken
keep e w = record w { left = e ∷ w.left }

-- `nr_to_wake > 0 && woken >= nr_to_wake`
unfoldable pub enough : ℕ → ℕ → Bool
enough nr_to_wake woken = ltb 0 nr_to_wake && leb nr_to_wake woken

-- The first loop of `__wake_up_common`, over the exclusive waiters.
unfoldable pub wake_exclusive : Bool → ℕ → List Entry → ℕ → Scheduler → Woken
unfolding keep enough
wake_exclusive exclusive_only nr_to_wake [] woken s = record { left = []; count = woken; sched = s }
wake_exclusive exclusive_only nr_to_wake (e ∷ wq) woken s =
    if enough nr_to_wake woken
    then record { left = e ∷ wq; count = woken; sched = s }
    else elim e.exclusive [
      | false ↦ keep e (wake_exclusive exclusive_only nr_to_wake wq woken s)
      | true ↦ elim exclusive_only [
        | false ↦ record { left = wq; count = woken + woken_by e; sched = wake_entry e s }
        | true ↦ wake_exclusive exclusive_only nr_to_wake wq (woken + woken_by e) (wake_entry e s)
      ]
    ]

-- The second loop, over the others.
unfoldable pub wake_normal : ℕ → List Entry → ℕ → Scheduler → Woken
unfolding keep enough
wake_normal nr_to_wake [] woken s = record { left = []; count = woken; sched = s }
wake_normal nr_to_wake (e ∷ wq) woken s =
    if enough nr_to_wake woken
    then record { left = e ∷ wq; count = woken; sched = s }
    else elim e.exclusive [
      | true ↦ keep e (wake_normal nr_to_wake wq woken s)
      | false ↦ wake_normal nr_to_wake wq (woken + woken_by e) (wake_entry e s)
    ]

-- Whether the second loop runs.
unfoldable pub wake_more : ℕ → Woken → Woken
wake_more nr_to_wake w =
    if ltb w.count nr_to_wake || nr_to_wake == 0
    then wake_normal nr_to_wake w.left w.count w.sched
    else w

unfoldable pub resched_if : Woken → Woken
resched_if w = if ltb 0 w.count then record w { sched = set_resched w.sched } else w

-- `__wake_up_common` at a queue that is not NULL.
unfoldable pub wake_up_common : Bool → ℕ → List Entry → Scheduler → Woken
wake_up_common exclusive_only nr_to_wake [] s = record { left = []; count = 0; sched = s }
wake_up_common exclusive_only nr_to_wake (e ∷ wq) s =
    resched_if (wake_more nr_to_wake (wake_exclusive exclusive_only nr_to_wake (e ∷ wq) 0 s))

unfoldable pub wake_up : List Entry → Scheduler → Woken
wake_up wq s = wake_up_common false 1 wq s

unfoldable pub wake_up_all : List Entry → Scheduler → Woken
wake_up_all wq s = wake_up_common false 0 wq s

unfoldable pub wake_up_exclusive : List Entry → Scheduler → Woken
wake_up_exclusive wq s = wake_up_common true 1 wq s
