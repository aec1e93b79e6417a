-- ===== src/Sync/Semaphore/Ledger.antt =====
-- What kernel/sync/semaphore.c gives out, over any interleaving of the steps of its calls.
use ccoperating_system_x.Common.{
  ℕ, ◌+◌, ◌^◌, ◌<◌, ◌≤◌, ◌≡◌, refl, true, false, ℤ, pos, negsuc, arith, zero, suc, ◌∙◌, List, [],
  ◌∷◌,
}
use ccoperating_system_x.Sched.{Scheduler}
use ccoperating_system_x.Sync.Semaphore.{
  Semaphore, compare_and_swap, sem_init, try_take, enlist, delist, take_last, post, atomic_inc,
  wake_from, wake_first, sem_getvalue,
}

-- The semaphore, and how often calls have taken and posted so far.
pub record State : Type 0 where
  pub sem : Semaphore
  pub taken : ℕ
  pub posted : ℕ

pub data Step (s : State) : State → Type 0 where
  takes :
      (old : ℤ)
      → (try_take s.sem old).0 ≡ true
      → Step s (record s { sem = (try_take s.sem old).1; taken = s.taken + 1 })
  misses :
      (old : ℤ)
      → (try_take s.sem old).0 ≡ false
      → Step s (record s { sem = (try_take s.sem old).1 })
  enlists : (p : ℕ) → Step s (record s { sem = enlist s.sem p })
  delists : (p : ℕ) → Step s (record s { sem = delist s.sem p })
  takes_last :
      (take_last s.sem).0 ≡ true
      → Step s (record s { sem = (take_last s.sem).1; taken = s.taken + 1 })
  waits_on : (take_last s.sem).0 ≡ false → Step s (record s { sem = (take_last s.sem).1 })
  posts : Step s (record s { sem = post s.sem; posted = s.posted + 1 })
  wakes : (sched : Scheduler) → Step s (record s { sem = (wake_first s.sem sched).0 })

pub data Reach (s : State) : State → Type 0 where
  here : Reach s s
  next : {t u : State} → Reach s t → Step t u → Reach s u

-- The counter is not negative, and it is what has been put in and not been taken.
abbrev pub Balanced : ℕ → State → Type 0
Balanced value s = (n : ℕ) × (s.sem.count ≡ pos n) × (n + s.taken ≡ value + s.posted)

-- A swap that succeeds takes one from a positive counter; one that fails changes nothing.
try_take-count :
    (s : Semaphore) (old : ℤ) (n : ℕ)
    → s.count ≡ pos n
    → ((try_take s old).0 ≡ true → (m : ℕ) × (n ≡ m + 1) × ((try_take s old).1.count ≡ pos m))
      × ((try_take s old).0 ≡ false → (try_take s old).1.count ≡ pos n)
unfolding try_take compare_and_swap
try_take-count s (negsuc o) n e = (λ h. absurd ground arith, λ h. e)
try_take-count s (pos zero) n e = (λ h. absurd ground arith, λ h. e)
try_take-count s (pos (suc o)) n e = (λ h. (o, ground arith, ground arith), λ h. ground arith)

take_last-count :
    (s : Semaphore) (n : ℕ)
    → s.count ≡ pos n
    → ((take_last s).0 ≡ true → (n ≡ 1) × ((take_last s).1.count ≡ pos 0))
      × ((take_last s).0 ≡ false → (take_last s).1.count ≡ pos n)
unfolding take_last compare_and_swap
take_last-count s n e = (λ h. (ground arith, ground arith), λ h. ground arith)

wake_from-count :
    (s : Semaphore) (ps : List ℕ) (sched : Scheduler) → (wake_from s ps sched).0.count ≡ s.count
unfolding wake_from
wake_from-count s [] sched = refl
wake_from-count s (p ∷ rest) sched = refl

wake_first-count : (s : Semaphore) (sched : Scheduler) → (wake_first s sched).0.count ≡ s.count
unfolding wake_first
wake_first-count s sched = wake_from-count s s.wait_list sched

post-count :
    (s : Semaphore) (n : ℕ) → s.count ≡ pos n → n + 1 < 2 ^ 31 → (post s).count ≡ pos (suc n)
unfolding post atomic_inc
post-count s n e h = rw e (ground arith)

-- Every step keeps the books, as long as the start value and the posts stay below the end of `int`.
Step-Balanced :
    (value : ℕ) {s t : State}
    → Step s t
    → value + t.posted < 2 ^ 31
    → Balanced value s
    → Balanced value t
unfolding enlist delist
Step-Balanced value {s} (takes old h) lt (n, e, b) =
    let (m, p, q) = (try_take-count s.sem old n e).0 h in (m, q, omega arith)
Step-Balanced value {s} (misses old h) lt (n, e, b) = (n, (try_take-count s.sem old n e).1 h, b)
Step-Balanced value (enlists p) lt (n, e, b) = (n, e, b)
Step-Balanced value (delists p) lt (n, e, b) = (n, e, b)
Step-Balanced value {s} (takes_last h) lt (n, e, b) =
    let (p, q) = (take_last-count s.sem n e).0 h in (0, q, omega arith)
Step-Balanced value {s} (waits_on h) lt (n, e, b) = (n, (take_last-count s.sem n e).1 h, b)
Step-Balanced value {s} posts lt (n, e, b) =
    (suc n, post-count s.sem n e (omega arith), omega arith)
Step-Balanced value {s} (wakes sched) lt (n, e, b) = (n, wake_first-count s.sem sched ∙ e, b)

posted_grows : {s t : State} → Step s t → s.posted ≤ t.posted
posted_grows (takes old h) = omega arith
posted_grows (misses old h) = omega arith
posted_grows (enlists p) = omega arith
posted_grows (delists p) = omega arith
posted_grows (takes_last h) = omega arith
posted_grows (waits_on h) = omega arith
posted_grows posts = omega arith
posted_grows (wakes sched) = omega arith

-- Over any interleaving of the calls of a semaphore that starts at a value that is not negative,
-- where the value and the posts together stay below 2 ^ 31, the counter stays not negative, and
-- what was taken and what is left make up the start value and the posts: no more is ever taken than
-- there was.
pub sem_balanced :
    (value : ℕ) {t : State}
    → Reach (record { sem = sem_init (pos value); taken = 0; posted = 0 }) t
    → value + t.posted < 2 ^ 31
    → (n : ℕ) × (sem_getvalue t.sem ≡ pos n) × (n + t.taken ≡ value + t.posted)
unfolding sem_init sem_getvalue
sem_balanced value here lt = (value, refl, refl)
sem_balanced value (next r st) lt =
    Step-Balanced value st lt (sem_balanced value r (omega (arith, posted_grows st)))
