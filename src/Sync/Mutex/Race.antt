-- ===== src/Sync/Mutex/Race.antt =====
-- Threads that use one mutex of kernel/sync/mutex.c, and where they are not kept apart.
use ccoperating_system_x.Common.{
  ℕ, ◌<◌, ◌≡◌, ◌≢◌, sym, ◌∙◌, true, false, none, List, set, get_or, length, arith, length-set,
  get_or-set_self, get_or-set_ne,
}
use ccoperating_system_x.Sched.{Scheduler}
use ccoperating_system_x.Sync.Mutex.{
  Mutex, swap_locked, take_ownership, enlist, may_enter, write_locked, delist, owned_by,
  drop_ownership, write_unlocked, wake_from,
}

-- Where a thread stands: `claimed` has set `locked` but not `owner`, `entering` has passed the loop
-- of the slow path, `releasing` has cleared `owner` but not `locked`.
pub data Pc : Type 0 where
  idle waiting entering claimed holding releasing : Pc

pub record State : Type 0 where
  pub mutex : Mutex
  pub pcs : List Pc

abbrev pub pc : State → ℕ → Pc
pc s i = get_or s.pcs i idle

abbrev pub go : State → ℕ → Pc → Mutex → State
go s i p m = record { mutex = m; pcs = set s.pcs i p }

pub data Step (s : State) : State → Type 0 where
  claims :
      (i : ℕ)
      → i < length s.pcs
      → pc s i ≡ idle
      → (swap_locked s.mutex).0 ≡ true
      → Step s (go s i claimed (swap_locked s.mutex).1)
  waits :
      (i : ℕ)
      → i < length s.pcs
      → pc s i ≡ idle
      → (swap_locked s.mutex).0 ≡ false
      → Step s (go s i waiting (enlist s.mutex i))
  passes :
      (i : ℕ)
      → i < length s.pcs
      → pc s i ≡ waiting
      → may_enter s.mutex ≡ true
      → Step s (go s i entering s.mutex)
  stores :
      (i : ℕ)
      → i < length s.pcs
      → pc s i ≡ entering
      → Step s (go s i claimed (write_locked s.mutex))
  owns :
      (i : ℕ)
      → i < length s.pcs
      → pc s i ≡ claimed
      → Step s (go s i holding (take_ownership s.mutex i))
  delists : (i : ℕ) → Step s (record s { mutex = delist s.mutex i })
  drops :
      (i : ℕ)
      → i < length s.pcs
      → pc s i ≡ holding
      → owned_by s.mutex i ≡ true
      → Step s (go s i releasing (drop_ownership s.mutex))
  unlocks :
      (i : ℕ)
      → i < length s.pcs
      → pc s i ≡ releasing
      → Step s (go s i idle (write_unlocked s.mutex))
  wakes :
      (sched : Scheduler)
      → Step s (record s { mutex = (wake_from s.mutex s.mutex.wait_list sched).0 })

pub data Reach (s : State) : State → Type 0 where
  here : Reach s s
  next : {t u : State} → Reach s t → Step t u → Reach s u

free_lem :
    (m : Mutex) → m.locked ≡ 0 → m.owner ≡ none → (may_enter m ≡ true) × ((swap_locked m).0 ≡ true)
unfolding may_enter swap_locked
free_lem m l o = ground arith

moved : (s : State) (i : ℕ) (p : Pc) (m : Mutex) → i < length s.pcs → pc (go s i p m) i ≡ p
moved s i p m h = get_or-set_self s.pcs i p idle h

stayed : (s : State) (i j : ℕ) (p : Pc) (m : Mutex) → i ≢ j → pc (go s i p m) j ≡ pc s j
stayed s i j p m ne = get_or-set_ne s.pcs i j p idle ne

-- The slow path of `mutex_lock` does not exclude: wherever the mutex is free, one thread waits for
-- it and another is idle, both can end up holding it.
pub mutex_lock_race :
    (s : State) (i j : ℕ)
    → i < length s.pcs
    → j < length s.pcs
    → i ≢ j
    → pc s i ≡ waiting
    → pc s j ≡ idle
    → s.mutex.locked ≡ 0
    → s.mutex.owner ≡ none
    → (t : State) × Reach s t × (pc t i ≡ holding) × (pc t j ≡ holding)
mutex_lock_race s i j hi hj ne ei ej l o =
    let (may, free) = free_lem s.mutex l o in
    let ne' : j ≢ i = λ e. ne (sym e) in
    let s1 : State = go s i entering s.mutex in
    let l1 : length s1.pcs ≡ length s.pcs = length-set s.pcs i entering in
    let j1 : pc s1 j ≡ idle = stayed s i j entering s.mutex ne ∙ ej in
    let m2 : Mutex = (swap_locked s.mutex).1 in
    let s2 : State = go s1 j claimed m2 in
    let l2 : length s2.pcs ≡ length s.pcs = length-set s1.pcs j claimed ∙ l1 in
    let j2 : pc s2 j ≡ claimed = moved s1 j claimed m2 (omega arith) in
    let s3 : State = go s2 j holding (take_ownership m2 j) in
    let l3 : length s3.pcs ≡ length s.pcs = length-set s2.pcs j holding ∙ l2 in
    let i3 : pc s3 i ≡ entering =
      stayed s2 j i holding (take_ownership m2 j) ne'
      ∙ stayed s1 j i claimed m2 ne'
      ∙ moved s i entering s.mutex hi in
    let m4 : Mutex = write_locked s3.mutex in
    let s4 : State = go s3 i claimed m4 in
    let l4 : length s4.pcs ≡ length s.pcs = length-set s3.pcs i claimed ∙ l3 in
    let i4 : pc s4 i ≡ claimed = moved s3 i claimed m4 (omega arith) in
    let m5 : Mutex = take_ownership m4 i in
    (
      go s4 i holding m5,
      next
          (next
            (next (next (next here (passes i hi ei may)) (claims j (omega arith) j1 free))
              (owns j (omega arith) j2))
            (stores i (omega arith) i3))
          (owns i (omega arith) i4),
      moved s4 i holding m5 (omega arith),
      stayed s4 i j holding m5 ne
          ∙ stayed s3 i j claimed m4 ne
          ∙ moved s2 j holding (take_ownership m2 j) (omega arith),
    )
