-- ===== src/Sched/Counters.antt =====
-- `prio_enqueue_task` and `prio_dequeue_task` of kernel/process/sched_prio.c and the counters.
use ccoperating_system_x.Common.{
  ℕ, zero, suc, ◌+◌, ◌<◌, ◌≡◌, ◌≢◌, refl, ◌∙◌, Bool, true, false, none, List, [], ◌∷◌, arith,
  get_or, inl, inr, ◌⊎◌, ℤ, pos, negsuc,
}
use ccoperating_system_x.Sched.{PrioData, u32}
use ccoperating_system_x.Sched.Prio.{
  find_from, prio_levels, pick_data, pick_active, enqueue_data, dequeue_data, count_down,
  clamp_prio, init_data,
}
use ccoperating_system_x.Sched.Levels.{
  total, occurs_in, length-add_at, total-add_at, length-del_levels, total-del_levels,
  del_levels-absent,
}
use ccoperating_system_x.Sched.Pick.{IsValid}

-- Every priority falls on a level.
pub clamp_prio-lt : (p : ℤ) → clamp_prio p < prio_levels
unfolding clamp_prio
clamp_prio-lt (pos n) = ground arith
clamp_prio-lt (negsuc n) = omega arith

-- What `sched_prio_init` installs is valid.
pub init-IsValid : IsValid init_data
unfolding init_data
init-IsValid = record {
  active_levels = refl;
  expired_levels = refl;
  active_count = refl;
  expired_count = refl;
}

-- With counters that agree with the arrays and do not wrap, they agree still when a task has been
-- enqueued on any of the 128 levels, of either array, at either end.
pub enqueue-IsValid :
    (d : PrioData) (level : ℕ) (to_expired head : Bool) (p : ℕ)
    → IsValid d
    → level < prio_levels
    → d.nr_active + 1 < u32
    → d.nr_expired + 1 < u32
    → IsValid (enqueue_data d level to_expired head p)
unfolding enqueue_data
enqueue-IsValid d level true head p v lt ha he = record {
  active_levels = v.active_levels;
  expired_levels = length-add_at d.expired level head p ∙ v.expired_levels;
  active_count = v.active_count;
  expired_count =
      omega (arith, total-add_at d.expired level head p, v.expired_count, v.expired_levels);
}
enqueue-IsValid d level false head p v lt ha he = record {
  active_levels = length-add_at d.active level head p ∙ v.active_levels;
  expired_levels = v.expired_levels;
  active_count = omega (arith, total-add_at d.active level head p, v.active_count, v.active_levels);
  expired_count = v.expired_count;
}

-- With counters that agree with the arrays, and a task that is queued once, they agree still when it
-- has been taken out, if its time slice tells its array: 0 for the expired one.
pub dequeue-IsValid :
    (d : PrioData) (p time_slice : ℕ)
    → IsValid d
    → (time_slice ≡ 0) × (occurs_in p d.expired ≡ 1) × (occurs_in p d.active ≡ 0)
      ⊎ (time_slice ≢ 0) × (occurs_in p d.active ≡ 1) × (occurs_in p d.expired ≡ 0)
    → IsValid (dequeue_data d p time_slice)
unfolding dequeue_data count_down
dequeue-IsValid d p time_slice v (inl (z, here, gone)) = record {
  active_levels = length-del_levels p d.active ∙ v.active_levels;
  expired_levels = length-del_levels p d.expired ∙ v.expired_levels;
  active_count = ground (
    arith,
    v.active_count,
    v.expired_count,
    total-del_levels p d.expired here,
    del_levels-absent p d.active gone,
  );
  expired_count = ground (arith, v.expired_count, total-del_levels p d.expired here);
}
dequeue-IsValid d p time_slice v (inr (z, here, gone)) = record {
  active_levels = length-del_levels p d.active ∙ v.active_levels;
  expired_levels = length-del_levels p d.expired ∙ v.expired_levels;
  active_count = ground (arith, v.active_count, total-del_levels p d.active here);
  expired_count = ground (
    arith,
    v.expired_count,
    v.active_count,
    total-del_levels p d.active here,
    del_levels-absent p d.expired gone,
  );
}

-- The guess of `prio_dequeue_task` goes wrong: with an exhausted time slice a task on the active
-- array is counted off the expired one, while that has tasks.
pub dequeue_drift :
    (d : PrioData) (p : ℕ)
    → IsValid d
    → occurs_in p d.active ≡ 1
    → occurs_in p d.expired ≡ 0
    → 0 < d.nr_expired
    → ((dequeue_data d p 0).nr_active ≡ total (dequeue_data d p 0).active + 1)
      × ((dequeue_data d p 0).nr_expired + 1 ≡ total (dequeue_data d p 0).expired)
unfolding dequeue_data count_down
dequeue_drift d p v here gone some_expired = (
  ground (arith, v.active_count, total-del_levels p d.active here),
  ground (arith, v.expired_count, del_levels-absent p d.expired gone),
)

dequeue_last :
    (d : PrioData) (p : ℕ)
    → occurs_in p d.active ≡ 1
    → total d.active ≡ 1
    → total (dequeue_data d p 0).active ≡ 0
unfolding dequeue_data count_down
dequeue_last d p here last = ground (arith, total-del_levels p d.active here)

-- Levels without tasks are empty.
get_or-empty : (levels : List (List ℕ)) (k : ℕ) → total levels ≡ 0 → get_or levels k [] ≡ []
get_or-empty [] k h = refl
get_or-empty ([] ∷ levels) zero h = refl
get_or-empty ((x ∷ q) ∷ levels) zero h = absurd (omega arith)
get_or-empty (q ∷ levels) (suc k) h = get_or-empty levels k (omega arith)

pick-stuck : (d : PrioData) → total d.active ≡ 0 → pick_active d ≡ none
unfolding pick_active
pick-stuck d z = ground (arith, get_or-empty d.active (find_from d.active 0) z)

-- A queued task is lost: with counters that agree with the arrays, when the last task of the active
-- array leaves with an exhausted time slice while tasks wait on the expired one, the next pick
-- returns NULL and swaps nothing, and tasks are still waiting.
pub pick-dequeue_stranded :
    (d : PrioData) (p : ℕ)
    → IsValid d
    → occurs_in p d.active ≡ 1
    → total d.active ≡ 1
    → occurs_in p d.expired ≡ 0
    → 0 < d.nr_expired
    → (pick_data (dequeue_data d p 0) ≡ (none, dequeue_data d p 0))
      × (0 < total (dequeue_data d p 0).expired)
unfolding pick_data
pick-dequeue_stranded d p v here last gone some_expired =
    let (a, x) = dequeue_drift d p v here gone some_expired in
    let z : total (dequeue_data d p 0).active ≡ 0 = dequeue_last d p here last in
    (ground (arith, a, pick-stuck (dequeue_data d p 0) z), omega (arith, x))
