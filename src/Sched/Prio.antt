-- ===== src/Sched/Prio.antt =====
-- kernel/process/sched_prio.c: the priority class. 128 levels, 0 the highest, in two arrays.
use ccoperating_system_x.Common.{
  ℕ, ◌+◌, ◌-◌, ◌%◌, Bool, true, false, ◌&&◌, Option, none, some, List, [], ◌∷◌, ◌++◌, ltb, leb,
  ◌==◌, if◌then◌else◌, ℤ, pos, negsuc, lt_ℤ, eq_ℤ, add_neg, set, get_or, replicate,
}
use ccoperating_system_x.Sched.{Task, Rq, PrioData, prio, priority, u32}
use ccoperating_system_x.Sched.Queue.{add, del, first, is_empty}

abbrev pub prio_max : ℕ
prio_max = 0

abbrev pub prio_min : ℕ
prio_min = 127

abbrev pub prio_default : ℕ
prio_default = 64

abbrev pub prio_levels : ℕ
prio_levels = 128

-- `PRIO_TIMESLICE`
unfoldable pub prio_timeslice : ℤ → ℕ
prio_timeslice p = if eq_ℤ p (pos 0) then 100 else if lt_ℤ p (pos 64) then 50 else 20

-- `find_highest_prio`, over the levels from `i` on.
unfoldable pub find_from : List (List ℕ) → ℕ → ℕ
unfolding is_empty
find_from [] i = prio_min
find_from (q ∷ levels) i = elim (is_empty q) [ false ↦ i | true ↦ find_from levels (i + 1) ]

unfoldable pub find_highest_prio : PrioData → ℕ
unfolding find_from
find_highest_prio data' = find_from data'.active 0

-- `list_splice_init`: the list goes to the front of the other and is left empty.
unfoldable pub splice_init : List ℕ → List ℕ → List ℕ × List ℕ
splice_init list head = ([], list ++ head)

-- One round of the loop of `prio_swap_active_expired`.
unfoldable pub swap_level : List ℕ → List ℕ → List ℕ × List ℕ
unfolding splice_init
swap_level active expired =
    let (active', temp) = splice_init active [] in
    let (expired', active'') = splice_init expired active' in
    let (temp', expired'') = splice_init temp expired' in (active'', expired'')

-- The loop, over the levels of both arrays.
unfoldable pub swap_levels : List (List ℕ) → List (List ℕ) → List (List ℕ) × List (List ℕ)
unfolding swap_level
swap_levels [] expired = ([], expired)
swap_levels (a ∷ active) [] = (a ∷ active, [])
swap_levels (a ∷ active) (e ∷ expired) =
    let (a', e') = swap_level a e in
    let (active', expired') = swap_levels active expired in (a' ∷ active', e' ∷ expired')

unfoldable pub swap_active_expired : PrioData → PrioData
unfolding swap_levels find_highest_prio
swap_active_expired d =
    let (active', expired') = swap_levels d.active d.expired in
    record d {
      active = active';
      expired = expired';
      nr_active = d.nr_expired;
      nr_expired = d.nr_active;
      highest_prio = find_from active' 0;
      active_expired = false;
    }

-- The level of a priority: clamped to the range.
unfoldable pub clamp_prio : ℤ → ℕ
clamp_prio (negsuc n) = prio_max
clamp_prio (pos n) = if ltb prio_min n then prio_min else n

unfoldable pub add_at : List (List ℕ) → ℕ → Bool → ℕ → List (List ℕ)
unfolding add
add_at levels i head p = set levels i (add head p (get_or levels i []))

unfoldable pub enqueue_data : PrioData → ℕ → Bool → Bool → ℕ → PrioData
unfolding add_at
enqueue_data d level to_expired head p =
    if to_expired
    then record d { expired = add_at d.expired level head p; nr_expired = (d.nr_expired + 1) % u32 }
    else record d {
      active = add_at d.active level head p;
      nr_active = (d.nr_active + 1) % u32;
      highest_prio = if ltb level d.highest_prio then level else d.highest_prio;
    }

-- `prio_enqueue_task`: the task `p`, whose fields are `t`.
unfoldable pub enqueue_task : Rq → ℕ → Task → Bool → Rq
unfolding enqueue_data clamp_prio
enqueue_task rq p t head = record rq {
  class_data = enqueue_data rq.class_data (clamp_prio t.priority) (t.time_slice == 0) head p;
  nr_running = (rq.nr_running + 1) % u32;
}

-- The node leaves the level that it is on.
unfoldable pub del_levels : ℕ → List (List ℕ) → List (List ℕ)
unfolding del
del_levels p [] = []
del_levels p (q ∷ levels) = del p q ∷ del_levels p levels

-- The counters of `prio_dequeue_task`, which guesses the array from the time slice.
unfoldable pub count_down : PrioData → ℕ → PrioData
count_down d time_slice =
    if time_slice == 0 && ltb 0 d.nr_expired
    then record d { nr_expired = d.nr_expired - 1 }
    else if ltb 0 d.nr_active
    then record d { nr_active = d.nr_active - 1 }
    else d

unfoldable pub dequeue_data : PrioData → ℕ → ℕ → PrioData
unfolding del_levels count_down find_highest_prio
dequeue_data d p time_slice =
    let d' : PrioData = count_down d time_slice in
    record d' {
      active = del_levels p d.active;
      expired = del_levels p d.expired;
      highest_prio = find_from (del_levels p d.active) 0;
    }

unfoldable pub dequeue_task : Rq → ℕ → Task → Rq
unfolding dequeue_data
dequeue_task rq p t = record rq {
  class_data = dequeue_data rq.class_data p t.time_slice;
  nr_running = (rq.nr_running + u32 - 1) % u32;
}

-- The end of `prio_pick_next_task`.
unfoldable pub pick_active : PrioData → Option ℕ
unfolding find_highest_prio first
pick_active d =
    let highest = find_highest_prio d in
    if leb prio_levels highest then none else first (get_or d.active highest [])

-- `prio_pick_next_task`, on the class data: what it returns, and the data that it leaves.
unfoldable pub pick_data : PrioData → Option ℕ × PrioData
unfolding pick_active swap_active_expired
pick_data d =
    if d.nr_active == 0
    then if ltb 0 d.nr_expired
      then (pick_active (swap_active_expired d), swap_active_expired d)
      else (none, d)
    else (pick_active d, d)

unfoldable pub pick_next_task : Rq → Option ℕ × Rq
unfolding pick_data
pick_next_task rq =
    ((pick_data rq.class_data).0, record rq { class_data = (pick_data rq.class_data).1 })

unfoldable pub should_preempt : Task → Task → Bool
should_preempt p curr =
    if lt_ℤ p.priority curr.priority
    then true
    else if eq_ℤ p.priority curr.priority
    then curr.time_slice == 0
    else false

unfoldable pub task_tick : Task → Task
task_tick t = if ltb 0 t.time_slice then record t { time_slice = t.time_slice - 1 } else t

-- The priority of `prio_task_fork`: from the nice value, then clamped.
unfoldable pub fork_prio : ℤ → ℤ
fork_prio (negsuc n) =
    let p : ℤ = add_neg prio_default n in if lt_ℤ p (pos prio_max) then pos prio_max else p
fork_prio (pos n) = pos prio_default

unfoldable pub clamp_range : ℤ → ℤ
clamp_range p =
    if lt_ℤ p (pos prio_max)
    then pos prio_max
    else if lt_ℤ (pos prio_min) p
    then pos prio_min
    else p

unfoldable pub task_fork : Task → ℤ → Task
unfolding fork_prio clamp_range prio_timeslice
task_fork t nice =
    let p : ℤ = clamp_range (fork_prio nice) in
    record t {
      sched_class = some prio;
      policy = priority;
      priority = p;
      time_slice = prio_timeslice p;
      time_slice_total = prio_timeslice p;
      nice = nice;
    }

unfoldable pub get_time_slice : Task → ℕ
unfolding prio_timeslice
get_time_slice t = prio_timeslice t.priority

-- The class data that `sched_prio_init` installs.
unfoldable pub init_data : PrioData
init_data = record {
  active = replicate prio_levels [];
  expired = replicate prio_levels [];
  nr_active = 0;
  nr_expired = 0;
  highest_prio = prio_min;
  active_expired = false;
}
