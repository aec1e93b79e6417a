-- ===== src/Sched/Pick.antt =====
-- The priority class of kernel/process/sched_prio.c: counters that agree with the arrays, and what
-- is picked next.
use native.Mathlib.Decide.{ℕ_discrete}
use mathlib.Core.Path.{subst}
use ccoperating_system_x.Common.{
  ℕ, ◌<◌, ◌≡◌, refl, ap, sym, ◌∙◌, true, false, Option, none, some, List, [], ◌∷◌, length, ◌==◌,
  if◌then◌else◌, arith, get_or, inl, inr, Bool-cases, ltb, leb,
}
use ccoperating_system_x.Sched.{PrioData}
use ccoperating_system_x.Sched.Prio.{
  find_from, swap_levels, prio_levels, pick_data, pick_active, swap_active_expired,
}
use ccoperating_system_x.Sched.Levels.{
  total, Highest, at_level, all_empty, find_from-Highest, swap_levels_lem,
}

-- Both arrays have all levels, and the counters are the numbers of tasks in them.
pub record IsValid (d : PrioData) : Type 0 where
  pub active_levels : length d.active ≡ prio_levels
  pub expired_levels : length d.expired ≡ prio_levels
  pub active_count : d.nr_active ≡ total d.active
  pub expired_count : d.nr_expired ≡ total d.expired

-- The array that a pick looks at: the expired one, once the active one is used up.
abbrev pub current : PrioData → List (List ℕ)
current d = if d.nr_active == 0 then d.expired else d.active

-- What a pick may return.
pub data Picked (d : PrioData) : Option ℕ × PrioData → Type 0 where
  chosen :
      (k p : ℕ) (q : List ℕ) {d' : PrioData}
      → k < prio_levels
      → get_or (current d) k [] ≡ p ∷ q
      → ((j : ℕ) → j < k → get_or (current d) j [] ≡ [])
      → d'.active ≡ current d
      → d'.expired ≡ (if d.nr_active == 0 then d.active else d.expired)
      → IsValid d'
      → Picked d (some p, d')
  idle : total d.active ≡ 0 → total d.expired ≡ 0 → Picked d (none, d)

swap-IsValid :
    (d : PrioData)
    → IsValid d
    → IsValid (swap_active_expired d)
      × ((swap_active_expired d).active ≡ d.expired)
      × ((swap_active_expired d).expired ≡ d.active)
unfolding swap_active_expired
swap-IsValid d v =
    let e = swap_levels_lem d.active d.expired (v.active_levels ∙ sym v.expired_levels) in
    let e0 : (swap_levels d.active d.expired).0 ≡ d.expired = ap (λ r. r.0) e in
    let e1 : (swap_levels d.active d.expired).1 ≡ d.active = ap (λ r. r.1) e in
    (
      record {
        active_levels = ap length e0 ∙ v.expired_levels;
        expired_levels = ap length e1 ∙ v.active_levels;
        active_count = v.expired_count ∙ sym (ap total e0);
        expired_count = v.active_count ∙ sym (ap total e1);
      },
      e0,
      e1,
    )

-- The end of a pick, from an array that is not empty.
pick_active-first :
    (d : PrioData) (r : ℕ)
    → Highest d.active 0 r
    → find_from d.active 0 ≡ r
    → length d.active ≡ prio_levels
    → 0 < total d.active
    → (k p : ℕ) × (q : List ℕ) × (k < prio_levels)
      × (get_or d.active k [] ≡ p ∷ q)
      × ((j : ℕ) → j < k → get_or d.active j [] ≡ [])
      × (pick_active d ≡ some p)
unfolding pick_active
pick_active-first d _ (at_level k p q lt e before) r len some_task =
    let at : find_from d.active 0 ≡ k = r ∙ omega arith in
    let small : leb prio_levels k ≡ false = ground arith in
    (k, p, q, omega arith, e, before, rw (at, small, e))
pick_active-first d _ (all_empty z) r len some_task = absurd (omega arith)

-- A pick from the array `current d`, once the state is the one that it looks at.
pick-from :
    (d d' : PrioData)
    → IsValid d'
    → d'.active ≡ current d
    → d'.expired ≡ (if d.nr_active == 0 then d.active else d.expired)
    → 0 < total d'.active
    → Picked d (pick_active d', d')
pick-from d d' v same same' some_task =
    let (k, p, q, lt, e, before, picked) =
      pick_active-first d' (find_from d'.active 0) (find_from-Highest d'.active 0) refl
        v.active_levels some_task in
    subst (λ o. Picked d (o, d')) (sym picked)
      (chosen k p q lt (ap (λ l. get_or l k []) (sym same) ∙ e)
        (λ j h. ap (λ l. get_or l j []) (sym same) ∙ before j h) same same' v)

-- With counters that agree with the arrays, `prio_pick_next_task` returns the first task of the
-- highest level that has one, in the active array or, where that is empty, in the expired one,
-- which then becomes the active one; it returns NULL exactly where no task is queued.
pub pick_data-Picked : (d : PrioData) → IsValid d → Picked d (pick_data d)
unfolding pick_data
pick_data-Picked d v = elim (ℕ_discrete d.nr_active 0) [
  | yes none_active ↦
      let e : (d.nr_active == 0) ≡ true = ground arith in
      elim (Bool-cases (ltb 0 d.nr_expired)) [
        | inl some_expired ↦
            let (v', a, x) = swap-IsValid d v in
            rw (e, some_expired)
              (pick-from d (swap_active_expired d) v' (a ∙ rw e) (x ∙ rw e)
                (subst (λ l. 0 < total l) (sym a) (let c = v.expired_count in ground arith)))
        | inr none_expired ↦
            rw (e, none_expired)
              (idle (let c = v.active_count in omega arith)
                (let c = v.expired_count in ground arith))
      ]
  | no some_active ↦
      let e : (d.nr_active == 0) ≡ false = ground arith in
      rw e (pick-from d d v (rw e) (rw e) (let c = v.active_count in omega arith))
]
