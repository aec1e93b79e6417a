-- ===== src/Sched/Levels.antt =====
-- The two arrays of kernel/process/sched_prio.c: how many tasks they hold, and where the first is.
use native.Mathlib.Decide.{ℕ_discrete}
use mathlib.Core.Path.{subst}
use ccoperating_system_x.Common.{
  ℕ, zero, suc, ◌+◌, ◌<◌, ◌≡◌, refl, ap, Bool, List, [], ◌∷◌, ◌++◌, length, length-set, ◌==◌,
  if◌then◌else◌, arith, get_or,
}
use ccoperating_system_x.Sched.Queue.{add, del, length-add}
use ccoperating_system_x.Sched.Prio.{find_from, swap_levels, add_at, del_levels, prio_min}
use mathlib.Core.List.{append-nil}

-- The tasks on all levels.
abbrev pub total : List (List ℕ) → ℕ
total [] = 0
total (q ∷ levels) = length q + total levels

-- How often a task is on a list, and on all levels.
abbrev pub occurs : ℕ → List ℕ → ℕ
occurs p [] = 0
occurs p (x ∷ q) = (if x == p then 1 else 0) + occurs p q

abbrev pub occurs_in : ℕ → List (List ℕ) → ℕ
occurs_in p [] = 0
occurs_in p (q ∷ levels) = occurs p q + occurs_in p levels

pub length-add_at :
    (levels : List (List ℕ)) (i : ℕ) (head : Bool) (p : ℕ)
    → length (add_at levels i head p) ≡ length levels
unfolding add_at
length-add_at levels i head p = length-set levels i (add head p (get_or levels i []))

pub total-add_at :
    (levels : List (List ℕ)) (i : ℕ) (head : Bool) (p : ℕ)
    → i < length levels
    → total (add_at levels i head p) ≡ total levels + 1
unfolding add_at
total-add_at [] i head p h = absurd (omega arith)
total-add_at (q ∷ levels) zero head p h = omega (arith, length-add head p q)
total-add_at (q ∷ levels) (suc i) head p h =
    omega (arith, total-add_at levels i head p (omega arith))

pub length-del_levels :
    (p : ℕ) (levels : List (List ℕ)) → length (del_levels p levels) ≡ length levels
unfolding del_levels
length-del_levels p [] = refl
length-del_levels p (q ∷ levels) = ap suc (length-del_levels p levels)

del-absent : (p : ℕ) (q : List ℕ) → occurs p q ≡ 0 → del p q ≡ q
unfolding del
del-absent p [] h = refl
del-absent p (x ∷ q) h = ground (arith, del-absent p q)

length-del_once : (p : ℕ) (q : List ℕ) → occurs p q ≡ 1 → length (del p q) + 1 ≡ length q
unfolding del
length-del_once p [] h = absurd (omega arith)
length-del_once p (x ∷ q) h = ground (arith, length-del_once p q)

pub del_levels-absent :
    (p : ℕ) (levels : List (List ℕ)) → occurs_in p levels ≡ 0 → del_levels p levels ≡ levels
unfolding del_levels
del_levels-absent p [] h = refl
del_levels-absent p (q ∷ levels) h =
    rw (del-absent p q (omega arith), del_levels-absent p levels (omega arith))

pub total-del_levels :
    (p : ℕ) (levels : List (List ℕ))
    → occurs_in p levels ≡ 1
    → total (del_levels p levels) + 1 ≡ total levels
unfolding del_levels
total-del_levels p [] h = absurd (omega arith)
total-del_levels p (q ∷ levels) h = elim (ℕ_discrete (occurs p q) 0) [
  | yes e ↦ omega (arith, ap length (del-absent p q e), total-del_levels p levels (omega arith))
  | no ne ↦ omega (
    arith,
    length-del_once p q (omega arith),
    ap total (del_levels-absent p levels (omega arith)),
  )
]

-- What the scan for the highest level finds, in levels that are counted from `i`.
pub data Highest (levels : List (List ℕ)) (i : ℕ) : ℕ → Type 0 where
  at_level :
      (k p : ℕ) (q : List ℕ)
      → k < length levels
      → get_or levels k [] ≡ p ∷ q
      → ((j : ℕ) → j < k → get_or levels j [] ≡ [])
      → Highest levels i (i + k)
  all_empty : total levels ≡ 0 → Highest levels i prio_min

Highest-skip :
    (levels : List (List ℕ)) (i : ℕ) {r : ℕ} → Highest levels (i + 1) r → Highest ([] ∷ levels) i r
Highest-skip levels i (at_level k p q lt e before) =
    let s : i + suc k ≡ i + 1 + k = omega arith in
    subst (Highest ([] ∷ levels) i) s (at_level (suc k) p q (omega arith) e (below before))
  where
    below :
        ((j : ℕ) → j < k → get_or levels j [] ≡ [])
        → (j : ℕ) → j < suc k
        → get_or ([] ∷ levels) j [] ≡ []
    below h zero lt' = refl
    below h (suc j) lt' = h j (omega arith)
Highest-skip levels i (all_empty e) = all_empty (omega arith)

pub find_from-Highest : (levels : List (List ℕ)) (i : ℕ) → Highest levels i (find_from levels i)
unfolding find_from
find_from-Highest [] i = all_empty refl
find_from-Highest ((p ∷ q) ∷ levels) i =
    let s : i + 0 ≡ i = omega arith in
    subst (Highest ((p ∷ q) ∷ levels) i) s
      (at_level 0 p q (omega arith) refl (λ j lt. absurd (omega arith)))
find_from-Highest ([] ∷ levels) i = Highest-skip levels i (find_from-Highest levels (i + 1))

-- The splices of `prio_swap_active_expired` exchange the arrays.
pub swap_levels_lem :
    (active expired : List (List ℕ))
    → length active ≡ length expired
    → swap_levels active expired ≡ (expired, active)
unfolding swap_levels
swap_levels_lem [] [] h = refl
swap_levels_lem [] (e ∷ expired) h = absurd (omega arith)
swap_levels_lem (a ∷ active) [] h = absurd (omega arith)
swap_levels_lem (a ∷ active) (e ∷ expired) h =
    rw (
      swap_levels_lem active expired (omega arith),
      append-nil e,
      append-nil (a ++ []),
      append-nil a,
    )
