-- ===== src/Sched/Queue.antt =====
-- The list operations that the run queues use (kernel/list/list.h), on lists of tasks.
use ccoperating_system_x.Common.{
  ℕ, ◌+◌, ◌≡◌, refl, Bool, true, false, Option, none, some, List, [], ◌∷◌, ◌++◌, length,
  length-append, ◌==◌, if◌then◌else◌, arith,
}

-- `list_add` or `list_add_tail`
unfoldable pub add : Bool → ℕ → List ℕ → List ℕ
add true p q = p ∷ q
add false p q = q ++ p ∷ []

-- `list_del_init` of the task's node.
unfoldable pub del : ℕ → List ℕ → List ℕ
del p [] = []
del p (x ∷ q) = if x == p then q else x ∷ del p q

-- `list_first_entry`
unfoldable pub first : List ℕ → Option ℕ
first [] = none
first (x ∷ q) = some x

unfoldable pub is_empty : List ℕ → Bool
is_empty [] = true
is_empty (x ∷ q) = false

abbrev pub has : ℕ → List ℕ → Bool
has p [] = false
has p (x ∷ q) = if x == p then true else has p q

pub length-add : (head : Bool) (p : ℕ) (q : List ℕ) → length (add head p q) ≡ length q + 1
unfolding add
length-add true p q = omega arith
length-add false p q = omega (arith, length-append q (p ∷ []))

pub length-del : (p : ℕ) (q : List ℕ) → has p q ≡ true → length (del p q) + 1 ≡ length q
unfolding del
length-del p [] h = cc
length-del p (x ∷ q) h = ground (arith, length-del p q)

pub del-not_has : (p : ℕ) (q : List ℕ) → has p q ≡ false → del p q ≡ q
unfolding del
del-not_has p [] h = refl
del-not_has p (x ∷ q) h = ground (arith, del-not_has p q)
