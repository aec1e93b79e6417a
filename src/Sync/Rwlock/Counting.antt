-- ===== src/Sync/Rwlock/Counting.antt =====
-- Sums over the threads that use the lock of kernel/sync/rwlock.c, and the counters that they match.
use ccoperating_system_x.Common.{
  ℕ, zero, suc, ◌+◌, ◌≤◌, ◌<◌, ◌≡◌, refl, sym, ap, ◌∙◌, true, false, List, [], ◌∷◌, set, get_or,
  length, ℤ, pos, inc, dec, positive, arith,
}
use ccoperating_system_x.Sync.Rwlock.Threads.{Pc, idle, reading, claimed, writing, downgrading}

-- What a thread adds to the two counters, and to the number of threads that are inside as writers.
abbrev pub reads : Pc → ℕ
reads reading = 1
reads downgrading = 1
reads _ = 0

abbrev pub writes : Pc → ℕ
writes claimed = 1
writes writing = 1
writes downgrading = 1
writes _ = 0

abbrev pub inside : Pc → ℕ
inside writing = 1
inside _ = 0

abbrev pub sum : (Pc → ℕ) → List Pc → ℕ
sum f [] = 0
sum f (p ∷ ps) = f p + sum f ps

-- A thread that moves changes a sum by its own part.
pub sum-move :
    (f : Pc → ℕ) (ps : List Pc) (i : ℕ) (old p : Pc)
    → i < length ps
    → get_or ps i idle ≡ old
    → sum f (set ps i p) + f old ≡ sum f ps + f p
sum-move f [] i old p h e = absurd (omega arith)
sum-move f (q ∷ ps) zero old p h e = omega (arith, ap f e)
sum-move f (q ∷ ps) (suc i) old p h e = omega (arith, sum-move f ps i old p (omega arith) e)

-- A thread counts in a sum.
pub sum-le : (f : Pc → ℕ) (ps : List Pc) (i : ℕ) → f idle ≡ 0 → f (get_or ps i idle) ≤ sum f ps
sum-le f [] i h = omega arith
sum-le f (q ∷ ps) zero h = omega arith
sum-le f (q ∷ ps) (suc i) h = omega (arith, sum-le f ps i h)

pub inside-writes : (p : Pc) → inside p ≤ writes p
inside-writes writing = omega arith
inside-writes _ = omega arith

pub sum-inside : (ps : List Pc) → sum inside ps ≤ sum writes ps
sum-inside [] = omega arith
sum-inside (p ∷ ps) = omega (arith, inside-writes p, sum-inside ps)

pub not_positive : (z : ℤ) (n : ℕ) → z ≡ pos n → positive z ≡ false → n ≡ 0
not_positive z zero e h = refl
not_positive z (suc n) e h = let clash : true ≡ false = sym (ap positive e) ∙ h in cc

pub inc_pos : (z : ℤ) (n m : ℕ) → z ≡ pos n → m ≡ suc n → inc z ≡ pos m
inc_pos z n m e h = ap inc e ∙ ap pos (sym h)

pub dec_pos : (z : ℤ) (n m : ℕ) → z ≡ pos n → n ≡ suc m → dec z ≡ pos m
dec_pos z n m e h = ap dec (e ∙ ap pos h)

pub stay_pos : (z : ℤ) (n m : ℕ) → z ≡ pos n → m ≡ n → z ≡ pos m
stay_pos z n m e h = e ∙ ap pos (sym h)
