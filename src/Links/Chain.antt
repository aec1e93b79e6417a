-- ===== src/Links/Chain.antt =====
-- Runs of nodes in the heap of kernel/list/list.c.
use ccoperating_system_x.Common.{ℕ, ◌≡◌, ◌≢◌, arith, List, [], ◌∷◌, ◌++◌, All}
use ccoperating_system_x.Links.{Links, set_next, set_prev}

-- From `a` the pointers run through `xs` to `b`, and back.
abbrev pub Chain : Links → ℕ → List ℕ → ℕ → Type 0
Chain h a [] b = (h.next a ≡ b) × (h.prev b ≡ a)
Chain h a (x ∷ xs) b = (h.next a ≡ x) × (h.prev x ≡ a) × Chain h x xs b

-- `n` is not in the list.
abbrev pub Out : ℕ → List ℕ → Type 0
Out n xs = All (λ x. n ≢ x) xs

abbrev pub Distinct : List ℕ → Type 0
Distinct [] = Unit
Distinct (x ∷ xs) = Out x xs × Distinct xs

abbrev pub last : ℕ → List ℕ → ℕ
last a [] = a
last a (x ∷ xs) = last x xs

abbrev pub first : List ℕ → ℕ → ℕ
first [] b = b
first (y ∷ ys) b = y

pub Out-append : (n : ℕ) (xs ys : List ℕ) → Out n (xs ++ ys) → Out n xs × Out n ys
Out-append n [] ys h = (tt, h)
Out-append n (x ∷ xs) ys h = let r = Out-append n xs ys h.1 in ((h.0, r.0), r.1)

pub append-Out : (n : ℕ) (xs ys : List ℕ) → Out n xs → Out n ys → Out n (xs ++ ys)
append-Out n [] ys h k = k
append-Out n (x ∷ xs) ys h k = (h.0, append-Out n xs ys h.1 k)

pub last-Out : (n a : ℕ) (xs : List ℕ) → n ≢ a → Out n xs → n ≢ last a xs
last-Out n a [] ne h = ne
last-Out n a (x ∷ xs) ne h = last-Out n x xs h.0 h.1

pub first-Out : (n b : ℕ) (ys : List ℕ) → n ≢ b → Out n ys → n ≢ first ys b
first-Out n b [] ne h = ne
first-Out n b (y ∷ ys) ne h = h.0

-- A store to a node off the chain leaves the chain alone.
pub Chain-set_next :
    (h : Links) (a b n v : ℕ) (xs : List ℕ)
    → n ≢ a
    → Out n xs
    → Chain h a xs b
    → Chain (set_next h n v) a xs b
unfolding set_next
Chain-set_next h a b n v [] ne out c = (ground arith, ground arith)
Chain-set_next h a b n v (x ∷ xs) ne out c =
    (ground arith, ground arith, Chain-set_next h x b n v xs out.0 out.1 c.2)

pub Chain-set_prev :
    (h : Links) (a b n v : ℕ) (xs : List ℕ)
    → n ≢ b
    → Out n xs
    → Chain h a xs b
    → Chain (set_prev h n v) a xs b
unfolding set_prev
Chain-set_prev h a b n v [] ne out c = (ground arith, ground arith)
Chain-set_prev h a b n v (x ∷ xs) ne out c =
    (ground arith, ground arith, Chain-set_prev h x b n v xs ne out.1 c.2)

pub Chain-prev : (h : Links) (a b : ℕ) (xs : List ℕ) → Chain h a xs b → h.prev b ≡ last a xs
Chain-prev h a b [] c = c.1
Chain-prev h a b (x ∷ xs) c = Chain-prev h x b xs c.2

pub Chain-next : (h : Links) (a b : ℕ) (xs : List ℕ) → Chain h a xs b → h.next a ≡ first xs b
Chain-next h a b [] c = c.0
Chain-next h a b (x ∷ xs) c = c.0
