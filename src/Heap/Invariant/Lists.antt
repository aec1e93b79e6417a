-- ===== src/Heap/Invariant/Lists.antt =====
-- The blocks of a chain of kernel/mm/heap/heap.c and of the lists made from it.
use ccoperating_system_x.Common.{
  ℕ, ◌+◌, ◌%◌, ◌≤◌, ◌<◌, ◌≡◌, refl, sym, ◌∙◌, ◌==◌, leb, List, [], ◌∷◌, arith, length, ◌⊎◌, inl,
  inr, Bool-cases, subst,
}
use ccoperating_system_x.Heap.{Memory, prev_of, next_of}
use ccoperating_system_x.Heap.Links.Chain.{Chain, insert, delete, Contains}

pub Chain-above :
    (m : Memory) (prev curr y : ℕ) (xs : List ℕ)
    → Chain m prev curr xs
    → Contains y xs
    → (prev < y) × (y % 16 ≡ 0)
Chain-above m prev curr y [] c i = absurd i
Chain-above m prev curr y (x ∷ xs) (e, l, al, back, rest) (inl q) =
    subst (λ k. (prev < k) × (k % 16 ≡ 0)) (sym q) (l, al)
Chain-above m prev curr y (x ∷ xs) (e, l, al, back, rest) (inr i) =
    let a = Chain-above m x (next_of m x) y xs rest i in (omega (arith, a.0), a.1)

pub of_delete : (b y : ℕ) (xs : List ℕ) → Contains y (delete b xs) → Contains y xs
of_delete b y [] i = i
of_delete b y (x ∷ xs) i = elim (Bool-cases (x == b)) [
  | inl e ↦ inr (rw e at i)
  | inr n ↦ elim (rw n at i) [ inl q ↦ inl q | inr i' ↦ inr (of_delete b y xs i') ]
]

pub not_in_delete :
    (m : Memory) (prev curr b : ℕ) (xs : List ℕ) → Chain m prev curr xs → ¬ Contains b (delete b xs)
not_in_delete m prev curr b [] c i = i
not_in_delete m prev curr b (x ∷ xs) (e, l, al, back, rest) i = elim (Bool-cases (x == b)) [
  | inl q ↦
      let i' : Contains b xs = rw q at i in
      let a = Chain-above m x (next_of m x) b xs rest i' in absurd (ground (arith, a.0))
  | inr n ↦ elim (rw n at i) [
    | inl q ↦ absurd (ground arith)
    | inr i' ↦ not_in_delete m x (next_of m x) b xs rest i'
  ]
]

pub length-delete : (b : ℕ) (xs : List ℕ) → length (delete b xs) ≤ length xs
length-delete b [] = omega arith
length-delete b (x ∷ xs) = ground (arith, length-delete b xs)

pub of_insert : (b y : ℕ) (xs : List ℕ) → Contains y (insert b xs) → (y ≡ b) ⊎ Contains y xs
of_insert b y [] i = i
of_insert b y (x ∷ xs) i = elim (Bool-cases (leb b x)) [
  | inl e ↦ rw e at i
  | inr n ↦ elim (rw n at i) [
    | inl q ↦ inr (inl q)
    | inr i' ↦ elim (of_insert b y xs i') [ inl q ↦ inl q | inr k ↦ inr (inr k) ]
  ]
]

-- A chain reads the links of its blocks only.
pub frame_in :
    (m m' : Memory) (prev curr : ℕ) (xs : List ℕ)
    → Chain m prev curr xs
    → ((y : ℕ) → Contains y xs → (m' (y + 16) ≡ m (y + 16)) × (m' (y + 24) ≡ m (y + 24)))
    → Chain m' prev curr xs
frame_in m m' prev curr [] c same = c
frame_in m m' prev curr (x ∷ xs) (e, l, al, back, rest) same =
    let s = same x (inl refl) in
    let r = frame_in m m' x (next_of m x) xs rest (λ y i. same y (inr i)) in
    (e, l, al, s.0 ∙ back, rw s.1 r)

first_in :
    (m : Memory) (prev curr : ℕ) (xs : List ℕ)
    → Chain m prev curr xs
    → (curr ≡ 0) ⊎ Contains curr xs
first_in m prev curr [] c = inl c
first_in m prev curr (x ∷ xs) (e, l, al, back, rest) = inr (inl e)

-- The neighbours of a block are blocks of the chain, or its ends.
pub links_in :
    (m : Memory) (prev curr b : ℕ) (xs : List ℕ)
    → Chain m prev curr xs
    → Contains b xs
    → ((prev_of m b ≡ prev) ⊎ Contains (prev_of m b) xs)
      × ((next_of m b ≡ 0) ⊎ Contains (next_of m b) xs)
links_in m prev curr b [] c i = absurd i
links_in m prev curr b (x ∷ xs) (e, l, al, back, rest) (inl q) =
    let f = first_in m x (next_of m x) xs rest in
    subst
      (λ k.
        ((prev_of m k ≡ prev) ⊎ Contains (prev_of m k) (x ∷ xs))
        × ((next_of m k ≡ 0) ⊎ Contains (next_of m k) (x ∷ xs)))
      (sym q) (inl back, elim f [ inl z ↦ inl z | inr i ↦ inr (inr i) ])
links_in m prev curr b (x ∷ xs) (e, l, al, back, rest) (inr i) =
    let k = links_in m x (next_of m x) b xs rest i in
    (inr k.0, elim k.1 [ inl z ↦ inl z | inr j ↦ inr (inr j) ])
