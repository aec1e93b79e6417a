-- ===== src/Heap/Links/Chain.antt =====
-- What the free list of kernel/mm/heap/heap.c stands for.
use ccoperating_system_x.Common.{
  ℕ, ◌+◌, ◌%◌, ◌≤◌, ◌<◌, ◌≡◌, ◌⊎◌, ◌∙◌, ◌==◌, leb, if◌then◌else◌, List, [], ◌∷◌, arith,
}
use ccoperating_system_x.Heap.{Memory, prev_of, next_of}

-- From `curr` the links lead through the blocks of the list to NULL, in the order of their
-- addresses, and each of them leads back to the one before it, the first to `prev`.
abbrev pub Chain : Memory → ℕ → ℕ → List ℕ → Type 0
Chain m prev curr [] = curr ≡ 0
Chain m prev curr (x ∷ xs) =
    (curr ≡ x) × (prev < x) × (x % 16 ≡ 0) × (prev_of m x ≡ prev) × Chain m x (next_of m x) xs

-- The sorted lists with one block more and with one less.
abbrev pub insert : ℕ → List ℕ → List ℕ
insert b [] = b ∷ []
insert b (x ∷ xs) = if leb b x then b ∷ x ∷ xs else x ∷ insert b xs

abbrev pub delete : ℕ → List ℕ → List ℕ
delete b [] = []
delete b (x ∷ xs) = if x == b then xs else x ∷ delete b xs

abbrev pub Contains : ℕ → List ℕ → Type 0
Contains b [] = ⊥
Contains b (x ∷ xs) = (b ≡ x) ⊎ Contains b xs

-- Only the links of the blocks of the list matter.
pub frame :
    (m m' : Memory) (prev curr low : ℕ) (xs : List ℕ)
    → Chain m prev curr xs
    → low ≤ prev
    → ((y : ℕ) → low < y → y % 16 ≡ 0 → (m' (y + 16) ≡ m (y + 16)) × (m' (y + 24) ≡ m (y + 24)))
    → Chain m' prev curr xs
frame m m' prev curr low [] c h same = c
frame m m' prev curr low (x ∷ xs) (e, lt, al, back, rest) h same =
    let s = same x (omega arith) al in
    let r = frame m m' x (next_of m x) low xs rest (omega arith) same in
    (e, lt, al, s.0 ∙ back, rw s.1 r)

-- Where the block goes: behind `prev`, in front of `curr`.
pub record Between (block prev curr : ℕ) : Type 0 where
  pub above : prev < block
  pub below : (curr ≡ 0) ⊎ (block < curr)
  pub prev_aligned : prev % 16 ≡ 0
  pub curr_aligned : curr % 16 ≡ 0
  pub block_aligned : block % 16 ≡ 0
