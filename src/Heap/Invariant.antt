-- ===== src/Heap/Invariant.antt =====
-- The invariant of the free list of kernel/mm/heap/heap.c, and what keeps it.
pub mod Lists
pub mod Unlink
pub mod Insert
pub mod Split
pub mod Take
use ccoperating_system_x.Common.{
  ℕ, zero, suc, ◌+◌, ◌%◌, ◌≤◌, ◌<◌, ◌≡◌, ◌≢◌, refl, sym, ◌∙◌, ap, Bool, true, false, List, arith,
  ◌⊎◌, inl, inr, length,
}
use ccoperating_system_x.Heap.{Memory, Heap, size_of, used_of}
use ccoperating_system_x.Heap.Links.Chain.{Chain, Contains}
use ccoperating_system_x.Heap.Invariant.Lists.{Chain-above, frame_in}

-- Blocks that leave each other room for a header.
abbrev pub Spaced : List ℕ → Type 0
Spaced xs = (x y : ℕ) → Contains x xs → Contains y xs → x < y → x + 48 ≤ y

-- The free list: the chain of its blocks, which are unused, have room for their headers and do not
-- overlap.
pub record FreeList (m : Memory) (first : ℕ) (xs : List ℕ) : Type 0 where
  pub chain : Chain m 0 first xs
  pub unused : (x : ℕ) → Contains x xs → used_of m x ≡ false
  pub large : (x : ℕ) → Contains x xs → 48 ≤ size_of m x
  pub apart : (x y : ℕ) → Contains x xs → Contains y xs → x < y → x + size_of m x ≤ y

-- The words of sizes and flags that a change leaves.
abbrev pub Kept : Memory → Memory → List ℕ → Type 0
Kept m m' xs = (y : ℕ) → Contains y xs → (m' y ≡ m y) × (m' (y + 8) ≡ m (y + 8))

pub FreeList-Spaced : (m : Memory) (first : ℕ) (xs : List ℕ) → FreeList m first xs → Spaced xs
FreeList-Spaced m first xs f x y i j lt = omega (arith, f.apart x y i j lt, f.large x i)

-- A chain through the blocks of another free list, whose sizes and flags are kept.
pub FreeList-sub :
    (m m' : Memory) (first first' : ℕ) (xs ys : List ℕ)
    → FreeList m first xs
    → ((y : ℕ) → Contains y ys → Contains y xs)
    → Kept m m' xs
    → Chain m' 0 first' ys
    → FreeList m' first' ys
FreeList-sub m m' first first' xs ys f sub kept c = record {
  chain = c;
  unused = λ x i. rw ((kept x (sub x i)).1) (f.unused x (sub x i));
  large = λ x i. omega (arith, (kept x (sub x i)).0, f.large x (sub x i));
  apart = λ x y i j lt. omega (arith, (kept x (sub x i)).0, f.apart x y (sub x i) (sub y j) lt);
}
