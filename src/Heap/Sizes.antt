-- ===== src/Heap/Sizes.antt =====
-- The sizes and addresses that kernel/mm/heap/heap.c computes.
use native.Mathlib.Nat.{mod-lt, mod-eq_of_lt, mul-mod_left, div-add-mod'}
use ccoperating_system_x.Common.{ℕ, ◌+◌, ◌-◌, ◌*◌, ◌/◌, ◌%◌, ◌≤◌, ◌<◌, ◌≡◌, ap, ◌∙◌, arith}
use ccoperating_system_x.Heap.{u64, align_size, total_block_size}
use ccoperating_system_x.Heap.Alloc.{align_up, aligned_address, aligned_total}

-- A request of a size up to 2 ^ 64 - 64 gets a block that is a multiple of 16 bytes long and has
-- room for the header and the request, with less than 16 bytes to spare.
pub total_block_size_lem :
    (size : ℕ)
    → size + 64 ≤ u64
    → (size + 48 ≤ total_block_size size)
      × (total_block_size size < size + 64)
      × (total_block_size size % 16 ≡ 0)
unfolding total_block_size align_size
total_block_size_lem size h = omega arith

-- The sum wraps for the largest requests: the block is smaller than what is asked for, a block of
-- at most 48 bytes, which is its header.
pub total_block_size_wraps : (size : ℕ) → u64 < size + 64 → size < u64 → total_block_size size ≤ 48
unfolding total_block_size align_size
total_block_size_wraps size low high = omega arith

multiple_below : (x a : ℕ) → (x - x % a) % a ≡ 0
multiple_below x a =
    let parts : x - x % a ≡ x / a * a = omega (arith, div-add-mod' x a) in
    ap (λ k. k % a) parts ∙ mul-mod_left (x / a) a

align_up_lem :
    (value a : ℕ)
    → 0 < a
    → value + a ≤ u64
    → (value ≤ align_up value a) × (align_up value a < value + a) × (align_up value a % a ≡ 0)
unfolding align_up
align_up_lem value a pos fits =
    let same : (value + (a - 1)) % u64 ≡ value + (a - 1) = mod-eq_of_lt (omega arith) in
    let lt = mod-lt (value + (a - 1)) pos in
    rw same (omega arith, omega arith, multiple_below (value + (a - 1)) a)

-- The pointer that `kmalloc_aligned` returns from a raw one is a multiple of the alignment, leaves
-- the word before it for the raw pointer, and has the bytes asked for inside what was asked of
-- `kmalloc`, where none of the sums wraps.
pub aligned_address_lem :
    (raw size alignment : ℕ)
    → 0 < alignment
    → raw + size + alignment + 72 ≤ u64
    → (aligned_address raw alignment % alignment ≡ 0)
      × (raw + 8 ≤ aligned_address raw alignment)
      × (aligned_address raw alignment + size ≤ raw + aligned_total size alignment)
unfolding aligned_address aligned_total
aligned_address_lem raw size alignment pos fits =
    let t = total_block_size_lem size (omega arith) in
    let same : (raw + 8) % u64 ≡ raw + 8 = mod-eq_of_lt (omega arith) in
    let up = align_up_lem (raw + 8) alignment pos (omega arith) in
    let asked = total_block_size size + alignment + 8 in
    let sum : asked % u64 ≡ asked = mod-eq_of_lt (omega (arith, t.1)) in
    rw (same, sum) (up.2, up.0, omega (arith, t.0, up.1))
