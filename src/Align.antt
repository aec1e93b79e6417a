-- ===== src/Align.antt =====
-- The address arithmetic of kernel/mm/memory_detect/memory_state_helper.c and of the frame
-- allocator: sizes, alignment to a power of two given by its exponent, ranges.
-- `x & ~(2^k - 1)` is written `x - x % 2^k` and `x & (2^k - 1)` is written `x % 2^k`.
pub mod Summary
mod Tests
use Prim.Native.Nat.{max}
use ccoperating_system_x.Common.{
  ℕ, ◌+◌, ◌-◌, ◌*◌, ◌/◌, ◌%◌, ◌^◌, ◌≤◌, ◌<◌, ◌≡◌, Bool, true, false, ◌&&◌, ◌||◌, leb, ◌==◌,
  if◌then◌else◌, ◌↔◌, arith,
}

abbrev pub u64 : ℕ
u64 = 2 ^ 64

abbrev pub page_shift : ℕ
page_shift = 12

abbrev pub page_size : ℕ
page_size = 2 ^ page_shift

unfoldable pub bytes_to_mb : ℕ → ℕ
bytes_to_mb bytes = bytes / 2 ^ 20 % 2 ^ 32

unfoldable pub bytes_to_kb : ℕ → ℕ
bytes_to_kb bytes = bytes / 2 ^ 10

unfoldable pub mb_to_bytes : ℕ → ℕ
mb_to_bytes mb = mb * 2 ^ 20 % u64

unfoldable pub kb_to_bytes : ℕ → ℕ
kb_to_bytes kb = kb * 2 ^ 10 % u64

unfoldable pub pages_to_bytes : ℕ → ℕ
pages_to_bytes pages = pages * page_size % u64

unfoldable pub bytes_to_pages : ℕ → ℕ
bytes_to_pages bytes = (bytes + page_size - 1) % u64 / page_size

unfoldable pub align_down : ℕ → ℕ → ℕ
align_down value alignment = value - value % 2 ^ alignment

unfoldable pub align_up : ℕ → ℕ → ℕ
unfolding align_down
align_up value alignment = align_down ((value + (2 ^ alignment - 1)) % u64) alignment

unfoldable pub is_aligned : ℕ → ℕ → Bool
is_aligned value alignment = value % 2 ^ alignment == 0

unfoldable pub ranges_overlap : ℕ → ℕ → ℕ → ℕ → Bool
ranges_overlap start1 end1 start2 end2 = if leb end1 start2 || leb end2 start1 then false else true

unfoldable pub range_contains : ℕ → ℕ → ℕ → ℕ → Bool
range_contains outer_start outer_end inner_start inner_end =
    leb outer_start inner_start && leb inner_end outer_end

-- Page rounding: where the sum does not wrap, `align_up` at the page shift gives the least multiple
-- of the page size that is not below the value, and `align_down` the greatest that is not above it.
pub align_page :
    (value : ℕ)
    → value + page_size ≤ u64
    → (align_up value page_shift % page_size ≡ 0)
      × (value ≤ align_up value page_shift)
      × (align_up value page_shift < value + page_size)
      × (align_down value page_shift % page_size ≡ 0)
      × (align_down value page_shift ≤ value)
      × (value < align_down value page_shift + page_size)
unfolding align_up
align_page value h = omega arith

-- Sizes: where nothing wraps, the pages of a number of bytes are the fewest that hold them.
pub bytes_to_pages_least :
    (bytes : ℕ)
    → bytes + page_size ≤ u64
    → (bytes ≤ pages_to_bytes (bytes_to_pages bytes))
      × (pages_to_bytes (bytes_to_pages bytes) < bytes + page_size)
unfolding bytes_to_pages pages_to_bytes
bytes_to_pages_least bytes h = omega arith

-- Two ranges that are not empty overlap exactly when some address lies in both.
pub ranges_overlap_iff :
    (start1 end1 start2 end2 : ℕ)
    → start1 < end1
    → start2 < end2
    → (ranges_overlap start1 end1 start2 end2 ≡ true)
      ↔ ((x : ℕ) × (start1 ≤ x) × (x < end1) × (start2 ≤ x) × (x < end2))
unfolding ranges_overlap
ranges_overlap_iff start1 end1 start2 end2 h k = (
  λ o. (max start1 start2, omega arith, ground arith, omega arith, ground arith),
  λ (x, a, b, c, d). ground arith,
)
