-- ===== src/Heap.antt =====
-- kernel/mm/heap/heap.c: the kernel heap. The memory is a function from the address of an 8-byte word
-- to the word, so that headers that overlap share words; every address that the code follows is a
-- multiple of 8. A loop along the free list takes a bound on its rounds; what the mapping of pages
-- (`vmm_alloc_pages_at`) answers is an argument.
pub mod Links
pub mod Fit
pub mod Blocks
pub mod Alloc
pub mod Sizes
pub mod Invariant
mod Tests
use ccoperating_system_x.Common.{
  ℕ, zero, suc, ◌+◌, ◌-◌, ◌%◌, ◌^◌, Bool, true, false, not, ◌&&◌, ◌||◌, ◌==◌, ltb, leb,
  if◌then◌else◌, Exec, done, panic, ◌>>=◌, ◌>>◌, assert,
}

abbrev pub Memory : Type 0
Memory = ℕ → ℕ

abbrev pub u64 : ℕ
u64 = 2 ^ 64

-- `sizeof(heap_block_t)`
abbrev pub header : ℕ
header = 48

abbrev pub heap_align : ℕ
heap_align = 16

abbrev pub heap_min_block : ℕ
heap_min_block = 32

abbrev pub block_magic : ℕ
block_magic = 1131796

abbrev pub page_size : ℕ
page_size = 4096

-- `heap_stats_t`
pub record Stats : Type 0 where
  pub total_bytes : ℕ
  pub used_bytes : ℕ
  pub free_bytes : ℕ
  pub total_blocks : ℕ
  pub used_blocks : ℕ
  pub free_blocks : ℕ
  pub alloc_count : ℕ
  pub free_count : ℕ
  pub expand_count : ℕ

-- `heap_state_t`, with the memory that it lies in
pub record Heap : Type 0 where
  pub heap_start : ℕ
  pub heap_end : ℕ
  pub heap_brk : ℕ
  pub free_list : ℕ
  pub stats : Stats
  pub initialized : Bool
  pub memory : Memory

unfoldable pub put : Memory → ℕ → ℕ → Memory
put m a v b = if b == a then v else m b

-- A write of the low bytes of a word, those below `bound`.
unfoldable pub put_low : Memory → ℕ → ℕ → ℕ → Memory
unfolding put
put_low m a bound v = put m a (m a - m a % bound + v)

-- The fields of the header at an address: `heap_block_t`.
abbrev pub size_of : Memory → ℕ → ℕ
size_of m b = m b

abbrev pub used_of : Memory → ℕ → Bool
used_of m b = not (m (b + 8) % 256 == 0)

abbrev pub prev_of : Memory → ℕ → ℕ
prev_of m b = m (b + 16)

abbrev pub next_of : Memory → ℕ → ℕ
next_of m b = m (b + 24)

abbrev pub magic_of : Memory → ℕ → ℕ
magic_of m b = m (b + 32) % 2 ^ 32

abbrev pub set_size : Memory → ℕ → ℕ → Memory
set_size m b v = put m b v

abbrev pub set_used : Memory → ℕ → Bool → Memory
set_used m b v = put_low m (b + 8) 256 (if v then 1 else 0)

abbrev pub set_prev : Memory → ℕ → ℕ → Memory
set_prev m b v = put m (b + 16) v

abbrev pub set_next : Memory → ℕ → ℕ → Memory
set_next m b v = put m (b + 24) v

abbrev pub set_magic : Memory → ℕ → ℕ → Memory
set_magic m b v = put_low m (b + 32) (2 ^ 32) v

-- A header that is written as a whole: `split_block` and `expand_heap_locked`.
unfoldable pub new_header : Memory → ℕ → ℕ → Memory
unfolding put put_low
new_header m b size =
    set_next (set_prev (set_magic (set_used (set_size m b size) b false) b block_magic) b 0) b 0

-- 64-bit arithmetic on the counters
abbrev pub add64 : ℕ → ℕ → ℕ
add64 a b = (a + b) % u64

abbrev pub sub64 : ℕ → ℕ → ℕ
sub64 a b = (a + (u64 - b)) % u64

abbrev pub with_memory : Heap → Memory → Heap
with_memory h m = record h { memory = m }

abbrev pub with_stats : Heap → Stats → Heap
with_stats h s = record h { stats = s }

-- `(size + 15) & ~15` in 64 bits
unfoldable pub align_size : ℕ → ℕ
align_size size = (size + (heap_align - 1)) % u64 - (size + (heap_align - 1)) % u64 % heap_align

unfoldable pub total_block_size : ℕ → ℕ
unfolding align_size
total_block_size user_size = (align_size user_size + header) % u64

unfoldable pub block_to_ptr : ℕ → ℕ
block_to_ptr block = block + header

unfoldable pub next_block : Heap → ℕ → ℕ
next_block h block = block + size_of h.memory block

unfoldable pub is_last_block : Heap → ℕ → Bool
unfolding next_block
is_last_block h block = leb h.heap_brk (next_block h block) || leb h.heap_end (next_block h block)

unfoldable pub validate_block : Heap → ℕ → Bool
validate_block h block =
    not (block == 0)
    && magic_of h.memory block == block_magic
    && leb h.heap_start block
    && ltb block h.heap_end
    && block % heap_align == 0
    && leb header (size_of h.memory block)
    && leb (block + size_of h.memory block) h.heap_end

-- The block of a raw pointer that a stored word names, where it holds the aligned address.
unfoldable pub holds_pointer : Heap → ℕ → ℕ → Bool
holds_pointer h raw ptr =
    leb h.heap_start raw
    && ltb raw h.heap_brk
    && raw % 16 == 0
    && magic_of h.memory (raw - header) == block_magic
    && leb raw ptr
    && ltb ptr (raw + size_of h.memory (raw - header) - header)

unfoldable pub ptr_to_block : Heap → ℕ → ℕ
unfolding holds_pointer
ptr_to_block h ptr =
    let raw = h.memory (ptr - 8) in if holds_pointer h raw ptr then raw - header else ptr - header
