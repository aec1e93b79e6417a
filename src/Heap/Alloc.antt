-- ===== src/Heap/Alloc.antt =====
-- The calls of kernel/mm/heap/heap.c: `heap_init`, `kmalloc`, `kfree`, `krealloc`,
-- `kmalloc_aligned` and `heap_get_stats`. A pointer is an address, NULL is 0; each call runs under
-- the heap's lock, where `kfree` takes it twice.
use ccoperating_system_x.Common.{
  ℕ, zero, suc, ◌+◌, ◌-◌, ◌*◌, ◌%◌, Bool, true, false, not, ◌&&◌, ◌||◌, ◌==◌, ltb, leb,
  if◌then◌else◌, Exec, done, ◌>>=◌,
}
use Prim.Native.Nat.{bit_and}
use ccoperating_system_x.Heap.{
  Memory, Heap, Stats, put, size_of, used_of, set_used, with_memory, with_stats, add64, sub64, u64,
  header, page_size, total_block_size, block_to_ptr, validate_block, ptr_to_block, heap_align,
}
use ccoperating_system_x.Heap.Links.{remove_from_free_list, insert_to_free_list, find_best_fit}
use ccoperating_system_x.Heap.Blocks.{
  HeapResult, heap_ok, heap_err_not_init, kernel_heap_base, kernel_heap_max, split_block,
  coalesce_block, expand_heap_locked,
}

abbrev pub no_stats : Stats
no_stats = record {
  total_bytes = 0;
  used_bytes = 0;
  free_bytes = 0;
  total_blocks = 0;
  used_blocks = 0;
  free_blocks = 0;
  alloc_count = 0;
  free_count = 0;
  expand_count = 0;
}

abbrev pub empty_heap : Memory → Heap
empty_heap m = record {
  heap_start = kernel_heap_base;
  heap_end = kernel_heap_max;
  heap_brk = 0;
  free_list = 0;
  stats = no_stats;
  initialized = false;
  memory = m;
}

-- The end of `heap_init`.
abbrev init_done : HeapResult × Heap → HeapResult × Heap
init_done (heap_ok, h) = (heap_ok, record h { heap_start = h.free_list; initialized = true })
init_done (r, h) = (r, h)

unfoldable pub heap_init : ℕ → (ℕ → ℕ → Bool) → Heap → Exec (HeapResult × Heap)
heap_init fuel vmm h = if h.initialized then done (heap_ok, h) else do
  r ← expand_heap_locked fuel vmm (empty_heap h.memory) (16 * page_size)
  done (init_done r)

-- The mark and the statistics of a block that is granted.
unfoldable pub granted : Heap → ℕ → Heap
granted h block =
    let m = set_used h.memory block true in
    let size = size_of m block in
    let s = h.stats in
    with_stats (with_memory h m) (record s {
      used_bytes = add64 s.used_bytes size;
      free_bytes = sub64 s.free_bytes size;
      used_blocks = add64 s.used_blocks 1;
      free_blocks = sub64 s.free_blocks 1;
      alloc_count = add64 s.alloc_count 1;
    })

-- The part of `kmalloc` behind the search.
unfoldable pub take_block : ℕ → Heap → ℕ → ℕ → Exec (ℕ × Heap)
unfolding block_to_ptr granted
take_block fuel h block total_size = do
  h1 ← remove_from_free_list h block
  h2 ← split_block fuel h1 block total_size
  done (block_to_ptr block, granted h2 block)

-- The second search, once the heap has grown.
unfoldable pub try_again : ℕ → ℕ → HeapResult × Heap → Exec (ℕ × Heap)
unfolding take_block
try_again fuel total_size (heap_ok, h) =
    let block = find_best_fit fuel h total_size in
    if block == 0 then done (0, h) else take_block fuel h block total_size
try_again fuel total_size (r, h) = done (0, h)

unfoldable pub kmalloc : ℕ → (ℕ → ℕ → Bool) → Heap → ℕ → Exec (ℕ × Heap)
unfolding take_block try_again
kmalloc fuel vmm h size =
    if not h.initialized || size == 0
    then done (0, h)
    else let total_size = total_block_size size in
      let block = find_best_fit fuel h total_size in
      if block == 0
      then expand_heap_locked fuel vmm h total_size >>= try_again fuel total_size
      else take_block fuel h block total_size

-- The tests of `kfree`.
unfoldable pub refuses_free : Heap → ℕ → Bool
refuses_free h ptr =
    not h.initialized
    || ptr == 0
    || not (validate_block h (ptr_to_block h ptr))
    || not (used_of h.memory (ptr_to_block h ptr))

-- The mark and the statistics of a block that is freed.
unfoldable pub mark_freed : Heap → ℕ → Heap
mark_freed h block =
    let m = set_used h.memory block false in
    let size = size_of m block in
    let s = h.stats in
    with_stats (with_memory h m) (record s {
      used_bytes = sub64 s.used_bytes size;
      free_bytes = add64 s.free_bytes size;
      used_blocks = sub64 s.used_blocks 1;
      free_blocks = add64 s.free_blocks 1;
      free_count = add64 s.free_count 1;
    })

-- The first part of `kfree`, under the lock: the block that is to be linked, and 0 where there is
-- none.
unfoldable pub mark_free : Heap → ℕ → ℕ × Heap
unfolding refuses_free mark_freed
mark_free h ptr =
    if refuses_free h ptr then (0, h) else (ptr_to_block h ptr, mark_freed h (ptr_to_block h ptr))

-- The second part, under the lock again.
unfoldable pub link_free : ℕ → Heap → ℕ → Exec Heap
link_free fuel h block = insert_to_free_list fuel h block >>= λ h1. coalesce_block fuel h1 block

unfoldable pub kfree : ℕ → Heap → ℕ → Exec Heap
unfolding mark_free link_free
kfree fuel h ptr =
    let marked = mark_free h ptr in
    if marked.0 == 0 then done marked.1 else link_free fuel marked.1 marked.0

-- `memcpy` of a number of bytes that is a multiple of 8
unfoldable pub memcpy : Memory → ℕ → ℕ → ℕ → Memory
memcpy m dest src n b = if leb dest b && ltb b (dest + n) then m (src + (b - dest)) else m b

-- The end of `krealloc`, with what `kmalloc` answered.
unfoldable pub move : ℕ → ℕ → ℕ → ℕ → ℕ × Heap → Exec (ℕ × Heap)
unfolding memcpy
move fuel ptr old_user_size new_size (new_ptr, h) = if new_ptr == 0 then done (0, h) else do
  let copy_size = if ltb old_user_size new_size then old_user_size else new_size
  h1 ← kfree fuel (with_memory h (memcpy h.memory new_ptr ptr copy_size)) ptr
  done (new_ptr, h1)

unfoldable pub krealloc : ℕ → (ℕ → ℕ → Bool) → Heap → ℕ → ℕ → Exec (ℕ × Heap)
unfolding move
krealloc fuel vmm h ptr new_size =
    let old_block = ptr_to_block h ptr in
    if ptr == 0
    then kmalloc fuel vmm h new_size
    else if new_size == 0
    then (kfree fuel h ptr >>= λ h1. done (0, h1))
    else if not h.initialized || not (validate_block h old_block && used_of h.memory old_block)
    then done (0, h)
    else if leb (total_block_size new_size) (size_of h.memory old_block)
    then done (ptr, h)
    else kmalloc fuel vmm h new_size
      >>= move fuel ptr (size_of h.memory old_block - header) new_size

-- `alignment & (alignment - 1)`, of 64-bit numbers
unfoldable pub is_power_of_two : ℕ → Bool
is_power_of_two alignment = not (alignment == 0) && bit_and alignment (alignment - 1) == 0

-- `align_up` of math/bits.h, at a power of two
unfoldable pub align_up : ℕ → ℕ → ℕ
align_up value alignment =
    (value + (alignment - 1)) % u64 - (value + (alignment - 1)) % u64 % alignment

-- The aligned address in a block, behind a word for the raw pointer.
unfoldable pub aligned_address : ℕ → ℕ → ℕ
unfolding align_up
aligned_address raw alignment = align_up ((raw + 8) % u64) alignment

-- The end of `kmalloc_aligned`, with what `kmalloc` answered.
unfoldable pub store_pointer : ℕ → ℕ × Heap → ℕ × Heap
unfolding aligned_address
store_pointer alignment (raw, h) =
    let aligned = aligned_address raw alignment in
    if raw == 0 then (0, h) else (aligned, with_memory h (put h.memory (aligned - 8) raw))

-- What `kmalloc_aligned` asks of `kmalloc`.
unfoldable pub aligned_total : ℕ → ℕ → ℕ
aligned_total size alignment = (total_block_size size + alignment + 8) % u64

unfoldable pub kmalloc_aligned : ℕ → (ℕ → ℕ → Bool) → Heap → ℕ → ℕ → Exec (ℕ × Heap)
unfolding is_power_of_two store_pointer aligned_total
kmalloc_aligned fuel vmm h size alignment =
    let at_least = if ltb alignment heap_align then heap_align else alignment in
    if not h.initialized || size == 0 || not (is_power_of_two alignment)
    then done (0, h)
    else kmalloc fuel vmm h (aligned_total size at_least) >>= λ r. done (store_pointer at_least r)

-- The walk of `heap_get_stats` over the blocks.
unfoldable pub walk : ℕ → Heap → ℕ → Stats → Stats
walk zero h block s = s
walk (suc fuel) h block s =
    let user_bytes = sub64 (size_of h.memory block) header in
    let counted : Stats = record s {
      total_blocks = add64 s.total_blocks 1;
      total_bytes = add64 s.total_bytes user_bytes;
      used_blocks = if used_of h.memory block then add64 s.used_blocks 1 else s.used_blocks;
      used_bytes = if used_of h.memory block then add64 s.used_bytes user_bytes else s.used_bytes;
      free_blocks = if used_of h.memory block then s.free_blocks else add64 s.free_blocks 1;
      free_bytes = if used_of h.memory block then s.free_bytes else add64 s.free_bytes user_bytes;
    } in
    let rest =
      walk fuel h (add64 block (size_of h.memory block))
        (if validate_block h block then counted else s) in
    if ltb block h.heap_brk then rest else s

-- `heap_get_stats`, at a pointer that is not NULL
unfoldable pub heap_get_stats : ℕ → Heap → HeapResult × Stats
unfolding walk
heap_get_stats fuel h = if not h.initialized then (heap_err_not_init, no_stats) else (
  heap_ok,
  walk fuel h h.heap_start (record no_stats {
    alloc_count = h.stats.alloc_count;
    free_count = h.stats.free_count;
    expand_count = h.stats.expand_count;
  }),
)
