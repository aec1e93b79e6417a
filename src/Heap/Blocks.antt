-- ===== src/Heap/Blocks.antt =====
-- The operations of kernel/mm/heap/heap.c on neighbouring blocks, and the growth of the heap. `vmm`
-- says whether `vmm_alloc_pages_at` maps a number of pages at an address.
use ccoperating_system_x.Common.{
  ℕ, ◌+◌, ◌-◌, ◌*◌, ◌/◌, ◌%◌, Bool, not, ◌&&◌, ◌||◌, ◌==◌, ltb, leb, if◌then◌else◌, Exec, done,
  ◌>>=◌, ◌>>◌, assert,
}
use ccoperating_system_x.Heap.{
  Memory, Heap, size_of, used_of, set_size, new_header, with_memory, with_stats, add64, sub64, u64,
  header, heap_min_block, page_size, next_block, is_last_block, validate_block,
}
use ccoperating_system_x.Heap.Links.{remove_from_free_list, find_place, insert_to_free_list}

-- `heap_result_t`, as far as it is returned
pub data HeapResult : Type 0 where
  heap_ok heap_err_not_init heap_err_oom heap_err_invalid : HeapResult

abbrev pub kernel_heap_base : ℕ
kernel_heap_base = 18446744071578845184

-- 128 megabytes behind the base
abbrev pub kernel_heap_max : ℕ
kernel_heap_max = kernel_heap_base + 128 * 1024 * 1024

unfoldable pub split_block : ℕ → Heap → ℕ → ℕ → Exec Heap
split_block fuel h block needed_size =
    let remaining = sub64 (size_of h.memory block) needed_size in
    if ltb remaining heap_min_block then done h else do
      let new_block = block + needed_size
      let m = set_size (new_header h.memory new_block remaining) block needed_size
      h1 ← insert_to_free_list fuel (with_memory h m) new_block
      done (
          with_stats h1 (record h1.stats {
            total_blocks = add64 h1.stats.total_blocks 1;
            free_blocks = add64 h1.stats.free_blocks 1;
            free_bytes = add64 h1.stats.free_bytes remaining;
          }))

-- One block less, and one free block less: what the two merges count.
unfoldable pub merged_stats : Heap → Heap
merged_stats h = with_stats h (record h.stats {
  total_blocks = sub64 h.stats.total_blocks 1;
  free_blocks = sub64 h.stats.free_blocks 1;
})

-- The first half of `coalesce_block`.
unfoldable pub merge_next : Heap → ℕ → Exec Heap
unfolding merged_stats
merge_next h block =
    let next = next_block h block in
    if is_last_block h block || used_of h.memory next || not (validate_block h next)
    then done h
    else do
      h1 ← remove_from_free_list h next
      let total = add64 (size_of h1.memory block) (size_of h1.memory next)
      done (merged_stats (with_memory h1 (set_size h1.memory block total)))

-- The second half: the block before is the last one of the free list below this one.
unfoldable pub merge_prev : ℕ → Heap → ℕ → Exec Heap
unfolding merged_stats
merge_prev fuel h block =
    let below = (find_place fuel h.memory block 0 h.free_list).0 in
    if below == 0 || not (below + size_of h.memory below == block) then done h else do
      let total = add64 (size_of h.memory below) (size_of h.memory block)
      h1 ← remove_from_free_list (with_memory h (set_size h.memory below total)) block
      done (merged_stats h1)

unfoldable pub coalesce_block : ℕ → Heap → ℕ → Exec Heap
unfolding merge_next merge_prev
coalesce_block fuel h block =
    assert (not (used_of h.memory block)) >> (merge_next h block >>= λ h1. merge_prev fuel h1 block)

unfoldable pub page_count : ℕ → ℕ
page_count min_needed =
    let pages = (min_needed + (page_size - 1)) % u64 / page_size in if ltb pages 4 then 4 else pages

-- The page where the heap goes on: its break, rounded up, or its base where it has none.
unfoldable pub target_vaddr : ℕ → ℕ
target_vaddr brk =
    let orig = if brk == 0 then kernel_heap_base else brk in
    let sum = (orig + (page_size - 1)) % u64 in sum - sum % page_size

unfoldable pub clear : Memory → ℕ → ℕ → Memory
clear m start end b = if leb start b && ltb b end then 0 else m b

unfoldable pub expand_heap_locked : ℕ → (ℕ → ℕ → Bool) → Heap → ℕ → Exec (HeapResult × Heap)
unfolding page_count target_vaddr clear coalesce_block
expand_heap_locked fuel vmm h min_needed =
    let pages = page_count min_needed in
    let target = target_vaddr h.heap_brk in
    let size = pages * page_size in
    if not (vmm target pages) then done (heap_err_oom, h) else do
      let m = clear (new_header h.memory target size) (target + header) (target + size)
      h1 ← insert_to_free_list fuel (with_memory h m) target
      let s = h1.stats
      let h2 = record h1 {
        heap_brk = target + size;
        stats = record s {
          total_bytes = add64 s.total_bytes size;
          free_bytes = add64 s.free_bytes size;
          total_blocks = add64 s.total_blocks 1;
          free_blocks = add64 s.free_blocks 1;
          expand_count = add64 s.expand_count 1;
        };
      }
      h3 ← coalesce_block fuel h2 target
      done (heap_ok, h3)
