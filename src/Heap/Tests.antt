-- ===== src/Heap/Tests.antt =====
-- Runs of the heap's model, on a heap with two free blocks of 64 and 256 bytes.
use ccoperating_system_x.Common.{
  ℕ, ◌+◌, ◌%◌, ◌≤◌, ◌<◌, ◌≡◌, refl, sym, Bool, true, false, ◌||◌, ◌==◌, if◌then◌else◌, List, [],
  ◌∷◌, arith, ◌⊎◌, inl, inr, Exec, done, subst,
}
use ccoperating_system_x.Heap.{
  Memory, Heap, size_of, used_of, block_to_ptr, total_block_size, new_header, put, put_low, u64,
}
use ccoperating_system_x.Heap.Links.{
  unlink, link, find_place, place_in_list, find_best_fit, best_fit, remove_from_free_list,
  insert_to_free_list,
}
use ccoperating_system_x.Heap.Links.Chain.{Chain, Contains, insert, delete}
use ccoperating_system_x.Heap.Links.Insert.{place_in_list-Chain}
use ccoperating_system_x.Heap.Links.Remove.{unlink-Chain}
use ccoperating_system_x.Heap.Fit.{BestFit, find_best_fit-BestFit}
use ccoperating_system_x.Heap.Sizes.{total_block_size_lem}
use ccoperating_system_x.Heap.Blocks.{split_block}
use ccoperating_system_x.Heap.Alloc.{no_stats, kmalloc, take_block, granted}
use ccoperating_system_x.Heap.Invariant.{FreeList}
use ccoperating_system_x.Heap.Invariant.Take.{Granted, rest_list, kmalloc-Granted}

abbrev memory : Memory
memory a =
    if a == 4096
    then 64
    else if a == 4120
    then 8192
    else if a == 4128
    then 1131796
    else if a == 8192
    then 256
    else if a == 8208
    then 4096
    else if a == 8224
    then 1131796
    else 0

abbrev heap_on : Memory → ℕ → Heap
heap_on m first = record {
  heap_start = 4096;
  heap_end = 16384;
  heap_brk = 12288;
  free_list = first;
  stats = no_stats;
  initialized = true;
  memory = m;
}

abbrev heap : Heap
heap = heap_on memory 4096

abbrev free_blocks : List ℕ
free_blocks = 4096 ∷ 8192 ∷ []

chain : Chain heap.memory 0 heap.free_list free_blocks
chain = (refl, omega arith, refl, refl, (refl, omega arith, refl, refl, refl))

in_both : (P : ℕ → Type 0) → P 4096 → P 8192 → (x : ℕ) → Contains x free_blocks → P x
in_both P p q x (inl e) = subst P (sym e) p
in_both P p q x (inr (inl e)) = subst P (sym e) q
in_both P p q x (inr (inr e)) = absurd e

apart :
    (x y : ℕ) → Contains x free_blocks → Contains y free_blocks → x < y → x + size_of memory x ≤ y
apart x y i j lt =
    in_both (λ u. u < y → u + size_of memory u ≤ y)
      (λ l.
        in_both (λ v. 4096 < v → 4096 + 64 ≤ v) (λ k. absurd (omega arith)) (λ k. omega arith) y j
          l)
      (λ l.
        in_both (λ v. 8192 < v → 8192 + 256 ≤ v) (λ k. absurd (omega arith))
          (λ k. absurd (omega arith)) y j l)
      x i lt

free_list : FreeList heap.memory heap.free_list free_blocks
free_list = record {
  chain = chain;
  unused = in_both (λ x. used_of memory x ≡ false) refl refl;
  large = in_both (λ x. 48 ≤ size_of memory x) (omega arith) (omega arith);
  apart = apart;
}

abbrev no_pages : ℕ → ℕ → Bool
no_pages a n = false

-- 100 bytes fit in the second block only.
granted_address : find_best_fit 2 heap (total_block_size 100) ≡ 8192
unfolding find_best_fit best_fit total_block_size
granted_address = refl

fits_second : total_block_size 100 ≤ size_of heap.memory 8192
unfolding total_block_size
fits_second = omega arith

rest_fits :
    (size_of heap.memory (find_best_fit 2 heap (total_block_size 100)) < total_block_size 100 + 32)
    ⊎ (total_block_size 100 + 48
        ≤ size_of heap.memory (find_best_fit 2 heap (total_block_size 100)))
unfolding find_best_fit best_fit total_block_size
rest_fits = inr (omega arith)

kmalloc-Granted_example :
    (h' : Heap) × (kmalloc 2 no_pages heap 100
      ≡ done (find_best_fit 2 heap (total_block_size 100) + 48, h'))
    × Granted h' (find_best_fit 2 heap (total_block_size 100)) (total_block_size 100) (
        rest_list heap.memory
          (find_best_fit 2 heap (total_block_size 100))
          (total_block_size 100)
          free_blocks)
kmalloc-Granted_example =
    kmalloc-Granted 2 no_pages heap 100 8192 free_blocks refl (omega arith) (omega arith) free_list
      (in_both (λ y. size_of heap.memory y < u64) (omega arith) (omega arith)) (omega arith)
      (inr (inl refl)) fits_second rest_fits

not_free : ¬ Contains 5120 free_blocks
not_free (inl e) = absurd (omega arith)
not_free (inr (inl e)) = absurd (omega arith)
not_free (inr (inr e)) = e

place_in_list-Chain_example :
    Chain
      (place_in_list 2 heap 5120).memory
      0
      (place_in_list 2 heap 5120).free_list
      (insert 5120 free_blocks)
place_in_list-Chain_example =
    place_in_list-Chain 2 heap 5120 free_blocks chain (omega arith) not_free (omega arith) refl

unlink-Chain_example :
    Chain (unlink heap 4096).memory 0 (unlink heap 4096).free_list (delete 4096 free_blocks)
unlink-Chain_example = unlink-Chain heap 4096 free_blocks chain (inl refl)

find_best_fit-BestFit_example : BestFit heap.memory 100 free_blocks (find_best_fit 2 heap 100)
find_best_fit-BestFit_example = find_best_fit-BestFit 2 heap 100 free_blocks chain (omega arith)

total_block_size_lem_example :
    (100 + 48 ≤ total_block_size 100)
    × (total_block_size 100 < 100 + 64)
    × (total_block_size 100 % 16 ≡ 0)
total_block_size_lem_example = total_block_size_lem 100 (omega arith)

-- A free block of 96 bytes, and behind it one in use.
abbrev tight_heap : Heap
tight_heap =
    heap_on
      (λ a.
        if a == 4096
        then 96
        else if a == 4192
        then 64
        else if a == 4200
        then 1
        else if a == 4128 || a == 4224
        then 1131796
        else 0)
      4096

abbrev size_after : ℕ → Exec (ℕ × Heap) → ℕ
size_after b (done (p, h)) = size_of h.memory b
size_after b r = 0

-- What remains of the block is 32 bytes, so the header written there overlaps the block behind it:
-- the magic number takes the place of that block's size.
header_overlaps : size_after 4192 (kmalloc 2 no_pages tight_heap 16) ≡ 1131796
unfolding kmalloc total_block_size find_best_fit best_fit take_block granted block_to_ptr
    remove_from_free_list unlink split_block insert_to_free_list place_in_list find_place link
    new_header put put_low
header_overlaps = refl
