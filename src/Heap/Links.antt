-- ===== src/Heap/Links.antt =====
-- The free list of kernel/mm/heap/heap.c: a doubly linked list of the free blocks in the order of
-- their addresses.
pub mod Chain
pub mod Insert
pub mod Remove
use ccoperating_system_x.Common.{
  ℕ, zero, suc, Bool, true, false, not, ◌&&◌, ◌||◌, ◌==◌, ltb, leb, if◌then◌else◌, Exec, done,
  panic, ◌>>=◌, ◌>>◌, assert,
}
use ccoperating_system_x.Heap.{
  Memory, Heap, put, put_low, size_of, used_of, prev_of, next_of, set_prev, set_next, with_memory,
}

-- The writes of `remove_from_free_list`, at a block between `prev` and `next`.
unfoldable pub unlinked : Memory → ℕ → ℕ → ℕ → Memory
unfolding put
unlinked m block prev next =
    let m1 = if prev == 0 then m else set_next m prev next in
    let m2 = if next == 0 then m1 else set_prev m1 next prev in
    set_next (set_prev m2 block 0) block 0

-- `remove_from_free_list` behind its assertion
unfoldable pub unlink : Heap → ℕ → Heap
unfolding unlinked
unlink h block =
    let prev = prev_of h.memory block in
    let next = next_of h.memory block in
    record h {
      free_list = if prev == 0 then next else h.free_list;
      memory = unlinked h.memory block prev next;
    }

unfoldable pub remove_from_free_list : Heap → ℕ → Exec Heap
unfolding unlink
remove_from_free_list h block = assert (not (used_of h.memory block)) >> done (unlink h block)

-- The `while` loop that looks for the place of a block: the last node below it and the next one.
unfoldable pub find_place : ℕ → Memory → ℕ → ℕ → ℕ → ℕ × ℕ
find_place zero m block prev curr = (prev, curr)
find_place (suc fuel) m block prev curr =
    let rest = find_place fuel m block curr (next_of m curr) in
    if curr == 0 || leb block curr then (prev, curr) else rest

-- The writes behind the loop of `insert_to_free_list`.
unfoldable pub linked : Memory → ℕ → ℕ → ℕ → Memory
unfolding put
linked m block prev curr =
    let m1 = set_next m block curr in
    let m2 = if curr == 0 then m1 else set_prev m1 curr block in
    let m3 = set_prev m2 block prev in if prev == 0 then m3 else set_next m3 prev block

unfoldable pub link : Heap → ℕ → ℕ → ℕ → Heap
unfolding linked
link h block prev curr = record h {
  free_list = if prev == 0 then block else h.free_list;
  memory = linked h.memory block prev curr;
}

unfoldable pub place_in_list : ℕ → Heap → ℕ → Heap
unfolding find_place link
place_in_list fuel h block =
    let place = find_place fuel h.memory block 0 h.free_list in link h block place.0 place.1

unfoldable pub insert_to_free_list : ℕ → Heap → ℕ → Exec Heap
unfolding place_in_list
insert_to_free_list fuel h block =
    assert (not (used_of h.memory block))
    >> assert (prev_of h.memory block == 0)
    >> assert (next_of h.memory block == 0)
    >> done (place_in_list fuel h block)

-- The loop of `find_best_fit`, with the best block so far.
unfoldable pub best_fit : ℕ → Memory → ℕ → ℕ → ℕ → ℕ
best_fit zero m size best curr = best
best_fit (suc fuel) m size best curr =
    let better =
      leb size (size_of m curr) && (best == 0 || ltb (size_of m curr) (size_of m best)) in
    let rest = best_fit fuel m size (if better then curr else best) (next_of m curr) in
    if curr == 0 then best else if better && size_of m curr == size then curr else rest

unfoldable pub find_best_fit : ℕ → Heap → ℕ → ℕ
unfolding best_fit
find_best_fit fuel h size = best_fit fuel h.memory size 0 h.free_list
