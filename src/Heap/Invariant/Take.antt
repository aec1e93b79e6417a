-- ===== src/Heap/Invariant/Take.antt =====
-- `kmalloc` keeps the invariant of the free list, where a free block is large enough.
use ccoperating_system_x.Common.{
  ℕ, ◌+◌, ◌%◌, ◌≤◌, ◌<◌, ◌≡◌, ◌≢◌, refl, ◌∙◌, ap, Bool, true, false, not, ◌==◌, if◌then◌else◌, List,
  arith, ◌⊎◌, inl, inr, done, length, ◌||◌,
}
use ccoperating_system_x.Heap.{
  Memory, Heap, put, put_low, size_of, used_of, set_used, u64, total_block_size, block_to_ptr,
}
use ccoperating_system_x.Heap.Links.{unlink, find_best_fit, remove_from_free_list}
use ccoperating_system_x.Heap.Links.Chain.{Contains, delete}
use ccoperating_system_x.Heap.Fit.{find_best_fit-BestFit}
use ccoperating_system_x.Heap.Sizes.{total_block_size_lem}
use ccoperating_system_x.Heap.Alloc.{take_block, granted, kmalloc}
use ccoperating_system_x.Heap.Invariant.{FreeList, FreeList-sub}
use ccoperating_system_x.Heap.Invariant.Lists.{
  Chain-above, frame_in, of_delete, not_in_delete, length-delete,
}
use ccoperating_system_x.Heap.Invariant.Unlink.{unlink-Kept, unlink-FreeList}
use ccoperating_system_x.Heap.Invariant.Split.{
  Separate, Split, Sides, narrowed, split_list, split_block-Split,
}

-- What a granted block is: marked as used, long enough, and apart from the free blocks, each as
-- long as its header says; and the free list is as it must be.
pub record Granted (h' : Heap) (r total : ℕ) (zs : List ℕ) : Type 0 where
  pub list : FreeList h'.memory h'.free_list zs
  pub in_use : used_of h'.memory r ≡ true
  pub long : total ≤ size_of h'.memory r
  pub apart : (y : ℕ) → Contains y zs → Sides h'.memory r y

-- A mark leaves every word but the one of the flag.
set_used_elsewhere : (m : Memory) (b a : ℕ) (v : Bool) → a ≢ b + 8 → set_used m b v a ≡ m a
unfolding put put_low
set_used_elsewhere m b a v ne = ground arith

remove_unused :
    (h : Heap) (b : ℕ) → used_of h.memory b ≡ false → remove_from_free_list h b ≡ done (unlink h b)
unfolding remove_from_free_list
remove_unused h b u = rw u refl

set_used_sets : (m : Memory) (b : ℕ) → used_of (set_used m b true) b ≡ true
unfolding put put_low
set_used_sets m b = ground arith

-- The mark of the block as used.
mark-Granted :
    (h h' : Heap) (r total : ℕ) (zs : List ℕ)
    → Split h r total zs
    → 48 ≤ total
    → h'.memory ≡ set_used h.memory r true
    → h'.free_list ≡ h.free_list
    → Granted h' r total zs
mark-Granted h h' r total zs s room em ef =
    let m = h.memory in
    let m' = set_used m r true in
    let same = λ (y a : ℕ) (i : Contains y zs) (low : y ≤ a) (high : a < y + 48).
      set_used_elsewhere m r a true (λ e. elim (s.apart y i) as (λ _. ⊥) [
        | inl q ↦ absurd (omega (arith, s.list.large y i))
        | inr q ↦ absurd (omega (arith, s.long))
      ]) in
    let own : size_of m' r ≡ size_of m r = set_used_elsewhere m r r true (λ e. omega arith) in
    let list =
      FreeList-sub m m' h.free_list h.free_list zs zs s.list (λ y i. i)
        (λ y i.
          (same y y i (omega arith) (omega arith), same y (y + 8) i (omega arith) (omega arith)))
        (frame_in m m' 0 h.free_list zs s.list.chain (λ y i. (
          same y (y + 16) i (omega arith) (omega arith),
          same y (y + 24) i (omega arith) (omega arith),
        ))) in
    record {
      list = rw (em, ef) list;
      in_use = rw em (set_used_sets m r);
      long = rw em (omega (arith, s.long, own));
      apart = λ y i.
          rw em (
            narrowed m m' r y (omega arith) (same y y i (omega arith) (omega arith)) (s.apart y i));
    }

-- A block of the free list, once it is unlinked, is separate from the others.
unlink-Separate :
    (h : Heap) (r : ℕ) (xs : List ℕ)
    → FreeList h.memory h.free_list xs
    → Contains r xs
    → size_of h.memory r < u64
    → Separate (unlink h r).memory r (delete r xs)
unlink-Separate h r xs f i lt =
    let k = unlink-Kept h r xs f i in
    let a = Chain-above h.memory 0 h.free_list r xs f.chain i in
    record {
      positive = a.0;
      aligned = a.1;
      bounded = omega (arith, (k r i).0, lt);
      out = not_in_delete h.memory 0 h.free_list r xs f.chain;
      behind = λ y j less.
          let j' = of_delete r y xs j in omega (arith, (k y j').0, f.apart y r j' i less);
      before = λ y j less.
          let j' = of_delete r y xs j in omega (arith, (k r i).0, f.apart r y i j' less);
    }

-- The list behind the allocation of a block.
abbrev pub rest_list : Memory → ℕ → ℕ → List ℕ → List ℕ
rest_list m r total xs = split_list (size_of m r) r total (delete r xs)

take_block-Granted :
    (fuel : ℕ) (h : Heap) (r total : ℕ) (xs : List ℕ)
    → FreeList h.memory h.free_list xs
    → Contains r xs
    → size_of h.memory r < u64
    → 48 ≤ total
    → total % 16 ≡ 0
    → total ≤ size_of h.memory r
    → (size_of h.memory r < total + 32) ⊎ (total + 48 ≤ size_of h.memory r)
    → length xs ≤ fuel
    → (h' : Heap) × (take_block fuel h r total ≡ done (r + 48, h'))
      × Granted h' r total (rest_list h.memory r total xs)
unfolding take_block block_to_ptr granted
take_block-Granted fuel h r total xs f i lt room al le split enough =
    let h1 = unlink h r in
    let same = (unlink-Kept h r xs f i r i).0 in
    let sp =
      split_block-Split fuel h1 r total (delete r xs) (unlink-FreeList h r xs f i)
        (unlink-Separate h r xs f i lt) room al (omega (arith, same)) (rw same split)
        (omega (arith, length-delete r xs)) in
    let removed = remove_unused h r (f.unused r i) in
    (
      granted sp.0 r,
      rw (removed, sp.1) refl,
      mark-Granted sp.0 (granted sp.0 r) r total _ (rw same at sp.2) room refl refl,
    )

third :
    {A : Type 0} (a b c : Bool) (x y z : A)
    → a ≡ false
    → b ≡ false
    → c ≡ false
    → (if a || b then x else if c then y else z) ≡ z
third a b c x y z e e' e'' = rw (e, e', e'') refl

kmalloc-found :
    (fuel : ℕ) (vmm : ℕ → ℕ → Bool) (h : Heap) (size : ℕ)
    → h.initialized ≡ true
    → 0 < size
    → find_best_fit fuel h (total_block_size size) ≢ 0
    → kmalloc fuel vmm h size
      ≡ take_block fuel h (find_best_fit fuel h (total_block_size size)) (total_block_size size)
unfolding kmalloc
kmalloc-found fuel vmm h size ready pos ne =
    third (not h.initialized) (size == 0) (find_best_fit fuel h (total_block_size size) == 0) _ _ _
      (ap not ready) (ground arith) (ground arith)

-- `kmalloc`, where the free list has a block that is large enough and what remains of the one that
-- the search returns is no part of a header: it returns that block's address behind its header, the
-- block is marked as used and has room for the request, no free block overlaps it up to the ends
-- that their headers state, and the free list is as it must be, without the block and with its
-- rest, if that is cut off.
pub kmalloc-Granted :
    (fuel : ℕ) (vmm : ℕ → ℕ → Bool) (h : Heap) (size x : ℕ) (xs : List ℕ)
    → h.initialized ≡ true
    → 0 < size
    → size + 64 ≤ u64
    → FreeList h.memory h.free_list xs
    → ((y : ℕ) → Contains y xs → size_of h.memory y < u64)
    → length xs ≤ fuel
    → Contains x xs
    → total_block_size size ≤ size_of h.memory x
    → let total : ℕ = total_block_size size in
      let r : ℕ = find_best_fit fuel h total in
      (size_of h.memory r < total + 32) ⊎ (total + 48 ≤ size_of h.memory r)
      → (h' : Heap) × (kmalloc fuel vmm h size ≡ done (r + 48, h'))
        × Granted h' r total (rest_list h.memory r total xs)
kmalloc-Granted fuel vmm h size x xs ready pos fits f bounded enough i le split =
    let total = total_block_size size in
    let r = find_best_fit fuel h total in
    let best = find_best_fit-BestFit fuel h total xs f.chain enough in
    let t = total_block_size_lem size fits in
    let some_block = (best.smallest x i le).0 in
    let taken =
      take_block-Granted fuel h r total xs f (best.in_list some_block)
        (bounded r (best.in_list some_block)) (omega (arith, t.0)) t.2 (best.large some_block) split
        enough in
    (taken.0, kmalloc-found fuel vmm h size ready pos some_block ∙ taken.1, taken.2)
