-- ===== src/Heap/Invariant/Split.antt =====
-- `split_block` keeps the invariant of the free list, where what remains is no part of a header.
use ccoperating_system_x.Common.{
  ℕ, ◌+◌, ◌-◌, ◌%◌, ◌≤◌, ◌<◌, ◌≡◌, refl, true, false, ◌==◌, ltb, if◌then◌else◌, List, arith, ◌⊎◌,
  inl, inr, done, length, Bool-cases, subst, ◌∙◌,
}
use ccoperating_system_x.Heap.{
  Memory, Heap, put, put_low, size_of, used_of, set_size, new_header, with_memory, with_stats,
  add64, sub64, u64,
}
use ccoperating_system_x.Heap.Links.{place_in_list}
use ccoperating_system_x.Heap.Links.Chain.{Contains, insert}
use ccoperating_system_x.Heap.Blocks.{split_block}
use ccoperating_system_x.Heap.Invariant.{FreeList, FreeList-sub}
use ccoperating_system_x.Heap.Invariant.Lists.{frame_in, of_insert}
use ccoperating_system_x.Heap.Invariant.Insert.{
  NewBlock, With, insert-FreeList, place_in_list-keeps, place_in_list-Kept,
}

-- The memory with the header of the remainder and the new size of the block.
abbrev pub cut : Memory → ℕ → ℕ → ℕ → Memory
cut m r total rest = set_size (new_header m (r + total) rest) r total

module _ (m : Memory) (r total rest : ℕ) (room : 48 ≤ total) where
  cut_outside : (a : ℕ) → (a < r) ⊎ (r + total + 40 ≤ a) → cut m r total rest a ≡ m a
  unfolding new_header put put_low
  cut_outside a (inl h) = ground arith
  cut_outside a (inr h) = ground arith

  cut_size : cut m r total rest r ≡ total
  unfolding put
  cut_size = ground arith

  cut_rest : cut m r total rest (r + total) ≡ rest
  unfolding new_header put put_low
  cut_rest = ground arith

  cut_links : (cut m r total rest (r + total + 16) ≡ 0) × (cut m r total rest (r + total + 24) ≡ 0)
  unfolding new_header put put_low
  cut_links = (ground arith, ground arith)

  cut_flag : used_of (cut m r total rest) (r + total) ≡ false
  unfolding new_header put put_low
  cut_flag = ground arith

-- A block that is not in the list and overlaps no block of it.
pub record Separate (m : Memory) (r : ℕ) (ys : List ℕ) : Type 0 where
  pub positive : 0 < r
  pub aligned : r % 16 ≡ 0
  pub bounded : size_of m r < u64
  pub out : ¬ Contains r ys
  pub behind : (y : ℕ) → Contains y ys → y < r → y + size_of m y ≤ r
  pub before : (y : ℕ) → Contains y ys → r < y → r + size_of m r ≤ y

-- A block of the list is on one side of the other block.
abbrev pub Sides : Memory → ℕ → ℕ → Type 0
Sides m r y = (y + size_of m y ≤ r) ⊎ (r + size_of m r ≤ y)

module _ (m : Memory) (first r : ℕ) (ys : List ℕ) (f : FreeList m first ys)
    (s : Separate m r ys) where
  sides : (y : ℕ) → Contains y ys → Sides m r y
  sides y i = elim (Bool-cases (ltb y r)) [
    | inl e ↦ inl (s.behind y i (ground arith))
    | inr e ↦ elim (Bool-cases (y == r)) [
      | inl q ↦ absurd (s.out (subst (λ k. Contains k ys) (ground arith) i))
      | inr n ↦ inr (s.before y i (ground arith))
    ]
  ]

  side : (y : ℕ) → Contains y ys → (y + 48 ≤ r) ⊎ (r + size_of m r ≤ y)
  side y i = elim (sides y i) [ inl h ↦ inl (omega (arith, f.large y i)) | inr h ↦ inr h ]

module _ (m : Memory) (first r total : ℕ) (ys : List ℕ) (f : FreeList m first ys)
    (s : Separate m r ys) (room : 48 ≤ total) (rest : total + 48 ≤ size_of m r) where
  abbrev cut_here : Memory
  cut_here = cut m r total (size_of m r - total)

  -- The headers of the list are not touched by the cut.
  kept_word : (y a : ℕ) → Contains y ys → y ≤ a → a < y + 48 → cut_here a ≡ m a
  kept_word y a i low high =
      cut_outside m r total (size_of m r - total) room a
        (elim (side m first r ys f s y i) [ inl h ↦ inl (omega arith) | inr h ↦ inr (omega arith) ])

  cut-FreeList : FreeList cut_here first ys
  cut-FreeList =
      FreeList-sub m cut_here first first ys ys f (λ y i. i)
        (λ y i. (
          kept_word y y i (omega arith) (omega arith),
          kept_word y (y + 8) i (omega arith) (omega arith),
        ))
        (frame_in m cut_here 0 first ys f.chain (λ y i. (
          kept_word y (y + 16) i (omega arith) (omega arith),
          kept_word y (y + 24) i (omega arith) (omega arith),
        )))

  rest-NewBlock : total % 16 ≡ 0 → NewBlock cut_here (r + total) ys
  rest-NewBlock al =
      let size = cut_rest m r total (size_of m r - total) room in
      let links = cut_links m r total (size_of m r - total) room in
      record {
        positive = omega (arith, s.positive);
        aligned = omega (arith, s.aligned);
        is_free = cut_flag m r total (size_of m r - total) room;
        no_prev = links.0;
        no_next = links.1;
        room = omega (arith, size);
        distinct = λ i. elim (side m first r ys f s (r + total) i) [
          | inl h ↦ absurd (omega arith)
          | inr h ↦ absurd (omega arith)
        ];
        behind = λ x i lt. elim (side m first r ys f s x i) [
          | inl h ↦
              omega (arith, kept_word x x i (omega arith) (omega arith), s.behind x i (omega arith))
          | inr h ↦ absurd (omega arith)
        ];
        before = λ x i lt. elim (side m first r ys f s x i) [
          | inl h ↦ absurd (omega arith)
          | inr h ↦ omega (arith, size)
        ];
      }

-- The list behind the split of a block.
abbrev pub split_list : ℕ → ℕ → ℕ → List ℕ → List ℕ
split_list size r total ys = if ltb (size - total) 32 then ys else insert (r + total) ys

-- What a split leaves: the free list, with the rest of the block where that is cut off, and the
-- block, as long as is needed: each of them, as long as its header says, ends before the other.
pub record Split (h' : Heap) (r total : ℕ) (zs : List ℕ) : Type 0 where
  pub list : FreeList h'.memory h'.free_list zs
  pub long : total ≤ size_of h'.memory r
  pub apart : (y : ℕ) → Contains y zs → Sides h'.memory r y

remaining : (size total : ℕ) → total ≤ size → size < u64 → sub64 size total ≡ size - total
remaining size total le lt = omega arith

-- The blocks are on the same sides where the one got shorter and the others kept their sizes.
pub narrowed :
    (m m' : Memory) (r y : ℕ)
    → size_of m' r ≤ size_of m r
    → size_of m' y ≡ size_of m y
    → Sides m r y
    → Sides m' r y
narrowed m m' r y le e (inl h) = inl (omega arith)
narrowed m m' r y le e (inr h) = inr (omega arith)

pub split_block-Split :
    (fuel : ℕ) (h : Heap) (r total : ℕ) (ys : List ℕ)
    → FreeList h.memory h.free_list ys
    → Separate h.memory r ys
    → 48 ≤ total
    → total % 16 ≡ 0
    → total ≤ size_of h.memory r
    → (size_of h.memory r < total + 32) ⊎ (total + 48 ≤ size_of h.memory r)
    → length ys ≤ fuel
    → (h' : Heap) × (split_block fuel h r total ≡ done h')
      × Split h' r total (split_list (size_of h.memory r) r total ys)
unfolding split_block
split_block-Split fuel h r total ys f s room al le (inl short) enough =
    let rem = remaining (size_of h.memory r) total le s.bounded in
    let small : ltb (size_of h.memory r - total) 32 ≡ true = ground arith in
    (
      h,
      rw (rem, small) refl,
      rw small (record { list = f; long = le; apart = sides h.memory h.free_list r ys f s }),
    )
split_block-Split fuel h r total ys f s room al le (inr long) enough =
    let m = h.memory in
    let size = size_of m r in
    let rem = remaining size total le s.bounded in
    let big : ltb (size - total) 32 ≡ false = ground arith in
    let cut_heap = with_memory h (cut m r total (size - total)) in
    let list = cut-FreeList m h.free_list r total ys f s room long in
    let new = rest-NewBlock m h.free_list r total ys f s room long al in
    let ins = insert-FreeList fuel cut_heap (r + total) ys list new enough in
    let placed = place_in_list fuel cut_heap (r + total) in
    let near = side m h.free_list r ys f s in
    let far = λ (z : ℕ) (i : With (r + total) ys z) (e : r ≡ z + 16). elim i as (λ _. ⊥) [
      | inl q ↦ absurd (omega arith)
      | inr j ↦ elim (near z j) as (λ _. ⊥) [
        | inl q ↦ absurd (omega arith)
        | inr q ↦ absurd (omega arith)
      ]
    ] in
    let kept =
      place_in_list-keeps fuel cut_heap (r + total) ys list.chain new.aligned r s.aligned far in
    let own = cut_size m r total (size - total) room in
    let sizes = place_in_list-Kept fuel cut_heap (r + total) ys list new in
    let word = kept_word m h.free_list r total ys f s room long in
    (
      with_stats placed (record placed.stats {
        total_blocks = add64 placed.stats.total_blocks 1;
        free_blocks = add64 placed.stats.free_blocks 1;
        free_bytes = add64 placed.stats.free_bytes (size - total);
      }),
      rw (rem, big, ins.0) refl,
      rw big (record {
        list = ins.1;
        long = omega (arith, kept.0, own);
        apart = λ y i. elim (of_insert (r + total) y ys i) [
          | inl e ↦ inr (omega (arith, kept.0, own))
          | inr j ↦
              narrowed m placed.memory r y (omega (arith, kept.0, own))
                ((sizes y (inr j)).0 ∙ word y y j (omega arith) (omega arith))
                (sides m h.free_list r ys f s y j)
        ];
      }),
    )
