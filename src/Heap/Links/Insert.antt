-- ===== src/Heap/Links/Insert.antt =====
-- `insert_to_free_list` of kernel/mm/heap/heap.c inserts into the sorted list.
use ccoperating_system_x.Common.{
  ℕ, zero, suc, ◌+◌, ◌%◌, ◌≤◌, ◌<◌, ◌≡◌, ◌≢◌, refl, ◌==◌, leb, if◌then◌else◌, List, [], ◌∷◌, arith,
  length, ◌⊎◌, inl, inr, Bool-cases, ◌∙◌, sym, ap, subst,
}
use ccoperating_system_x.Heap.{Memory, Heap, put, prev_of, next_of}
use ccoperating_system_x.Heap.Links.{linked, link, find_place, place_in_list}
use ccoperating_system_x.Heap.Links.Chain.{Between, Chain, insert, Contains, frame}

-- The links as the writes leave them.
module _ (m : Memory) (block prev curr : ℕ) (b : Between block prev curr) where
  next_before :
      (x : ℕ)
      → x < block
      → 0 < x
      → x % 16 ≡ 0
      → linked m block prev curr (x + 24) ≡ (if prev == x then block else m (x + 24))
  unfolding linked put
  next_before x lt pos al =
      ground (arith, b.above, b.below, b.prev_aligned, b.curr_aligned, b.block_aligned)

  prev_before : (x : ℕ) → x < block → x % 16 ≡ 0 → linked m block prev curr (x + 16) ≡ m (x + 16)
  unfolding linked put
  prev_before x lt al =
      ground (arith, b.above, b.below, b.prev_aligned, b.curr_aligned, b.block_aligned)

  next_block_lem : linked m block prev curr (block + 24) ≡ curr
  unfolding linked put
  next_block_lem = ground (arith, b.above, b.below, b.prev_aligned, b.curr_aligned, b.block_aligned)

  prev_block_lem : linked m block prev curr (block + 16) ≡ prev
  unfolding linked put
  prev_block_lem = ground (arith, b.above, b.below, b.prev_aligned, b.curr_aligned, b.block_aligned)

  prev_curr : curr ≢ 0 → linked m block prev curr (curr + 16) ≡ block
  unfolding linked put
  prev_curr ne = ground (arith, b.above, b.below, b.prev_aligned, b.curr_aligned, b.block_aligned)

  next_after : (y : ℕ) → block < y → y % 16 ≡ 0 → linked m block prev curr (y + 24) ≡ m (y + 24)
  unfolding linked put
  next_after y lt al =
      ground (arith, b.above, b.below, b.prev_aligned, b.curr_aligned, b.block_aligned)

  prev_after :
      (y : ℕ) → curr < y → block < y → y % 16 ≡ 0 → linked m block prev curr (y + 16) ≡ m (y + 16)
  unfolding linked put
  prev_after y lt lt' al =
      ground (arith, b.above, b.below, b.prev_aligned, b.curr_aligned, b.block_aligned)

found_here :
    (fuel : ℕ) (m : Memory) (block prev curr : ℕ)
    → (curr ≡ 0) ⊎ (block ≤ curr)
    → find_place fuel m block prev curr ≡ (prev, curr)
unfolding find_place
found_here zero m block prev curr h = refl
found_here (suc fuel) m block prev curr (inl h) = ground arith
found_here (suc fuel) m block prev curr (inr h) = ground arith

found_later :
    (fuel : ℕ) (m : Memory) (block prev curr : ℕ)
    → 0 < curr
    → curr < block
    → find_place (suc fuel) m block prev curr ≡ find_place fuel m block curr (next_of m curr)
unfolding find_place
found_later fuel m block prev curr h lt = ground arith

-- The place that the loop finds is behind `prev`, and in order.
record Place (block prev : ℕ) (place : ℕ × ℕ) : Type 0 where
  pub between : Between block place.0 place.1
  pub behind : prev ≤ place.0

here :
    (fuel : ℕ) (m : Memory) (block prev curr : ℕ)
    → (curr ≡ 0) ⊎ (block < curr)
    → prev < block
    → prev % 16 ≡ 0
    → curr % 16 ≡ 0
    → block % 16 ≡ 0
    → Place block prev (find_place fuel m block prev curr)
here fuel m block prev curr o lt pa ca ba =
    let f = found_here fuel m block prev curr (ground (arith, o)) in
    rw f (record {
      between = record {
        above = lt;
        below = o;
        prev_aligned = pa;
        curr_aligned = ca;
        block_aligned = ba;
      };
      behind = omega arith;
    })

find_place-Place :
    (fuel : ℕ) (m : Memory) (block prev curr : ℕ) (xs : List ℕ)
    → Chain m prev curr xs
    → length xs ≤ fuel
    → ¬ Contains block xs
    → prev < block
    → prev % 16 ≡ 0
    → block % 16 ≡ 0
    → Place block prev (find_place fuel m block prev curr)
find_place-Place fuel m block prev curr [] c f out lt pa ba =
    here fuel m block prev curr (inl c) lt pa (omega arith) ba
find_place-Place zero m block prev curr (x ∷ xs) c f out lt pa ba = absurd (omega arith)
find_place-Place (suc fuel) m block prev curr (x ∷ xs) (e, l, al, back, rest) f out lt pa ba =
    elim (Bool-cases (leb block x)) [
      | inl y ↦
          let ne : block ≢ x = λ q. out (inl q) in
          here (suc fuel) m block prev curr (inr (ground arith)) lt pa (omega arith) ba
      | inr n ↦
          let r =
            find_place-Place fuel m block x (next_of m x) xs rest (omega arith) (λ q. out (inr q))
              (ground arith) al ba in
          rw e (
            rw (found_later fuel m block prev x (omega arith) (ground arith))
              (record { between = r.between; behind = omega (arith, r.behind) }))
    ]

-- What follows the block, once it is linked.
rest_linked :
    (m : Memory) (block prev curr : ℕ) (xs : List ℕ)
    → Between block prev curr
    → Chain m prev curr xs
    → Chain (linked m block prev curr) block curr xs
rest_linked m block prev curr [] b c = c
rest_linked m block prev curr (x ∷ xs) b (e, l, al, back, rest) =
    let after : block < x = ground (arith, b.below) in
    let next = next_after m block prev curr b x after al in
    let tail =
      frame m (linked m block prev curr) x (next_of m x) x xs rest (omega arith) (λ y lt yl. (
        prev_after m block prev curr b y (omega arith) (omega arith) yl,
        next_after m block prev curr b y (omega arith) yl,
      )) in
    (
      e,
      after,
      al,
      ap (λ k. linked m block prev curr (k + 16)) (sym e)
          ∙ prev_curr m block prev curr b (λ z. omega arith),
      rw next tail,
    )

linked_here :
    (m : Memory) (block prev curr : ℕ) (xs : List ℕ)
    → Between block prev curr
    → Chain m prev curr xs
    → Chain (linked m block prev curr) prev (if prev == prev then block else curr) (block ∷ xs)
linked_here m block prev curr xs b c = (
  ground arith,
  b.above,
  b.block_aligned,
  prev_block_lem m block prev curr b,
  rw (next_block_lem m block prev curr b) (rest_linked m block prev curr xs b c),
)

-- The free list with the block at a place.
abbrev LinkedAt : Memory → ℕ → ℕ → ℕ → List ℕ → ℕ × ℕ → Type 0
LinkedAt m block prev curr ys place =
    Chain (linked m block place.0 place.1) prev (if place.0 == prev then block else curr) ys

placed_first :
    (fuel : ℕ) (m : Memory) (block prev curr : ℕ) (xs : List ℕ)
    → Chain m prev curr xs
    → (curr ≡ 0) ⊎ (block < curr)
    → curr % 16 ≡ 0
    → prev < block
    → prev % 16 ≡ 0
    → block % 16 ≡ 0
    → LinkedAt m block prev curr (block ∷ xs) (find_place fuel m block prev curr)
placed_first fuel m block prev curr xs c o ca lt pa ba =
    subst (LinkedAt m block prev curr (block ∷ xs))
      (sym (found_here fuel m block prev curr (ground (arith, o))))
      (linked_here m block prev curr xs
        (record { above = lt; below = o; prev_aligned = pa; curr_aligned = ca; block_aligned = ba })
        c)

linked_later :
    (m : Memory) (block prev curr x p c : ℕ) (ys : List ℕ)
    → Between block p c
    → x ≤ p
    → curr ≡ x
    → prev < x
    → x < block
    → x % 16 ≡ 0
    → prev_of m x ≡ prev
    → Chain (linked m block p c) x (if p == x then block else next_of m x) ys
    → Chain (linked m block p c) prev (if p == prev then block else curr) (x ∷ ys)
linked_later m block prev curr x p c ys b le e l lt al back ih = (
  ground arith,
  l,
  al,
  prev_before m block p c b x lt al ∙ back,
  rw (next_before m block p c b x lt (omega arith) al) ih,
)

linked-Chain :
    (fuel : ℕ) (m : Memory) (block prev curr : ℕ) (xs : List ℕ)
    → Chain m prev curr xs
    → length xs ≤ fuel
    → ¬ Contains block xs
    → prev < block
    → prev % 16 ≡ 0
    → block % 16 ≡ 0
    → LinkedAt m block prev curr (insert block xs) (find_place fuel m block prev curr)
linked-Chain fuel m block prev curr [] c f out lt pa ba =
    placed_first fuel m block prev curr [] c (inl c) (omega arith) lt pa ba
linked-Chain zero m block prev curr (x ∷ xs) c f out lt pa ba = absurd (omega arith)
linked-Chain (suc fuel) m block prev curr (x ∷ xs) (e, l, al, back, rest) f out lt pa ba =
    elim (Bool-cases (leb block x)) [
      | inl y ↦
          let ne : block ≢ x = λ q. out (inl q) in
          rw y (
            placed_first (suc fuel) m block prev curr (x ∷ xs) (e, l, al, back, rest)
              (inr (ground arith)) (omega arith) lt pa ba)
      | inr n ↦
          let below : x < block = ground arith in
          let out' : ¬ Contains block xs = λ q. out (inr q) in
          let place =
            find_place-Place fuel m block x (next_of m x) xs rest (omega arith) out' below al ba in
          let ih =
            linked-Chain fuel m block x (next_of m x) xs rest (omega arith) out' below al ba in
          let found =
            found_later fuel m block prev curr (omega arith) (omega arith)
            ∙ ap (λ k. find_place fuel m block k (next_of m k)) e in
          rw n (
            subst (LinkedAt m block prev curr (x ∷ insert block xs)) (sym found) (
              linked_later m block prev curr x _ _ (insert block xs) place.between place.behind e l
                below al back ih))
    ]

-- Where the rounds are enough for the list, inserting an aligned block that is not in the free
-- list makes the free list the sorted list with the block.
pub place_in_list-Chain :
    (fuel : ℕ) (h : Heap) (block : ℕ) (xs : List ℕ)
    → Chain h.memory 0 h.free_list xs
    → length xs ≤ fuel
    → ¬ Contains block xs
    → 0 < block
    → block % 16 ≡ 0
    → Chain
        (place_in_list fuel h block).memory
        0
        (place_in_list fuel h block).free_list
        (insert block xs)
unfolding place_in_list link
place_in_list-Chain fuel h block xs c f out pos ba =
    linked-Chain fuel h.memory block 0 h.free_list xs c f out pos (omega arith) ba
