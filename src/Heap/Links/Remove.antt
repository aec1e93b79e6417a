-- ===== src/Heap/Links/Remove.antt =====
-- `remove_from_free_list` of kernel/mm/heap/heap.c deletes from the list.
use ccoperating_system_x.Common.{
  ℕ, ◌+◌, ◌%◌, ◌≤◌, ◌<◌, ◌≡◌, ◌≢◌, true, false, ◌==◌, if◌then◌else◌, List, [], ◌∷◌, arith, ◌⊎◌, inl,
  inr, ◌∙◌, sym, ap, subst,
}
use ccoperating_system_x.Heap.{Memory, Heap, put, prev_of, next_of}
use ccoperating_system_x.Heap.Links.{unlinked, unlink}
use ccoperating_system_x.Heap.Links.Chain.{Between, Chain, delete, Contains, frame}

-- The links as the writes leave them.
module _ (m : Memory) (block prev next : ℕ) (b : Between block prev next) where
  next_before :
      (x : ℕ)
      → x < block
      → 0 < x
      → x % 16 ≡ 0
      → unlinked m block prev next (x + 24) ≡ (if prev == x then next else m (x + 24))
  unfolding unlinked put
  next_before x lt pos al =
      ground (arith, b.above, b.below, b.prev_aligned, b.curr_aligned, b.block_aligned)

  prev_before : (x : ℕ) → x < block → x % 16 ≡ 0 → unlinked m block prev next (x + 16) ≡ m (x + 16)
  unfolding unlinked put
  prev_before x lt al =
      ground (arith, b.above, b.below, b.prev_aligned, b.curr_aligned, b.block_aligned)

  prev_next : next ≢ 0 → unlinked m block prev next (next + 16) ≡ prev
  unfolding unlinked put
  prev_next ne = ground (arith, b.above, b.below, b.prev_aligned, b.curr_aligned, b.block_aligned)

  next_after : (y : ℕ) → block < y → y % 16 ≡ 0 → unlinked m block prev next (y + 24) ≡ m (y + 24)
  unfolding unlinked put
  next_after y lt al =
      ground (arith, b.above, b.below, b.prev_aligned, b.curr_aligned, b.block_aligned)

  prev_after :
      (y : ℕ) → next < y → block < y → y % 16 ≡ 0 → unlinked m block prev next (y + 16) ≡ m (y + 16)
  unfolding unlinked put
  prev_after y lt lt' al =
      ground (arith, b.above, b.below, b.prev_aligned, b.curr_aligned, b.block_aligned)

-- The neighbours of a block of the list are in order, and the one before it not before `prev`.
record Around (m : Memory) (prev block : ℕ) : Type 0 where
  pub between : Between block (prev_of m block) (next_of m block)
  pub behind : prev ≤ prev_of m block

next_in_order :
    (m : Memory) (x next : ℕ) (xs : List ℕ)
    → Chain m x next xs
    → ((next ≡ 0) ⊎ (x < next)) × (next % 16 ≡ 0)
next_in_order m x next [] c = (inl c, omega arith)
next_in_order m x next (y ∷ ys) (e, l, al, back, rest) = (inr (omega arith), omega arith)

around :
    (m : Memory) (prev curr block : ℕ) (xs : List ℕ)
    → Chain m prev curr xs
    → prev % 16 ≡ 0
    → Contains block xs
    → Around m prev block
around m prev curr block [] c pa i = absurd i
around m prev curr block (x ∷ xs) (e, l, al, back, rest) pa (inl q) =
    let n = next_in_order m x (next_of m x) xs rest in
    subst (Around m prev) (sym q) (record {
      between = record {
        above = omega (arith, back, l);
        below = n.0;
        prev_aligned = omega (arith, back, pa);
        curr_aligned = n.1;
        block_aligned = al;
      };
      behind = omega (arith, back);
    })
around m prev curr block (x ∷ xs) (e, l, al, back, rest) pa (inr i) =
    let a = around m x (next_of m x) block xs rest al i in
    record { between = a.between; behind = omega (arith, a.behind, l) }

-- What follows the block, once it is unlinked.
rest_unlinked :
    (m : Memory) (block prev next : ℕ) (xs : List ℕ)
    → Between block prev next
    → Chain m block next xs
    → Chain (unlinked m block prev next) prev next xs
rest_unlinked m block prev next [] b c = c
rest_unlinked m block prev next (x ∷ xs) b (e, l, al, back, rest) =
    let same = next_after m block prev next b x l al in
    let tail =
      frame m (unlinked m block prev next) x (next_of m x) x xs rest (omega arith) (λ y lt yl. (
        prev_after m block prev next b y (omega arith) (omega arith) yl,
        next_after m block prev next b y (omega arith) yl,
      )) in
    (
      e,
      omega (arith, b.above),
      al,
      ap (λ k. unlinked m block prev next (k + 16)) (sym e)
          ∙ prev_next m block prev next b (λ z. omega arith),
      rw same tail,
    )

-- The free list without the block.
abbrev Without : Memory → ℕ → ℕ → ℕ → List ℕ → Type 0
Without m block prev curr ys =
    Chain (unlinked m block (prev_of m block) (next_of m block)) prev
      (if prev_of m block == prev then next_of m block else curr) ys

unlinked_here :
    (m : Memory) (prev block : ℕ) (xs : List ℕ) (curr : ℕ)
    → Between block (prev_of m block) (next_of m block)
    → prev_of m block ≡ prev
    → Chain m block (next_of m block) xs
    → Without m block prev curr xs
unlinked_here m prev block xs curr b back rest =
    let same : (prev_of m block == prev_of m block) ≡ true = ground arith in
    let r = rest_unlinked m block (prev_of m block) (next_of m block) xs b rest in
    subst
      (λ p.
        Chain (unlinked m block (prev_of m block) (next_of m block)) p
          (if prev_of m block == p then next_of m block else curr) xs)
      back (rw same r)

unlinked_later :
    (m : Memory) (block prev curr x : ℕ) (ys : List ℕ)
    → Around m x block
    → curr ≡ x
    → prev < x
    → x % 16 ≡ 0
    → prev_of m x ≡ prev
    → Without m block x (next_of m x) ys
    → Without m block prev curr (x ∷ ys)
unlinked_later m block prev curr x ys a e l al back ih =
    let b = a.between in
    let lt : x < block = omega (arith, a.behind, b.above) in
    (
      ground (arith, a.behind),
      l,
      al,
      prev_before m block _ _ b x lt al ∙ back,
      rw (next_before m block _ _ b x lt (omega arith) al) ih,
    )

unlinked-Chain :
    (m : Memory) (block prev curr : ℕ) (xs : List ℕ)
    → Chain m prev curr xs
    → prev % 16 ≡ 0
    → Contains block xs
    → Without m block prev curr (delete block xs)
unlinked-Chain m block prev curr [] c pa i = absurd i
unlinked-Chain m block prev curr (x ∷ xs) (e, l, al, back, rest) pa (inl q) =
    let a = around m prev curr block (x ∷ xs) (e, l, al, back, rest) pa (inl q) in
    let same : (x == block) ≡ true = ground arith in
    rw same (
      unlinked_here m prev block xs curr a.between (ap (prev_of m) q ∙ back)
        (subst (λ k. Chain m k (next_of m k) xs) (sym q) rest))
unlinked-Chain m block prev curr (x ∷ xs) (e, l, al, back, rest) pa (inr i) =
    let a = around m x (next_of m x) block xs rest al i in
    let other : (x == block) ≡ false = ground (arith, a.behind, a.between.above) in
    let ih = unlinked-Chain m block x (next_of m x) xs rest al i in
    rw other (unlinked_later m block prev curr x (delete block xs) a e l al back ih)

-- Removing a block of the free list leaves the list without it, in order.
pub unlink-Chain :
    (h : Heap) (block : ℕ) (xs : List ℕ)
    → Chain h.memory 0 h.free_list xs
    → Contains block xs
    → Chain (unlink h block).memory 0 (unlink h block).free_list (delete block xs)
unfolding unlink
unlink-Chain h block xs c i = unlinked-Chain h.memory block 0 h.free_list xs c (omega arith) i
