-- ===== src/Heap/Invariant/Insert.antt =====
-- `insert_to_free_list` keeps the invariant of the free list.
use ccoperating_system_x.Common.{
  ℕ, zero, suc, ◌+◌, ◌%◌, ◌≤◌, ◌<◌, ◌≡◌, ◌≢◌, refl, sym, ap, Bool, true, false, ◌==◌, leb,
  if◌then◌else◌, List, [], ◌∷◌, arith, ◌⊎◌, inl, inr, done, length, ◌||◌, subst,
}
use ccoperating_system_x.Heap.{Memory, Heap, put, size_of, used_of, prev_of, next_of}
use ccoperating_system_x.Heap.Links.{linked, link, find_place, place_in_list, insert_to_free_list}
use ccoperating_system_x.Heap.Links.Chain.{Chain, Contains, insert}
use ccoperating_system_x.Heap.Links.Insert.{place_in_list-Chain}
use ccoperating_system_x.Heap.Invariant.{FreeList}
use ccoperating_system_x.Heap.Invariant.Lists.{of_insert}
use ccoperating_system_x.Heap.Invariant.Unlink.{Clear, aligned_in}

-- A block that can go to the free list.
pub record NewBlock (m : Memory) (b : ℕ) (xs : List ℕ) : Type 0 where
  pub positive : 0 < b
  pub aligned : b % 16 ≡ 0
  pub is_free : used_of m b ≡ false
  pub no_prev : prev_of m b ≡ 0
  pub no_next : next_of m b ≡ 0
  pub room : 48 ≤ size_of m b
  pub distinct : ¬ Contains b xs
  pub behind : (x : ℕ) → Contains x xs → x < b → x + size_of m x ≤ b
  pub before : (x : ℕ) → Contains x xs → b < x → b + size_of m b ≤ x

-- The blocks of the list and the new one.
abbrev pub With : ℕ → List ℕ → ℕ → Type 0
With b xs y = (y ≡ b) ⊎ Contains y xs

-- Both sides of a place are blocks of the list, or its ends.
abbrev Sides : ℕ → List ℕ → ℕ × ℕ → Type 0
Sides prev xs place =
    ((place.0 ≡ prev) ⊎ Contains place.0 xs) × ((place.1 ≡ 0) ⊎ Contains place.1 xs)

ends :
    (m : Memory) (prev curr : ℕ) (xs : List ℕ) → Chain m prev curr xs → Sides prev xs (prev, curr)
ends m prev curr [] c = (inl refl, inl c)
ends m prev curr (x ∷ xs) (e, l, al, back, rest) = (inl refl, inr (inl e))

later : (prev x : ℕ) (xs : List ℕ) (place : ℕ × ℕ) → Sides x xs place → Sides prev (x ∷ xs) place
later prev x xs place (p, c) = (inr p, elim c [ inl z ↦ inl z | inr i ↦ inr (inr i) ])

either :
    (prev : ℕ) (xs : List ℕ) (test : Bool) (place place' : ℕ × ℕ)
    → Sides prev xs place
    → Sides prev xs place'
    → Sides prev xs (if test then place else place')
either prev xs true place place' s s' = s
either prev xs false place place' s s' = s'

find_place_in :
    (fuel : ℕ) (m : Memory) (block prev curr : ℕ) (xs : List ℕ)
    → Chain m prev curr xs
    → Sides prev xs (find_place fuel m block prev curr)
unfolding find_place
find_place_in zero m block prev curr xs c = ends m prev curr xs c
find_place_in (suc fuel) m block prev curr [] c =
    let none : (curr == 0) ≡ true = ground arith in rw none (ends m prev curr [] c)
find_place_in (suc fuel) m block prev curr (x ∷ xs) c =
    let r = find_place_in fuel m block x (next_of m x) xs c.4 in
    either prev (x ∷ xs) (curr == 0 || leb block curr) (prev, curr)
      (find_place fuel m block curr (next_of m curr)) (ends m prev curr (x ∷ xs) c)
      (subst (λ k. Sides prev (x ∷ xs) (find_place fuel m block k (next_of m k))) (sym c.0)
        (later prev x xs _ r))

linked_size :
    (m : Memory) (b p c y : ℕ)
    → b % 16 ≡ 0
    → y % 16 ≡ 0
    → p % 16 ≡ 0
    → Clear y c
    → y ≢ b + 16
    → linked m b p c y ≡ m y
unfolding linked put
linked_size m b p c y ab ay pa cc cb = ground (arith, cc)

linked_flag :
    (m : Memory) (b p c y : ℕ)
    → b % 16 ≡ 0
    → y % 16 ≡ 0
    → c % 16 ≡ 0
    → Clear y p
    → y ≢ b + 16
    → linked m b p c (y + 8) ≡ m (y + 8)
unfolding linked put
linked_flag m b p c y ab ay na cp cb = ground (arith, cp)

-- The new list, from the old memory.
joined_list :
    (m : Memory) (first b : ℕ) (xs : List ℕ)
    → FreeList m first xs
    → NewBlock m b xs
    → ((x : ℕ) → With b xs x → used_of m x ≡ false)
      × ((x : ℕ) → With b xs x → 48 ≤ size_of m x)
      × ((x y : ℕ) → With b xs x → With b xs y → x < y → x + size_of m x ≤ y)
joined_list m first b xs f n = (
  λ x i. elim i [
    | inl e ↦ subst (λ k. used_of m k ≡ false) (sym e) n.is_free
    | inr j ↦ f.unused x j
  ],
  λ x i. elim i [ inl e ↦ subst (λ k. 48 ≤ size_of m k) (sym e) n.room | inr j ↦ f.large x j ],
  λ x y i j lt. elim i [
    | inl e ↦ elim j [
      | inl e' ↦ absurd (omega arith)
      | inr k ↦ omega (arith, ap (size_of m) e, n.before y k (omega arith))
    ]
    | inr k ↦ elim j [
      | inl e' ↦ omega (arith, n.behind x k (omega arith))
      | inr k' ↦ f.apart x y k k' lt
    ]
  ],
)

-- What the links of the new block leave: headers that are at no link.
pub place_in_list-keeps :
    (fuel : ℕ) (h : Heap) (b : ℕ) (xs : List ℕ)
    → Chain h.memory 0 h.free_list xs
    → b % 16 ≡ 0
    → (y : ℕ) → y % 16 ≡ 0
    → ((z : ℕ) → With b xs z → y ≢ z + 16)
    → ((place_in_list fuel h b).memory y ≡ h.memory y)
      × ((place_in_list fuel h b).memory (y + 8) ≡ h.memory (y + 8))
unfolding place_in_list link
place_in_list-keeps fuel h b xs c ab y ay far =
    let m = h.memory in
    let k = find_place_in fuel m b 0 h.free_list xs c in
    let place = find_place fuel m b 0 h.free_list in
    let cb : y ≢ b + 16 = far b (inl refl) in
    let clear : (z : ℕ) → (z ≡ 0) ⊎ Contains z xs → Clear y z =
      λ z s ne. elim s [ inl q ↦ absurd (ne q) | inr j ↦ far z (inr j) ] in
    (
      linked_size m b place.0 place.1 y ab ay (aligned_in m h.free_list _ xs c k.0) (clear _ k.1)
          cb,
      linked_flag m b place.0 place.1 y ab ay (aligned_in m h.free_list _ xs c k.1) (clear _ k.0)
          cb,
    )

-- An insertion changes no size and no flag of the blocks.
pub place_in_list-Kept :
    (fuel : ℕ) (h : Heap) (b : ℕ) (xs : List ℕ)
    → FreeList h.memory h.free_list xs
    → NewBlock h.memory b xs
    → (y : ℕ) → With b xs y
    → ((place_in_list fuel h b).memory y ≡ h.memory y)
      × ((place_in_list fuel h b).memory (y + 8) ≡ h.memory (y + 8))
place_in_list-Kept fuel h b xs f n y i =
    let w = joined_list h.memory h.free_list b xs f n in
    let ay : y % 16 ≡ 0 = elim i [
      | inl e ↦ subst (λ z. z % 16 ≡ 0) (sym e) n.aligned
      | inr j ↦ aligned_in h.memory h.free_list y xs f.chain (inr j)
    ] in
    place_in_list-keeps fuel h b xs f.chain n.aligned y ay
      (λ z j e. absurd (omega (arith, w.2 z y j i (omega arith), w.1 z j)))

-- Inserting a free block that overlaps no other passes the assertions and gives the free list with
-- the block.
pub insert-FreeList :
    (fuel : ℕ) (h : Heap) (b : ℕ) (xs : List ℕ)
    → FreeList h.memory h.free_list xs
    → NewBlock h.memory b xs
    → length xs ≤ fuel
    → (insert_to_free_list fuel h b ≡ done (place_in_list fuel h b))
      × FreeList (place_in_list fuel h b).memory (place_in_list fuel h b).free_list (insert b xs)
unfolding insert_to_free_list
insert-FreeList fuel h b xs f n enough =
    let m = h.memory in
    let w = joined_list m h.free_list b xs f n in
    let k = place_in_list-Kept fuel h b xs f n in
    let sub = λ (y : ℕ) (i : Contains y (insert b xs)). of_insert b y xs i in
    (
      rw (n.is_free, n.no_prev, n.no_next) refl,
      record {
        chain = place_in_list-Chain fuel h b xs f.chain enough n.distinct n.positive n.aligned;
        unused = λ x i. rw ((k x (sub x i)).1) (w.0 x (sub x i));
        large = λ x i. omega (arith, (k x (sub x i)).0, w.1 x (sub x i));
        apart = λ x y i j lt. omega (arith, (k x (sub x i)).0, w.2 x y (sub x i) (sub y j) lt);
      },
    )
