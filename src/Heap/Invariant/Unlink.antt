-- ===== src/Heap/Invariant/Unlink.antt =====
-- `remove_from_free_list` keeps the sizes and flags.
use ccoperating_system_x.Common.{ℕ, ◌+◌, ◌%◌, ◌≡◌, ◌≢◌, List, arith, ◌⊎◌, inl, inr}
use ccoperating_system_x.Heap.{Memory, Heap, put, prev_of, next_of}
use ccoperating_system_x.Heap.Links.{unlinked, unlink}
use ccoperating_system_x.Heap.Links.Chain.{Chain, Contains, delete}
use ccoperating_system_x.Heap.Links.Remove.{unlink-Chain}
use ccoperating_system_x.Heap.Invariant.{FreeList, Spaced, Kept, FreeList-Spaced, FreeList-sub}
use ccoperating_system_x.Heap.Invariant.Lists.{Chain-above, of_delete, links_in}

-- A block that is not 16 bytes behind the header `k`, if there is one.
abbrev pub Clear : ℕ → ℕ → Type 0
Clear y k = k ≢ 0 → y ≢ k + 16

pub away_from_links :
    (xs : List ℕ) (y k : ℕ) → Spaced xs → Contains y xs → (k ≡ 0) ⊎ Contains k xs → Clear y k
away_from_links xs y k s i (inl z) ne = absurd (ne z)
away_from_links xs y k s i (inr j) ne =
    λ e. let far = s k y j i (omega arith) in absurd (omega arith)

unlinked_size :
    (m : Memory) (b p n y : ℕ)
    → b % 16 ≡ 0
    → y % 16 ≡ 0
    → p % 16 ≡ 0
    → Clear y n
    → y ≢ b + 16
    → unlinked m b p n y ≡ m y
unfolding unlinked put
unlinked_size m b p n y ab ay pa cn cb = ground (arith, cn)

unlinked_flag :
    (m : Memory) (b p n y : ℕ)
    → b % 16 ≡ 0
    → y % 16 ≡ 0
    → n % 16 ≡ 0
    → Clear y p
    → y ≢ b + 16
    → unlinked m b p n (y + 8) ≡ m (y + 8)
unfolding unlinked put
unlinked_flag m b p n y ab ay na cp cb = ground (arith, cp)

pub aligned_in :
    (m : Memory) (first k : ℕ) (xs : List ℕ)
    → Chain m 0 first xs
    → (k ≡ 0) ⊎ Contains k xs
    → k % 16 ≡ 0
aligned_in m first k xs c (inl z) = omega arith
aligned_in m first k xs c (inr i) = (Chain-above m 0 first k xs c i).1

pub unlink-Kept :
    (h : Heap) (b : ℕ) (xs : List ℕ)
    → FreeList h.memory h.free_list xs
    → Contains b xs
    → Kept h.memory (unlink h b).memory xs
unfolding unlink
unlink-Kept h b xs f i y j =
    let m = h.memory in
    let s = FreeList-Spaced m h.free_list xs f in
    let k = links_in m 0 h.free_list b xs f.chain i in
    let al = λ (z : ℕ) (w : (z ≡ 0) ⊎ Contains z xs). aligned_in m h.free_list z xs f.chain w in
    let cb : y ≢ b + 16 = λ e. let far = s b y i j (omega arith) in absurd (omega arith) in
    (
      unlinked_size m b (prev_of m b) (next_of m b) y (al b (inr i)) (al y (inr j)) (al _ k.0)
          (away_from_links xs y _ s j k.1) cb,
      unlinked_flag m b (prev_of m b) (next_of m b) y (al b (inr i)) (al y (inr j)) (al _ k.1)
          (away_from_links xs y _ s j k.0) cb,
    )

-- Removing a block leaves a free list without it.
pub unlink-FreeList :
    (h : Heap) (b : ℕ) (xs : List ℕ)
    → FreeList h.memory h.free_list xs
    → Contains b xs
    → FreeList (unlink h b).memory (unlink h b).free_list (delete b xs)
unlink-FreeList h b xs f i =
    FreeList-sub h.memory (unlink h b).memory h.free_list (unlink h b).free_list xs (delete b xs) f
      (λ y j. of_delete b y xs j) (unlink-Kept h b xs f i) (unlink-Chain h b xs f.chain i)
