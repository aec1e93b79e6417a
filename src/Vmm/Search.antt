-- ===== src/Vmm/Search.antt =====
-- The search for a free range of addresses in kernel/mm/vmm/vmm.c.
use ccoperating_system_x.Common.{
  ℕ, zero, suc, ◌+◌, ◌*◌, ◌%◌, ◌^◌, ◌≤◌, ◌<◌, ◌≡◌, refl, sym, subst, ◌⊎◌, inl, inr, true, false,
  not, Option, none, some, List, [], ◌∷◌, All, ltb, if◌then◌else◌, arith, Bool-cases,
}
use ccoperating_system_x.Align.{u64}
use ccoperating_system_x.Vmm.{
  Region, kernel_general_base, kernel_general_max, check_region_collision, alignment_of,
  search_range, align_hint, find_free_virt_range, found_at,
}

-- The range from `a` to `b` has no address of the region.
abbrev pub Apart : ℕ → ℕ → Region → Type 0
Apart a b r = (r.end ≤ a) ⊎ (b ≤ r.start)

pub no_collision :
    (regions : List Region) (a b : ℕ)
    → check_region_collision regions a b ≡ false
    → All (Apart a b) regions
unfolding check_region_collision
no_collision [] a b h = tt
no_collision (r ∷ regions) a b h = (ground arith, no_collision regions a b (ground arith))

pub collision :
    (regions : List Region) (a b : ℕ)
    → check_region_collision regions a b ≡ true
    → ¬ All (Apart a b) regions
unfolding check_region_collision
collision [] a b h all = cc
collision (r ∷ regions) a b h all = ground (arith, collision regions a b)

-- What the search may find from `hint` on, in steps of `step`.
pub data RangeFound (regions : List Region) (size step hint : ℕ) : Option ℕ → Type 0 where
  fits :
      (n : ℕ)
      → hint + n * step + size ≤ kernel_general_max
      → All (Apart (hint + n * step) (hint + n * step + size)) regions
      → ((j : ℕ) → j < n → ¬ All (Apart (hint + j * step) (hint + j * step + size)) regions)
      → RangeFound regions size step hint (some (hint + n * step))
  full :
      ((j : ℕ)
        → hint + j * step + size ≤ kernel_general_max
        → ¬ All (Apart (hint + j * step) (hint + j * step + size)) regions)
      → RangeFound regions size step hint none

shift : (hint step n : ℕ) → hint + step + n * step ≡ hint + suc n * step
shift hint step n = omega arith

-- A place in front of the `n`th one is the first place or in front of it from the next place on.
taken_before :
    (free_at : ℕ → Type 0) (hint step n j : ℕ)
    → ¬ free_at hint
    → ((i : ℕ) → i < n → ¬ free_at (hint + step + i * step))
    → j < suc n
    → ¬ free_at (hint + j * step)
taken_before free_at hint step n zero here before lt free = here (subst free_at (omega arith) free)
taken_before free_at hint step n (suc j) here before lt free =
    before j (omega arith) (subst free_at (sym (shift hint step j)) free)

taken :
    (free_at : ℕ → Type 0) (hint step size j : ℕ)
    → ¬ free_at hint
    → ((i : ℕ)
        → hint + step + i * step + size ≤ kernel_general_max
        → ¬ free_at (hint + step + i * step))
    → hint + j * step + size ≤ kernel_general_max
    → ¬ free_at (hint + j * step)
taken free_at hint step size zero here none_at le free = here (subst free_at (omega arith) free)
taken free_at hint step size (suc j) here none_at le free =
    none_at j (rw (shift hint step j) le) (subst free_at (sym (shift hint step j)) free)

-- A step of the search is a step fewer from the next place.
later :
    (regions : List Region) (size step hint : ℕ) (o : Option ℕ)
    → ¬ All (Apart hint (hint + size)) regions
    → RangeFound regions size step (hint + step) o
    → RangeFound regions size step hint o
later regions size step hint _ here (fits n le free before) =
    let free_at : ℕ → Type 0 = λ a. All (Apart a (a + size)) regions in
    subst (λ a. RangeFound regions size step hint (some a)) (sym (shift hint step n))
      (fits (suc n) (rw (sym (shift hint step n)) le) (subst free_at (shift hint step n) free)
        (λ j lt. taken_before free_at hint step n j here before lt))
later regions size step hint _ here (full none_at) =
    let free_at : ℕ → Type 0 = λ a. All (Apart a (a + size)) regions in
    full (λ j. taken free_at hint step size j here none_at)

at_once :
    (regions : List Region) (size step hint : ℕ)
    → hint + size ≤ kernel_general_max
    → All (Apart hint (hint + size)) regions
    → RangeFound regions size step hint (some hint)
at_once regions size step hint le free =
    let e : hint ≡ hint + 0 * step = omega arith in
    subst (λ a. RangeFound regions size step hint (some a)) (sym e)
      (fits 0 (omega arith) (subst (λ a. All (Apart a (a + size)) regions) e free)
        (λ j lt. absurd (omega arith)))

-- One round of the loop.
round :
    (rounds : ℕ) (regions : List Region) (size hint : ℕ)
    → hint + size < u64
    → search_range (suc rounds) regions size hint ≡ (
        if ltb kernel_general_max (hint + size)
        then none
        else if not (check_region_collision regions hint (hint + size))
        then some hint
        else search_range rounds regions size ((hint + alignment_of size) % u64))
unfolding search_range
round rounds regions size hint lt =
    let e : (hint + size) % u64 ≡ hint + size = omega arith in rw e refl

step-size : (size : ℕ) → (alignment_of size ≤ 2 ^ 21)
unfolding alignment_of
step-size size = ground arith

search_range-RangeFound :
    (rounds : ℕ) (regions : List Region) (size hint : ℕ)
    → size ≤ 2 ^ 27
    → hint ≤ kernel_general_max + 2 ^ 21
    → kernel_general_max < hint + rounds * alignment_of size
    → RangeFound regions size (alignment_of size) hint (search_range rounds regions size hint)
unfolding search_range
search_range-RangeFound zero regions size hint small top enough =
    full (λ j le all. absurd (omega arith))
search_range-RangeFound (suc rounds) regions size hint small top enough =
    let lt : hint + size < u64 = omega arith in
    let small_step = step-size size in
    let e : (hint + alignment_of size) % u64 ≡ hint + alignment_of size = omega arith in
    let found : Option ℕ → Type 0 = RangeFound regions size (alignment_of size) hint in
    subst found (sym (round rounds regions size hint lt)) (
      rw e (elim (Bool-cases (ltb kernel_general_max (hint + size))) [
        | inl over ↦ rw over (full (λ j le all. absurd (ground arith)))
        | inr under ↦
            rw under (elim (Bool-cases (check_region_collision regions hint (hint + size))) [
              | inl hit ↦ rw hit (
                  later regions size (alignment_of size) hint _
                    (collision regions hint (hint + size) hit)
                    (search_range-RangeFound rounds regions size (hint + alignment_of size) small
                      (ground arith) (omega arith)))
              | inr miss ↦ rw miss (
                  at_once regions size (alignment_of size) hint (ground arith)
                    (no_collision regions hint (hint + size) miss))
            ])
      ]))

hint_bounds :
    (hint size : ℕ)
    → hint ≤ kernel_general_max
    → (hint ≤ align_hint hint (alignment_of size))
      × (align_hint hint (alignment_of size) < hint + alignment_of size)
      × (4096 ≤ alignment_of size)
      × (alignment_of size ≤ 2 ^ 21)
unfolding align_hint alignment_of
hint_bounds hint size top = ground arith

abbrev pub address : Option (ℕ × ℕ) → Option ℕ
address none = none
address (some p) = some p.0

address-found_at : (o : Option ℕ) (size : ℕ) → o ≡ address (found_at o size)
unfolding found_at
address-found_at none size = refl
address-found_at (some a) size = refl

-- `find_free_virt_range` for at most 128 MB, with the hint in the range of the kernel: the address is
-- the first one from the aligned hint on, in steps of the alignment, from which `size` bytes meet no
-- region and end in the range; it is none only where no such address is left.
pub find_free_virt_range-RangeFound :
    (regions : List Region) (hint size : ℕ)
    → size ≤ 2 ^ 27
    → kernel_general_base ≤ hint
    → hint ≤ kernel_general_max
    → RangeFound regions size
        (alignment_of size)
        (align_hint hint (alignment_of size))
        (address (find_free_virt_range regions hint size))
unfolding find_free_virt_range
find_free_virt_range-RangeFound regions hint size small low top =
    let a = alignment_of size in
    let at = hint_bounds hint size top in
    let found =
      search_range-RangeFound 32769 regions size (align_hint hint a) small (omega arith)
        (omega arith) in
    subst (RangeFound regions size a (align_hint hint a)) (address-found_at _ size) found
