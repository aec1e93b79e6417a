-- ===== src/Vmm.antt =====
-- kernel/mm/vmm/vmm.c: the regions of the kernel's address space, and the address spaces of processes,
-- over the page tables of Paging. A failed assertion is `panic`; the statistics of the pages are kept.
pub mod Search
pub mod Pages
pub mod Alloc
pub mod Spaces
pub mod Clone
pub mod Tests
use ccoperating_system_x.Common.{
  ℕ, zero, suc, ◌+◌, ◌-◌, ◌*◌, ◌/◌, ◌%◌, ◌^◌, Bool, true, false, not, ◌&&◌, Option, none, some,
  List, [], ◌∷◌, ◌++◌, length, ltb, leb, ◌==◌, if◌then◌else◌,
}
use ccoperating_system_x.Align.{u64, page_size}

-- `memory_region_t`; the names are only printed.
pub record Region : Type 0 where
  pub start : ℕ
  pub end : ℕ
  pub phys_start : ℕ
  pub flags : ℕ

-- `KERNEL_GENERAL_BASE`, `KERNEL_GENERAL_MAX`, `USER_BASE`, `USER_END` and `MAX_REGIONS`
abbrev pub kernel_general_base : ℕ
kernel_general_base = 0xffffffff88000000

abbrev pub kernel_general_max : ℕ
kernel_general_max = 0xffffffff90000000

abbrev pub user_base : ℕ
user_base = 0x400000

abbrev pub user_end : ℕ
user_end = 0x7fffffffffff

abbrev pub kernel_virt_base : ℕ
kernel_virt_base = 0xffff800000000000

abbrev pub max_regions : ℕ
max_regions = 64

unfoldable pub vmm_is_user_addr : ℕ → Bool
vmm_is_user_addr addr = leb user_base addr && ltb addr user_end

unfoldable pub vmm_is_kernel_addr : ℕ → Bool
vmm_is_kernel_addr addr = leb kernel_virt_base addr

-- `check_region_collision`
unfoldable pub check_region_collision : List Region → ℕ → ℕ → Bool
check_region_collision [] start end = false
check_region_collision (r ∷ regions) start end =
    let rest = check_region_collision regions start end in
    if ltb start r.end && ltb r.start end then true else rest

-- `add_region`: a table that is full stays as it is.
unfoldable pub add_region : List Region → Region → List Region
add_region regions r = if leb max_regions (length regions) then regions else regions ++ r ∷ []

-- `find_region`
unfoldable pub find_region : List Region → ℕ → Option Region
find_region [] addr = none
find_region (r ∷ regions) addr =
    let rest = find_region regions addr in
    if leb r.start addr && ltb addr r.end then some r else rest

-- The alignment of `find_free_virt_range`.
unfoldable pub alignment_of : ℕ → ℕ
alignment_of size = if leb 0x200000 size then 0x200000 else page_size

-- Its loop, with a bound on its rounds; sums wrap.
unfoldable pub search_range : ℕ → List Region → ℕ → ℕ → Option ℕ
unfolding alignment_of
search_range zero regions size hint = none
search_range (suc rounds) regions size hint =
    let rest = search_range rounds regions size ((hint + alignment_of size) % u64) in
    if ltb kernel_general_max ((hint + size) % u64)
    then none
    else if not (check_region_collision regions hint ((hint + size) % u64))
    then some hint
    else rest

-- `(hint + alignment - 1) & ~(alignment - 1)`
unfoldable pub align_hint : ℕ → ℕ → ℕ
align_hint hint alignment = let x = (hint + alignment - 1) % u64 in x - x % alignment

-- The hint goes behind what was found.
unfoldable pub found_at : Option ℕ → ℕ → Option (ℕ × ℕ)
found_at none size = none
found_at (some vaddr) size = some (vaddr, (vaddr + size) % u64)

-- `find_free_virt_range` from the hint: the address and the new hint, or VMM_ERR_OOM. The range has
-- 128 MB, so that 32769 rounds go past its end.
unfoldable pub find_free_virt_range : List Region → ℕ → ℕ → Option (ℕ × ℕ)
find_free_virt_range regions hint size =
    found_at (search_range 32769 regions size (align_hint hint (alignment_of size))) size
