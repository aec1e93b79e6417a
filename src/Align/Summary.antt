-- ===== src/Align/Summary.antt =====
-- The memory summary of kernel/mm/memory_detect/memory_state_helper.c; a pointer to it is not NULL.
use ccoperating_system_x.Common.{ℕ, ◌+◌, ◌%◌, ◌≡◌, refl, Bool, true, false, List, [], ◌∷◌, arith}
use ccoperating_system_x.Align.{u64, bytes_to_mb, bytes_to_pages}

-- `memory_summary_t`
pub record Summary : Type 0 where
  pub total_bytes : ℕ
  pub usable_bytes : ℕ
  pub reserved_bytes : ℕ
  pub total_mb : ℕ
  pub usable_mb : ℕ
  pub total_pages : ℕ
  pub usable_pages : ℕ

unfoldable pub mem_summary_init : Summary
mem_summary_init = record {
  total_bytes = 0;
  usable_bytes = 0;
  reserved_bytes = 0;
  total_mb = 0;
  usable_mb = 0;
  total_pages = 0;
  usable_pages = 0;
}

unfoldable pub mem_summary_add_region : Summary → ℕ → Bool → Summary
mem_summary_add_region s length true = record s {
  total_bytes = (s.total_bytes + length) % u64;
  usable_bytes = (s.usable_bytes + length) % u64;
}
mem_summary_add_region s length false = record s {
  total_bytes = (s.total_bytes + length) % u64;
  reserved_bytes = (s.reserved_bytes + length) % u64;
}

unfoldable pub mem_summary_calculate_mb : Summary → Summary
mem_summary_calculate_mb s = record s {
  total_mb = bytes_to_mb s.total_bytes;
  usable_mb = bytes_to_mb s.usable_bytes;
}

unfoldable pub mem_summary_calculate_pages : Summary → Summary
mem_summary_calculate_pages s = record s {
  total_pages = bytes_to_pages s.total_bytes;
  usable_pages = bytes_to_pages s.usable_bytes;
}

-- The regions of a memory map, one after the other.
abbrev pub add_regions : List (ℕ × Bool) → Summary → Summary
add_regions [] s = s
add_regions ((length, is_usable) ∷ regions) s =
    add_regions regions (mem_summary_add_region s length is_usable)

add_regions-balance :
    (regions : List (ℕ × Bool)) (s : Summary)
    → s.total_bytes ≡ (s.usable_bytes + s.reserved_bytes) % u64
    → (add_regions regions s).total_bytes
      ≡ ((add_regions regions s).usable_bytes + (add_regions regions s).reserved_bytes) % u64
unfolding mem_summary_add_region
add_regions-balance [] s h = h
add_regions-balance ((length, true) ∷ regions) s h =
    add_regions-balance regions (mem_summary_add_region s length true) (omega arith)
add_regions-balance ((length, false) ∷ regions) s h =
    add_regions-balance regions (mem_summary_add_region s length false) (omega arith)

-- Whatever regions a fresh summary takes in, its total is what is usable and what is reserved
-- together, as 64-bit numbers.
pub add_regions_balance :
    (regions : List (ℕ × Bool))
    → let s = add_regions regions mem_summary_init in
      s.total_bytes ≡ (s.usable_bytes + s.reserved_bytes) % u64
unfolding mem_summary_init
add_regions_balance regions = add_regions-balance regions mem_summary_init refl
