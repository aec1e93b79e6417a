-- ===== src/Paging/Range.antt =====
-- The ranges of kernel/mm/vmm/page.c, page by page.
use ccoperating_system_x.Common.{
  ℕ, zero, suc, ◌+◌, ◌*◌, ◌%◌, true, Exec, done, panic, ◌>>=◌, ◌>>◌, assert,
}
use ccoperating_system_x.Align.{u64, page_size}
use ccoperating_system_x.Paging.{Vm, Reply, PageResult, ok, page_map_page}
use ccoperating_system_x.Paging.Query.{page_unmap_page}

-- `base + i * PAGE_SIZE`
abbrev pub page_at : ℕ → ℕ → ℕ
page_at base i = (base + i * page_size) % u64

-- The loop of `page_unmap_range`, over the pages that are left.
unfoldable pub unmap_from : Vm → ℕ → ℕ → ℕ → ℕ → Exec Vm
unfolding page_unmap_page
unmap_from vm pml4 base i zero = done vm
unmap_from vm pml4 base i (suc left) = do
  (r, vm') ← page_unmap_page vm pml4 (page_at base i)
  unmap_from vm' pml4 base (i + 1) left

unfoldable pub page_unmap_range : Vm → ℕ → ℕ → ℕ → Exec Vm
unfolding unmap_from
page_unmap_range vm pml4 base count = do assert vm.initialized; unmap_from vm pml4 base 0 count

-- The end of `page_map_range` at the page `i` that could not be mapped.
unfoldable pub roll_back : PageResult → Vm → ℕ → ℕ → ℕ → Exec Reply
unfolding page_unmap_range
roll_back r vm pml4 base i = do vm' ← page_unmap_range vm pml4 base i; done (r, vm')

-- Its loop, over the pages that are left.
unfoldable pub map_from : Vm → ℕ → ℕ → ℕ → ℕ → ℕ → ℕ → Exec Reply
unfolding page_map_page roll_back
map_from vm pml4 base phys flags i zero = done (ok, vm)
map_from vm pml4 base phys flags i (suc left) =
    elim (page_map_page vm pml4 (page_at base i) (page_at phys i) flags true) [
      | panic ↦ panic
      | done (r, vm') ↦ elim r [
        | ok ↦ map_from vm' pml4 base phys flags (i + 1) left
        | e ↦ roll_back e vm' pml4 base i
      ]
    ]

unfoldable pub page_map_range : Vm → ℕ → ℕ → ℕ → ℕ → ℕ → Exec Reply
unfolding map_from
page_map_range vm pml4 base phys count flags = do
  assert vm.initialized
  map_from vm pml4 base phys flags 0 count
