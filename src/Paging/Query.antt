-- ===== src/Paging/Query.antt =====
-- `page_query` and `page_unmap_page` of kernel/mm/vmm/page.c: the walks along the tables.
use ccoperating_system_x.Common.{
  ℕ, ◌+◌, ◌%◌, Bool, true, false, not, Option, none, some, Exec, done, ◌>>=◌, ◌>>◌, assert, ◌==◌,
  if◌then◌else◌,
}
use ccoperating_system_x.Align.{page_size}
use ccoperating_system_x.Paging.{
  Vm, Reply, Mapping, ok, err_not_mapped, err_alignment, present, pat, table_of, slot, pml4_index,
  pdpt_index, pd_index, pt_index, write,
}

-- `page_unmap_page`, from each of its tables on; `free_table` is not used in the source.
unfoldable pub unmap_pt : Vm → ℕ → ℕ → Reply
unmap_pt vm pt v =
    if present (vm.mem (slot pt (pt_index v)))
    then (ok, write vm (slot pt (pt_index v)) 0)
    else (err_not_mapped, vm)

unfoldable pub unmap_pd : Vm → ℕ → ℕ → Reply
unmap_pd vm pd v =
    if present (vm.mem (slot pd (pd_index v)))
    then unmap_pt vm (table_of (vm.mem (slot pd (pd_index v)))) v
    else (err_not_mapped, vm)

unfoldable pub unmap_pdpt : Vm → ℕ → ℕ → Reply
unmap_pdpt vm pdpt v =
    if present (vm.mem (slot pdpt (pdpt_index v)))
    then unmap_pd vm (table_of (vm.mem (slot pdpt (pdpt_index v)))) v
    else (err_not_mapped, vm)

unfoldable pub unmap_pml4 : Vm → ℕ → ℕ → Reply
unmap_pml4 vm pml4 v =
    if present (vm.mem (slot pml4 (pml4_index v)))
    then unmap_pdpt vm (table_of (vm.mem (slot pml4 (pml4_index v)))) v
    else (err_not_mapped, vm)

unfoldable pub page_unmap_page : Vm → ℕ → ℕ → Exec Reply
unfolding unmap_pml4
page_unmap_page vm pml4 v = do
  assert vm.initialized
  assert vm.direct_map
  done (if v % page_size == 0 then unmap_pml4 vm pml4 v else (err_alignment, vm))

-- The answer that `page_query` makes of an entry: its low bits are the flags.
unfoldable pub mapping_of : ℕ → Bool → Mapping
unfolding table_of
mapping_of e is_huge = record { phys_addr = table_of e; flags = e % 4096; is_huge = is_huge }

-- `page_query`, from each of its tables on; `none` is PAGE_ERR_NOT_PRESENT with an empty result.
unfoldable pub query_pt : (ℕ → ℕ) → ℕ → ℕ → Option Mapping
query_pt mem pt v =
    let e = mem (slot pt (pt_index v)) in if present e then some (mapping_of e false) else none

unfoldable pub query_pd : (ℕ → ℕ) → ℕ → ℕ → Option Mapping
query_pd mem pd v =
    let e = mem (slot pd (pd_index v)) in
    if not (present e)
    then none
    else if pat e
    then some (mapping_of e true)
    else query_pt mem (table_of e) v

unfoldable pub query_pdpt : (ℕ → ℕ) → ℕ → ℕ → Option Mapping
query_pdpt mem pdpt v =
    let e = mem (slot pdpt (pdpt_index v)) in
    if not (present e)
    then none
    else if pat e
    then some (mapping_of e true)
    else query_pd mem (table_of e) v

unfoldable pub query_pml4 : (ℕ → ℕ) → ℕ → ℕ → Option Mapping
query_pml4 mem pml4 v =
    let e = mem (slot pml4 (pml4_index v)) in
    if present e then query_pdpt mem (table_of e) v else none

unfoldable pub page_query : Vm → ℕ → ℕ → Exec (Option Mapping)
unfolding query_pml4
page_query vm pml4 v = do
  assert vm.initialized
  assert vm.direct_map
  done (query_pml4 vm.mem pml4 v)

-- `page_virt_to_phys`: the address of a frame has its low bits clear.
unfoldable pub page_virt_to_phys : Vm → ℕ → ℕ → Exec (Option ℕ)
unfolding page_query
page_virt_to_phys vm pml4 v = do
  answer ← page_query vm pml4 v
  done (elim answer [ none ↦ none | some m ↦ some (m.phys_addr + v % page_size) ])
