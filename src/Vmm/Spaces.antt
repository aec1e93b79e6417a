-- ===== src/Vmm/Spaces.antt =====
-- The address spaces of processes in kernel/mm/vmm/vmm.c.
use ccoperating_system_x.Common.{
  ℕ, zero, suc, ◌+◌, ◌-◌, ◌%◌, true, false, ◌&&◌, Option, none, some, Exec, done, ◌>>=◌, ◌>>◌,
  assert, ltb, leb, if◌then◌else◌,
}
use ccoperating_system_x.Align.{u64}
use ccoperating_system_x.Paging.{
  Vm, Next, at, stop, present, pat, table_of, slot, page_create_table, page_free_table,
}
use ccoperating_system_x.Vmm.Pages.{Vmm, VmmResult, ok, err_oom, less}

-- The entries 256 to 511 of one table in another.
unfoldable pub copy_upper : (ℕ → ℕ) → ℕ → ℕ → ℕ → ℕ
copy_upper mem from to b =
    if leb (slot to 256) b && ltb b (slot to 512) then mem (from + (b - to)) else mem b

unfoldable pub count_table : Vmm → Vmm
count_table s = record s {
  stats = record s.stats { page_tables = (s.stats.page_tables + 1) % u64 };
}

-- `vmm_create_user_space`, behind the call of `page_create_table`: the new PML4, where there is one.
unfoldable pub with_kernel : Vmm → Next → VmmResult × Option ℕ × Vmm
unfolding copy_upper count_table
with_kernel s (stop r vm) = (err_oom, none, record s { vm = vm })
with_kernel s (at n vm) =
    (ok, some n, count_table (record s { vm = record vm { mem = copy_upper vm.mem s.pml4 n } }))

unfoldable pub vmm_create_user_space : Vmm → Exec (VmmResult × Option ℕ × Vmm)
unfolding with_kernel
vmm_create_user_space s = do
  assert s.initialized
  table ← page_create_table s.vm
  done (with_kernel s table)

-- A loop over entries of a table, from the entry `i` on, with what it does at those that are present.
unfoldable pub for_entries : (ℕ → Vm → Exec Vm) → ℕ → ℕ → ℕ → Vm → Exec Vm
for_entries act table i zero vm = done vm
for_entries act table i (suc left) vm = do
  let e = vm.mem (slot table i)
  vm' ← elim (present e) [ true ↦ act e vm | false ↦ done vm ]
  for_entries act table (i + 1) left vm'

unfoldable pub free_table : ℕ → Vm → Exec Vm
free_table table vm = do (r, vm') ← page_free_table vm table; done vm'

-- The loops of `vmm_destroy_user_space` at an entry of a PD, of a PDPT and of the PML4.
unfoldable pub destroy_pde : ℕ → Vm → Exec Vm
destroy_pde e vm = if pat e then done vm else free_table (table_of e) vm

unfoldable pub destroy_pdpte : ℕ → Vm → Exec Vm
unfolding for_entries destroy_pde free_table
destroy_pdpte e vm = do
  vm' ← for_entries destroy_pde (table_of e) 0 512 vm
  free_table (table_of e) vm'

unfoldable pub destroy_pml4e : ℕ → Vm → Exec Vm
unfolding for_entries destroy_pdpte free_table
destroy_pml4e e vm = do
  vm' ← for_entries destroy_pdpte (table_of e) 0 512 vm
  free_table (table_of e) vm'

unfoldable pub vmm_destroy_user_space : Vmm → ℕ → Exec (VmmResult × Vmm)
unfolding for_entries destroy_pml4e free_table
vmm_destroy_user_space s pml4 = do
  assert s.initialized
  vm ← for_entries destroy_pml4e pml4 0 256 s.vm
  vm' ← free_table pml4 vm
  let tables = less s.stats.page_tables 1
  done (ok, record s { vm = vm'; stats = record s.stats { page_tables = tables } })
