-- ===== src/Paging/Init.antt =====
-- The set-up of kernel/mm/vmm/page.c: the map of the low physical memory.
use ccoperating_system_x.Common.{
  ℕ, zero, suc, ◌+◌, ◌-◌, ◌*◌, ◌%◌, true, Exec, done, ◌>>◌, assert, if◌then◌else◌,
}
use ccoperating_system_x.Align.{page_size}
use ccoperating_system_x.Paging.{Vm, present, slot, addr_bits, write}

-- The loop of `establish_direct_map` over the entries of the directory at 0xB000, which map 2 MB
-- each.
unfoldable pub fill_directory : Vm → ℕ → ℕ → Vm
unfolding write
fill_directory vm i zero = vm
fill_directory vm i (suc left) =
    let vm' =
      if present (vm.mem (slot 0xb000 i))
      then vm
      else write vm (slot 0xb000 i) (addr_bits (i * 0x200000) + 131) in
    fill_directory vm' (i + 1) left

unfoldable pub establish_direct_map : Vm → Vm
unfolding write fill_directory
establish_direct_map vm =
    if present (vm.mem (slot vm.kernel_pml4 256))
    then record vm { direct_map = true }
    else record (write (fill_directory vm 0 256) (slot vm.kernel_pml4 256) (addr_bits 0xa000 + 3)) {
      direct_map = true;
    }

-- `page_init`, with what CR3 holds.
unfoldable pub page_init : Vm → ℕ → Vm
unfolding establish_direct_map
page_init vm cr3 =
    if vm.initialized
    then vm
    else record (establish_direct_map (record vm { kernel_pml4 = cr3 - cr3 % page_size })) {
      initialized = true;
    }

unfoldable pub page_get_pml4 : Vm → Exec ℕ
page_get_pml4 vm = do assert vm.initialized; done vm.kernel_pml4
