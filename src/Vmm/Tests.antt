-- ===== src/Vmm/Tests.antt =====
-- A search with the heap's region in the way, and an address space, of kernel/mm/vmm/vmm.c.
use ccoperating_system_x.Common.{ℕ, ◌≡◌, refl, true, Option, List, [], ◌∷◌, done, arith}
use ccoperating_system_x.Paging.Tests.{canon, machine, shape, machine-IsTree}
use ccoperating_system_x.Vmm.{
  Region, kernel_general_base, alignment_of, align_hint, find_free_virt_range,
}
use ccoperating_system_x.Vmm.Search.{RangeFound, address, find_free_virt_range-RangeFound}
use ccoperating_system_x.Vmm.Pages.{Vmm, VmmResult}
use ccoperating_system_x.Vmm.Spaces.{vmm_create_user_space}
use ccoperating_system_x.Vmm.Clone.{SpaceReply, vmm_create_user_space-SpaceReply}

abbrev heap : List Region
heap =
    record { start = 0xffffffff81000000; end = 0xffffffff89000000; phys_start = 0; flags = 0 } ∷ []

find_free_virt_range-RangeFound_example :
    RangeFound heap 8192
      (alignment_of 8192)
      (align_hint kernel_general_base (alignment_of 8192))
      (address (find_free_virt_range heap kernel_general_base 8192))
find_free_virt_range-RangeFound_example =
    find_free_virt_range-RangeFound heap kernel_general_base 8192 (omega arith) (omega arith)
      (omega arith)

abbrev pub kernel : Vmm
kernel = record {
  vm = machine;
  pml4 = 0x9000;
  stats = record {
    total_pages = 0;
    mapped_pages = 0;
    kernel_pages = 0;
    user_pages = 0;
    page_tables = 0;
  };
  regions = heap;
  virt_hint = kernel_general_base;
  initialized = true;
}

vmm_create_user_space-SpaceReply_example :
    (q : VmmResult × Option ℕ × Vmm) × (vmm_create_user_space kernel ≡ done q)
    × SpaceReply canon shape kernel q
vmm_create_user_space-SpaceReply_example =
    vmm_create_user_space-SpaceReply shape kernel refl machine-IsTree
