-- ===== src/Vmm/Pages.antt =====
-- The pages of the kernel's address space in kernel/mm/vmm/vmm.c. Each call is one step; what it prints
-- and the load of CR3 do not appear.
use ccoperating_system_x.Common.{
  ℕ, zero, suc, ◌+◌, ◌-◌, ◌%◌, Bool, true, false, not, ◌||◌, none, some, List, Exec, done, ◌>>=◌,
  ◌>>◌, assert, ◌==◌, if◌then◌else◌,
}
use ccoperating_system_x.Align.{u64, page_size}
use ccoperating_system_x.Pframe
use ccoperating_system_x.Pframe.{Pframe}
use ccoperating_system_x.Paging.{Vm, PageResult, bit, page_map_page}
use ccoperating_system_x.Paging.Init.{page_get_pml4}
use ccoperating_system_x.Paging.Query.{page_unmap_page, page_virt_to_phys}
use ccoperating_system_x.Paging.Range.{page_at, page_unmap_range}
use ccoperating_system_x.Vmm.{
  Region, vmm_is_user_addr, add_region, find_region, find_free_virt_range,
}

-- `vmm_stats_t`
pub record Stats : Type 0 where
  pub total_pages : ℕ
  pub mapped_pages : ℕ
  pub kernel_pages : ℕ
  pub user_pages : ℕ
  pub page_tables : ℕ

-- The statics of vmm.c over those of page.c.
pub record Vmm : Type 0 where
  pub vm : Vm
  pub pml4 : ℕ
  pub stats : Stats
  pub regions : List Region
  pub virt_hint : ℕ
  pub initialized : Bool

pub data VmmResult : Type 0 where
  ok err_oom err_invalid err_not_mapped : VmmResult

abbrev pub less : ℕ → ℕ → ℕ
less x n = (x + (u64 - n % u64)) % u64

-- The statistics with pages more, of the kernel or of a process, and with pages of the kernel less.
unfoldable pub more_pages : Vmm → ℕ → ℕ → ℕ → Vmm
more_pages s kernel user total = record s {
  stats = record s.stats {
    mapped_pages = (s.stats.mapped_pages + (kernel + user)) % u64;
    kernel_pages = (s.stats.kernel_pages + kernel) % u64;
    user_pages = (s.stats.user_pages + user) % u64;
    total_pages = (s.stats.total_pages + total) % u64;
  };
}

unfoldable pub fewer_pages : Vmm → ℕ → Vmm
fewer_pages s n = record s {
  stats = record s.stats {
    mapped_pages = less s.stats.mapped_pages n;
    kernel_pages = less s.stats.kernel_pages n;
  };
}

-- The regions that `vmm_init` adds: the kernel's text, its data and its heap.
abbrev pub fixed_region : ℕ → ℕ → ℕ → Region
fixed_region start end flags = record { start = start; end = end; phys_start = 0; flags = flags }

unfoldable pub fixed_regions : List Region → List Region
unfolding add_region
fixed_regions regions =
    let text = add_region regions (fixed_region 0xffffffff80000000 0xffffffff80200000 0) in
    let data_region = add_region text (fixed_region 0xffffffff80200000 0xffffffff80400000 1) in
    add_region data_region (fixed_region 0xffffffff81000000 0xffffffff89000000 0)

unfoldable pub vmm_init : Vmm → Exec Vmm
unfolding fixed_regions
vmm_init s = if s.initialized then done s else do
  pml4 ← page_get_pml4 s.vm
  done (record s { pml4 = pml4; regions = fixed_regions s.regions; initialized = true })

-- The body of the loops that give pages back: the frame is freed where the address is translated.
unfoldable pub free_page : Vm → ℕ → ℕ → Exec Vm
free_page vm pml4 vaddr = do
  paddr ← page_virt_to_phys vm pml4 vaddr
  vm' ← elim paddr [
    | none ↦ done vm
    | some p ↦ do (status, frames) ← Pframe.free vm.frames p; done (record vm { frames = frames })
  ]
  (r, vm'') ← page_unmap_page vm' pml4 vaddr
  done vm''

-- These loops, from the page `i` on.
unfoldable pub free_pages_from : Vm → ℕ → ℕ → ℕ → ℕ → Exec Vm
unfolding free_page
free_pages_from vm pml4 base i zero = done vm
free_pages_from vm pml4 base i (suc left) = do
  vm' ← free_page vm pml4 (page_at base i)
  free_pages_from vm' pml4 base (i + 1) left

unfoldable pub vmm_free_pages : Vmm → ℕ → ℕ → Exec (VmmResult × Vmm)
unfolding free_pages_from fewer_pages
vmm_free_pages s virt count = do
  assert s.initialized
  if count == 0 || not (virt % page_size == 0) then done (err_invalid, s) else do
    vm ← free_pages_from s.vm s.pml4 virt 0 count
    done (ok, fewer_pages (record s { vm = vm }) count)

-- `flags | VMAP_FLAG_WRITE` and `flags | VMAP_FLAG_USER`
abbrev pub writable : ℕ → ℕ
writable flags = if bit flags 0 then flags else flags + 1

abbrev pub for_user : ℕ → ℕ
for_user flags = if bit flags 1 then flags else flags + 2

-- `vmm_map_physical`: the address, or 0.
unfoldable pub vmm_map_physical : Vmm → ℕ → ℕ → Exec (ℕ × Vmm)
unfolding add_region more_pages
vmm_map_physical s phys flags = do
  assert s.initialized
  elim (find_free_virt_range s.regions s.virt_hint page_size) [
    | none ↦ done (0, s)
    | some (vaddr, hint) ↦ do
      (r, vm) ← page_map_page s.vm s.pml4 vaddr phys (writable flags) true
      let s' = record s { virt_hint = hint; vm = vm }
      done (elim r [
        | PageResult.ok ↦ (
          vaddr,
          more_pages
              (record s' {
                regions = add_region s'.regions (record {
                  start = vaddr;
                  end = (vaddr + page_size) % u64;
                  phys_start = phys;
                  flags = flags;
                });
              })
              1 0 0,
        )
        | _ ↦ (0, s')
      ])
  ]

-- `vmm_unmap_physical`: the region stays.
unfoldable pub vmm_unmap_physical : Vmm → ℕ → Exec (VmmResult × Vmm)
unfolding find_region fewer_pages
vmm_unmap_physical s virt = do
  assert s.initialized
  elim (find_region s.regions virt) [
    | none ↦ done (err_not_mapped, s)
    | some region ↦ do
      (r, vm) ← page_unmap_page s.vm s.pml4 virt
      let s' = record s { vm = vm }
      done (elim r [ PageResult.ok ↦ (ok, fewer_pages s' 1) | _ ↦ (err_invalid, s') ])
  ]

-- The loop of `vmm_map_to_user`, from the page `i` on.
unfoldable pub map_user_from : Vm → ℕ → ℕ → ℕ → ℕ → ℕ → ℕ → Exec (Bool × Vm)
map_user_from vm pml4 vaddr paddr flags i zero = done (true, vm)
map_user_from vm pml4 vaddr paddr flags i (suc left) = do
  (r, vm') ← page_map_page vm pml4 (page_at vaddr i) (page_at paddr i) flags true
  elim r [
    | PageResult.ok ↦ map_user_from vm' pml4 vaddr paddr flags (i + 1) left
    | _ ↦ do vm'' ← page_unmap_range vm' pml4 vaddr i; done (false, vm'')
  ]

unfoldable pub vmm_map_to_user : Vmm → ℕ → ℕ → ℕ → ℕ → ℕ → Exec (VmmResult × Vmm)
unfolding map_user_from more_pages
vmm_map_to_user s pml4 vaddr paddr count flags = do
  assert s.initialized
  if not (vmm_is_user_addr vaddr) then done (err_invalid, s) else do
    (all, vm) ← map_user_from s.vm pml4 vaddr paddr (for_user flags) 0 count
    let s' = record s { vm = vm }
    done (if all then (ok, more_pages s' 0 count 0) else (err_oom, s'))
