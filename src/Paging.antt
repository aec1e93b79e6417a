-- ===== src/Paging.antt =====
-- kernel/mm/vmm/page.c: the page tables of four levels, in the words of the physical memory.
-- A table is its physical address, and `phys_to_virt` and the invalidation of the TLB do not
-- appear. Each call holds the lock over its whole body, so it is one step.
pub mod Query
pub mod Range
pub mod Init
pub mod Tree
pub mod Grow
pub mod Enter
pub mod Leaf
pub mod Map
pub mod Unmap
pub mod Outside
pub mod Remap
pub mod Rollback
pub mod Tests
pub mod Reply
use ccoperating_system_x.Common.{
  ℕ, zero, suc, ◌+◌, ◌-◌, ◌*◌, ◌/◌, ◌%◌, ◌^◌, Bool, true, false, not, ◌&&◌, Option, none, some,
  Exec, done, panic, ◌>>=◌, ◌>>◌, assert, ltb, leb, ◌==◌, if◌then◌else◌,
}
use ccoperating_system_x.Align.{u64, page_size}
use ccoperating_system_x.Pframe.{Pframe, Status}
use ccoperating_system_x.Pframe

-- The statics of page.c with the memory, by the addresses of its 64-bit words, and the frames.
pub record Vm : Type 0 where
  pub mem : ℕ → ℕ
  pub frames : Pframe
  pub kernel_pml4 : ℕ
  pub initialized : Bool
  pub direct_map : Bool

-- `page_result_t`
pub data PageResult : Type 0 where
  ok err_oom err_invalid err_not_present err_already_mapped err_not_mapped err_alignment :
      PageResult

abbrev pub Reply : Type 0
Reply = PageResult × Vm

-- `page_query_result_t` of a page that is present.
pub record Mapping : Type 0 where
  pub phys_addr : ℕ
  pub flags : ℕ
  pub is_huge : Bool

-- `x & (1 << k)`
abbrev pub bit : ℕ → ℕ → Bool
bit x k = x / 2 ^ k % 2 == 1

-- The fields of `page_table_entry_t`.
unfoldable pub present : ℕ → Bool
present e = e % 2 == 1

unfoldable pub pat : ℕ → Bool
pat e = e / 128 % 2 == 1

-- `bits.frame << PAGE_SHIFT`
unfoldable pub table_of : ℕ → ℕ
table_of e = e / 4096 % 2 ^ 40 * 4096

-- `x & PTE_ADDR_MASK`
unfoldable pub addr_bits : ℕ → ℕ
addr_bits x = x / 4096 % 2 ^ 40 * 4096

-- `&table->entries[i]`
abbrev pub slot : ℕ → ℕ → ℕ
slot table i = table + 8 * i

unfoldable pub pml4_index : ℕ → ℕ
pml4_index v = v / 2 ^ 39 % 512

unfoldable pub pdpt_index : ℕ → ℕ
pdpt_index v = v / 2 ^ 30 % 512

unfoldable pub pd_index : ℕ → ℕ
pd_index v = v / 2 ^ 21 % 512

unfoldable pub pt_index : ℕ → ℕ
pt_index v = v / 2 ^ 12 % 512

-- `vmap_flags_to_pte`: the bits are different ones, so that their sum is their union.
unfoldable pub vmap_flags_to_pte : ℕ → ℕ
vmap_flags_to_pte flags =
    1
    + (if bit flags 0 then 2 else 0)
    + (if bit flags 1 then 4 else 0)
    + (if bit flags 2 then 2 ^ 63 else 0)
    + (if bit flags 3 then 8 else 0)
    + (if bit flags 4 then 16 else 0)

abbrev pub use_2mb : ℕ → Bool
use_2mb flags = bit flags 5

abbrev pub use_1gb : ℕ → Bool
use_1gb flags = bit flags 6

-- `page_align + 1`
unfoldable pub page_size_of : ℕ → ℕ
page_size_of flags = if use_1gb flags then 2 ^ 30 else if use_2mb flags then 2 ^ 21 else page_size

unfoldable pub write : Vm → ℕ → ℕ → Vm
write vm a e = record vm { mem = λ b. if b == a then e else vm.mem b }

-- `memset(virt, 0, PAGE_SIZE)`
unfoldable pub clear_page : Vm → ℕ → Vm
clear_page vm n = record vm { mem = λ b. if leb n b && ltb b (n + page_size) then 0 else vm.mem b }

-- A table that a walk goes on with, or the error that ends it.
pub data Next : Type 0 where
  at : ℕ → Vm → Next
  stop : PageResult → Vm → Next

-- `page_create_table`, behind the call of `pframe_alloc`.
unfoldable pub created : Vm → Pframe.Reply → Next
unfolding clear_page
created vm (status, none, frames) = stop err_oom (record vm { frames = frames })
created vm (status, some n, frames) = at n (clear_page (record vm { frames = frames }) n)

unfoldable pub page_create_table : Vm → Exec Next
unfolding created
page_create_table vm = do
  assert vm.initialized
  assert vm.direct_map
  reply ← Pframe.alloc vm.frames
  done (created vm reply)

unfoldable pub page_free_table : Vm → ℕ → Exec Reply
page_free_table vm phys = do
  assert vm.initialized
  (status, frames) ← Pframe.free vm.frames phys
  done (elim status [ Status.ok ↦ ok | _ ↦ err_invalid ], record vm { frames = frames })

unfoldable pub get_or_create_table : Vm → ℕ → Bool → Exec Next
unfolding page_create_table
get_or_create_table vm table alloc_missing =
    if not (table == 0)
    then done (at table vm)
    else if not alloc_missing
    then done (stop err_not_present vm)
    else page_create_table vm

-- The entry is written where the table is a new one.
unfoldable pub update_entry : ℕ → Next → Next
unfolding write
update_entry a (at t vm) =
    at t (if t == table_of (vm.mem a) then vm else write vm a (addr_bits t + 7))
update_entry a (stop r vm) = stop r vm

-- "Walk or create" in `page_map_page`, with the update of the entry.
unfoldable pub next_table : Vm → ℕ → Bool → Exec Next
next_table vm a alloc_missing = do
  next ← get_or_create_table vm (table_of (vm.mem a)) alloc_missing
  done (update_entry a next)

abbrev pub go_on : (ℕ → Vm → Exec Reply) → Next → Exec Reply
go_on k (at t vm) = k t vm
go_on k (stop r vm) = done (r, vm)

-- An entry is set unless it is present.
unfoldable pub set_entry : Vm → ℕ → ℕ → Exec Reply
set_entry vm a e =
    if present (vm.mem a) then done (err_already_mapped, vm) else done (ok, write vm a e)

-- `page_map_page`, from each of its tables on.
unfoldable pub map_pt : ℕ → ℕ → ℕ → ℕ → Vm → Exec Reply
map_pt v p flags pt vm = set_entry vm (slot pt (pt_index v)) (addr_bits p + vmap_flags_to_pte flags)

unfoldable pub map_pd : ℕ → ℕ → ℕ → Bool → ℕ → Vm → Exec Reply
map_pd v p flags alloc_missing pd vm =
    let a = slot pd (pd_index v) in
    if use_2mb flags
    then set_entry vm a (addr_bits p + vmap_flags_to_pte flags + 128)
    else if present (vm.mem a) && pat (vm.mem a)
    then done (err_invalid, vm)
    else do next ← next_table vm a alloc_missing; go_on (map_pt v p flags) next

unfoldable pub map_pdpt : ℕ → ℕ → ℕ → Bool → ℕ → Vm → Exec Reply
map_pdpt v p flags alloc_missing pdpt vm =
    let a = slot pdpt (pdpt_index v) in
    if use_1gb flags
    then set_entry vm a (addr_bits p + vmap_flags_to_pte flags + 128)
    else do next ← next_table vm a alloc_missing; go_on (map_pd v p flags alloc_missing) next

unfoldable pub map_pml4 : ℕ → ℕ → ℕ → Bool → ℕ → Vm → Exec Reply
map_pml4 v p flags alloc_missing pml4 vm = do
  next ← next_table vm (slot pml4 (pml4_index v)) alloc_missing
  go_on (map_pdpt v p flags alloc_missing) next

-- Its guards on the flags and on the alignment.
unfoldable pub map_guards : ℕ → ℕ → ℕ → Option PageResult
unfolding page_size_of
map_guards v p flags =
    if use_2mb flags && use_1gb flags
    then some err_invalid
    else if not (v % page_size_of flags == 0)
    then some err_alignment
    else if not (p % page_size_of flags == 0)
    then some err_alignment
    else none

unfoldable pub page_map_page : Vm → ℕ → ℕ → ℕ → ℕ → Bool → Exec Reply
unfolding map_guards map_pml4
page_map_page vm pml4 v p flags alloc_missing = do
  assert vm.initialized
  assert vm.direct_map
  elim (map_guards v p flags) [
    | some r ↦ done (r, vm)
    | none ↦ map_pml4 v p flags alloc_missing pml4 vm
  ]
