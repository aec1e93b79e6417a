-- ===== src/Cow/Faults.antt =====
-- The write faults of kernel/mm/vmm/cow.c.
use ccoperating_system_x.Common.{
  ℕ, ◌+◌, ◌-◌, ◌%◌, false, not, ◌&&◌, ◌||◌, Option, none, some, Exec, done, ◌>>=◌, ltb, leb, ◌==◌,
  if◌then◌else◌,
}
use ccoperating_system_x.Align.{u64, page_size}
use ccoperating_system_x.Pframe.{Pframe}
use ccoperating_system_x.Pframe
use ccoperating_system_x.Paging.{
  Vm, Mapping, PageResult, bit, present, table_of, slot, write, page_map_page, pml4_index,
  pdpt_index, pd_index, pt_index,
}
use ccoperating_system_x.Paging.Query.{page_query}
use ccoperating_system_x.Cow.{
  Cow, Block, CowResult, ok, err_not_init, err_invalid, err_oom, err_not_cow, cow_lookup_block,
  cow_dec_refcount, cow_is_cow_page, set_bit_if_clear, cow_clear_cow_flag, cow_set_cow_flag,
  clear_bit_if_set,
}

-- The result with both states.
abbrev pub FaultReply : Type 0
FaultReply = CowResult × Vm × Cow

-- `memcpy` of a page.
unfoldable pub copy_page : Vm → ℕ → ℕ → Vm
copy_page vm to from = record vm {
  mem = λ b. if leb to b && ltb b (to + page_size) then vm.mem (from + (b - to)) else vm.mem b;
}

-- `cow_mark_page_readonly`, the walk behind its query: it takes away the right to write and sets
-- the flag in the entry of the page table.
unfoldable pub mark_entry : Vm → ℕ → ℕ → Vm
unfolding write
mark_entry vm pt v =
    write vm (slot pt (pt_index v))
      (cow_set_cow_flag (clear_bit_if_set (vm.mem (slot pt (pt_index v))) 1))

unfoldable pub mark_walk : Vm → ℕ → ℕ → CowResult × Vm
unfolding mark_entry
mark_walk vm pml4 v =
    let pml4e = vm.mem (slot pml4 (pml4_index v)) in
    let pdpte = vm.mem (slot (table_of pml4e) (pdpt_index v)) in
    let pde = vm.mem (slot (table_of pdpte) (pd_index v)) in
    if not (present pml4e)
    then (err_invalid, vm)
    else if not (present pdpte)
    then (err_invalid, vm)
    else if not (present pde)
    then (err_invalid, vm)
    else (ok, mark_entry vm (table_of pde) v)

unfoldable pub cow_mark_page_readonly : Vm → ℕ → ℕ → Exec (CowResult × Vm)
unfolding mark_walk
cow_mark_page_readonly vm pml4 v = do
  query ← page_query vm pml4 v
  done (elim query [ none ↦ (err_invalid, vm) | some m ↦ mark_walk vm pml4 v ])

abbrev pub result_of : PageResult → CowResult
result_of r = elim r [ PageResult.ok ↦ ok | _ ↦ err_invalid ]

-- `cow_make_writable`, behind its query: the bits of the entry are handed on as the flags of a mapping.
unfoldable pub remap : Vm → ℕ → ℕ → ℕ → Mapping → Exec (CowResult × Vm)
remap vm pml4 v phys m = do
  (r, vm') ← page_map_page vm pml4 v phys (cow_clear_cow_flag (set_bit_if_clear m.flags 1)) false
  done (result_of r, vm')

unfoldable pub cow_make_writable : Vm → ℕ → ℕ → ℕ → Exec (CowResult × Vm)
unfolding remap
cow_make_writable vm pml4 v phys = do
  query ← page_query vm pml4 v
  elim query [ none ↦ done (err_invalid, vm) | some m ↦ remap vm pml4 v phys m ]

-- The flags that `cow_copy_on_write` maps the copy with: the query has no flag above its low bits,
-- so that PAGE_NO_EXEC is never among them.
unfoldable pub copy_flags : ℕ
copy_flags = 7

abbrev pub count_coalesced : Cow → Cow
count_coalesced c = record c {
  stats = record c.stats { coalesced = (c.stats.coalesced + 1) % u64 };
}

abbrev pub count_fault : Cow → Cow
count_fault c = record c {
  stats = record c.stats { write_faults = (c.stats.write_faults + 1) % u64 };
}

abbrev pub count_handled : Cow → Cow
count_handled c = record c {
  stats = record c.stats { faults_handled = (c.stats.faults_handled + 1) % u64 };
}

-- `cow_copy_on_write`, with the frame that it got; what `page_map_page` answers is not looked at.
unfoldable pub copy_to : Vm → Cow → ℕ → ℕ → ℕ → ℕ → Exec FaultReply
unfolding copy_page copy_flags
copy_to vm c pml4 v orig_phys new_phys =
    let vm' = copy_page vm new_phys orig_phys in
    let c' = (cow_dec_refcount c orig_phys).1 in
    do
      query ← page_query vm' pml4 v
      (r, vm'') ← page_map_page vm' pml4 v new_phys copy_flags false
      done (ok, vm'', count_handled c')

unfoldable pub copy_with : Vm → Cow → ℕ → ℕ → ℕ → Pframe.Reply → Exec FaultReply
unfolding copy_to
copy_with vm c pml4 v orig_phys (status, none, frames) =
    done (err_oom, record vm { frames = frames }, c)
copy_with vm c pml4 v orig_phys (status, some new_phys, frames) =
    copy_to (record vm { frames = frames }) c pml4 v orig_phys new_phys

unfoldable pub cow_copy_on_write : Vm → Cow → ℕ → ℕ → ℕ → Exec FaultReply
unfolding copy_with
cow_copy_on_write vm c pml4 v orig_phys = do
  reply ← Pframe.alloc vm.frames
  copy_with vm c pml4 v orig_phys reply

-- `cow_handle_fault`, at a block of the page that the query found.
unfoldable pub fault_on : Vm → Cow → ℕ → ℕ → ℕ → Block → Exec FaultReply
unfolding cow_make_writable cow_copy_on_write
fault_on vm c pml4 v orig_phys b =
    if b.refcount == 1
    then (do (r, vm') ← cow_make_writable vm pml4 v orig_phys; done (r, vm', count_coalesced c))
    else cow_copy_on_write vm c pml4 v orig_phys

-- The page that the query found.
unfoldable pub fault_at : Vm → Cow → ℕ → ℕ → Option Mapping → Exec FaultReply
unfolding fault_on
fault_at vm c pml4 v none = done (err_not_cow, vm, c)
fault_at vm c pml4 v (some m) =
    if bit m.flags 1 || not (cow_is_cow_page m.flags)
    then done (err_not_cow, vm, c)
    else elim (cow_lookup_block c m.phys_addr) [
      | none ↦ done (err_invalid, vm, c)
      | some b ↦ fault_on vm c pml4 v m.phys_addr b
    ]

-- `cow_handle_fault`
unfoldable pub cow_handle_fault : Vm → Cow → ℕ → ℕ → Exec FaultReply
unfolding fault_at
cow_handle_fault vm c pml4 v =
    if not c.initialized
    then done (err_not_init, vm, c)
    else do query ← page_query vm pml4 v; fault_at vm (count_fault c) pml4 v query
