-- ===== src/Paging/Reply.antt =====
-- What `page_map_page` and `page_unmap_page` of kernel/mm/vmm/page.c may answer at a page of 4 KB.
use ccoperating_system_x.Common.{
  ℕ, ◌+◌, ◌%◌, ◌^◌, ◌≡◌, ◌≢◌, ◌⊎◌, Bool, true, false, arith, Option, none, some,
}
use ccoperating_system_x.Align.{page_size}
use ccoperating_system_x.Paging.{
  Vm, Reply, PageResult, ok, err_oom, err_invalid, err_not_present, err_already_mapped,
  err_not_mapped, err_alignment, Mapping, present, addr_bits, vmap_flags_to_pte,
}
use ccoperating_system_x.Paging.Query.{query_pml4, mapping_of}
use ccoperating_system_x.Paging.Tree.{Shape, IsTree, page}

-- What the query answers for a page that was mapped.
abbrev pub mapping_to : ℕ → ℕ → Mapping
mapping_to p flags = record {
  phys_addr = p % 2 ^ 52;
  flags = vmap_flags_to_pte flags % 4096;
  is_huge = false;
}

pub leaf_entry :
    (p flags : ℕ)
    → p % page_size ≡ 0
    → (present (addr_bits p + vmap_flags_to_pte flags) ≡ true)
      × (mapping_of (addr_bits p + vmap_flags_to_pte flags) false ≡ mapping_to p flags)
unfolding present addr_bits vmap_flags_to_pte mapping_of
leaf_entry p flags h = (ground arith, ground arith)

-- Why a page of 4 KB is not mapped, where `Q` is what the query answers before.
pub data Refusal (Q : ℕ → Option Mapping) (v p : ℕ) (alloc_missing : Bool)
    : PageResult → Type 0 where
  misaligned : (v % page_size ≢ 0) ⊎ (p % page_size ≢ 0) → Refusal Q v p alloc_missing err_alignment
  already :
      (m : Mapping)
      → Q v ≡ some m
      → m.is_huge ≡ false
      → Refusal Q v p alloc_missing err_already_mapped
  covered :
      (m : Mapping) → Q v ≡ some m → m.is_huge ≡ true → Refusal Q v p alloc_missing err_invalid
  no_table : Q v ≡ none → alloc_missing ≡ false → Refusal Q v p alloc_missing err_not_present
  no_frame : Q v ≡ none → Refusal Q v p alloc_missing err_oom

-- What `page_map_page` may answer.
pub data MapReply (canon : ℕ → ℕ) (Q : ℕ → Option Mapping) (root v p flags : ℕ)
    (alloc_missing : Bool) : Reply → Type 0 where
  mapped :
      {vm' : Vm} (sh' : Shape)
      → IsTree canon sh' root vm'
      → Q v ≡ none
      → query_pml4 vm'.mem root v ≡ some (mapping_to p flags)
      → ((w : ℕ) → page canon w ≢ page canon v → query_pml4 vm'.mem root w ≡ Q w)
      → MapReply canon Q root v p flags alloc_missing (ok, vm')
  refused :
      {r : PageResult} {vm' : Vm} (sh' : Shape)
      → IsTree canon sh' root vm'
      → Refusal Q v p alloc_missing r
      → ((w : ℕ) → query_pml4 vm'.mem root w ≡ Q w)
      → MapReply canon Q root v p flags alloc_missing (r, vm')

-- What `page_unmap_page` may answer at a page that is not in one of 2 MB.
pub data UnmapReply (canon : ℕ → ℕ) (sh : Shape) (root : ℕ) (vm : Vm) (v : ℕ) : Reply → Type 0 where
  unmapped :
      {vm' : Vm} (m : Mapping)
      → IsTree canon sh root vm'
      → query_pml4 vm.mem root v ≡ some m
      → query_pml4 vm'.mem root v ≡ none
      → ((w : ℕ)
          → page canon w ≢ page canon v
          → query_pml4 vm'.mem root w ≡ query_pml4 vm.mem root w)
      → UnmapReply canon sh root vm v (ok, vm')
  not_mapped : query_pml4 vm.mem root v ≡ none → UnmapReply canon sh root vm v (err_not_mapped, vm)
  not_aligned : v % page_size ≢ 0 → UnmapReply canon sh root vm v (err_alignment, vm)
