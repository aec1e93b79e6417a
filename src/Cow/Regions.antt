-- ===== src/Cow/Regions.antt =====
-- The regions of kernel/mm/vmm/cow.c: pages that are made read-only to be shared, and given back.
use ccoperating_system_x.Common.{
  ℕ, zero, suc, ◌+◌, ◌/◌, ◌%◌, Bool, not, ◌&&◌, Option, none, some, List, [], ◌∷◌, Exec, done,
  ◌>>=◌, ◌==◌, if◌then◌else◌,
}
use ccoperating_system_x.Align.{page_size}
use ccoperating_system_x.Paging.{Vm, Mapping}
use ccoperating_system_x.Paging.Query.{page_query}
use ccoperating_system_x.Paging.Range.{page_at}
use ccoperating_system_x.Cow.{
  Cow, Region, Grants, CowResult, ok, err_not_init, err_invalid, err_oom, err_not_cow, cow_add_page,
  cow_inc_refcount, cow_dec_refcount,
}
use ccoperating_system_x.Cow.Faults.{FaultReply, cow_mark_page_readonly}

-- A page of the region: it is counted twice, for its two owners, and marked, whatever the calls
-- answer.
unfoldable pub share_page : Vm → Cow → Grants → ℕ → ℕ → Mapping → Exec (Vm × Cow)
unfolding cow_add_page cow_inc_refcount cow_mark_page_readonly
share_page vm c memory pml4 v m =
    let added = (cow_add_page c memory m.phys_addr).1 in
    do
      (r, vm') ← cow_mark_page_readonly vm pml4 v
      done (vm', (cow_inc_refcount added m.phys_addr).1)

-- The loop of `cow_register_region`, over the pages that are left, with the answers of `kmalloc` at
-- each; a page that is not mapped is skipped.
unfoldable pub share_pages : Vm → Cow → (ℕ → Grants) → ℕ → ℕ → ℕ → ℕ → Exec (Vm × Cow)
unfolding share_page
share_pages vm c memory pml4 base i zero = done (vm, c)
share_pages vm c memory pml4 base i (suc left) = do
  query ← page_query vm pml4 (page_at base i)
  (vm', c') ← elim query [
    | none ↦ done (vm, c)
    | some m ↦ share_page vm c (memory i) pml4 (page_at base i) m
  ]
  share_pages vm' c' memory pml4 base (i + 1) left

-- `cow_register_region`; the last argument is whether there is memory for its description.
unfoldable pub cow_register_region : Vm → Cow → (ℕ → Grants) → ℕ → ℕ → ℕ → Bool → Exec FaultReply
unfolding share_pages
cow_register_region vm c memory pml4 base size granted =
    if not c.initialized
    then done (err_not_init, vm, c)
    else if not (base % page_size == 0)
    then done (err_invalid, vm, c)
    else if not (size % page_size == 0)
    then done (err_invalid, vm, c)
    else do
      (vm', c') ← share_pages vm c memory pml4 base 0 (size / page_size)
      done (
          if not granted then (err_oom, vm', c') else (
            ok,
            vm',
            record c' {
              regions =
                  record { start = base; page_count = size / page_size; pml4 = pml4 } ∷ c'.regions;
            },
          ))

unfoldable pub release : Cow → Option Mapping → Cow
unfolding cow_dec_refcount
release c none = c
release c (some m) = (cow_dec_refcount c m.phys_addr).1

-- The loop of `cow_unregister_region` over the pages of the region.
unfoldable pub release_pages : Vm → Cow → ℕ → ℕ → ℕ → ℕ → Exec Cow
unfolding release
release_pages vm c pml4 start i zero = done c
release_pages vm c pml4 start i (suc left) = do
  query ← page_query vm pml4 (page_at start i)
  release_pages vm (release c query) pml4 start (i + 1) left

-- The first region of the list that fits, and the list without it.
unfoldable pub unlink_region : ℕ → ℕ → List Region → Option (Region × List Region)
unlink_region pml4 base [] = none
unlink_region pml4 base (r ∷ regions) =
    let rest = unlink_region pml4 base regions in
    if r.pml4 == pml4 && r.start == base
    then some (r, regions)
    else elim rest [ none ↦ none | some (found, left) ↦ some (found, r ∷ left) ]

-- `cow_unregister_region`
unfoldable pub cow_unregister_region : Vm → Cow → ℕ → ℕ → Exec (CowResult × Cow)
unfolding unlink_region release_pages
cow_unregister_region vm c pml4 base =
    if not c.initialized then done (err_not_init, c) else elim (unlink_region pml4 base c.regions) [
      | none ↦ done (err_not_cow, c)
      | some (r, left) ↦ do
        c' ← release_pages vm (record c { regions = left }) pml4 r.start 0 r.page_count
        done (ok, c')
    ]
