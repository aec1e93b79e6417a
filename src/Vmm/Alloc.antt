-- ===== src/Vmm/Alloc.antt =====
-- The allocation of pages of the kernel in kernel/mm/vmm/vmm.c: `vmm_alloc_pages` and
-- `vmm_alloc_pages_at`, with the frames of huge pages.
use ccoperating_system_x.Common.{
  ℕ, zero, suc, ◌+◌, ◌-◌, ◌*◌, ◌/◌, ◌%◌, ◌^◌, Bool, true, false, not, ◌||◌, Option, none, some,
  Exec, done, ◌>>=◌, ◌>>◌, assert, ltb, leb, ◌==◌, if◌then◌else◌,
}
use ccoperating_system_x.Align.{u64, page_size}
use ccoperating_system_x.Pframe
use ccoperating_system_x.Pframe.{Pframe}
use ccoperating_system_x.Paging.{PageResult, use_2mb, use_1gb, page_map_page}
use ccoperating_system_x.Vmm.{vmm_is_kernel_addr, add_region, find_free_virt_range}
use ccoperating_system_x.Vmm.Pages.{
  Vmm, VmmResult, ok, err_oom, err_invalid, more_pages, vmm_free_pages, writable,
}

-- The frames that are left of a run, where there are any.
unfoldable pub free_rest : Pframe → ℕ → ℕ → Exec Pframe
free_rest frames addr count =
    if count == 0
    then done frames
    else do (status, frames') ← Pframe.free_n frames addr count; done frames'

-- The two calls of `pframe_alloc_n` for a page of `n` frames.
unfoldable pub alloc_run : Pframe → ℕ → Exec (Option ℕ × Pframe)
alloc_run frames n = do
  (status, run, frames') ← Pframe.alloc_n frames (n * 2)
  elim run [
    | some temp ↦ done (some temp, frames')
    | none ↦ do (status', run', frames'') ← Pframe.alloc_n frames' n; done (run', frames'')
  ]

-- The loop for the frames of a huge page of `n` frames, with the rounds that are left.
unfoldable pub aligned_run : ℕ → Pframe → ℕ → Exec (Option ℕ × Pframe)
unfolding alloc_run free_rest
aligned_run zero frames n = done (none, frames)
aligned_run (suc retries) frames n = do
  (run, frames') ← alloc_run frames n
  elim run [
    | none ↦ done (none, frames')
    | some temp ↦
        let size = n * page_size in
        let above = (temp + size - 1) % u64 in
        let paddr = above - above % size in
        let unused = (paddr - temp) / page_size in
        elim (leb ((paddr + size) % u64) ((temp + 2 * size) % u64)) [
          | true ↦ do
            before ← free_rest frames' temp unused
            behind ← free_rest before ((paddr + size) % u64) (n * 2 - unused - n)
            done (some paddr, behind)
          | false ↦ do
            (status, frames'') ← Pframe.free_n frames' temp (n * 2)
            aligned_run retries frames'' n
        ]
  ]

-- The frames of a page of `n` frames.
unfoldable pub alloc_frames : Pframe → ℕ → Exec (Option ℕ × Pframe)
unfolding aligned_run
alloc_frames frames n =
    if ltb 1 n
    then aligned_run 10 frames n
    else do (status, paddr, frames') ← Pframe.alloc frames; done (paddr, frames')

unfoldable pub free_frames : Pframe → ℕ → ℕ → Exec Pframe
free_frames frames paddr n =
    if ltb 1 n
    then (do (status, frames') ← Pframe.free_n frames paddr n; done frames')
    else do (status, frames') ← Pframe.free frames paddr; done frames'

-- `frames_needed`
abbrev pub frames_needed : ℕ → ℕ
frames_needed flags = if use_1gb flags then 2 ^ 18 else if use_2mb flags then 2 ^ 9 else 1

-- The loops of `vmm_alloc_pages` and `vmm_alloc_pages_at`, from the page `i` on, and whether they end.
unfoldable pub alloc_from : Vmm → ℕ → ℕ → ℕ → ℕ → Exec (Bool × Vmm)
unfolding alloc_frames free_frames vmm_free_pages
alloc_from s vaddr flags i zero = done (true, s)
alloc_from s vaddr flags i (suc left) = do
  let n = frames_needed flags
  (run, frames) ← alloc_frames s.vm.frames n
  let taken = record s.vm { frames = frames }
  elim run [
    | none ↦ do (r, s') ← vmm_free_pages (record s { vm = taken }) vaddr i; done (false, s')
    | some paddr ↦ do
      (r, vm) ←
          page_map_page taken s.pml4 ((vaddr + i * (n * page_size)) % u64) paddr (writable flags)
            true
      elim r [
        | PageResult.ok ↦ alloc_from (record s { vm = vm }) vaddr flags (i + 1) left
        | _ ↦ do
          back ← free_frames vm.frames paddr n
          (r', s') ← vmm_free_pages (record s { vm = record vm { frames = back } }) vaddr i
          done (false, s')
      ]
  ]

-- The region and the statistics, behind the loops.
unfoldable pub track : Vmm → ℕ → ℕ → ℕ → Vmm
unfolding add_region more_pages
track s vaddr count flags =
    let end = (vaddr + count * (frames_needed flags * page_size)) % u64 in
    more_pages
      (record s {
        regions =
            add_region s.regions
              (record { start = vaddr; end = end; phys_start = 0; flags = flags });
      })
      count 0 count

-- `vmm_alloc_pages`: the address, or 0.
unfoldable pub vmm_alloc_pages : Vmm → ℕ → ℕ → Exec (ℕ × Vmm)
unfolding alloc_from track
vmm_alloc_pages s count flags = do
  assert s.initialized
  if count == 0
      then done (0, s)
      else elim (find_free_virt_range s.regions s.virt_hint
          (count * (frames_needed flags * page_size) % u64)) [
            | none ↦ done (0, s)
            | some (vaddr, hint) ↦ do
              (all, s') ← alloc_from (record s { virt_hint = hint }) vaddr flags 0 count
              done (if all then (vaddr, track s' vaddr count flags) else (0, s'))
          ]

unfoldable pub vmm_alloc_pages_at : Vmm → ℕ → ℕ → ℕ → Exec (VmmResult × Vmm)
unfolding alloc_from track
vmm_alloc_pages_at s vaddr count flags = do
  assert s.initialized
  let aligned = vaddr % (frames_needed flags * page_size) == 0
  if count == 0 || not aligned || not (vmm_is_kernel_addr vaddr) then done (err_invalid, s) else do
    (all, s') ← alloc_from s vaddr flags 0 count
    let end = (vaddr + count * (frames_needed flags * page_size)) % u64
    let hint = if ltb s'.virt_hint end then end else s'.virt_hint
    done (
        if all
        then (ok, record (track s' vaddr count flags) { virt_hint = hint })
        else (err_oom, s'))
