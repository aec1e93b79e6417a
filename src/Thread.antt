-- ===== src/Thread.antt =====
-- kernel/process/thread.c: the stacks of threads in the address space of their process.
pub mod Stack
mod Tests
use ccoperating_system_x.Common.{
  ℕ, zero, suc, ◌+◌, ◌-◌, ◌*◌, ◌/◌, ◌%◌, Bool, true, false, not, ◌||◌, Option, none, some, Exec,
  done, panic, ◌>>=◌, ◌>>◌, ltb, ◌==◌, if◌then◌else◌,
}
use ccoperating_system_x.Align.{u64, page_size}
use ccoperating_system_x.Pframe
use ccoperating_system_x.Paging.Range.{page_at}
use ccoperating_system_x.Vmm.Pages.{Vmm, VmmResult, free_pages_from, vmm_map_to_user}
use ccoperating_system_x.Vmm.Pages

-- `THREAD_STACK_BASE`, which is USER_END less 64 MB, and `THREAD_STACK_SIZE`
abbrev pub thread_stack_base : ℕ
thread_stack_base = 0x7ffffbffffff

abbrev pub thread_stack_size : ℕ
thread_stack_size = 0x40000

-- The end of the region that the stacks are taken from.
abbrev pub lowest : ℕ
lowest = 0x7ffff7ffffff

-- A size, rounded up to pages.
unfoldable pub round_up : ℕ → ℕ
round_up size = let x = (size + page_size - 1) % u64 in x - x % page_size

-- The size of a stack, with its limit.
unfoldable pub stack_size_of : ℕ → ℕ
unfolding round_up
stack_size_of size =
    if ltb thread_stack_size (round_up size) then thread_stack_size else round_up size

unfoldable pub with_frames : Vmm → Pframe.Pframe → Vmm
with_frames s frames = record s { vm = record s.vm { frames = frames } }

-- "Roll back" in front of the page `i`.
unfoldable pub drop_pages : Vmm → ℕ → ℕ → ℕ → Exec (Bool × Vmm)
unfolding free_pages_from
drop_pages s pml4 stack_base i = do
  vm ← free_pages_from s.vm pml4 stack_base 0 i
  done (false, record s { vm = vm })

-- The loop of `thread_alloc_user_stack`, from the page `i` on, and whether it ends.
unfoldable pub map_stack : Vmm → ℕ → ℕ → ℕ → ℕ → Exec (Bool × Vmm)
unfolding drop_pages with_frames
map_stack s pml4 stack_base i zero = done (true, s)
map_stack s pml4 stack_base i (suc left) = do
  (status, paddr, frames) ← Pframe.alloc s.vm.frames
  elim paddr [
    | none ↦ drop_pages (with_frames s frames) pml4 stack_base i
    | some p ↦ do
      (r, s') ← vmm_map_to_user (with_frames s frames) pml4 (page_at stack_base i) p 1 3
      elim r [
        | Pages.ok ↦ map_stack s' pml4 stack_base (i + 1) left
        | _ ↦ do
          (status', back) ← Pframe.free s'.vm.frames p
          drop_pages (with_frames s' back) pml4 stack_base i
      ]
  ]

-- `thread_alloc_user_stack` with the tables of the parent, where there is one, and
-- `s_next_thread_stack`: the top of the stack, or 0.
unfoldable pub thread_alloc_user_stack : Vmm → ℕ → Option ℕ → ℕ → Exec (ℕ × Vmm × ℕ)
unfolding map_stack stack_size_of
thread_alloc_user_stack s next none size = done (0, s, next)
thread_alloc_user_stack s next (some pml4) size =
    if size == 0
    then done (0, s, next)
    else let stack_base = (next + (u64 - stack_size_of size)) % u64 in
      if ltb stack_base lowest then done (0, s, next) else do
        (all, s') ← map_stack s pml4 stack_base 0 (stack_size_of size / page_size)
        done ((if all then next else 0), s', stack_base)

-- The part of a thread's PCB that `thread_free_user_stack` reads.
pub record UserStack : Type 0 where
  pub pml4_phys : ℕ
  pub is_user_mode : Bool
  pub user_stack : ℕ
  pub user_stack_size : ℕ

-- `thread_free_user_stack` of a thread that is not NULL.
unfoldable pub thread_free_user_stack : Vmm → UserStack → Exec Vmm
unfolding free_pages_from round_up
thread_free_user_stack s thread =
    if not thread.is_user_mode || thread.user_stack == 0 then done s else do
      let size = if thread.user_stack_size == 0 then thread_stack_size else thread.user_stack_size
      let stack_base = (thread.user_stack + (u64 - round_up size)) % u64
      vm ← free_pages_from s.vm thread.pml4_phys stack_base 0 (round_up size / page_size)
      done (record s { vm = vm })
