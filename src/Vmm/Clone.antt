-- ===== src/Vmm/Clone.antt =====
-- What `vmm_create_user_space` of kernel/mm/vmm/vmm.c makes.
use ccoperating_system_x.Common.{
  ℕ, ◌+◌, ◌-◌, ◌*◌, ◌/◌, ◌≤◌, ◌<◌, ◌≡◌, refl, true, false, ◌&&◌, Option, none, some, done, ltb, leb,
  if◌then◌else◌, arith,
}
use ccoperating_system_x.Align.{page_size}
use ccoperating_system_x.Pframe
use ccoperating_system_x.Pframe.{Pframe}
use ccoperating_system_x.Pframe.Spec.{allocated, AllocReply, got, full}
use ccoperating_system_x.Pframe.Alloc.{alloc-AllocReply}
use ccoperating_system_x.Paging.{
  Vm, present, table_of, slot, pml4_index, page_create_table, created, clear_page,
}
use ccoperating_system_x.Paging.Query.{query_pdpt, query_pml4}
use ccoperating_system_x.Paging.Tree.{Shape, Entry, empty, huge, table, IsTree, index-lt}
use ccoperating_system_x.Paging.Grow.{zero_entry}
use ccoperating_system_x.Paging.Outside
use ccoperating_system_x.Paging.Outside.{free_page}
use ccoperating_system_x.Vmm.Pages.{Vmm, VmmResult}
use ccoperating_system_x.Vmm.Pages
use ccoperating_system_x.Vmm.Spaces.{copy_upper, with_kernel, count_table, vmm_create_user_space}

-- What the call may answer for a kernel whose tables are a tree of the shape `sh`.
pub data SpaceReply (canon : ℕ → ℕ) (sh : Shape) (s : Vmm)
    : VmmResult × Option ℕ × Vmm → Type 0 where
  made :
      (n : ℕ) {s' : Vmm}
      → allocated s.vm.frames (n / page_size) ≡ false
      → IsTree canon sh s.pml4 s'.vm
      → ((v : ℕ) → query_pml4 s'.vm.mem s.pml4 v ≡ query_pml4 s.vm.mem s.pml4 v)
      → ((v : ℕ) → 256 ≤ pml4_index v → query_pml4 s'.vm.mem n v ≡ query_pml4 s.vm.mem s.pml4 v)
      → ((v : ℕ) → pml4_index v < 256 → query_pml4 s'.vm.mem n v ≡ none)
      → SpaceReply canon sh s (Pages.ok, some n, s')
  no_frame :
      ((f : ℕ) → f < s.vm.frames.total_frames → allocated s.vm.frames f ≡ true)
      → SpaceReply canon sh s (Pages.err_oom, none, s)

module _ {canon : ℕ → ℕ} (sh : Shape) (root : ℕ) (vm : Vm) (tree : IsTree canon sh root vm) where
  -- The memory with the new table in the frame `f`.
  abbrev copied : ℕ → ℕ → ℕ
  copied f =
      copy_upper
        (λ b. if leb (f * page_size) b && ltb b (f * page_size + page_size) then 0 else vm.mem b)
        root (f * page_size)

  keeps :
      (f s j : ℕ)
      → allocated vm.frames f ≡ false
      → 0 < sh.level s
      → j < 512
      → copied f (slot s j) ≡ vm.mem (slot s j)
  unfolding copy_upper
  keeps f s j free h hj = ground (arith, free_page sh root vm f s j tree free h hj)

  upper_entry :
      (f j : ℕ)
      → allocated vm.frames f ≡ false
      → 256 ≤ j
      → j < 512
      → copied f (slot (f * page_size) j) ≡ vm.mem (slot root j)
  unfolding copy_upper
  upper_entry f j free h hj =
      let e : root + (slot (f * page_size) j - f * page_size) ≡ slot root j = omega arith in
      let out = free_page sh root vm f root j tree free (omega (arith, tree.top)) hj in
      rw e (ground (arith, out))

  lower_entry : (f j : ℕ) → j < 256 → copied f (slot (f * page_size) j) ≡ 0
  unfolding copy_upper
  lower_entry f j h = ground arith

  upper :
      (f v : ℕ)
      → allocated vm.frames f ≡ false
      → 256 ≤ pml4_index v
      → query_pml4 (copied f) (f * page_size) v ≡ query_pml4 vm.mem root v
  unfolding query_pml4
  upper f v free h =
      rw (upper_entry f (pml4_index v) free h (index-lt v).3)
        (below (tree.entries root (pml4_index v) 2 (index-lt v).3 tree.top))
    where
      below :
          {m e : ℕ}
          → Entry sh m 2 e
          → (if present e then query_pdpt (copied f) (table_of e) v else none)
            ≡ (if present e then query_pdpt vm.mem (table_of e) v else none)
      below (empty p z) = ground arith
      below (huge p q lt) = absurd (omega arith)
      below {e = e} (table p q lv pr) = ground (
        arith,
        Outside.same_pdpt sh root vm tree (copied f) (λ s j h hj. keeps f s j free h hj)
            (table_of e) v lv,
      )

  lower : (f v : ℕ) → pml4_index v < 256 → query_pml4 (copied f) (f * page_size) v ≡ none
  unfolding query_pml4
  lower f v h = rw (lower_entry f (pml4_index v) h, zero_entry.0) refl

-- The reply of `pframe_alloc` in the call.
alloc-SpaceReply :
    {canon : ℕ → ℕ} (sh : Shape) (s : Vmm) (q : Pframe.Reply)
    → IsTree canon sh s.pml4 s.vm
    → AllocReply s.vm.frames q
    → SpaceReply canon sh s (with_kernel s (created s.vm q))
unfolding with_kernel created clear_page count_table
alloc-SpaceReply sh s _ tree (full none_free) = no_frame none_free
alloc-SpaceReply sh s _ tree (got f lt free before marks) =
    let same : f * page_size / page_size ≡ f = omega arith in
    let keep =
      λ (t j : ℕ) (h : 0 < sh.level t) (hj : j < 512). keeps sh s.pml4 s.vm tree f t j free h hj in
    made (f * page_size) (rw same free)
      (Outside.outside-IsTree sh s.pml4 s.vm tree _ keep _ marks.valid
        (λ g h. ground (arith, marks.frames g)))
      (Outside.outside-query sh s.pml4 s.vm tree _ keep)
      (λ v h. upper sh s.pml4 s.vm tree f v free h) (λ v h. lower sh s.pml4 s.vm tree f v h)

-- `vmm_create_user_space` returns, where the kernel's tables are a tree below a PML4 whose entries
-- may lead to the same table. It answers OK with the frame of a PML4 that was free, through which
-- each address of the upper half is translated as through the kernel's, and no other address is;
-- the kernel's tables stay such a tree and translate every address as before. Or it answers OOM,
-- where every frame is allocated, and changes nothing.
pub vmm_create_user_space-SpaceReply :
    {canon : ℕ → ℕ} (sh : Shape) (s : Vmm)
    → s.initialized ≡ true
    → IsTree canon sh s.pml4 s.vm
    → (q : VmmResult × Option ℕ × Vmm) × (vmm_create_user_space s ≡ done q)
      × SpaceReply canon sh s q
unfolding vmm_create_user_space page_create_table
vmm_create_user_space-SpaceReply sh s ready tree =
    let (r, e, reply) = alloc-AllocReply s.vm.frames tree.frames in
    (
      with_kernel s (created s.vm r),
      rw (ready, tree.ready, tree.mapped, e) refl,
      alloc-SpaceReply sh s r tree reply,
    )
