-- ===== src/Cow/Stuck.antt =====
-- What a write fault comes to in kernel/mm/vmm/cow.c: `page_map_page` refuses a page that is mapped,
-- so that no fault ever makes its page writable.
use ccoperating_system_x.Common.{
  ℕ, ◌*◌, ◌<◌, ◌≡◌, ◌≢◌, refl, ◌∙◌, ap, inl, inr, Bool, true, false, not, arith, ◌||◌, ◌==◌,
  if◌then◌else◌, Bool-cases, Option, none, some, Option-cases, Exec, done, ◌>>=◌,
}
use ccoperating_system_x.Align.{page_size}
use ccoperating_system_x.Pframe.{Pframe}
use ccoperating_system_x.Pframe
use ccoperating_system_x.Pframe.Spec.{allocated, Marks, AllocReply, got, full}
use ccoperating_system_x.Pframe.Alloc.{alloc-AllocReply}
use ccoperating_system_x.Paging.{Vm, PageResult, Mapping, bit, slot}
use ccoperating_system_x.Paging.Query.{page_query, query_pml4}
use ccoperating_system_x.Paging.Tree.{Shape, IsTree, run_ready}
use ccoperating_system_x.Paging.Outside.{outside-query, outside-IsTree, free_page}
use ccoperating_system_x.Paging.Remap.{page_map_page-Refuses}
use ccoperating_system_x.Cow.{
  Cow, Block, CowResult, ok, err_not_init, err_invalid, err_oom, err_not_cow, cow_lookup_block,
  cow_is_cow_page, set_bit_if_clear, cow_clear_cow_flag, cow_dec_refcount,
}
use ccoperating_system_x.Cow.Faults.{
  FaultReply, copy_page, result_of, remap, cow_make_writable, copy_to, copy_flags, copy_with,
  cow_copy_on_write, fault_on, fault_at, cow_handle_fault, count_coalesced, count_fault,
  count_handled,
}

-- Every address is translated as before, and where the answer is OK, a frame is gone.
pub record Stuck (canon : ℕ → ℕ) (sh : Shape) (root : ℕ) (vm : Vm) (q : FaultReply) : Type 0 where
  pub tree : IsTree canon sh root q.1
  pub query : (w : ℕ) → query_pml4 q.1.mem root w ≡ query_pml4 vm.mem root w
  pub frame_gone :
      q.0 ≡ ok → (f : ℕ) × (allocated vm.frames f ≡ false) × (allocated q.1.frames f ≡ true)

refused_ne : (r : PageResult) → r ≢ PageResult.ok → result_of r ≢ ok
refused_ne PageResult.ok ne = λ e. ne refl
refused_ne _ ne = λ e. cc

module _ {canon : ℕ → ℕ} (sh : Shape) (root : ℕ) (vm : Vm) (v : ℕ)
    (tree : IsTree canon sh root vm) where
  abbrev Ends : Exec FaultReply → Type 0
  Ends run = (q : FaultReply) × (run ≡ done q) × Stuck canon sh root vm q

  -- An answer other than OK that leaves the memory alone.
  unmoved : (r : CowResult) (c : Cow) → r ≢ ok → Stuck canon sh root vm (r, vm, c)
  unmoved r c ne = record { tree = tree; query = λ w. refl; frame_gone = λ e. absurd (ne e) }

  query_run' :
      (vm' : Vm)
      → IsTree canon sh root vm'
      → page_query vm' root v ≡ done (query_pml4 vm'.mem root v)
  unfolding page_query
  query_run' vm' tree' = run_ready sh root vm' _ tree'

  query_run : page_query vm root v ≡ done (query_pml4 vm.mem root v)
  unfolding page_query
  query_run = run_ready sh root vm _ tree

  -- A page with one owner.
  writable-fails :
      (phys : ℕ) (m : Mapping)
      → query_pml4 vm.mem root v ≡ some m
      → (r : CowResult) × (cow_make_writable vm root v phys ≡ done (r, vm)) × (r ≢ ok)
  unfolding cow_make_writable remap
  writable-fails phys m found =
      let (r, run, ne) =
        page_map_page-Refuses sh root vm v phys (cow_clear_cow_flag (set_bit_if_clear m.flags 1))
          false tree m found in
      (result_of r, rw (query_run, found, run) refl, refused_ne r ne)

  -- A page with more, where a frame is free.
  copy-Ends :
      (c : Cow) (phys f : ℕ) (frames' : Pframe) (m : Mapping)
      → query_pml4 vm.mem root v ≡ some m
      → allocated vm.frames f ≡ false
      → Marks true (λ j. f == j) vm.frames frames'
      → Ends (copy_to (record vm { frames = frames' }) c root v phys (f * page_size))
  unfolding copy_to copy_page
  copy-Ends c phys f frames' m found free marks =
      let new : ℕ = f * page_size in
      let vm' : Vm = copy_page (record vm { frames = frames' }) new phys in
      let keeps : (s j : ℕ) → 0 < sh.level s → j < 512 → vm'.mem (slot s j) ≡ vm.mem (slot s j) =
        λ s j h hj. rw (free_page sh root vm f s j tree free h hj) refl in
      let tree' : IsTree canon sh root vm' =
        outside-IsTree sh root vm tree vm'.mem keeps frames' marks.valid
          (λ g taken. ground (arith, marks.frames g)) in
      let same = outside-query sh root vm tree vm'.mem keeps in
      let found' : query_pml4 vm'.mem root v ≡ some m = same v ∙ found in
      let (r, run, ne) = page_map_page-Refuses sh root vm' v new copy_flags false tree' m found' in
      (
        (ok, vm', count_handled (cow_dec_refcount c phys).1),
        rw (query_run' vm' tree', run) refl,
        record {
          tree = tree';
          query = same;
          frame_gone = λ e. (f, free, ground (arith, marks.frames f));
        },
      )

  copy_on_write-Ends :
      (c : Cow) (phys : ℕ) (m : Mapping)
      → query_pml4 vm.mem root v ≡ some m
      → Ends (cow_copy_on_write vm c root v phys)
  unfolding cow_copy_on_write copy_with
  copy_on_write-Ends c phys m found =
      let (reply, run, a) = alloc-AllocReply vm.frames tree.frames in go reply run a
    where
      go :
          (reply : Pframe.Reply)
          → Pframe.alloc vm.frames ≡ done reply
          → AllocReply vm.frames reply
          → Ends (cow_copy_on_write vm c root v phys)
      go _ run (full all) = ((err_oom, vm, c), rw run refl, unmoved err_oom c (λ e. cc))
      go _ run (got f {s'} lt free _ marks) =
          let (q, run', s) = copy-Ends c phys f s' m found free marks in (q, rw run run', s)

  fault_on-Ends :
      (c : Cow) (phys : ℕ) (m : Mapping) (b : Block)
      → query_pml4 vm.mem root v ≡ some m
      → Ends (fault_on vm c root v phys b)
  unfolding fault_on
  fault_on-Ends c phys m b found = elim (Bool-cases (b.refcount == 1)) [
    | inl e ↦
        let (r, run, ne) = writable-fails phys m found in
        ((r, vm, count_coalesced c), rw (e, run) refl, unmoved r (count_coalesced c) ne)
    | inr e ↦ let (q, run, s) = copy_on_write-Ends c phys m found in (q, rw e run, s)
  ]

  fault_at-Ends :
      (c : Cow) (o : Option Mapping) → query_pml4 vm.mem root v ≡ o → Ends (fault_at vm c root v o)
  unfolding fault_at
  fault_at-Ends c none found = (_, refl, unmoved err_not_cow c (λ e. cc))
  fault_at-Ends c (some m) found =
      elim (Bool-cases (bit m.flags 1 || not (cow_is_cow_page m.flags))) [
        | inl e ↦ (_, rw e refl, unmoved err_not_cow c (λ q. cc))
        | inr e ↦ elim (Option-cases (cow_lookup_block c m.phys_addr)) [
          | inl n ↦ (_, rw (e, n) refl, unmoved err_invalid c (λ q. cc))
          | inr (b, n) ↦
              let (q, run, s) = fault_on-Ends c m.phys_addr m b found in (q, rw (e, n) run, s)
        ]
      ]

  start :
      (c : Cow) (b : Bool)
      → c.initialized ≡ b
      → cow_handle_fault vm c root v ≡ (
          if not b
          then done (err_not_init, vm, c)
          else page_query vm root v >>= fault_at vm (count_fault c) root v)
  unfolding cow_handle_fault
  start c b e =
      ap
        (λ x.
          if not x
          then done (err_not_init, vm, c)
          else page_query vm root v >>= fault_at vm (count_fault c) root v)
        e

  -- `cow_handle_fault`, on tables that are a tree below a PML4 whose entries may lead to the same
  -- table, without pages of 1 GB, returns, and leaves every address translated as before, its flags
  -- included: no fault makes its page writable. Where it answers OK, a frame that was free is
  -- allocated.
  pub cow_handle_fault-Stuck : (c : Cow) → Ends (cow_handle_fault vm c root v)
  unfolding cow_handle_fault
  cow_handle_fault-Stuck c = elim (Bool-cases c.initialized) [
    | inr e ↦ ((err_not_init, vm, c), start c false e, unmoved err_not_init c (λ q. cc))
    | inl e ↦
        let (q, run, s) = fault_at-Ends (count_fault c) (query_pml4 vm.mem root v) refl in
        (q, start c true e ∙ rw query_run run, s)
  ]
