-- ===== src/Paging/Rollback.antt =====
-- `page_map_range` of kernel/mm/vmm/page.c: all pages are mapped, or none.
use ccoperating_system_x.Common.{
  ℕ, zero, suc, ◌+◌, ◌%◌, ◌≤◌, ◌<◌, ◌≡◌, ◌≢◌, refl, true, false, arith, Option, none, some, ap, sym,
  ◌∙◌, done, assert, ◌>>◌, ◌>>=◌,
}
use native.Mathlib.Decide.{ℕ_discrete}
use ccoperating_system_x.Align.{page_size}
use ccoperating_system_x.Paging.{
  Vm, Reply, PageResult, ok, err_oom, err_invalid, err_not_present, err_already_mapped,
  err_alignment, Mapping, use_2mb, use_1gb, page_map_page,
}
use ccoperating_system_x.Paging.Query.{query_pml4}
use ccoperating_system_x.Paging.Range.{
  page_at, unmap_from, page_unmap_range, roll_back, map_from, page_map_range,
}
use ccoperating_system_x.Paging.Tree.{Shape, IsTree, page, same_page}
use ccoperating_system_x.Paging.Reply.{
  UnmapReply, unmapped, not_mapped, not_aligned, MapReply, mapped, refused, misaligned, already,
  covered, no_table, no_frame, mapping_to,
}
use ccoperating_system_x.Paging.Map.{page_map_page-MapReply}
use ccoperating_system_x.Paging.Unmap.{page_unmap_page-UnmapReply}

-- What `page_map_range` may answer for `count` pages.
pub data RangeReply (canon : ℕ → ℕ) (vm : Vm) (root base phys count flags : ℕ)
    : Reply → Type 0 where
  all_mapped :
      {vm' : Vm} (sh' : Shape)
      → IsTree canon sh' root vm'
      → ((j : ℕ) → j < count → query_pml4 vm.mem root (page_at base j) ≡ none)
      → ((j : ℕ)
          → j < count
          → query_pml4 vm'.mem root (page_at base j) ≡ some (mapping_to (page_at phys j) flags))
      → ((w : ℕ)
          → ((j : ℕ) → j < count → page canon w ≢ page canon (page_at base j))
          → query_pml4 vm'.mem root w ≡ query_pml4 vm.mem root w)
      → RangeReply canon vm root base phys count flags (ok, vm')
  rolled_back :
      {r : PageResult} {vm' : Vm} (sh' : Shape)
      → IsTree canon sh' root vm'
      → r ≢ ok
      → ((w : ℕ) → query_pml4 vm'.mem root w ≡ query_pml4 vm.mem root w)
      → RangeReply canon vm root base phys count flags (r, vm')

module _ {canon : ℕ → ℕ} (sh₀ : Shape) (vm₀ : Vm) (root base phys flags : ℕ)
    (aligned : base % page_size ≡ 0) (small : use_2mb flags ≡ false)
    (not_giant : use_1gb flags ≡ false) (tree₀ : IsTree canon sh₀ root vm₀) where
  abbrev number : ℕ → ℕ
  number i = page canon (page_at base i)

  abbrev Q : Vm → ℕ → Option Mapping
  Q vm = query_pml4 vm.mem root

  page_aligned : (i : ℕ) → page_at base i % page_size ≡ 0
  page_aligned i = omega arith

  -- The pages of the range from `k` to `i` are mapped in 4 KB or not at all, and were not mapped at
  -- the start; every other page is as it was.
  record Left (sh : Shape) (vm : Vm) (k i : ℕ) : Type 0 where
    tree : IsTree canon sh root vm
    fresh : (j : ℕ) → j < i → Q vm₀ (page_at base j) ≡ none
    four_kb : (j : ℕ) (m : Mapping) → j < i → Q vm (page_at base j) ≡ some m → m.is_huge ≡ false
    rest : (w : ℕ) → ((j : ℕ) → k ≤ j → j < i → page canon w ≢ number j) → Q vm w ≡ Q vm₀ w

  unmap-Left :
      (sh : Shape) (vm : Vm) (k i : ℕ) (q : Reply)
      → k < i
      → Left sh vm k i
      → UnmapReply canon sh root vm (page_at base k) q
      → Left sh q.1 (k + 1) i
  unmap-Left sh vm k i _ lt l (unmapped {vm' = vm'} m tree was now others) = record {
    tree = tree;
    fresh = l.fresh;
    four_kb = λ j m' h e. elim (ℕ_discrete (number j) (number k)) [
      | yes same ↦
          let now' : Q vm' (page_at base j) ≡ none = same_page _ root vm' _ _ tree same ∙ now in cc
      | no ne ↦ l.four_kb j m' h (sym (others (page_at base j) ne) ∙ e)
    ];
    rest = λ w out. elim (ℕ_discrete (page canon w) (number k)) [
      | yes same ↦
          same_page _ root vm' _ _ tree same
          ∙ now
          ∙ sym (l.fresh k lt)
          ∙ sym (same_page _ root vm₀ _ _ tree₀ same)
      | no ne ↦
          others w ne
          ∙ l.rest w
              (λ j le h. elim (ℕ_discrete j k) [ yes q ↦ rw q ne | no q ↦ out j (omega arith) h ])
    ];
  }
  unmap-Left sh vm k i _ lt l (not_mapped e) = record {
    tree = l.tree;
    fresh = l.fresh;
    four_kb = l.four_kb;
    rest = λ w out. elim (ℕ_discrete (page canon w) (number k)) [
      | yes same ↦
          same_page _ root vm _ _ l.tree same
          ∙ e
          ∙ sym (l.fresh k lt)
          ∙ sym (same_page _ root vm₀ _ _ tree₀ same)
      | no ne ↦
          l.rest w
            (λ j le h. elim (ℕ_discrete j k) [ yes q ↦ rw q ne | no q ↦ out j (omega arith) h ])
    ];
  }
  unmap-Left sh vm k i _ lt l (not_aligned ne) = absurd (ne (page_aligned k))

  unmap_from-restores :
      (left : ℕ) (sh : Shape) (vm : Vm) (k i : ℕ)
      → k + left ≡ i
      → Left sh vm k i
      → (vm' : Vm) × (unmap_from vm root base k left ≡ done vm')
        × IsTree canon sh root vm'
        × ((w : ℕ) → Q vm' w ≡ Q vm₀ w)
  unfolding unmap_from
  unmap_from-restores zero sh vm k i e l =
      (vm, refl, l.tree, λ w. l.rest w (λ j le h. absurd (omega arith)))
  unmap_from-restores (suc left) sh vm k i e l =
      let (q, run, r) =
        page_unmap_page-UnmapReply sh root vm (page_at base k) l.tree
          (λ m. l.four_kb k m (omega arith)) in
      let (vm', run', t, same) =
        unmap_from-restores left sh q.1 (k + 1) i (omega arith)
          (unmap-Left sh vm k i q (omega arith) l r) in
      (vm', rw run run', t, same)

  roll_back-restores :
      (r : PageResult) (count : ℕ) (sh : Shape) (vm : Vm) (i : ℕ)
      → r ≢ ok
      → Left sh vm 0 i
      → (q : Reply) × (roll_back r vm root base i ≡ done q)
        × RangeReply canon vm₀ root base phys count flags q
  unfolding roll_back page_unmap_range
  roll_back-restores r count sh vm i ne l =
      let (vm', run, t, same) = unmap_from-restores i sh vm 0 i (omega arith) l in
      (
        (r, vm'),
        ap (λ b. assert b >> unmap_from vm root base 0 i >>= λ v. done (r, v)) l.tree.ready
            ∙ rw run refl,
        rolled_back sh t ne same,
      )

  -- The first `i` pages are mapped, and the others are as they were.
  record Mapped (sh : Shape) (vm : Vm) (i : ℕ) : Type 0 where
    tree : IsTree canon sh root vm
    fresh : (j : ℕ) → j < i → Q vm₀ (page_at base j) ≡ none
    there : (j : ℕ) → j < i → Q vm (page_at base j) ≡ some (mapping_to (page_at phys j) flags)
    rest : (w : ℕ) → ((j : ℕ) → j < i → page canon w ≢ number j) → Q vm w ≡ Q vm₀ w

  -- A page that is not mapped yet is none of the first ones.
  new_page :
      (sh : Shape) (vm : Vm) (i w : ℕ)
      → Mapped sh vm i
      → Q vm w ≡ none
      → (j : ℕ) → j < i
      → page canon w ≢ number j
  new_page sh vm i w m e j lt same =
      let e' : Q vm w ≡ some (mapping_to (page_at phys j) flags) =
        same_page _ root vm _ _ m.tree same ∙ m.there j lt in
      cc

  map-Mapped :
      (sh sh' : Shape) (vm vm' : Vm) (i : ℕ)
      → Mapped sh vm i
      → IsTree canon sh' root vm'
      → Q vm (page_at base i) ≡ none
      → Q vm' (page_at base i) ≡ some (mapping_to (page_at phys i) flags)
      → ((w : ℕ) → page canon w ≢ number i → Q vm' w ≡ Q vm w)
      → Mapped sh' vm' (i + 1)
  map-Mapped sh sh' vm vm' i m tree before now others = record {
    tree = tree;
    fresh = λ j lt. elim (ℕ_discrete j i) [
      | yes q ↦
          rw q (sym (m.rest (page_at base i) (new_page sh vm i (page_at base i) m before)) ∙ before)
      | no ne ↦ m.fresh j (omega arith)
    ];
    there = λ j lt. elim (ℕ_discrete j i) [
      | yes q ↦ rw q now
      | no ne ↦
          others (page_at base j)
            (λ same. new_page sh vm i (page_at base i) m before j (omega arith) (sym same))
          ∙ m.there j (omega arith)
    ];
    rest = λ w out. others w (out i (omega arith)) ∙ m.rest w (λ j lt. out j (omega arith));
  }

  -- Where a page is refused, the range goes back to what it was.
  refuse :
      (r : PageResult) (count i : ℕ) (sh sh' : Shape) (vm vm' : Vm)
      → Mapped sh vm i
      → r ≢ ok
      → IsTree canon sh' root vm'
      → ((w : ℕ) → Q vm' w ≡ Q vm w)
      → (q : Reply) × (roll_back r vm' root base i ≡ done q)
        × RangeReply canon vm₀ root base phys count flags q
  refuse r count i sh sh' vm vm' m ne tree same = roll_back-restores r count sh' vm' i ne (record {
    tree = tree;
    fresh = m.fresh;
    four_kb = λ j m' lt e.
        let e' : some (mapping_to (page_at phys j) flags) ≡ some m' =
          sym (m.there j lt) ∙ sym (same (page_at base j)) ∙ e in
        cc;
    rest = λ w out. same w ∙ m.rest w (λ j lt. out j (omega arith) lt);
  })

  -- The loop at a page, by what `page_map_page` answers there.
  after_page :
      (left i count : ℕ) (sh : Shape) (vm : Vm) (q : Reply)
      → page_map_page vm root (page_at base i) (page_at phys i) flags true ≡ done q
      → Mapped sh vm i
      → MapReply canon (Q vm) root (page_at base i) (page_at phys i) flags true q
      → ((sh' : Shape) (vm' : Vm)
          → Mapped sh' vm' (i + 1)
          → (q' : Reply) × (map_from vm' root base phys flags (i + 1) left ≡ done q')
            × RangeReply canon vm₀ root base phys count flags q')
      → (q' : Reply) × (map_from vm root base phys flags i (suc left) ≡ done q')
        × RangeReply canon vm₀ root base phys count flags q'
  unfolding map_from
  after_page left i count sh vm _ run m (mapped {vm' = vm'} sh' tree before now others) next =
      let (q', run', r) = next sh' vm' (map-Mapped sh sh' vm vm' i m tree before now others) in
      (q', rw (run, map_from) run', r)
  after_page left i count sh vm _ run m (refused {vm' = vm'} sh' tree (misaligned h) same) next =
      let (q', run', r) = refuse err_alignment count i sh sh' vm vm' m (λ e. cc) tree same in
      (q', rw (run, map_from) run', r)
  after_page left i count sh vm _ run m (refused {vm' = vm'} sh' tree (already a b c) same) next =
      let (q', run', r) = refuse err_already_mapped count i sh sh' vm vm' m (λ e. cc) tree same in
      (q', rw (run, map_from) run', r)
  after_page left i count sh vm _ run m (refused {vm' = vm'} sh' tree (covered a b c) same) next =
      let (q', run', r) = refuse err_invalid count i sh sh' vm vm' m (λ e. cc) tree same in
      (q', rw (run, map_from) run', r)
  after_page left i count sh vm _ run m (refused {vm' = vm'} sh' tree (no_table a b) same) next =
      let (q', run', r) = refuse err_not_present count i sh sh' vm vm' m (λ e. cc) tree same in
      (q', rw (run, map_from) run', r)
  after_page left i count sh vm _ run m (refused {vm' = vm'} sh' tree (no_frame a) same) next =
      let (q', run', r) = refuse err_oom count i sh sh' vm vm' m (λ e. cc) tree same in
      (q', rw (run, map_from) run', r)

  map_from-RangeReply :
      (left i count : ℕ) (sh : Shape) (vm : Vm)
      → i + left ≡ count
      → Mapped sh vm i
      → (q : Reply) × (map_from vm root base phys flags i left ≡ done q)
        × RangeReply canon vm₀ root base phys count flags q
  unfolding map_from
  map_from-RangeReply zero i count sh vm e m =
      let same : i ≡ count = omega arith in
      let m' : Mapped sh vm count = rw (← same) m in
      ((ok, vm), refl, all_mapped sh m'.tree m'.fresh m'.there m'.rest)
  map_from-RangeReply (suc left) i count sh vm e m =
      let (q, run, r) =
        page_map_page-MapReply sh root vm (page_at base i) (page_at phys i) flags true m.tree small
          not_giant in
      after_page left i count sh vm q run m r
        (λ sh' vm'. map_from-RangeReply left (i + 1) count sh' vm' (omega arith))

-- `page_map_range` from a page boundary on, in pages of 4 KB, on tables that are a tree below a
-- PML4 whose entries may lead to the same table, without pages of 1 GB, returns, and the tables are
-- such a tree still. It answers OK only where no page of the range was mapped; then the query finds
-- the frame of each page and the flags, and what it found before at every page that is not reached
-- through the same entry of a page table as one of them. Or it fails, and what it had mapped is
-- unmapped again: every page is translated as before.
pub page_map_range-RangeReply :
    {canon : ℕ → ℕ} (sh : Shape) (root : ℕ) (vm : Vm) (base phys count flags : ℕ)
    → IsTree canon sh root vm
    → base % page_size ≡ 0
    → use_2mb flags ≡ false
    → use_1gb flags ≡ false
    → (q : Reply) × (page_map_range vm root base phys count flags ≡ done q)
      × RangeReply canon vm root base phys count flags q
unfolding page_map_range
page_map_range-RangeReply {canon = canon} sh root vm base phys count flags tree aligned small
      not_giant =
    let (q, run, r) =
      map_from-RangeReply {canon = canon} sh vm root base phys flags aligned small not_giant tree
        count 0 count sh vm (omega arith)
        (record {
          tree = tree;
          fresh = λ j lt. absurd (omega arith);
          there = λ j lt. absurd (omega arith);
          rest = λ w out. refl;
        }) in
    (q, ap (λ b. assert b >> map_from vm root base phys flags 0 count) tree.ready ∙ run, r)
