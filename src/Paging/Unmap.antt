-- ===== src/Paging/Unmap.antt =====
-- `page_unmap_page` of kernel/mm/vmm/page.c at a page of 4 KB.
use ccoperating_system_x.Common.{
  ℕ, ◌+◌, ◌*◌, ◌%◌, ◌<◌, ◌≡◌, refl, inl, inr, true, false, arith, ◌==◌, if◌then◌else◌, Bool-cases,
  none, some, ◌∙◌, done,
}
use ccoperating_system_x.Align.{page_size}
use ccoperating_system_x.Paging.{
  Vm, Reply, err_alignment, Mapping, present, pat, table_of, slot, pml4_index, pdpt_index, pd_index,
  pt_index, write,
}
use ccoperating_system_x.Paging.Query.{
  query_pt, query_pd, query_pdpt, query_pml4, mapping_of, unmap_pt, unmap_pd, unmap_pdpt,
  unmap_pml4, page_unmap_page,
}
use ccoperating_system_x.Paging.Tree.{
  Shape, Entry, empty, huge, table, IsTree, page, number_of, run_ready, index-lt,
}
use ccoperating_system_x.Paging.Leaf
use ccoperating_system_x.Paging.Leaf.{Route, query-Route}
use ccoperating_system_x.Paging.Reply.{UnmapReply, unmapped, not_mapped, not_aligned}

-- A word that is not present stands for no page.
pub zero_leaf : (if present 0 then some (mapping_of 0 false) else none) ≡ none
unfolding present mapping_of
zero_leaf = refl

module _ {canon : ℕ → ℕ} (sh : Shape) (root : ℕ) (vm : Vm) (v : ℕ) (tree : IsTree canon sh root vm)
    (not_big : (m : Mapping) → query_pml4 vm.mem root v ≡ some m → m.is_huge ≡ false) where
  unmap_pt-UnmapReply :
      (pdpt pd pt : ℕ)
      → sh.level pdpt ≡ 3
      → sh.level pd ≡ 2
      → sh.level pt ≡ 1
      → sh.prefix pt * 512 + pt_index v ≡ page canon v
      → Route vm.mem root pdpt pd pt v
      → UnmapReply canon sh root vm v (unmap_pt vm pt v)
  unfolding unmap_pt query_pt
  unmap_pt-UnmapReply pdpt pd pt h3 h2 h1 number route =
      let a : ℕ = slot pt (pt_index v) in
      let lt : pt_index v < 512 = (index-lt v).0 in
      let seen : query_pml4 vm.mem root v ≡ query_pt vm.mem pt v =
        query-Route vm.mem root pdpt pd pt v route in
      elim (Bool-cases (present (vm.mem a))) [
        | inl there ↦ rw there (
            unmapped (mapping_of (vm.mem a) false)
              (Leaf.write-IsTree sh root vm tree pt (pt_index v) 0 h1 lt) (seen ∙ rw there refl)
              (query-Route (write vm a 0).mem root pdpt pd pt v
                  (Leaf.write-Route sh root vm tree pt (pt_index v) 0 h1 lt pdpt pd v h3 h2 route)
                ∙ Leaf.written sh root vm tree pt (pt_index v) 0 h1 lt v refl
                ∙ zero_leaf)
              (λ w ne. Leaf.query_other sh root vm tree pt (pt_index v) 0 h1 lt w (rw number ne)))
        | inr free ↦ rw free (not_mapped (seen ∙ rw free refl))
      ]

  unmap_pd-UnmapReply :
      (pdpt pd : ℕ)
      → sh.level pdpt ≡ 3
      → sh.level pd ≡ 2
      → (sh.prefix pd * 512 + pd_index v) * 512 + pt_index v ≡ page canon v
      → (present (vm.mem (slot root (pml4_index v))) ≡ true)
        × (table_of (vm.mem (slot root (pml4_index v))) ≡ pdpt)
      → (present (vm.mem (slot pdpt (pdpt_index v))) ≡ true)
        × (pat (vm.mem (slot pdpt (pdpt_index v))) ≡ false)
        × (table_of (vm.mem (slot pdpt (pdpt_index v))) ≡ pd)
      → UnmapReply canon sh root vm v (unmap_pd vm pd v)
  unfolding unmap_pd query_pd query_pdpt query_pml4 mapping_of number_of
  unmap_pd-UnmapReply pdpt pd h3 h2 number r4 r3 =
      go (tree.entries pd (pd_index v) 0 (index-lt v).1 h2)
    where
      seen : query_pml4 vm.mem root v ≡ query_pd vm.mem pd v
      seen = rw (r4.0, r4.1, r3.0, r3.1, r3.2) refl

      go :
          Entry sh (number_of canon 0 (sh.prefix pd) (pd_index v)) 0 (vm.mem (slot pd (pd_index v)))
          → UnmapReply canon sh root vm v (unmap_pd vm pd v)
      go (empty p z) = rw p (not_mapped (seen ∙ rw p refl))
      go (huge p q z) = absurd (
          let b : true ≡ false =
            not_big (mapping_of (vm.mem (slot pd (pd_index v))) true) (seen ∙ rw (p, q) refl) in
          cc)
      go (table p q lv pr) = rw p (
          unmap_pt-UnmapReply pdpt pd (table_of (vm.mem (slot pd (pd_index v)))) h3 h2 lv
            (rw pr number) (record { at_pml4 = r4; at_pdpt = r3; at_pd = (p, q, refl) }))

  unmap_pdpt-UnmapReply :
      (pdpt : ℕ)
      → sh.level pdpt ≡ 3
      → ((sh.prefix pdpt * 512 + pdpt_index v) * 512 + pd_index v) * 512 + pt_index v ≡ page canon v
      → (present (vm.mem (slot root (pml4_index v))) ≡ true)
        × (table_of (vm.mem (slot root (pml4_index v))) ≡ pdpt)
      → UnmapReply canon sh root vm v (unmap_pdpt vm pdpt v)
  unfolding unmap_pdpt query_pdpt query_pml4 number_of
  unmap_pdpt-UnmapReply pdpt h3 number r4 =
      go (tree.entries pdpt (pdpt_index v) 1 (index-lt v).2 h3)
    where
      seen : query_pml4 vm.mem root v ≡ query_pdpt vm.mem pdpt v
      seen = rw (r4.0, r4.1) refl

      go :
          Entry sh
            (number_of canon 1 (sh.prefix pdpt) (pdpt_index v))
            1
            (vm.mem (slot pdpt (pdpt_index v)))
          → UnmapReply canon sh root vm v (unmap_pdpt vm pdpt v)
      go (empty p z) = rw p (not_mapped (seen ∙ rw p refl))
      go (huge p q z) = absurd (omega arith)
      go (table p q lv pr) = rw p (
          unmap_pd-UnmapReply pdpt (table_of (vm.mem (slot pdpt (pdpt_index v)))) h3 lv
            (rw pr number) r4 (p, q, refl))

  unmap_pml4-UnmapReply : UnmapReply canon sh root vm v (unmap_pml4 vm root v)
  unfolding unmap_pml4 query_pml4 page number_of
  unmap_pml4-UnmapReply = go (tree.entries root (pml4_index v) 2 (index-lt v).3 tree.top)
    where
      go :
          Entry sh
            (number_of canon 2 (sh.prefix root) (pml4_index v))
            2
            (vm.mem (slot root (pml4_index v)))
          → UnmapReply canon sh root vm v (unmap_pml4 vm root v)
      go (empty p z) = rw p (not_mapped (rw p refl))
      go (huge p q z) = absurd (omega arith)
      go (table p q lv pr) = rw p (
          unmap_pdpt-UnmapReply (table_of (vm.mem (slot root (pml4_index v)))) lv (rw pr refl)
            (p, refl))

  -- `page_unmap_page`, at an address that is not in a page of 2 MB, on tables that are a tree below
  -- a PML4 whose entries may lead to the same table, without pages of 1 GB, returns, and the tables
  -- are such a tree still. It answers OK for an aligned address that is mapped, and then the query
  -- finds nothing there, and what it found before at every page that is not reached through the
  -- same entry of a page table; where nothing is mapped, or the address is not aligned, it says so
  -- and changes nothing.
  pub page_unmap_page-UnmapReply :
      (q : Reply) × (page_unmap_page vm root v ≡ done q) × UnmapReply canon sh root vm v q
  unfolding page_unmap_page
  page_unmap_page-UnmapReply = elim (Bool-cases (v % page_size == 0)) [
    | inl e ↦ (unmap_pml4 vm root v, run_ready sh root vm _ tree ∙ rw e refl, unmap_pml4-UnmapReply)
    | inr e ↦
        ((err_alignment, vm), run_ready sh root vm _ tree ∙ rw e refl, not_aligned (ground arith))
  ]
