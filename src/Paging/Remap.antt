-- ===== src/Paging/Remap.antt =====
-- `page_map_page` of kernel/mm/vmm/page.c at a page that is mapped.
use ccoperating_system_x.Common.{
  ℕ, ◌≡◌, ◌≢◌, refl, ◌∙◌, inl, inr, Bool, true, false, arith, Bool-cases, some, Option-cases, Exec,
  done,
}
use ccoperating_system_x.Paging.{
  Vm, PageResult, ok, err_invalid, err_already_mapped, Mapping, present, table_of, slot, pml4_index,
  pdpt_index, pd_index, pt_index, set_entry, map_pt, map_pd, map_pdpt, map_pml4, map_guards,
  page_map_page, use_2mb, use_1gb,
}
use ccoperating_system_x.Paging.Query.{query_pt, query_pd, query_pdpt, query_pml4}
use ccoperating_system_x.Paging.Tree.{
  number_of, Shape, Entry, empty, huge, table, IsTree, index-lt, run_ready,
}
use ccoperating_system_x.Paging.Enter.{enter_there}

-- An entry that is present is not written again.
taken_entry :
    (vm : Vm) (a e : ℕ)
    → present (vm.mem a) ≡ true
    → set_entry vm a e ≡ done (err_already_mapped, vm)
unfolding set_entry
taken_entry vm a e h = rw h refl

module _ {canon : ℕ → ℕ} (sh : Shape) (root : ℕ) (vm : Vm) (v p flags : ℕ) (alloc_missing : Bool)
    (tree : IsTree canon sh root vm) where
  -- The run refuses, and changes nothing.
  abbrev Refuses : Exec (PageResult × Vm) → Type 0
  Refuses run = (r : PageResult) × (run ≡ done (r, vm)) × (r ≢ ok)

  map_pt-Refuses :
      (pt : ℕ) (m : Mapping) → query_pt vm.mem pt v ≡ some m → Refuses (map_pt v p flags pt vm)
  unfolding map_pt query_pt
  map_pt-Refuses pt m h =
      (err_already_mapped, taken_entry vm (slot pt (pt_index v)) _ (ground arith), λ e. cc)

  map_pd-Refuses :
      (pd : ℕ) (m : Mapping)
      → sh.level pd ≡ 2
      → query_pd vm.mem pd v ≡ some m
      → Refuses (map_pd v p flags alloc_missing pd vm)
  unfolding map_pd query_pd
  map_pd-Refuses pd m h2 found = elim (Bool-cases (use_2mb flags)) [
    | inl big ↦ (
      err_already_mapped,
      rw big (taken_entry vm (slot pd (pd_index v)) _ (ground arith)),
      λ e. cc,
    )
    | inr small ↦ go small (tree.entries pd (pd_index v) 0 (index-lt v).1 h2)
  ]
    where
      go :
          use_2mb flags ≡ false
          → Entry sh
              (number_of canon 0 (sh.prefix pd) (pd_index v))
              0
              (vm.mem (slot pd (pd_index v)))
          → Refuses (map_pd v p flags alloc_missing pd vm)
      go small (empty q z) = absurd (ground arith)
      go small (huge q b z) = (err_invalid, rw (small, q, b) refl, λ e. cc)
      go small (table q b lv pr) =
          let (r, run, ne) =
            map_pt-Refuses (table_of (vm.mem (slot pd (pd_index v)))) m (ground arith) in
          (
            r,
            rw
                (
                  small,
                  q,
                  b,
                  enter_there sh root vm tree pd (pd_index v) 0 h2 (index-lt v).1 alloc_missing lv,
                )
                run,
            ne,
          )

  map_pdpt-Refuses :
      (pdpt : ℕ) (m : Mapping)
      → sh.level pdpt ≡ 3
      → query_pdpt vm.mem pdpt v ≡ some m
      → Refuses (map_pdpt v p flags alloc_missing pdpt vm)
  unfolding map_pdpt query_pdpt
  map_pdpt-Refuses pdpt m h3 found = elim (Bool-cases (use_1gb flags)) [
    | inl big ↦ (
      err_already_mapped,
      rw big (taken_entry vm (slot pdpt (pdpt_index v)) _ (ground arith)),
      λ e. cc,
    )
    | inr small ↦ go small (tree.entries pdpt (pdpt_index v) 1 (index-lt v).2 h3)
  ]
    where
      go :
          use_1gb flags ≡ false
          → Entry sh
              (number_of canon 1 (sh.prefix pdpt) (pdpt_index v))
              1
              (vm.mem (slot pdpt (pdpt_index v)))
          → Refuses (map_pdpt v p flags alloc_missing pdpt vm)
      go small (empty q z) = absurd (ground arith)
      go small (huge q b z) = absurd (omega arith)
      go small (table q b lv pr) =
          let (r, run, ne) =
            map_pd-Refuses (table_of (vm.mem (slot pdpt (pdpt_index v)))) m lv (ground arith) in
          (
            r,
            rw
                (
                  small,
                  enter_there sh root vm tree pdpt (pdpt_index v) 1 h3 (index-lt v).2 alloc_missing
                      lv,
                )
                run,
            ne,
          )

  map_pml4-Refuses :
      (m : Mapping)
      → query_pml4 vm.mem root v ≡ some m
      → Refuses (map_pml4 v p flags alloc_missing root vm)
  unfolding map_pml4 query_pml4
  map_pml4-Refuses m found = go (tree.entries root (pml4_index v) 2 (index-lt v).3 tree.top)
    where
      go :
          Entry sh
            (number_of canon 2 (sh.prefix root) (pml4_index v))
            2
            (vm.mem (slot root (pml4_index v)))
          → Refuses (map_pml4 v p flags alloc_missing root vm)
      go (empty q z) = absurd (ground arith)
      go (huge q b z) = absurd (omega arith)
      go (table q b lv pr) =
          let (r, run, ne) =
            map_pdpt-Refuses (table_of (vm.mem (slot root (pml4_index v)))) m lv (ground arith) in
          (
            r,
            rw
                (enter_there sh root vm tree root (pml4_index v) 2 tree.top (index-lt v).3
                  alloc_missing lv)
                run,
            ne,
          )

  guards-ne-ok : map_guards v p flags ≢ some ok
  unfolding map_guards
  guards-ne-ok h = ground arith

  -- `page_map_page` at an address that is mapped refuses, with any flags, and changes nothing.
  pub page_map_page-Refuses :
      (m : Mapping)
      → query_pml4 vm.mem root v ≡ some m
      → Refuses (page_map_page vm root v p flags alloc_missing)
  unfolding page_map_page
  page_map_page-Refuses m found = elim (Option-cases (map_guards v p flags)) [
    | inl e ↦
        let (r, run, ne) = map_pml4-Refuses m found in
        (r, run_ready sh root vm _ tree ∙ rw e run, ne)
    | inr (r, e) ↦ (r, run_ready sh root vm _ tree ∙ rw e refl, λ q. guards-ne-ok (rw q at e))
  ]
