-- ===== src/Paging/Map.antt =====
-- `page_map_page` of kernel/mm/vmm/page.c at a page of 4 KB.
use ccoperating_system_x.Common.{
  ℕ, suc, ◌+◌, ◌*◌, ◌%◌, ◌<◌, ◌≡◌, refl, inl, inr, Bool, true, false, arith, ◌==◌, ◌&&◌, Bool-cases,
  Option, none, some, ap, sym, ◌∙◌, Exec, done,
}
use ccoperating_system_x.Align.{page_size}
use ccoperating_system_x.Paging.{
  Vm, Reply, ok, err_oom, err_invalid, err_not_present, err_already_mapped, err_alignment, Mapping,
  present, pat, table_of, addr_bits, slot, pml4_index, pdpt_index, pd_index, pt_index, write, Next,
  set_entry, go_on, map_pt, map_pd, map_pdpt, map_pml4, map_guards, page_map_page, page_size_of,
  use_2mb, use_1gb, vmap_flags_to_pte,
}
use ccoperating_system_x.Paging.Query.{query_pt, query_pd, query_pdpt, query_pml4, mapping_of}
use ccoperating_system_x.Paging.Tree.{
  Shape, Entry, empty, huge, table, IsTree, page, number_of, run_ready, index-lt, index-lt,
}
use ccoperating_system_x.Paging.Enter.{
  Enters, NextReply, enters, missing, no_memory, next_table-NextReply,
}
use ccoperating_system_x.Paging.Leaf
use ccoperating_system_x.Paging.Leaf.{Route, query-Route}
use ccoperating_system_x.Paging.Reply.{
  leaf_entry, MapReply, mapped, refused, misaligned, already, covered, no_table, no_frame,
}

-- Above the page directories no entry is a page.
pub not_huge :
    {canon : ℕ → ℕ} (sh : Shape) (root : ℕ) (vm : Vm) (t i k : ℕ)
    → IsTree canon sh root vm
    → i < 512
    → sh.level t ≡ suc (suc (suc k))
    → (present (vm.mem (slot t i)) && pat (vm.mem (slot t i))) ≡ false
not_huge sh root vm t i k tree lt lv = go (tree.entries t i (suc k) lt lv)
  where
    go : {m e : ℕ} → Entry sh m (suc k) e → (present e && pat e) ≡ false
    go (empty p z) = ground arith
    go (huge p q z) = absurd (omega arith)
    go (table p q lv pr) = ground arith

-- The entries of the tables above the one that is stepped from stay.
upper_levels :
    {canon : ℕ → ℕ} (sh : Shape) (root : ℕ) (vm : Vm) (t i k c : ℕ) (vm' : Vm) (sh' : Shape)
    (s j : ℕ)
    → Enters canon sh root vm t i k c vm' sh'
    → sh.level t < sh.level s
    → j < 512
    → vm'.mem (slot s j) ≡ vm.mem (slot s j)
upper_levels sh root vm t i k c vm' sh' s j e h hj = elim (e.others s j (omega arith) hj) [
  | inl q ↦ absurd (let lv : sh.level s ≡ sh.level t = ap sh.level q.0 in omega arith)
  | inr q ↦ q
]

module _ (canon : ℕ → ℕ) (Q : ℕ → Option Mapping) (root v p flags : ℕ) (alloc_missing : Bool)
    (aligned : p % page_size ≡ 0) (small : use_2mb flags ≡ false)
    (not_giant : use_1gb flags ≡ false) where
  abbrev Answers : Exec Reply → Type 0
  Answers run = (q : Reply) × (run ≡ done q) × MapReply canon Q root v p flags alloc_missing q

  map_pt-Answers :
      (sh : Shape) (vm : Vm) (pdpt pd pt : ℕ)
      → IsTree canon sh root vm
      → ((w : ℕ) → query_pml4 vm.mem root w ≡ Q w)
      → sh.level pdpt ≡ 3
      → sh.level pd ≡ 2
      → sh.level pt ≡ 1
      → sh.prefix pt * 512 + pt_index v ≡ page canon v
      → Route vm.mem root pdpt pd pt v
      → Answers (map_pt v p flags pt vm)
  unfolding map_pt set_entry query_pt mapping_of
  map_pt-Answers sh vm pdpt pd pt tree agrees h3 h2 h1 number route =
      let a : ℕ = slot pt (pt_index v) in
      let e : ℕ = addr_bits p + vmap_flags_to_pte flags in
      let lt : pt_index v < 512 = (index-lt v).0 in
      let seen : query_pt vm.mem pt v ≡ Q v =
        sym (query-Route vm.mem root pdpt pd pt v route) ∙ agrees v in
      elim (Bool-cases (present (vm.mem a))) [
        | inl there ↦ (
          (err_already_mapped, vm),
          rw there refl,
          refused sh tree (already (mapping_of (vm.mem a) false) (sym seen ∙ rw there refl) refl)
              agrees,
        )
        | inr free ↦ (
          (ok, write vm a e),
          rw free refl,
          mapped sh (Leaf.write-IsTree sh root vm tree pt (pt_index v) e h1 lt)
              (sym seen ∙ rw free refl)
              (query-Route (write vm a e).mem root pdpt pd pt v
                  (Leaf.write-Route sh root vm tree pt (pt_index v) e h1 lt pdpt pd v h3 h2 route)
                ∙ Leaf.written sh root vm tree pt (pt_index v) e h1 lt v refl
                ∙ rw (leaf_entry p flags aligned).0 (ap some (leaf_entry p flags aligned).1))
              (λ w ne.
                Leaf.query_other sh root vm tree pt (pt_index v) e h1 lt w (rw number ne)
                ∙ agrees w),
        )
      ]

  -- Where the step to the next table ends the walk, nothing has changed.
  stop-Answers :
      (sh : Shape) (vm : Vm) (t i k : ℕ) (q : Next) (run : ℕ → Vm → Exec Reply)
      → IsTree canon sh root vm
      → ((w : ℕ) → query_pml4 vm.mem root w ≡ Q w)
      → NextReply canon sh root vm t i k alloc_missing q
      → (present (vm.mem (slot t i)) ≡ false → Q v ≡ none)
      → ((c : ℕ) (vm' : Vm) (sh' : Shape)
          → Enters canon sh root vm t i k c vm' sh'
          → Answers (run c vm'))
      → Answers (go_on run q)
  stop-Answers sh vm t i k _ run tree agrees (enters {c = c} {vm' = vm'} sh' e) nothing there =
      there c vm' sh' e
  stop-Answers sh vm t i k _ run tree agrees (missing p b) nothing there =
      ((err_not_present, vm), refl, refused sh tree (no_table (nothing p) b) agrees)
  stop-Answers sh vm t i k _ run tree agrees (no_memory p full) nothing there =
      ((err_oom, vm), refl, refused sh tree (no_frame (nothing p)) agrees)

  map_pd-Answers :
      (sh : Shape) (vm : Vm) (pdpt pd : ℕ)
      → IsTree canon sh root vm
      → ((w : ℕ) → query_pml4 vm.mem root w ≡ Q w)
      → sh.level pdpt ≡ 3
      → sh.level pd ≡ 2
      → (sh.prefix pd * 512 + pd_index v) * 512 + pt_index v ≡ page canon v
      → (present (vm.mem (slot root (pml4_index v))) ≡ true)
        × (table_of (vm.mem (slot root (pml4_index v))) ≡ pdpt)
      → (present (vm.mem (slot pdpt (pdpt_index v))) ≡ true)
        × (pat (vm.mem (slot pdpt (pdpt_index v))) ≡ false)
        × (table_of (vm.mem (slot pdpt (pdpt_index v))) ≡ pd)
      → Answers (map_pd v p flags alloc_missing pd vm)
  unfolding map_pd query_pd query_pdpt query_pml4 mapping_of number_of
  map_pd-Answers sh vm pdpt pd tree agrees h3 h2 number r4 r3 =
      let a : ℕ = slot pd (pd_index v) in
      let lt : pd_index v < 512 = (index-lt v).1 in
      let seen : query_pd vm.mem pd v ≡ Q v = rw (r4.0, r4.1, r3.0, r3.1, r3.2) at (agrees v) in
      elim (Bool-cases (present (vm.mem a) && pat (vm.mem a))) [
        | inl big ↦ (
          (err_invalid, vm),
          rw (small, big) refl,
          refused sh tree (covered (mapping_of (vm.mem a) true) (sym seen ∙ ground arith) refl)
              agrees,
        )
        | inr e ↦
            let (q, e', reply) =
              next_table-NextReply sh root vm tree pd (pd_index v) 0 h2 lt alloc_missing e in
            let (r, e'', m) =
              stop-Answers sh vm pd (pd_index v) 0 q (map_pt v p flags) tree agrees reply
                (λ none_there. sym seen ∙ ground arith)
                (λ c vm' sh' en.
                  map_pt-Answers sh' vm' pdpt pd c en.tree (λ w. en.query w ∙ agrees w)
                    ((en.old pdpt (omega arith)).0 ∙ h3) ((en.old pd (omega arith)).0 ∙ h2) en.level
                    (rw en.number number)
                    (record {
                      at_pml4 =
                          rw
                            (upper_levels sh root vm pd _ 0 c vm' sh' root (pml4_index v) en
                              (omega (arith, tree.top)) (index-lt v).3)
                            r4;
                      at_pdpt =
                          rw
                            (upper_levels sh root vm pd _ 0 c vm' sh' pdpt (pdpt_index v) en
                              (omega arith) (index-lt v).2)
                            r3;
                      at_pd = en.points;
                    })) in
            (r, rw (small, e, e') e'', m)
      ]

  map_pdpt-Answers :
      (sh : Shape) (vm : Vm) (pdpt : ℕ)
      → IsTree canon sh root vm
      → ((w : ℕ) → query_pml4 vm.mem root w ≡ Q w)
      → sh.level pdpt ≡ 3
      → ((sh.prefix pdpt * 512 + pdpt_index v) * 512 + pd_index v) * 512 + pt_index v ≡ page canon v
      → (present (vm.mem (slot root (pml4_index v))) ≡ true)
        × (table_of (vm.mem (slot root (pml4_index v))) ≡ pdpt)
      → Answers (map_pdpt v p flags alloc_missing pdpt vm)
  unfolding map_pdpt query_pdpt query_pml4 number_of
  map_pdpt-Answers sh vm pdpt tree agrees h3 number r4 =
      let lt : pdpt_index v < 512 = (index-lt v).2 in
      let seen : query_pdpt vm.mem pdpt v ≡ Q v = rw (r4.0, r4.1) at (agrees v) in
      let (q, e', reply) =
        next_table-NextReply sh root vm tree pdpt (pdpt_index v) 1 h3 lt alloc_missing
          (not_huge sh root vm pdpt (pdpt_index v) 0 tree lt h3) in
      let (r, e'', m) =
        stop-Answers sh vm pdpt (pdpt_index v) 1 q (map_pd v p flags alloc_missing) tree agrees
          reply (λ none_there. sym seen ∙ ground arith)
          (λ c vm' sh' en.
            map_pd-Answers sh' vm' pdpt c en.tree (λ w. en.query w ∙ agrees w)
              ((en.old pdpt (omega arith)).0 ∙ h3) en.level (rw en.number number)
              (rw
                (upper_levels sh root vm pdpt _ 1 c vm' sh' root (pml4_index v) en
                  (omega (arith, tree.top)) (index-lt v).3)
                r4)
              en.points) in
      (r, rw (not_giant, e') e'', m)

  map_pml4-Answers :
      (sh : Shape) (vm : Vm)
      → IsTree canon sh root vm
      → ((w : ℕ) → query_pml4 vm.mem root w ≡ Q w)
      → Answers (map_pml4 v p flags alloc_missing root vm)
  unfolding map_pml4 query_pml4 page number_of
  map_pml4-Answers sh vm tree agrees =
      let lt : pml4_index v < 512 = (index-lt v).3 in
      let (q, e', reply) =
        next_table-NextReply sh root vm tree root (pml4_index v) 2 tree.top lt alloc_missing
          (not_huge sh root vm root (pml4_index v) 1 tree lt tree.top) in
      let (r, e'', m) =
        stop-Answers sh vm root (pml4_index v) 2 q (map_pdpt v p flags alloc_missing) tree agrees
          reply (λ none_there. sym (agrees v) ∙ rw none_there refl)
          (λ c vm' sh' en.
            map_pdpt-Answers sh' vm' c en.tree (λ w. en.query w ∙ agrees w) en.level
              (rw en.number refl) (en.points.0, en.points.2)) in
      (r, rw e' e'', m)

pub page_map_page-MapReply :
    {canon : ℕ → ℕ} (sh : Shape) (root : ℕ) (vm : Vm) (v p flags : ℕ) (alloc_missing : Bool)
    → IsTree canon sh root vm
    → use_2mb flags ≡ false
    → use_1gb flags ≡ false
    → (q : Reply) × (page_map_page vm root v p flags alloc_missing ≡ done q)
      × MapReply canon (query_pml4 vm.mem root) root v p flags alloc_missing q
unfolding page_map_page map_guards page_size_of
page_map_page-MapReply {canon = canon} sh root vm v p flags alloc_missing tree small not_giant =
    elim (Bool-cases (v % page_size == 0)) [
      | inr e ↦ (
        (err_alignment, vm),
        run_ready sh root vm _ tree ∙ rw (small, not_giant, e) refl,
        refused sh tree (misaligned (inl (ground arith))) (λ w. refl),
      )
      | inl e ↦ elim (Bool-cases (p % page_size == 0)) [
        | inr e' ↦ (
          (err_alignment, vm),
          run_ready sh root vm _ tree ∙ rw (small, not_giant, e, e') refl,
          refused sh tree (misaligned (inr (ground arith))) (λ w. refl),
        )
        | inl e' ↦
            let (q, e'', m) =
              map_pml4-Answers canon (query_pml4 vm.mem root) root v p flags alloc_missing
                (ground arith) small not_giant sh vm tree (λ w. refl) in
            (q, run_ready sh root vm _ tree ∙ rw (small, not_giant, e, e') e'', m)
      ]
    ]
