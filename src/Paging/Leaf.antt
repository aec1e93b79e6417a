-- ===== src/Paging/Leaf.antt =====
-- Writing an entry of a page table, as `page_map_page` and `page_unmap_page` of
-- kernel/mm/vmm/page.c do at the end of their walks: one page is translated otherwise.
use ccoperating_system_x.Common.{
  ℕ, ◌+◌, ◌*◌, ◌<◌, ◌≡◌, ◌≢◌, refl, ◌⊎◌, inl, inr, true, false, arith, ◌==◌, if◌then◌else◌,
  Bool-cases, none, some, ==_iff,
}
use ccoperating_system_x.Paging.{
  Vm, present, pat, table_of, slot, pml4_index, pdpt_index, pd_index, pt_index, write,
}
use ccoperating_system_x.Paging.Query.{query_pt, query_pd, query_pdpt, query_pml4, mapping_of}
use ccoperating_system_x.Paging.Tree.{
  Shape, Entry, empty, huge, table, IsTree, slot-eq, page, number_of, via, via_same,
}

-- The walk of `v` from `root` to the page table `pt`.
pub record Route (mem : ℕ → ℕ) (root pdpt pd pt v : ℕ) : Type 0 where
  pub at_pml4 :
      (present (mem (slot root (pml4_index v))) ≡ true)
      × (table_of (mem (slot root (pml4_index v))) ≡ pdpt)
  pub at_pdpt :
      (present (mem (slot pdpt (pdpt_index v))) ≡ true)
      × (pat (mem (slot pdpt (pdpt_index v))) ≡ false)
      × (table_of (mem (slot pdpt (pdpt_index v))) ≡ pd)
  pub at_pd :
      (present (mem (slot pd (pd_index v))) ≡ true)
      × (pat (mem (slot pd (pd_index v))) ≡ false)
      × (table_of (mem (slot pd (pd_index v))) ≡ pt)

-- Along a route the query is that of the page table.
pub query-Route :
    (mem : ℕ → ℕ) (root pdpt pd pt v : ℕ)
    → Route mem root pdpt pd pt v
    → query_pml4 mem root v ≡ query_pt mem pt v
unfolding query_pml4 query_pdpt query_pd
query-Route mem root pdpt pd pt v r =
    rw
      (
        r.at_pml4.0, r.at_pml4.1, r.at_pdpt.0, r.at_pdpt.1, r.at_pdpt.2, r.at_pd.0, r.at_pd.1,
        r.at_pd.2,
      )
      refl

module _ {canon : ℕ → ℕ} (sh : Shape) (root : ℕ) (vm : Vm) (tree : IsTree canon sh root vm)
    (t i e : ℕ) (last : sh.level t ≡ 1) (in_table : i < 512) where
  abbrev mem' : ℕ → ℕ
  mem' = (write vm (slot t i) e).mem

  keeps :
      (s j : ℕ)
      → 0 < sh.level s
      → j < 512
      → (s ≡ t) × (j ≡ i) ⊎ (mem' (slot s j) ≡ vm.mem (slot s j))
  unfolding write
  keeps s j h hj = elim (Bool-cases (slot s j == slot t i)) [
    | inl q ↦ inl (
        slot-eq s t j i (tree.aligned s h) (tree.aligned t (omega arith)) hj in_table
          ((==_iff _ _).0 q))
    | inr ne ↦ inr (rw ne refl)
  ]

  upper : (s j : ℕ) → 1 < sh.level s → j < 512 → mem' (slot s j) ≡ vm.mem (slot s j)
  upper s j h hj = elim (keeps s j (omega arith) hj) [
    | inl q ↦ absurd (let lv : 1 < sh.level t = rw q.0 at h in omega arith)
    | inr q ↦ q
  ]

  pub write-IsTree : IsTree canon sh root (write vm (slot t i) e)
  unfolding write
  write-IsTree = record {
    top = tree.top;
    shared = λ a b ha hb same.
        rw (upper root a (omega (arith, tree.top)) ha, upper root b (omega (arith, tree.top)) hb)
          (tree.shared a b ha hb same);
    null = tree.null;
    aligned = tree.aligned;
    taken = tree.taken;
    null_taken = tree.null_taken;
    frames = tree.frames;
    entries = λ s j k hj lv. rw (upper s j (omega arith) hj) (tree.entries s j k hj lv);
    ready = tree.ready;
    mapped = tree.mapped;
  }

  pub write-Route :
      (pdpt pd v : ℕ)
      → sh.level pdpt ≡ 3
      → sh.level pd ≡ 2
      → Route vm.mem root pdpt pd t v
      → Route mem' root pdpt pd t v
  unfolding pml4_index pdpt_index pd_index
  write-Route pdpt pd v h3 h2 r = record {
    at_pml4 = rw (upper root (pml4_index v) (omega (arith, tree.top)) (omega arith)) r.at_pml4;
    at_pdpt = rw (upper pdpt (pdpt_index v) (omega arith) (omega arith)) r.at_pdpt;
    at_pd = rw (upper pd (pd_index v) (omega arith) (omega arith)) r.at_pd;
  }

  -- The entry that is written, as the query of an address reads it there.
  pub written :
      (v : ℕ)
      → pt_index v ≡ i
      → query_pt mem' t v ≡ (if present e then some (mapping_of e false) else none)
  unfolding query_pt write
  written v q = rw q (ground arith)

  -- At every other page the query finds what it found.
  pt_other :
      (s v : ℕ)
      → sh.level s ≡ 1
      → sh.prefix s * 512 + pt_index v ≢ sh.prefix t * 512 + i
      → query_pt mem' s v ≡ query_pt vm.mem s v
  unfolding query_pt pt_index
  pt_other s v lv ne = elim (keeps s (pt_index v) (omega arith) (omega arith)) [
    | inl q ↦ absurd (ne (rw (q.0, q.1) refl))
    | inr q ↦ rw q refl
  ]

  pd_other :
      (s v : ℕ)
      → sh.level s ≡ 2
      → (sh.prefix s * 512 + pd_index v) * 512 + pt_index v ≢ sh.prefix t * 512 + i
      → query_pd mem' s v ≡ query_pd vm.mem s v
  unfolding query_pd pd_index via number_of
  pd_other s v lv ne = rw (upper s (pd_index v) (omega arith) (omega arith)) (
      via_same sh _ 0 _ (λ c. query_pt vm.mem c v) (λ c. query_pt mem' c v)
        (tree.entries s (pd_index v) 0 (omega arith) lv) (λ c l q. pt_other c v l (rw q ne)))

  pdpt_other :
      (s v : ℕ)
      → sh.level s ≡ 3
      → ((sh.prefix s * 512 + pdpt_index v) * 512 + pd_index v) * 512 + pt_index v
        ≢ sh.prefix t * 512 + i
      → query_pdpt mem' s v ≡ query_pdpt vm.mem s v
  unfolding query_pdpt pdpt_index via number_of
  pdpt_other s v lv ne = rw (upper s (pdpt_index v) (omega arith) (omega arith)) (
      via_same sh _ 1 _ (λ c. query_pd vm.mem c v) (λ c. query_pd mem' c v)
        (tree.entries s (pdpt_index v) 1 (omega arith) lv) (λ c l q. pd_other c v l (rw q ne)))

  pub query_other :
      (v : ℕ)
      → page canon v ≢ sh.prefix t * 512 + i
      → query_pml4 mem' root v ≡ query_pml4 vm.mem root v
  unfolding query_pml4 pml4_index page number_of
  query_other v ne =
      rw (upper root (pml4_index v) (omega (arith, tree.top)) (omega arith))
        (below (tree.entries root (pml4_index v) 2 (omega arith) tree.top))
    where
      below :
          {e : ℕ}
          → Entry sh (canon (pml4_index v)) 2 e
          → (if present e then query_pdpt mem' (table_of e) v else none)
            ≡ (if present e then query_pdpt vm.mem (table_of e) v else none)
      below (empty p z) = ground arith
      below (huge p q lt) = absurd (omega arith)
      below {e = e} (table p q lv pr) = ground (arith, pdpt_other (table_of e) v lv (rw pr ne))
