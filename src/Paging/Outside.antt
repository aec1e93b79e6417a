-- ===== src/Paging/Outside.antt =====
-- Writes to the memory that leave the tables of kernel/mm/vmm/page.c alone.
use ccoperating_system_x.Common.{
  ℕ, ◌/◌, ◌&&◌, leb, ltb, Bool-cases, inl, inr, ◌+◌, ◌*◌, ◌<◌, ◌≡◌, refl, true, false, arith,
  if◌then◌else◌, none,
}
use ccoperating_system_x.Align.{page_size}
use ccoperating_system_x.Pframe.{Pframe}
use ccoperating_system_x.Pframe.Spec
use ccoperating_system_x.Pframe.Spec.{allocated}
use ccoperating_system_x.Paging.{
  Vm, present, table_of, slot, pml4_index, pdpt_index, pd_index, pt_index,
}
use ccoperating_system_x.Paging.Query.{query_pt, query_pd, query_pdpt, query_pml4}
use ccoperating_system_x.Paging.Tree.{
  Shape, Entry, empty, huge, table, IsTree, via, via_same, index-lt,
}

module _ {canon : ℕ → ℕ} (sh : Shape) (root : ℕ) (vm : Vm) (tree : IsTree canon sh root vm)
    (mem' : ℕ → ℕ)
    (keeps : (s j : ℕ) → 0 < sh.level s → j < 512 → mem' (slot s j) ≡ vm.mem (slot s j)) where
  same_pt : (s v : ℕ) → sh.level s ≡ 1 → query_pt mem' s v ≡ query_pt vm.mem s v
  unfolding query_pt
  same_pt s v lv = rw (keeps s (pt_index v) (omega arith) (index-lt v).0) refl

  same_pd : (s v : ℕ) → sh.level s ≡ 2 → query_pd mem' s v ≡ query_pd vm.mem s v
  unfolding query_pd via
  same_pd s v lv = rw (keeps s (pd_index v) (omega arith) (index-lt v).1) (
      via_same sh _ 0 _ (λ c. query_pt vm.mem c v) (λ c. query_pt mem' c v)
        (tree.entries s (pd_index v) 0 (index-lt v).1 lv) (λ c l q. same_pt c v l))

  pub same_pdpt : (s v : ℕ) → sh.level s ≡ 3 → query_pdpt mem' s v ≡ query_pdpt vm.mem s v
  unfolding query_pdpt via
  same_pdpt s v lv = rw (keeps s (pdpt_index v) (omega arith) (index-lt v).2) (
      via_same sh _ 1 _ (λ c. query_pd vm.mem c v) (λ c. query_pd mem' c v)
        (tree.entries s (pdpt_index v) 1 (index-lt v).2 lv) (λ c l q. same_pd c v l))

  pub outside-query : (v : ℕ) → query_pml4 mem' root v ≡ query_pml4 vm.mem root v
  unfolding query_pml4
  outside-query v =
      rw (keeps root (pml4_index v) (omega (arith, tree.top)) (index-lt v).3)
        (below (tree.entries root (pml4_index v) 2 (index-lt v).3 tree.top))
    where
      below :
          {m e : ℕ}
          → Entry sh m 2 e
          → (if present e then query_pdpt mem' (table_of e) v else none)
            ≡ (if present e then query_pdpt vm.mem (table_of e) v else none)
      below (empty p z) = ground arith
      below (huge p q lt) = absurd (omega arith)
      below {e = e} (table p q lv pr) = ground (arith, same_pdpt (table_of e) v lv)

  pub outside-IsTree :
      (frames' : Pframe)
      → Spec.IsValid frames'
      → ((f : ℕ) → allocated vm.frames f ≡ true → allocated frames' f ≡ true)
      → IsTree canon sh root (record vm { mem = mem'; frames = frames' })
  outside-IsTree frames' valid more = record {
    top = tree.top;
    shared = λ a b ha hb same.
        rw (keeps root a (omega (arith, tree.top)) ha, keeps root b (omega (arith, tree.top)) hb)
          (tree.shared a b ha hb same);
    null = tree.null;
    aligned = tree.aligned;
    taken = λ t h. more _ (tree.taken t h);
    null_taken = more 0 tree.null_taken;
    frames = valid;
    entries = λ s j k hj lv. rw (keeps s j (omega arith) hj) (tree.entries s j k hj lv);
    ready = tree.ready;
    mapped = tree.mapped;
  }

-- A frame that is free holds no table.
pub free_page :
    {canon : ℕ → ℕ} (sh : Shape) (root : ℕ) (vm : Vm) (f s j : ℕ)
    → IsTree canon sh root vm
    → allocated vm.frames f ≡ false
    → 0 < sh.level s
    → j < 512
    → (leb (f * page_size) (slot s j) && ltb (slot s j) (f * page_size + page_size)) ≡ false
free_page sh root vm f s j tree free h hj =
    elim (Bool-cases
      (leb (f * page_size) (slot s j) && ltb (slot s j) (f * page_size + page_size))) [
        | inr e ↦ e
        | inl e ↦
            let same : s / page_size ≡ f = ground (arith, tree.aligned s h) in
            let taken : allocated vm.frames f ≡ true = rw same at (tree.taken s h) in cc
      ]
