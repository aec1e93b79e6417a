-- ===== src/Paging/Grow.antt =====
-- A new table under an empty entry, as `page_map_page` of kernel/mm/vmm/page.c makes it: the tree
-- grows, and no address is translated otherwise.
use ccoperating_system_x.Common.{
  ◌∙◌, sym, ℕ, suc, ◌+◌, ◌/◌, ◌%◌, ◌^◌, ◌<◌, ◌≡◌, ◌≢◌, refl, ◌⊎◌, inl, inr, true, false, arith,
  ◌==◌, ltb, leb, ◌&&◌, if◌then◌else◌, Bool-cases, none, ap, ==_iff,
}
use ccoperating_system_x.Align.{page_size}
use ccoperating_system_x.Pframe.{Pframe}
use ccoperating_system_x.Pframe.Spec.{Marks}
use ccoperating_system_x.Paging.{
  Vm, present, pat, table_of, addr_bits, slot, pml4_index, pdpt_index, pd_index, pt_index,
}
use ccoperating_system_x.Paging.Query.{query_pt, query_pd, query_pdpt, query_pml4}
use ccoperating_system_x.Paging.Tree.{
  number_of, Shared, Shape, Entry, empty, huge, table, IsTree, slot-eq, via, via_same,
}

-- The page `n` is cleared, and the word at `a` points to it.
unfoldable pub grown : (ℕ → ℕ) → ℕ → ℕ → ℕ → ℕ
grown mem n a b =
    if b == a then addr_bits n + 7 else if leb n b && ltb b (n + page_size) then 0 else mem b

abbrev pub grown_shape : Shape → ℕ → ℕ → ℕ → Shape
grown_shape sh n k number = record {
  level = λ s. if s == n then suc k else sh.level s;
  prefix = λ s. if s == n then number else sh.prefix s;
}

pub zero_entry : (present 0 ≡ false) × (table_of 0 ≡ 0)
unfolding present table_of
zero_entry = (refl, refl)

pub new_entry :
    (n : ℕ)
    → n % page_size ≡ 0
    → n < 2 ^ 52
    → (present (addr_bits n + 7) ≡ true)
      × (pat (addr_bits n + 7) ≡ false)
      × (table_of (addr_bits n + 7) ≡ n)
unfolding present pat table_of addr_bits
new_entry n h lt = (ground arith, ground arith, omega arith)

module _ {canon : ℕ → ℕ} (sh : Shape) (root : ℕ) (vm : Vm) (tree : IsTree canon sh root vm)
    (t i k n : ℕ) (deep : sh.level t ≡ suc (suc k)) (in_table : i < 512)
    (not_present : present (vm.mem (slot t i)) ≡ false) (fresh : sh.level n ≡ 0)
    (on_page : n % page_size ≡ 0) (small : n < 2 ^ 52) where
  abbrev pub mem' : ℕ → ℕ
  mem' = grown vm.mem n (slot t i)

  abbrev pub sh' : Shape
  sh' = grown_shape sh n k (number_of canon k (sh.prefix t) i)

  pub old_ne : (s : ℕ) → 0 < sh.level s → s ≢ n
  old_ne s h e = absurd (let e' : sh.level s ≡ sh.level n = ap sh.level e in omega arith)

  -- The entries of the tables are what they were, but for the one.
  pub keeps :
      (s j : ℕ)
      → 0 < sh.level s
      → j < 512
      → (s ≡ t) × (j ≡ i) ⊎ (mem' (slot s j) ≡ vm.mem (slot s j))
  unfolding grown
  keeps s j h hj = elim (Bool-cases (slot s j == slot t i)) [
    | inl e ↦ inl (
        slot-eq s t j i (tree.aligned s h) (tree.aligned t (omega arith)) hj in_table
          ((==_iff _ _).0 e))
    | inr ne ↦ inr (ground (arith, old_ne s h, tree.aligned s h))
  ]

  cleared : (j : ℕ) → j < 512 → mem' (slot n j) ≡ 0
  unfolding grown
  cleared j hj = ground (
    arith,
    old_ne t (omega arith),
    slot-eq n t j i on_page (tree.aligned t (omega arith)) hj in_table,
  )

  pub points :
      (present (mem' (slot t i)) ≡ true)
      × (pat (mem' (slot t i)) ≡ false)
      × (table_of (mem' (slot t i)) ≡ n)
  unfolding grown
  points = ground (arith, new_entry n on_page small)

  Entry-grown : (m l e : ℕ) → Entry sh m l e → Entry sh' m l e
  Entry-grown m l e (empty p z) = empty p z
  Entry-grown m l e (huge p q h) = huge p q h
  Entry-grown m l e (table p q lv pr) =
      let ne = old_ne (table_of e) (omega arith) in table p q (ground arith) (ground arith)

  -- The entry that is written is that of the new table.
  written_entry :
      (l : ℕ)
      → sh.level t ≡ suc (suc l)
      → Entry sh' (number_of canon l (sh.prefix t) i) l (mem' (slot t i))
  written_entry l lv =
      let same : k ≡ l = omega arith in
      table points.0 points.1 (ground (arith, points)) (ground (arith, points))

  old_entry :
      (s j l : ℕ)
      → j < 512
      → sh.level s ≡ suc (suc l)
      → Entry sh' (number_of canon l (sh.prefix s) j) l (mem' (slot s j))
  old_entry s j l hj lv = elim (keeps s j (omega arith) hj) [
    | inl e ↦ rw (e.0, e.1) (written_entry l (rw e.0 at lv))
    | inr e ↦ rw e (Entry-grown _ _ _ (tree.entries s j l hj lv))
  ]

  -- The new table is empty, so that nothing is found through it.
  new_pt : (v : ℕ) → query_pt mem' n v ≡ none
  unfolding query_pt pt_index
  new_pt v = rw (cleared (pt_index v) (omega arith), zero_entry.0) refl

  new_pd : (v : ℕ) → query_pd mem' n v ≡ none
  unfolding query_pd pd_index
  new_pd v = rw (cleared (pd_index v) (omega arith), zero_entry.0) refl

  new_pdpt : (v : ℕ) → query_pdpt mem' n v ≡ none
  unfolding query_pdpt pdpt_index
  new_pdpt v = rw (cleared (pdpt_index v) (omega arith), zero_entry.0) refl

  same_pt : (s v : ℕ) → sh.level s ≡ 1 → query_pt mem' s v ≡ query_pt vm.mem s v
  unfolding query_pt pt_index
  same_pt s v lv = elim (keeps s (pt_index v) (omega arith) (omega arith)) [
    | inl e ↦ absurd (let lv' : sh.level t ≡ 1 = rw e.0 at lv in omega arith)
    | inr e ↦ rw e refl
  ]

  same_pd : (s v : ℕ) → sh.level s ≡ 2 → query_pd mem' s v ≡ query_pd vm.mem s v
  unfolding query_pd pd_index via
  same_pd s v lv = elim (keeps s (pd_index v) (omega arith) (omega arith)) [
    | inl e ↦ rw (e.0, e.1) (ground (arith, points, not_present, new_pt v))
    | inr e ↦ rw e (
        via_same sh _ 0 _ (λ c. query_pt vm.mem c v) (λ c. query_pt mem' c v)
          (tree.entries s (pd_index v) 0 (omega arith) lv) (λ c lv pr. same_pt c v lv))
  ]

  same_pdpt : (s v : ℕ) → sh.level s ≡ 3 → query_pdpt mem' s v ≡ query_pdpt vm.mem s v
  unfolding query_pdpt pdpt_index via
  same_pdpt s v lv = elim (keeps s (pdpt_index v) (omega arith) (omega arith)) [
    | inl e ↦ rw (e.0, e.1) (ground (arith, points, not_present, new_pd v))
    | inr e ↦ rw e (
        via_same sh _ 1 _ (λ c. query_pd vm.mem c v) (λ c. query_pd mem' c v)
          (tree.entries s (pdpt_index v) 1 (omega arith) lv) (λ c lv pr. same_pd c v lv))
  ]

  -- No address is translated otherwise than before.
  pub same_query : (v : ℕ) → query_pml4 mem' root v ≡ query_pml4 vm.mem root v
  unfolding query_pml4 pml4_index
  same_query v = elim (keeps root (pml4_index v) (omega (arith, tree.top)) (omega arith)) [
    | inl e ↦ rw (e.0, e.1) (ground (arith, points, not_present, new_pdpt v))
    | inr e ↦ rw e (below (tree.entries root (pml4_index v) 2 (omega arith) tree.top))
  ]
    where
      below :
          {m e : ℕ}
          → Entry sh m 2 e
          → (if present e then query_pdpt mem' (table_of e) v else none)
            ≡ (if present e then query_pdpt vm.mem (table_of e) v else none)
      below (empty p z) = ground arith
      below (huge p q lt) = absurd (omega arith)
      below {e = e} (table p q lv pr) = ground (arith, same_pdpt (table_of e) v lv)

  -- An entry that is present is not the one that is written.
  keeps_present :
      (s j : ℕ)
      → 0 < sh.level s
      → j < 512
      → present (vm.mem (slot s j)) ≡ true
      → mem' (slot s j) ≡ vm.mem (slot s j)
  keeps_present s j h hj there = elim (keeps s j h hj) [
    | inl e ↦ absurd (
        let there' : present (vm.mem (slot t i)) ≡ true = rw (e.0, e.1) at there in
        let clash : true ≡ false = sym there' ∙ not_present in cc)
    | inr e ↦ e
  ]

  grown-Shared : Shared canon root mem'
  grown-Shared a b ha hb same = elim (tree.shared a b ha hb same) [
    | inl e ↦ inl e
    | inr (p, q, r) ↦
        let top : 0 < sh.level root = omega (arith, tree.top) in
        inr (rw (keeps_present root a top ha p, keeps_present root b top hb q) (p, q, r))
  ]

  -- The tree with the new table, in the frame that was handed out for it.
  pub grown-IsTree :
      (frames' : Pframe)
      → Marks true (λ j. n / page_size == j) vm.frames frames'
      → n ≢ 0
      → IsTree canon sh' root (record vm { mem = mem'; frames = frames' })
  grown-IsTree frames' marks ne = record {
    top = ground (arith, tree.top, old_ne root (omega (arith, tree.top)));
    shared = grown-Shared;
    null = ground (arith, tree.null);
    aligned = λ s h. elim (Bool-cases (s == n)) [
      | inl e ↦ rw ((==_iff _ _).0 e) on_page
      | inr e ↦ tree.aligned s (ground arith)
    ];
    taken = λ s h. elim (Bool-cases (s == n)) [
      | inl e ↦ rw ((==_iff _ _).0 e) (ground (arith, marks.frames (n / page_size)))
      | inr e ↦ ground (arith, marks.frames (s / page_size), tree.taken s (ground arith))
    ];
    null_taken = ground (arith, marks.frames 0, tree.null_taken);
    frames = marks.valid;
    entries = grown_entries;
    ready = tree.ready;
    mapped = tree.mapped;
  }
    where
      grown_entries :
          (s j l : ℕ)
          → j < 512
          → sh'.level s ≡ suc (suc l)
          → Entry sh' (number_of canon l (sh'.prefix s) j) l (mem' (slot s j))
      grown_entries s j l hj lv = elim (Bool-cases (s == n)) [
        | inl e ↦ rw ((==_iff _ _).0 e, cleared j hj) (empty zero_entry.0 zero_entry.1)
        | inr e ↦ rw e (old_entry s j l hj (rw e at lv))
      ]
