-- ===== src/Paging/Tree.antt =====
-- The invariant of the page tables of kernel/mm/vmm/page.c: below the PML4 they make a tree, so that
-- the walks of two addresses part where their indices do and do not meet again. Entries of the PML4
-- may lead to the same table, as the entries 0, 256 and 511 of the kernel do: `canon` gives such
-- entries the same number.
use ccoperating_system_x.Common.{
  ℕ, zero, suc, ◌⊎◌, inl, inr, refl, ◌+◌, ◌*◌, ◌/◌, ◌%◌, ◌<◌, ◌≡◌, true, false, arith,
}
use ccoperating_system_x.Common.{Exec, assert, ◌>>◌, ap₂, Option, none, some, not, if◌then◌else◌}
use ccoperating_system_x.Paging.Query.{mapping_of, query_pml4, query_pdpt, query_pd, query_pt}
use ccoperating_system_x.Align.{page_size}
use ccoperating_system_x.Pframe.Spec
use ccoperating_system_x.Pframe.Spec.{allocated}
use ccoperating_system_x.Paging.{
  Vm, Mapping, present, pat, table_of, slot, pml4_index, pdpt_index, pd_index, pt_index,
}

-- How deep a table is, 4 for a PML4 and 0 for a page that is no table, and the number that the
-- indices above it make.
pub record Shape : Type 0 where
  pub level : ℕ → ℕ
  pub prefix : ℕ → ℕ

-- What an entry of a table above a page table may be: empty, a page of 2 MB, or the next table.
pub data Entry (sh : Shape) (number k e : ℕ) : Type 0 where
  empty : present e ≡ false → table_of e ≡ 0 → Entry sh number k e
  huge : present e ≡ true → pat e ≡ true → k ≡ 0 → Entry sh number k e
  table :
      present e ≡ true
      → pat e ≡ false
      → sh.level (table_of e) ≡ suc k
      → sh.prefix (table_of e) ≡ number
      → Entry sh number k e

-- The number of the entry `i` of a table that stands `k + 2` levels above the pages, by the number of
-- the table.
unfoldable pub number_of : (ℕ → ℕ) → ℕ → ℕ → ℕ → ℕ
number_of canon zero prefix i = prefix * 512 + i
number_of canon (suc zero) prefix i = prefix * 512 + i
number_of canon (suc (suc k)) prefix i = canon i

-- Entries of the PML4 with one number are one entry, or lead to one table.
abbrev pub Shared : (ℕ → ℕ) → ℕ → (ℕ → ℕ) → Type 0
Shared canon root mem =
    (i j : ℕ)
    → i < 512
    → j < 512
    → canon i ≡ canon j
    → (i ≡ j)
      ⊎ ((present (mem (slot root i)) ≡ true)
          × (present (mem (slot root j)) ≡ true)
          × (table_of (mem (slot root i)) ≡ table_of (mem (slot root j))))

pub record IsTree (canon : ℕ → ℕ) (sh : Shape) (root : ℕ) (vm : Vm) : Type 0 where
  pub top : sh.level root ≡ 4
  pub null : sh.level 0 ≡ 0
  pub aligned : (t : ℕ) → 0 < sh.level t → t % page_size ≡ 0
  pub taken : (t : ℕ) → 0 < sh.level t → allocated vm.frames (t / page_size) ≡ true
  pub null_taken : allocated vm.frames 0 ≡ true
  pub frames : Spec.IsValid vm.frames
  pub entries :
      (t i k : ℕ)
      → i < 512
      → sh.level t ≡ suc (suc k)
      → Entry sh (number_of canon k (sh.prefix t) i) k (vm.mem (slot t i))
  pub shared : Shared canon root vm.mem
  pub ready : vm.initialized ≡ true
  pub mapped : vm.direct_map ≡ true

-- The number of the page of an address: pages with one number are one page, or are reached through
-- entries of the PML4 that lead to the same table.
unfoldable pub page : (ℕ → ℕ) → ℕ → ℕ
page canon v = ((canon (pml4_index v) * 512 + pdpt_index v) * 512 + pd_index v) * 512 + pt_index v

pub index-lt :
    (v : ℕ) → (pt_index v < 512) × (pd_index v < 512) × (pdpt_index v < 512) × (pml4_index v < 512)
unfolding pt_index pd_index pdpt_index pml4_index
index-lt v = omega arith

-- Entries of two tables are the same word only where table and index are.
pub slot-eq :
    (s t j i : ℕ)
    → s % page_size ≡ 0
    → t % page_size ≡ 0
    → j < 512
    → i < 512
    → slot s j ≡ slot t i
    → (s ≡ t) × (j ≡ i)
slot-eq s t j i hs ht hj hi e = omega arith

-- A step of `page_query` at an entry of a table above a page table.
unfoldable pub via : (ℕ → Option Mapping) → ℕ → Option Mapping
via below e =
    if not (present e) then none else if pat e then some (mapping_of e true) else below (table_of e)

-- It finds the same where the next table answers the same.
pub via_same :
    (sh : Shape) (m l e : ℕ) (below below' : ℕ → Option Mapping)
    → Entry sh m l e
    → ((c : ℕ) → sh.level c ≡ suc l → sh.prefix c ≡ m → below' c ≡ below c)
    → via below' e ≡ via below e
unfolding via
via_same sh m l e below below' (empty p z) h = ground arith
via_same sh m l e below below' (huge p q lt) h = ground arith
via_same sh m l e below below' (table p q lv pr) h = ground (arith, h (table_of e) lv pr)

-- The assertions at the head of each call hold.
pub run_ready {ℓ} :
    {A : Type ℓ} {canon : ℕ → ℕ} (sh : Shape) (root : ℕ) (vm : Vm) (run : Exec A)
    → IsTree canon sh root vm
    → (assert vm.initialized >> (assert vm.direct_map >> run)) ≡ run
run_ready sh root vm run tree = ap₂ (λ a b. assert a >> (assert b >> run)) tree.ready tree.mapped

-- Pages with one number are translated alike.
pub same_page :
    {canon : ℕ → ℕ} (sh : Shape) (root : ℕ) (vm : Vm) (v w : ℕ)
    → IsTree canon sh root vm
    → page canon v ≡ page canon w
    → query_pml4 vm.mem root v ≡ query_pml4 vm.mem root w
unfolding page query_pml4 query_pdpt query_pd query_pt
same_page {canon = canon} sh root vm v w tree h =
    let (v1, v2, v3, v4) = index-lt v in
    let (w1, w2, w3, w4) = index-lt w in
    let e4 : canon (pml4_index v) ≡ canon (pml4_index w) = omega arith in
    let e3 : pdpt_index v ≡ pdpt_index w = omega arith in
    let e2 : pd_index v ≡ pd_index w = omega arith in
    let e1 : pt_index v ≡ pt_index w = omega arith in
    elim (tree.shared (pml4_index v) (pml4_index w) v4 w4 e4) [
      | inl e ↦ rw (e, e3, e2, e1) refl
      | inr (p, q, t) ↦ rw (p, q, t, e3, e2, e1) refl
    ]
