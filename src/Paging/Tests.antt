-- ===== src/Paging/Tests.antt =====
-- The page tables of kernel/mm/vmm/page.c as `page_init` leaves them, on a machine with 32 frames: the
-- entries 0, 256 and 511 of the PML4 at 0x9000 lead to the PDPT at 0xA000, and the page directory at
-- 0xB000 maps 512 MB. The page 0x5000 is for reading only and marked for copying.
use ccoperating_system_x.Common.{
  ℕ, suc, ◌+◌, ◌*◌, ◌≡◌, ◌<◌, refl, true, false, [], ◌∷◌, done, arith, some, ◌==◌, if◌then◌else◌,
  inl, inr, ◌⊎◌, ◌%◌, ◌/◌, ◌-◌, ltb, sym, ◌∙◌, ◌≤◌, Bool-cases,
}
use native.Mathlib.Decide.{ℕ_discrete}
use ccoperating_system_x.Align.{page_size}
use ccoperating_system_x.Pframe.{Pframe}
use ccoperating_system_x.Pframe.Spec
use ccoperating_system_x.Pframe.Spec.{allocated}
use ccoperating_system_x.Bitmap.Valid.{is_set}
use ccoperating_system_x.Bitmap.{has_bit}
use ccoperating_system_x.Paging.{
  Vm, Reply, present, pat, table_of, slot, pml4_index, pdpt_index, pd_index, pt_index, Mapping,
}
use ccoperating_system_x.Paging.Query.{
  page_unmap_page, query_pml4, query_pdpt, query_pd, query_pt, mapping_of,
}
use ccoperating_system_x.Paging.Range.{page_map_range}
use ccoperating_system_x.Paging.Tree.{Shape, IsTree, Entry, empty, table, huge, Shared, number_of}
use ccoperating_system_x.Paging.Reply.{UnmapReply}
use ccoperating_system_x.Paging.Unmap.{page_unmap_page-UnmapReply}
use ccoperating_system_x.Paging.Rollback.{RangeReply, page_map_range-RangeReply}

abbrev frames : Pframe
frames = record {
  frame_map = record { bits = 255 ∷ 255 ∷ 0 ∷ 0 ∷ []; nbits = 32 };
  total_frames = 32;
  managed_base = 0;
  managed_end = 0x20000;
  last_alloc_hint = 1;
  initialized = true;
}

frames-IsValid : Spec.IsValid frames
frames-IsValid = record {
  map = record {
    bytes = (omega arith, (omega arith, (omega arith, (omega arith, tt))));
    storage = omega arith;
    small = omega arith;
  };
  clean = λ j h h'. absurd (omega arith);
  size = refl;
  fits = omega arith;
  ready = refl;
}

-- The entries of the PML4 and of the PDPT.
abbrev upper_words : ℕ → ℕ
upper_words b =
    if b == 0x9000
    then 0xA003
    else if b == 0x9800
    then 0xA003
    else if b == 0x9FF8
    then 0xA003
    else if b == 0xA000
    then 0xB003
    else if b == 0xAFF0
    then 0xC003
    else 0

-- The entries of the page directories: two page tables and 254 pages of 2 MB in the first one.
abbrev directory_words : ℕ → ℕ
directory_words b =
    if b == 0xB000
    then 0xD003
    else if b == 0xB008
    then 0xE003
    else if ltb b 0xB800
    then (b - 0xB000) / 8 * 0x200000 + 0x83
    else if b == 0xC000
    then 0xF003
    else 0

-- The entries of the page tables.
abbrev leaf_words : ℕ → ℕ
leaf_words b =
    if b == 0xD028
    then 0x5205
    else if ltb b 0xE000
    then (b - 0xD000) / 8 * 4096 + 3
    else if ltb b 0xF000
    then (b - 0xE000) / 8 * 4096 + 0x200003
    else if ltb b 0x10000
    then (b - 0xF000) / 8 * 4096 + 0x10003
    else 0

abbrev pub words : ℕ → ℕ
words b =
    if ltb b 0xB000 then upper_words b else if ltb b 0xD000 then directory_words b else leaf_words b

abbrev pub machine : Vm
machine = record {
  mem = words;
  frames = frames;
  kernel_pml4 = 0x9000;
  initialized = true;
  direct_map = true;
}

abbrev pub canon : ℕ → ℕ
canon i = if i == 256 then 0 else if i == 511 then 0 else i

abbrev pub shape : Shape
shape = record {
  level = λ s.
      if s == 0x9000
      then 4
      else if s == 0xA000
      then 3
      else if s == 0xB000
      then 2
      else if s == 0xC000
      then 2
      else if s == 0xD000
      then 1
      else if s == 0xE000
      then 1
      else if s == 0xF000
      then 1
      else 0;
  prefix = λ s.
      if s == 0xC000 then 510 else if s == 0xE000 then 1 else if s == 0xF000 then 261120 else 0;
}

table_frames :
    (allocated frames 0 ≡ true)
    × (allocated frames 9 ≡ true)
    × (allocated frames 10 ≡ true)
    × (allocated frames 11 ≡ true)
    × (allocated frames 12 ≡ true)
    × (allocated frames 13 ≡ true)
    × (allocated frames 14 ≡ true)
    × (allocated frames 15 ≡ true)
unfolding is_set has_bit
table_frames = (refl, refl, refl, refl, refl, refl, refl, refl)

frame_taken : (k : ℕ) → 9 ≤ k → k < 16 → allocated frames k ≡ true
frame_taken k h h' = elim (ℕ_discrete k 9) [
  | yes e ↦ rw e table_frames.1
  | no e9 ↦ elim (ℕ_discrete k 10) [
    | yes e ↦ rw e table_frames.2
    | no e10 ↦ elim (ℕ_discrete k 11) [
      | yes e ↦ rw e table_frames.3
      | no e11 ↦ elim (ℕ_discrete k 12) [
        | yes e ↦ rw e table_frames.4
        | no e12 ↦ elim (ℕ_discrete k 13) [
          | yes e ↦ rw e table_frames.5
          | no e13 ↦ elim (ℕ_discrete k 14) [
            | yes e ↦ rw e table_frames.6
            | no e14 ↦ let e : k ≡ 15 = omega arith in rw e table_frames.7
          ]
        ]
      ]
    ]
  ]
]

level-page :
    (t : ℕ) → 0 < shape.level t → (t % page_size ≡ 0) × (9 ≤ t / page_size) × (t / page_size < 16)
level-page t h = ground arith

no_entry : (e number k : ℕ) → e ≡ 0 → Entry shape number k e
unfolding present table_of
no_entry e number k h = rw h (empty refl refl)

huge_entry : (j number : ℕ) → Entry shape number 0 (j * 0x200000 + 0x83)
unfolding present pat
huge_entry j number = huge (ground arith) (ground arith) refl

top_entry : (i : ℕ) → i < 512 → Entry shape (canon i) 2 (words (slot 0x9000 i))
unfolding present table_of pat
top_entry i h = elim (ℕ_discrete i 0) [
  | yes q ↦ rw q (table refl refl refl refl)
  | no n0 ↦ elim (ℕ_discrete i 256) [
    | yes q ↦ rw q (table refl refl refl refl)
    | no n1 ↦ elim (ℕ_discrete i 511) [
      | yes q ↦ rw q (table refl refl refl refl)
      | no n2 ↦ no_entry _ _ 2 (ground arith)
    ]
  ]
]

pdpt_entry : (i : ℕ) → i < 512 → Entry shape (0 + i) 1 (words (slot 0xA000 i))
unfolding present table_of pat
pdpt_entry i h = elim (ℕ_discrete i 0) [
  | yes q ↦ rw q (table refl refl refl refl)
  | no n0 ↦ elim (ℕ_discrete i 510) [
    | yes q ↦ rw q (table refl refl refl refl)
    | no n1 ↦ no_entry _ _ 1 (ground arith)
  ]
]

low_entry : (i : ℕ) → i < 512 → Entry shape (0 + i) 0 (words (slot 0xB000 i))
unfolding present table_of pat
low_entry i h = elim (ℕ_discrete i 0) [
  | yes q ↦ rw q (table refl refl refl refl)
  | no n0 ↦ elim (ℕ_discrete i 1) [
    | yes q ↦ rw q (table refl refl refl refl)
    | no n1 ↦ elim (Bool-cases (ltb i 256)) [
      | inl l ↦
          let e : words (slot 0xB000 i) ≡ i * 0x200000 + 0x83 = ground arith in
          rw e (huge_entry i (0 + i))
      | inr g ↦ no_entry _ _ 0 (ground arith)
    ]
  ]
]

kernel_entry : (i : ℕ) → i < 512 → Entry shape (261120 + i) 0 (words (slot 0xC000 i))
unfolding present table_of pat
kernel_entry i h = elim (ℕ_discrete i 0) [
  | yes q ↦ rw q (table refl refl refl refl)
  | no n0 ↦ no_entry _ _ 0 (ground arith)
]

above :
    (t k : ℕ)
    → shape.level t ≡ suc (suc k)
    → ((t ≡ 0x9000) × (k ≡ 2))
      ⊎ ((t ≡ 0xA000) × (k ≡ 1))
      ⊎ ((t ≡ 0xB000) × (k ≡ 0))
      ⊎ ((t ≡ 0xC000) × (k ≡ 0))
above t k h = ground arith

entries :
    (t i k : ℕ)
    → i < 512
    → shape.level t ≡ suc (suc k)
    → Entry shape (number_of canon k (shape.prefix t) i) k (words (slot t i))
unfolding number_of
entries t i k lt lv = elim (above t k lv) [
  | inl (e, f) ↦ rw (e, f) (top_entry i lt)
  | inr (inl (e, f)) ↦ rw (e, f) (pdpt_entry i lt)
  | inr (inr (inl (e, f))) ↦ rw (e, f) (low_entry i lt)
  | inr (inr (inr (e, f))) ↦ rw (e, f) (kernel_entry i lt)
]

-- The entries 0, 256 and 511 of the PML4.
data Kernel : ℕ → Type 0 where
  identity : Kernel 0
  direct : Kernel 256
  high : Kernel 511

Kernel-or_alone : (i : ℕ) → (Kernel i × (canon i ≡ 0)) ⊎ ((canon i ≡ i) × (0 < i))
Kernel-or_alone i = elim (ℕ_discrete i 0) [
  | yes q ↦ rw q (inl (identity, refl))
  | no n0 ↦ elim (ℕ_discrete i 256) [
    | yes q ↦ rw q (inl (direct, refl))
    | no n1 ↦ elim (ℕ_discrete i 511) [
      | yes q ↦ rw q (inl (high, refl))
      | no n2 ↦ inr (ground arith, omega arith)
    ]
  ]
]

Kernel-word : (i : ℕ) → Kernel i → words (slot 0x9000 i) ≡ 0xA003
Kernel-word _ identity = refl
Kernel-word _ direct = refl
Kernel-word _ high = refl

shared : Shared canon 0x9000 words
unfolding present table_of
shared i j li lj e = elim (Kernel-or_alone i) [
  | inl (a, c) ↦ elim (Kernel-or_alone j) [
    | inl (b, d) ↦ inr (
      rw (Kernel-word i a) refl,
      rw (Kernel-word j b) refl,
      rw (Kernel-word i a, Kernel-word j b) refl,
    )
    | inr (d, g) ↦ absurd (omega arith)
  ]
  | inr (c, g) ↦ elim (Kernel-or_alone j) [
    | inl (b, d) ↦ absurd (omega arith)
    | inr (d, g') ↦ inl (sym c ∙ e ∙ d)
  ]
]

pub machine-IsTree : IsTree canon shape 0x9000 machine
machine-IsTree = record {
  top = refl;
  null = refl;
  aligned = λ t h. (level-page t h).0;
  taken = λ t h. let (a, b, c) = level-page t h in frame_taken (t / page_size) b c;
  null_taken = table_frames.0;
  frames = frames-IsValid;
  entries = entries;
  shared = shared;
  ready = refl;
  mapped = refl;
}

found :
    query_pml4 words 0x9000 0x5000
    ≡ some (record { phys_addr = 0x5000; flags = 0x205; is_huge = false })
unfolding query_pml4 query_pdpt query_pd query_pt pml4_index pdpt_index pd_index pt_index present
    pat mapping_of
found = refl

small_page : (m : Mapping) → query_pml4 words 0x9000 0x5000 ≡ some m → m.is_huge ≡ false
small_page m h = cc found

page_unmap_page-UnmapReply_example :
    (q : Reply) × (page_unmap_page machine 0x9000 0x5000 ≡ done q)
    × UnmapReply canon shape 0x9000 machine 0x5000 q
page_unmap_page-UnmapReply_example =
    page_unmap_page-UnmapReply shape 0x9000 machine 0x5000 machine-IsTree small_page

page_map_range-RangeReply_example :
    (q : Reply) × (page_map_range machine 0x9000 0xffffffff881fe000 0x6000 4 1 ≡ done q)
    × RangeReply canon machine 0x9000 0xffffffff881fe000 0x6000 4 1 q
page_map_range-RangeReply_example =
    page_map_range-RangeReply shape 0x9000 machine 0xffffffff881fe000 0x6000 4 1 machine-IsTree refl
      refl refl
