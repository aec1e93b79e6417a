-- ===== src/Cow.antt =====
-- kernel/mm/vmm/cow.c: the reference counts of shared pages, and the write faults on them. The table
-- of blocks is the list of its blocks in the order of `hashmap_foreach`; where a new block comes in
-- it depends on its address, and is an argument with the answers of `kmalloc`.

pub mod Faults
pub mod Stuck
pub mod Regions
mod Tests
use ccoperating_system_x.Common.{
  ℕ, zero, suc, ◌+◌, ◌-◌, ◌*◌, ◌/◌, ◌%◌, ◌^◌, Bool, true, false, not, ◌&&◌, ◌||◌, Option, none,
  some, List, [], ◌∷◌, Exec, done, panic, ◌>>=◌, ltb, leb, ◌==◌, if◌then◌else◌,
}
use ccoperating_system_x.Align.{u64, page_size}
use ccoperating_system_x.Pframe
use ccoperating_system_x.Paging.{
  Vm, Reply, Mapping, PageResult, bit, present, pat, table_of, slot, write, page_map_page,
  pml4_index, pdpt_index, pd_index, pt_index,
}
use ccoperating_system_x.Paging
use ccoperating_system_x.Paging.Query.{page_query}

-- `cow_block_t`
pub record Block : Type 0 where
  pub orig_phys : ℕ
  pub refcount : ℕ

-- `cow_region_t`
pub record Region : Type 0 where
  pub start : ℕ
  pub page_count : ℕ
  pub pml4 : ℕ

-- `cow_stats_t`
pub record Stats : Type 0 where
  pub faults_handled : ℕ
  pub pages_allocated : ℕ
  pub pages_freed : ℕ
  pub current_blocks : ℕ
  pub write_faults : ℕ
  pub coalesced : ℕ

-- `s_cow_state`
pub record Cow : Type 0 where
  pub blocks : List Block
  pub regions : List Region
  pub stats : Stats
  pub initialized : Bool

-- `cow_result_t`
pub data CowResult : Type 0 where
  ok err_not_init err_invalid err_oom err_not_cow err_max_refcount : CowResult

abbrev pub CowReply : Type 0
CowReply = CowResult × Cow

-- The answers of `kmalloc` for a block and for its entry of the table, and the block's place there.
pub record Grants : Type 0 where
  pub for_block : Bool
  pub for_entry : Bool
  pub place : ℕ

-- `x & ~(PAGE_SIZE - 1)`
abbrev pub page_base : ℕ → ℕ
page_base x = x - x % page_size

-- `COW_MAX_REFCOUNT`
abbrev pub max_refcount : ℕ
max_refcount = 0xffff

-- The search of `find_block_by_phys`: the first block of the table for the page.
unfoldable pub search_by_phys : ℕ → List Block → Option Block
search_by_phys target [] = none
search_by_phys target (b ∷ blocks) =
    let rest = search_by_phys target blocks in if b.orig_phys == target then some b else rest

unfoldable pub cow_lookup_block : Cow → ℕ → Option Block
unfolding search_by_phys
cow_lookup_block c phys =
    if not c.initialized then none else search_by_phys (page_base phys) c.blocks

-- The block that the search finds, with another count.
unfoldable pub set_refcount : ℕ → ℕ → List Block → List Block
set_refcount target n [] = []
set_refcount target n (b ∷ blocks) =
    let rest = set_refcount target n blocks in
    if b.orig_phys == target then record b { refcount = n } ∷ blocks else b ∷ rest

-- The table without the block that the search finds.
unfoldable pub remove_block : ℕ → List Block → List Block
remove_block target [] = []
remove_block target (b ∷ blocks) =
    let rest = remove_block target blocks in if b.orig_phys == target then blocks else b ∷ rest

unfoldable pub insert_at : ℕ → Block → List Block → List Block
insert_at n b [] = b ∷ []
insert_at zero b (x ∷ blocks) = b ∷ x ∷ blocks
insert_at (suc n) b (x ∷ blocks) = x ∷ insert_at n b blocks

-- `cow_init`, with the answer of `hashmap_create`.
unfoldable pub cow_init : Cow → Bool → CowReply
cow_init c granted = if c.initialized then (ok, c) else if not granted then (err_oom, c) else (
  ok,
  record {
    blocks = [];
    regions = [];
    stats = record {
      faults_handled = 0;
      pages_allocated = 0;
      pages_freed = 0;
      current_blocks = 0;
      write_faults = 0;
      coalesced = 0;
    };
    initialized = true;
  },
)

-- `cow_inc_refcount`
unfoldable pub cow_inc_refcount : Cow → ℕ → CowReply
unfolding cow_lookup_block set_refcount
cow_inc_refcount c phys =
    if not c.initialized then (err_not_init, c) else elim (cow_lookup_block c (page_base phys)) [
      | none ↦ (err_not_cow, c)
      | some b ↦
          if leb max_refcount b.refcount
          then (err_max_refcount, c)
          else (ok, record c { blocks = set_refcount (page_base phys) (b.refcount + 1) c.blocks })
    ]

-- The new block of `cow_add_page`.
unfoldable pub add_block : Cow → Grants → ℕ → CowReply
unfolding insert_at
add_block c memory phys =
    if not memory.for_block then (err_oom, c) else if not memory.for_entry then (err_oom, c) else (
      ok,
      record c {
        blocks = insert_at memory.place (record { orig_phys = phys; refcount = 1 }) c.blocks;
        stats = record c.stats {
          pages_allocated = (c.stats.pages_allocated + 1) % u64;
          current_blocks = (c.stats.current_blocks + 1) % u64;
        };
      },
    )

-- `cow_add_page`
unfoldable pub cow_add_page : Cow → Grants → ℕ → CowReply
unfolding cow_lookup_block cow_inc_refcount add_block
cow_add_page c memory phys =
    if not c.initialized then (err_not_init, c) else elim (cow_lookup_block c (page_base phys)) [
      | some b ↦ cow_inc_refcount c (page_base phys)
      | none ↦ add_block c memory (page_base phys)
    ]

-- What `cow_dec_refcount` does with a block: at a count of 1 the block goes.
unfoldable pub drop_reference : Cow → ℕ → Block → Cow
unfolding set_refcount remove_block
drop_reference c phys b =
    if b.refcount == 1
    then record c {
      blocks = remove_block phys c.blocks;
      stats = record c.stats {
        pages_freed = (c.stats.pages_freed + 1) % u64;
        current_blocks = (c.stats.current_blocks + u64 - 1) % u64;
      };
    }
    else record c { blocks = set_refcount phys (b.refcount - 1) c.blocks }

-- `cow_dec_refcount`; a block has a count that is not 0.
unfoldable pub cow_dec_refcount : Cow → ℕ → CowReply
unfolding cow_lookup_block drop_reference
cow_dec_refcount c phys =
    if not c.initialized then (err_not_init, c) else elim (cow_lookup_block c (page_base phys)) [
      | none ↦ (err_not_cow, c)
      | some b ↦ (ok, drop_reference c (page_base phys) b)
    ]

-- `cow_get_refcount`, at a pointer that is not NULL
unfoldable pub cow_get_refcount : Cow → ℕ → CowResult × Option ℕ
unfolding cow_lookup_block
cow_get_refcount c phys =
    if not c.initialized then (err_not_init, none) else elim (cow_lookup_block c (page_base phys)) [
      | none ↦ (err_not_cow, none)
      | some b ↦ (ok, some (b.refcount % 2 ^ 16))
    ]

-- `cow_is_cow_page`, `cow_set_cow_flag` and `cow_clear_cow_flag`: bit 9 of an entry.
abbrev pub cow_is_cow_page : ℕ → Bool
cow_is_cow_page flags = bit flags 9

unfoldable pub set_bit_if_clear : ℕ → ℕ → ℕ
set_bit_if_clear flags k = if bit flags k then flags else flags + 2 ^ k

unfoldable pub clear_bit_if_set : ℕ → ℕ → ℕ
clear_bit_if_set flags k = if bit flags k then flags - 2 ^ k else flags

unfoldable pub cow_set_cow_flag : ℕ → ℕ
unfolding set_bit_if_clear
cow_set_cow_flag flags = set_bit_if_clear flags 9

unfoldable pub cow_clear_cow_flag : ℕ → ℕ
unfolding clear_bit_if_set
cow_clear_cow_flag flags = clear_bit_if_set flags 9
