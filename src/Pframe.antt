-- ===== src/Pframe.antt =====
-- kernel/mm/pframe/pframe.c: the physical frame allocator over a bitmap of frames.
-- Each function takes the state `s_pframe_state` and returns it with its result. The spinlock makes
-- each call one step, so it does not appear; the log calls have no effect on the state.
pub mod Spec
pub mod Alloc
pub mod Free
pub mod Search
pub mod AllocN
pub mod Ledger
mod Tests
use ccoperating_system_x.Common.{
  ℕ, zero, suc, ◌+◌, ◌-◌, ◌*◌, ◌/◌, ◌%◌, ◌^◌, Bool, true, false, not, Option, none, some, List, [],
  ◌∷◌, Exec, done, panic, ◌>>=◌, ◌>>◌, ltb, leb, ◌==◌, if◌then◌else◌, ◌||◌,
}
use ccoperating_system_x.Align.{u64, page_shift, page_size, align_up, align_down}
use ccoperating_system_x.Bitmap.{Bitmap}
use ccoperating_system_x.Bitmap

-- `pframe_state_t`
pub record Pframe : Type 0 where
  pub frame_map : Bitmap
  pub total_frames : ℕ
  pub managed_base : ℕ
  pub managed_end : ℕ
  pub last_alloc_hint : ℕ
  pub initialized : Bool

-- `pframe_result_t`
pub data Status : Type 0 where
  ok err_invalid err_oom err_not_init : Status

-- `PFRAME_MIN_ALLOC_BASE`
abbrev pub min_alloc_base : ℕ
min_alloc_base = 0x100000

abbrev pub addr_to_frame : ℕ → ℕ
addr_to_frame addr = addr / page_size

abbrev pub frame_to_addr : ℕ → ℕ
frame_to_addr frame = frame * page_size % u64

abbrev pub is_page_aligned : ℕ → Bool
is_page_aligned addr = addr % page_size == 0

-- The status, what goes through `out_addr`, and the new state.
abbrev pub Reply : Type 0
Reply = Status × Option ℕ × Pframe

abbrev pub next_hint : Pframe → ℕ → ℕ
next_hint s hint = if leb s.total_frames hint then addr_to_frame min_alloc_base else hint

-- What `pframe_alloc` does with the frame that the scans found.
take_frame : Pframe → Option ℕ → Exec Reply
take_frame s none = done (err_oom, none, s)
take_frame s (some frame_idx) = do
  frame_map ← Bitmap.set s.frame_map frame_idx
  done (
    ok,
    some (frame_to_addr frame_idx),
    record s { frame_map = frame_map; last_alloc_hint = next_hint s (frame_idx + 1) },
  )

-- The second scan, where the first found none.
retry : Pframe → Option ℕ → Exec (Option ℕ)
retry s none = Bitmap.find_first_zero s.frame_map
retry s (some i) = done (some i)

-- `pframe_alloc`
pub alloc : Pframe → Exec Reply
unfolding take_frame retry
alloc s = if not s.initialized then done (err_not_init, none, s) else do
  from_hint ← Bitmap.find_next_zero s.frame_map s.last_alloc_hint
  frame_idx ← retry s from_hint
  take_frame s frame_idx

-- The two search loops of `pframe_alloc_n`, from the frame `i` on over the frames that are left,
-- with the run found so far; the result is the start of a run of `frame_count` free frames.
pub search : Bitmap → ℕ → ℕ → ℕ → ℕ → ℕ → Exec (Option ℕ)
search map frame_count zero i run_start run_length = done none
search map frame_count (suc left) i run_start run_length = elim (Bitmap.test map i) [
  | panic ↦ panic
  | done true ↦ search map frame_count left (i + 1) run_start 0
  | done false ↦
      let start = if run_length == 0 then i else run_start in
      elim (leb frame_count (run_length + 1)) [
        | true ↦ done (some start)
        | false ↦ search map frame_count left (i + 1) start (run_length + 1)
      ]
]

-- The second search runs below the hint.
search_again : Pframe → ℕ → Option ℕ → Exec (Option ℕ)
unfolding search
search_again s frame_count (some run_start) = done (some run_start)
search_again s frame_count none =
    let first : ℕ = addr_to_frame min_alloc_base in
    let end = if ltb s.last_alloc_hint s.total_frames then s.last_alloc_hint else s.total_frames in
    search s.frame_map frame_count (end - first) first 0 0

take_run : Pframe → ℕ → Option ℕ → Exec Reply
take_run s frame_count none = done (err_oom, none, s)
take_run s frame_count (some run_start) = do
  frame_map ← Bitmap.set_range s.frame_map run_start frame_count
  done (
    ok,
    some (frame_to_addr run_start),
    record s { frame_map = frame_map; last_alloc_hint = next_hint s (run_start + frame_count) },
  )

-- `pframe_alloc_n`
pub alloc_n : Pframe → ℕ → Exec Reply
unfolding search search_again take_run
alloc_n s frame_count =
    if not s.initialized
    then done (err_not_init, none, s)
    else if frame_count == 0
    then done (err_invalid, none, s)
    else if ltb s.total_frames frame_count
    then done (err_oom, none, s)
    else do
      from_hint ←
          search s.frame_map frame_count (s.total_frames - s.last_alloc_hint) s.last_alloc_hint 0 0
      run ← search_again s frame_count from_hint
      take_run s frame_count run

-- The end of `pframe_free`, behind its guards.
free_frame : Pframe → ℕ → Exec (Status × Pframe)
free_frame s frame = do
  allocated ← Bitmap.test s.frame_map frame
  if not allocated then done (err_invalid, s) else do
    frame_map ← Bitmap.clear s.frame_map frame
    done (ok, record s { frame_map = frame_map })

-- `pframe_free`
pub free : Pframe → ℕ → Exec (Status × Pframe)
unfolding free_frame
free s addr =
    if not s.initialized
    then done (err_not_init, s)
    else if not (is_page_aligned addr)
    then done (err_invalid, s)
    else if leb s.total_frames (addr_to_frame addr)
    then done (err_invalid, s)
    else free_frame s (addr_to_frame addr)

-- `pframe_free_n`: the sum of its last guard wraps.
pub free_n : Pframe → ℕ → ℕ → Exec (Status × Pframe)
free_n s addr frame_count =
    if not s.initialized
    then done (err_not_init, s)
    else if frame_count == 0
    then done (err_invalid, s)
    else if not (is_page_aligned addr)
    then done (err_invalid, s)
    else if leb s.total_frames (addr_to_frame addr)
    then done (err_invalid, s)
    else if ltb s.total_frames ((addr_to_frame addr + frame_count) % u64)
    then done (err_invalid, s)
    else do
      frame_map ← Bitmap.clear_range s.frame_map (addr_to_frame addr) frame_count
      done (ok, record s { frame_map = frame_map })

-- `pframe_is_allocated`
pub is_allocated : Pframe → ℕ → Exec Bool
is_allocated s addr =
    if not s.initialized
    then done false
    else if leb s.total_frames (addr_to_frame addr)
    then done false
    else Bitmap.test s.frame_map (addr_to_frame addr)

-- `pframe_stats_t`
pub record Stats : Type 0 where
  pub total_frames : ℕ
  pub free_frames : ℕ
  pub reserved_frames : ℕ
  pub allocated_frames : ℕ
  pub bitmap_size_bytes : ℕ
  pub managed_start : ℕ
  pub managed_end : ℕ

-- `pframe_get_stats`, at a pointer that is not NULL.
pub get_stats : Pframe → Status × Option Stats
get_stats s = if not s.initialized then (err_not_init, none) else (
  ok,
  some (record {
    total_frames = s.total_frames;
    free_frames = (s.total_frames + u64 - Bitmap.weight s.frame_map) % u64;
    reserved_frames = addr_to_frame min_alloc_base;
    allocated_frames = Bitmap.weight s.frame_map;
    bitmap_size_bytes = (s.total_frames + 7) % u64 / 8;
    managed_start = s.managed_base;
    managed_end = s.managed_end;
  }),
)

pub get_total_frames : Pframe → ℕ
get_total_frames s = if not s.initialized then 0 else s.total_frames

-- `pframe_get_free_frames`
pub get_free_frames : Pframe → ℕ
unfolding get_stats
get_free_frames s =
    if not s.initialized
    then 0
    else elim ((get_stats s).1) [ none ↦ 0 | some stats ↦ stats.free_frames ]

-- `mark_region_reserved` and `mark_region_free` up to the write.
mark : (Bitmap → ℕ → ℕ → Exec Bitmap) → Pframe → ℕ → ℕ → Exec Pframe
mark write s base length =
    let start_frame = addr_to_frame (align_up base page_shift) in
    let end_frame = addr_to_frame (align_down ((base + length) % u64) page_shift) in
    let end = if ltb s.total_frames end_frame then s.total_frames else end_frame in
    if length == 0 then done s else if not (ltb start_frame s.total_frames) then done s else do
      frame_map ← write s.frame_map start_frame ((end + u64 - start_frame) % u64)
      done (record s { frame_map = frame_map })

pub mark_region_reserved : Pframe → ℕ → ℕ → Exec Pframe
unfolding mark
mark_region_reserved s base length = mark Bitmap.set_range s base length

pub mark_region_free : Pframe → ℕ → ℕ → Exec Pframe
unfolding mark
mark_region_free s base length = mark Bitmap.clear_range s base length
