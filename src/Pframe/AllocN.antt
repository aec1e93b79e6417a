-- ===== src/Pframe/AllocN.antt =====
-- `pframe_alloc_n` and `pframe_free_n` of kernel/mm/pframe/pframe.c.
use ccoperating_system_x.Common.{
  ℕ, zero, suc, ◌+◌, ◌*◌, ◌/◌, ◌%◌, ◌≤◌, ◌<◌, ◌^◌, ◌≡◌, refl, ap, ◌∙◌, ◌⊎◌, inl, inr, Bool, true,
  false, ◌==◌, Option, none, some, if◌then◌else◌, done, Bool-cases, leb, ltb, le→ltb, arith,
}
use ccoperating_system_x.Align.{page_size, u64}
use ccoperating_system_x.Bitmap.{Bitmap}
use ccoperating_system_x.Bitmap.Valid.{Wrote, is_set}
use ccoperating_system_x.Bitmap.Range.{set_range-Wrote, clear_range-Wrote, in_range, within}
use ccoperating_system_x.Pframe.{
  Pframe, ok, err_invalid, err_oom, Reply, alloc_n, free_n, search_again, take_run, next_hint,
  addr_to_frame, min_alloc_base, is_page_aligned,
}
use ccoperating_system_x.Pframe.Spec.{IsValid, ready_if, Marks, allocated, NoRun}
use ccoperating_system_x.Pframe.Alloc.{Wrote-Marks}
use ccoperating_system_x.Pframe.Search.{Result, run_at, no_run, search-Result}

-- The first frame above the BIOS area.
abbrev pub first_frame : ℕ
first_frame = addr_to_frame min_alloc_base

-- Where the second search stops.
abbrev pub second_end : Pframe → ℕ
second_end s = if ltb s.last_alloc_hint s.total_frames then s.last_alloc_hint else s.total_frames

-- What `pframe_alloc_n` may answer.
pub data RunReply (s : Pframe) (n : ℕ) : Reply → Type 0 where
  got_run :
      (a : ℕ) {s' : Pframe}
      → 0 < n
      → a + n ≤ s.total_frames
      → (s.last_alloc_hint ≤ a) ⊎ (first_frame ≤ a)
      → ((j : ℕ) → a ≤ j → j < a + n → allocated s j ≡ false)
      → Marks true (within a (a + n)) s s'
      → RunReply s n (ok, some (a * page_size), s')
  no_memory :
      0 < n
      → NoRun s.frame_map s.last_alloc_hint s.total_frames n
      → NoRun s.frame_map first_frame (second_end s) n
      → RunReply s n (err_oom, none, s)
  nothing : n ≡ 0 → RunReply s n (err_invalid, none, s)

abbrev Taken : Pframe → ℕ → Option ℕ → Type 0
Taken s n o = (q : Reply) × (take_run s n o ≡ done q) × RunReply s n q

-- A range write inside the bitmap, as a change of the state.
pub range-Marks :
    (b : Bool) (s : Pframe) (map : Bitmap) (a n hint : ℕ)
    → IsValid s
    → a + n ≤ s.total_frames
    → Wrote (λ _. b) (in_range s.frame_map a n) s.frame_map map
    → Marks b (within a (a + n)) s (record s { frame_map = map; last_alloc_hint = hint })
range-Marks b s map a n hint v fit w =
    let m = Wrote-Marks b (in_range s.frame_map a n) s map hint v (λ j le. ground arith) w in
    record {
      valid = m.valid;
      frames = λ j. m.frames j ∙ ap (λ p. if p then b else allocated s j) (ground (arith, v.size));
      total = m.total;
      base = m.base;
      end = m.end;
    }

take_run-Taken :
    (s : Pframe) (n a : ℕ)
    → IsValid s
    → 0 < n
    → a + n ≤ s.total_frames
    → (s.last_alloc_hint ≤ a) ⊎ (first_frame ≤ a)
    → ((j : ℕ) → a ≤ j → j < a + n → is_set s.frame_map j ≡ false)
    → Taken s n (some a)
unfolding take_run
take_run-Taken s n a v pos fit from free =
    let (map, e, w) = set_range-Wrote s.frame_map a n v.map pos (omega (arith, v.fits)) in
    let same : a * page_size % 2 ^ 64 ≡ a * page_size = omega (arith, v.fits) in
    (
      (
        ok,
        some (a * page_size),
        record s { frame_map = map; last_alloc_hint = next_hint s (a + n) },
      ),
      rw (e, same),
      got_run a pos fit from free (range-Marks true s map a n (next_hint s (a + n)) v fit w),
    )

second-Taken :
    (s : Pframe) (n : ℕ) (o : Option ℕ)
    → IsValid s
    → 0 < n
    → NoRun s.frame_map s.last_alloc_hint s.total_frames n
    → Result s.frame_map first_frame (second_end s) n o
    → Taken s n o
unfolding take_run
second-Taken s n _ v pos none_from (run_at a le fit free) =
    take_run-Taken s n a v pos (ground arith) (inr le) free
second-Taken s n _ v pos none_from (no_run none_at) =
    ((err_oom, none, s), refl, no_memory pos none_from none_at)

again-Taken :
    (s : Pframe) (n : ℕ) (o : Option ℕ)
    → IsValid s
    → 0 < n
    → Result s.frame_map s.last_alloc_hint s.total_frames n o
    → (o' : Option ℕ) × (search_again s n o ≡ done o') × Taken s n o'
unfolding search_again
again-Taken s n _ v pos (run_at a le fit free) =
    (some a, refl, take_run-Taken s n a v pos fit (inl le) free)
again-Taken s n _ v pos (no_run none_from) =
    let (o, e, r) =
      search-Result s.frame_map first_frame (second_end s) n pos (let z = v.size in ground arith) in
    (o, e, second-Taken s n o v pos none_from r)

-- More frames than there are make no run.
NoRun-large : (map : Bitmap) (lo hi total n : ℕ) → hi ≤ total → total < n → NoRun map lo hi n
NoRun-large map lo hi total n le lt a from fit free = absurd (omega arith)

suc-ne-zero : (n : ℕ) → (suc n == 0) ≡ false
suc-ne-zero n = ground arith

-- In a valid state `pframe_alloc_n` returns. It answers OK with the address of `n` frames in a row
-- that were all free, from the hint on or above the BIOS area, and marks these and no other; or it
-- answers OOM, changes nothing, and there is no such run from the hint to the end, nor from 1 MB to
-- the hint; a request for no frames is invalid.
pub alloc_n-RunReply :
    (s : Pframe) (n : ℕ) → IsValid s → (q : Reply) × (alloc_n s n ≡ done q) × RunReply s n q
unfolding alloc_n
alloc_n-RunReply s zero v = ((err_invalid, none, s), ready_if s v _ _, nothing refl)
alloc_n-RunReply s (suc n) v = elim (Bool-cases (ltb s.total_frames (suc n))) [
  | inl large ↦ (
    (err_oom, none, s),
    ready_if s v _ _ ∙ rw (suc-ne-zero n, large),
    no_memory (omega arith)
        (NoRun-large s.frame_map s.last_alloc_hint s.total_frames s.total_frames (suc n)
          (omega arith) (ground arith))
        (NoRun-large s.frame_map first_frame (second_end s) s.total_frames (suc n) (ground arith)
          (ground arith)),
  )
  | inr fits ↦
      let (o, e, r) =
        search-Result s.frame_map s.last_alloc_hint s.total_frames (suc n) (omega arith)
          (omega (arith, v.size)) in
      let (o', e', t) = again-Taken s (suc n) o v (omega arith) r in
      (t.0, ready_if s v _ _ ∙ rw (suc-ne-zero n, fits, e, e') t.1, t.2)
]

-- `pframe_free_n` on a range of frames that exist, at a page boundary, frees these and no other.
pub free_n-Marks :
    (s : Pframe) (addr n : ℕ)
    → IsValid s
    → 0 < n
    → addr % page_size ≡ 0
    → addr / page_size + n ≤ s.total_frames
    → (s' : Pframe) × (free_n s addr n ≡ done (ok, s'))
      × Marks false (within (addr / page_size) (addr / page_size + n)) s s'
unfolding free_n
free_n-Marks s addr n v pos aligned fit =
    let (map, e, w) =
      clear_range-Wrote s.frame_map (addr / page_size) n v.map pos (omega (arith, v.fits)) in
    let e1 : (n == 0) ≡ false = ground arith in
    let e2 : is_page_aligned addr ≡ true = ground arith in
    let e3 : leb s.total_frames (addr / page_size) ≡ false = ground arith in
    let same : (addr / page_size + n) % u64 ≡ addr / page_size + n = omega (arith, v.fits) in
    let e4 : ltb s.total_frames ((addr / page_size + n) % u64) ≡ false = rw same (le→ltb _ _ fit) in
    (
      record s { frame_map = map },
      ready_if s v _ _ ∙ rw (e1, e2, e3, e4, e),
      range-Marks false s map (addr / page_size) n s.last_alloc_hint v fit w,
    )
