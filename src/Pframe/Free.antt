-- ===== src/Pframe/Free.antt =====
-- `pframe_free` and `pframe_is_allocated` of kernel/mm/pframe/pframe.c.
use ccoperating_system_x.Common.{
  ℕ, ◌/◌, ◌<◌, ◌≡◌, ◌∙◌, inl, inr, true, false, ◌==◌, if◌then◌else◌, done, Bool-cases, leb, arith,
  ◌%◌,
}
use ccoperating_system_x.Align.{page_size}
use ccoperating_system_x.Bitmap.Valid.{test_lem}
use ccoperating_system_x.Bitmap.Range.{clear-Wrote}
use ccoperating_system_x.Pframe.{
  Pframe, Status, ok, err_invalid, free, free_frame, is_page_aligned, addr_to_frame, is_allocated,
}
use ccoperating_system_x.Pframe.Spec.{IsValid, ready_if, allocated, FreeReply, freed, refused}
use ccoperating_system_x.Pframe.Alloc.{Wrote-Marks}

abbrev Answered : Pframe → ℕ → Type 0
Answered s addr = (q : Status × Pframe) × (free s addr ≡ done q) × FreeReply s addr q

free_set :
    (s : Pframe) (addr : ℕ)
    → IsValid s
    → addr % page_size ≡ 0
    → addr / page_size < s.total_frames
    → allocated s (addr / page_size) ≡ true
    → (q : Status × Pframe) × (free_frame s (addr / page_size) ≡ done q) × FreeReply s addr q
unfolding free_frame
free_set s addr v aligned lt e =
    let lt' : addr / page_size < s.frame_map.nbits = omega (arith, v.size) in
    let (map, e', w) = clear-Wrote s.frame_map v.map (addr / page_size) lt' in
    (
      (ok, record s { frame_map = map }),
      rw (test_lem s.frame_map (addr / page_size) lt', e, e'),
      freed aligned lt e (
          Wrote-Marks false (λ j. addr / page_size == j) s map s.last_alloc_hint v
            (λ j le. ground arith) w),
    )

free_clear :
    (s : Pframe) (addr : ℕ)
    → IsValid s
    → addr / page_size < s.total_frames
    → allocated s (addr / page_size) ≡ false
    → (q : Status × Pframe) × (free_frame s (addr / page_size) ≡ done q) × FreeReply s addr q
unfolding free_frame
free_clear s addr v lt e =
    let lt' : addr / page_size < s.frame_map.nbits = omega (arith, v.size) in
    ((err_invalid, s), rw (test_lem s.frame_map (addr / page_size) lt', e), refused (inr (inr e)))

free_range :
    (s : Pframe) (addr : ℕ)
    → IsValid s
    → addr / page_size < s.total_frames
    → addr % page_size ≡ 0
    → (q : Status × Pframe) × (free_frame s (addr / page_size) ≡ done q) × FreeReply s addr q
free_range s addr v lt aligned = elim (Bool-cases (allocated s (addr / page_size))) [
  | inl e ↦ free_set s addr v aligned lt e
  | inr e ↦ free_clear s addr v lt e
]

-- In a valid state `pframe_free` returns. It answers OK exactly for the address of an allocated
-- frame, and then frees that frame and no other; an address that is not on a page boundary, that is
-- out of range or whose frame is free already is refused, with nothing changed.
pub free-FreeReply :
    (s : Pframe) (addr : ℕ)
    → IsValid s
    → (q : Status × Pframe) × (free s addr ≡ done q) × FreeReply s addr q
unfolding free
free-FreeReply s addr v = elim (Bool-cases (is_page_aligned addr)) [
  | inr e ↦ ((err_invalid, s), ready_if s v _ _ ∙ rw e, refused (inl (ground arith)))
  | inl e ↦ elim (Bool-cases (leb s.total_frames (addr_to_frame addr))) [
    | inl h ↦ ((err_invalid, s), ready_if s v _ _ ∙ rw (e, h), refused (inr (inl (ground arith))))
    | inr h ↦
        let (q, e', r) = free_range s addr v (ground arith) (ground arith) in
        (q, ready_if s v _ _ ∙ rw (e, h) e', r)
  ]
]

-- In a valid state `pframe_is_allocated` returns whether the frame of the address is in range and
-- allocated.
pub is_allocated_lem :
    (s : Pframe) (addr : ℕ)
    → IsValid s
    → is_allocated s addr
      ≡ done
          (if leb s.total_frames (addr / page_size) then false else allocated s (addr / page_size))
unfolding is_allocated
is_allocated_lem s addr v = elim (Bool-cases (leb s.total_frames (addr / page_size))) [
  | inl h ↦ ready_if s v _ _ ∙ rw h
  | inr h ↦
      ready_if s v _ _
      ∙ rw h (test_lem s.frame_map (addr / page_size) (let e = v.size in ground arith))
]
