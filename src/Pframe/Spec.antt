-- ===== src/Pframe/Spec.antt =====
-- The frame allocator of kernel/mm/pframe/pframe.c as a set of allocated frames.
use ccoperating_system_x.Common.{
  ℕ, ◌+◌, ◌*◌, ◌≤◌, ◌<◌, ◌^◌, ◌≡◌, ◌≢◌, Bool, true, false, not, ap, ◌==◌, ◌⊎◌, none, some,
  if◌then◌else◌, ◌%◌, ◌/◌,
}
use ccoperating_system_x.Align.{page_size}
use ccoperating_system_x.Bitmap.{Bitmap}
use ccoperating_system_x.Bitmap.Valid
use ccoperating_system_x.Bitmap.Valid.{is_set}
use ccoperating_system_x.Bitmap.Weight.{IsClean}
use ccoperating_system_x.Pframe.{Pframe, Status, ok, err_invalid, err_oom, Reply}

-- The state behind `pframe_init`: the bitmap has a bit for each frame, as many as its storage of
-- 2 MB can hold, and is sound.
pub record IsValid (s : Pframe) : Type 0 where
  pub map : Valid.IsValid s.frame_map
  pub clean : IsClean s.frame_map
  pub size : s.frame_map.nbits ≡ s.total_frames
  pub fits : s.total_frames ≤ 2 ^ 24
  pub ready : s.initialized ≡ true

-- The guard on `initialized` at the head of each call.
pub ready_if {ℓ} :
    {A : Type ℓ} (s : Pframe) → IsValid s → (x y : A) → (if not s.initialized then x else y) ≡ y
ready_if s v x y = ap (λ b. if not b then x else y) v.ready

abbrev pub allocated : Pframe → ℕ → Bool
allocated s f = is_set s.frame_map f

-- Exactly the frames at which `p` holds are now `b`; the state stays valid, and no other part of it
-- moves but the hint.
pub record Marks (b : Bool) (p : ℕ → Bool) (s s' : Pframe) : Type 0 where
  pub valid : IsValid s'
  pub frames : (j : ℕ) → allocated s' j ≡ (if p j then b else allocated s j)
  pub total : s'.total_frames ≡ s.total_frames
  pub base : s'.managed_base ≡ s.managed_base
  pub end : s'.managed_end ≡ s.managed_end

-- What `pframe_alloc` may answer: the address of a frame that was free, the first from the hint
-- on where there is one there; or OOM, where every frame is allocated.
pub data AllocReply (s : Pframe) : Reply → Type 0 where
  got :
      (f : ℕ) {s' : Pframe}
      → f < s.total_frames
      → allocated s f ≡ false
      → ((j : ℕ) → s.last_alloc_hint ≤ j → j < f → allocated s j ≡ true)
      → Marks true (λ j. f == j) s s'
      → AllocReply s (ok, some (f * page_size), s')
  full : ((f : ℕ) → f < s.total_frames → allocated s f ≡ true) → AllocReply s (err_oom, none, s)

-- No `n` free frames in a row between `lo` and `hi`.
abbrev pub NoRun : Bitmap → ℕ → ℕ → ℕ → Type 0
NoRun map lo hi n =
    (a : ℕ) → lo ≤ a → a + n ≤ hi → ¬ ((j : ℕ) → a ≤ j → j < a + n → is_set map j ≡ false)

-- What `pframe_free` may answer.
pub data FreeReply (s : Pframe) (addr : ℕ) : Status × Pframe → Type 0 where
  freed :
      {s' : Pframe}
      → addr % page_size ≡ 0
      → addr / page_size < s.total_frames
      → allocated s (addr / page_size) ≡ true
      → Marks false (λ j. addr / page_size == j) s s'
      → FreeReply s addr (ok, s')
  refused :
      (addr % page_size ≢ 0)
        ⊎ (s.total_frames ≤ addr / page_size)
        ⊎ (allocated s (addr / page_size) ≡ false)
      → FreeReply s addr (err_invalid, s)
