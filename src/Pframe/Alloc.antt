-- ===== src/Pframe/Alloc.antt =====
-- `pframe_alloc` of kernel/mm/pframe/pframe.c.
use ccoperating_system_x.Common.{
  ℕ, ◌+◌, ◌*◌, ◌≤◌, ◌<◌, ◌^◌, ◌≡◌, refl, ◌∙◌, Bool, true, false, ◌==◌, Option, none, some, done,
  arith, ◌%◌,
}
use ccoperating_system_x.Align.{page_size}
use ccoperating_system_x.Bitmap.{Bitmap}
use ccoperating_system_x.Bitmap.Valid.{Wrote}
use ccoperating_system_x.Bitmap.Range.{set-Wrote}
use ccoperating_system_x.Bitmap.Scan.{Found, hit, miss, find_next_zero-Found, find_first_zero-Found}
use ccoperating_system_x.Bitmap.Count.{Wrote-IsClean}
use ccoperating_system_x.Pframe.{Pframe, ok, err_oom, Reply, alloc, take_frame, retry, next_hint}
use ccoperating_system_x.Pframe.Spec.{IsValid, ready_if, Marks, allocated, AllocReply, got, full}

-- The new state around a bitmap that was written at frames that exist.
pub Wrote-Marks :
    (b : Bool) (p : ℕ → Bool) (s : Pframe) (map : Bitmap) (hint : ℕ)
    → IsValid s
    → ((j : ℕ) → s.frame_map.nbits ≤ j → p j ≡ false)
    → Wrote (λ _. b) p s.frame_map map
    → Marks b p s (record s { frame_map = map; last_alloc_hint = hint })
Wrote-Marks b p s map hint v out w = record {
  valid = record {
    map = w.valid;
    clean = Wrote-IsClean (λ _. b) p s.frame_map map out w v.clean;
    size = w.same_size ∙ v.size;
    fits = v.fits;
    ready = v.ready;
  };
  frames = w.bit;
  total = refl;
  base = refl;
  end = refl;
}

-- The tail of `pframe_alloc` returns an answer that is allowed.
abbrev Taken : Pframe → Option ℕ → Type 0
Taken s o = (q : Reply) × (take_frame s o ≡ done q) × AllocReply s q

take_frame-Taken :
    (s : Pframe) (f : ℕ)
    → IsValid s
    → f < s.total_frames
    → allocated s f ≡ false
    → ((j : ℕ) → s.last_alloc_hint ≤ j → j < f → allocated s j ≡ true)
    → Taken s (some f)
unfolding take_frame
take_frame-Taken s f v lt e before =
    let (map, e', w) = set-Wrote s.frame_map v.map f (omega (arith, v.size)) in
    let s' : Pframe = record s { frame_map = map; last_alloc_hint = next_hint s (f + 1) } in
    let same : f * page_size % 2 ^ 64 ≡ f * page_size = omega (arith, v.fits) in
    (
      (ok, some (f * page_size), s'),
      rw (e', same),
      got f lt e before (
          Wrote-Marks true (λ j. f == j) s map (next_hint s (f + 1)) v
            (λ j le. ground (arith, v.size)) w),
    )

-- The second scan, over all frames, where no frame from the hint on is free.
first-Taken :
    (s : Pframe) (o : Option ℕ)
    → IsValid s
    → ((j : ℕ) → s.last_alloc_hint ≤ j → j < s.frame_map.nbits → allocated s j ≡ true)
    → Found false s.frame_map 0 s.frame_map.nbits o
    → Taken s o
unfolding take_frame
first-Taken s _ v none_from (hit k lo hi is before) =
    take_frame-Taken s k v (omega (arith, v.size)) is (λ j le lt. none_from j le (omega arith))
first-Taken s _ v none_from (miss none_at) =
    ((err_oom, none, s), refl, full λ f lt. none_at f (omega arith) (omega (arith, v.size)))

retry-Taken :
    (s : Pframe) (r : Option ℕ)
    → IsValid s
    → Found false s.frame_map s.last_alloc_hint s.frame_map.nbits r
    → (o : Option ℕ) × (retry s r ≡ done o) × Taken s o
unfolding retry
retry-Taken s _ v (hit k lo hi is before) =
    (some k, refl, take_frame-Taken s k v (omega (arith, v.size)) is before)
retry-Taken s _ v (miss none_from) =
    let (o, e, f) = find_first_zero-Found s.frame_map in (o, e, first-Taken s o v none_from f)

-- In a valid state `pframe_alloc` returns. It answers OK with the address of a frame that was free,
-- marks that frame and no other, and the frame is the first free one from the hint on if there is
-- one; or it answers OOM, changes nothing, and every frame is allocated.
pub alloc-AllocReply : (s : Pframe) → IsValid s → (q : Reply) × (alloc s ≡ done q) × AllocReply s q
unfolding alloc
alloc-AllocReply s v =
    let (r, e, f) = find_next_zero-Found s.frame_map s.last_alloc_hint in
    let (o, e', t) = retry-Taken s r v f in (t.0, ready_if s v _ _ ∙ rw (e, e') t.1, t.2)
