-- ===== src/Pframe/Ledger.antt =====
-- The counters of kernel/mm/pframe/pframe.c, and single frames given out and taken back.
use mathlib.Core.Path.{subst}
use mathlib.Core.Option.{get_or}
use ccoperating_system_x.Common.{
  done-injective, ℕ, ◌+◌, ◌*◌, ◌/◌, ◌%◌, ◌<◌, ◌≡◌, refl, sym, ap, ◌∙◌, inl, inr, true, false, ◌==◌,
  some, done, arith,
}
use ccoperating_system_x.Align.{page_size}
use ccoperating_system_x.Bitmap.{weight}
use ccoperating_system_x.Bitmap.Weight.{weight-eq-count, count_true}
use ccoperating_system_x.Bitmap.Count.{count_true-le, count_true-insert}
use ccoperating_system_x.Pframe.{
  Pframe, Status, ok, err_invalid, err_oom, Reply, alloc, free, get_stats, get_free_frames,
}
use ccoperating_system_x.Pframe.Spec.{
  IsValid, Marks, allocated, AllocReply, got, full, FreeReply, freed, refused,
}
use ccoperating_system_x.Pframe.Alloc.{alloc-AllocReply}
use ccoperating_system_x.Pframe.Free.{free-FreeReply}

-- The number of allocated frames.
abbrev pub used : Pframe → ℕ
used s = count_true (allocated s) s.total_frames

weight-used : (s : Pframe) → IsValid s → weight s.frame_map ≡ used s
weight-used s v = weight-eq-count s.frame_map v.map v.clean ∙ ap (count_true (allocated s)) v.size

-- In a valid state `pframe_get_free_frames` answers the number of frames that are not allocated.
pub get_free_frames-add-used :
    (s : Pframe) → IsValid s → get_free_frames s + used s ≡ s.total_frames
unfolding get_free_frames get_stats
get_free_frames-add-used s v =
    ground (arith, v.ready, v.fits, weight-used s v, count_true-le (allocated s) s.total_frames)

used-take :
    (s s' : Pframe) (f : ℕ)
    → f < s.total_frames
    → allocated s f ≡ false
    → Marks true (λ j. f == j) s s'
    → used s' ≡ used s + 1
used-take s s' f lt e m =
    ap (count_true (allocated s')) m.total
    ∙ count_true-insert (allocated s) (allocated s') f s.total_frames lt e m.frames

-- What an answer OK of `pframe_alloc` means.
abbrev Got : Pframe → ℕ → Pframe → Type 0
Got s addr s' =
    (f : ℕ) × (f * page_size ≡ addr)
    × (f < s.total_frames)
    × (allocated s f ≡ false)
    × Marks true (λ j. f == j) s s'

reply-Got :
    (s s' : Pframe) (addr : ℕ) (q : Reply)
    → AllocReply s q
    → q ≡ (ok, some addr, s')
    → Got s addr s'
reply-Got s s' addr _ (got f lt e before m) h =
    (f, ap (λ q. get_or q.1 addr) h, lt, e, subst (Marks true (λ j. f == j) s) (ap (λ q. q.2) h) m)
reply-Got s s' addr _ (full none_free) h = absurd (clash (ap (λ q. q.0) h))
  where
    clash : err_oom ≡ ok → ⊥
    clash e = cc

alloc-Got :
    (s s' : Pframe) (addr : ℕ) → IsValid s → alloc s ≡ done (ok, some addr, s') → Got s addr s'
alloc-Got s s' addr v e =
    let (q, e', r) = alloc-AllocReply s v in
    reply-Got s s' addr q r (done-injective q (ok, some addr, s') (sym e' ∙ e))

-- Each frame that `pframe_alloc` gives out is one free frame less, and the state stays valid.
pub alloc-get_free_frames :
    (s s' : Pframe) (addr : ℕ)
    → IsValid s
    → alloc s ≡ done (ok, some addr, s')
    → IsValid s' × (get_free_frames s' + 1 ≡ get_free_frames s)
alloc-get_free_frames s s' addr v e =
    let (f, _, lt, free_before, m) = alloc-Got s s' addr v e in
    (
      m.valid,
      omega (
        arith,
        get_free_frames-add-used s v,
        get_free_frames-add-used s' m.valid,
        used-take s s' f lt free_before m,
        m.total,
      ),
    )

-- An answer of `pframe_free` at an allocated frame.
pub freed_answer :
    (s : Pframe) (addr : ℕ) (q : Status × Pframe)
    → FreeReply s addr q
    → addr % page_size ≡ 0
    → addr / page_size < s.total_frames
    → allocated s (addr / page_size) ≡ true
    → (s' : Pframe) × (q ≡ (ok, s')) × Marks false (λ j. addr / page_size == j) s s'
freed_answer s addr _ (freed {s' = t} aligned lt e m) h1 h2 h3 = (t, refl, m)
freed_answer s addr _ (refused (inl h)) h1 h2 h3 = absurd (h h1)
freed_answer s addr _ (refused (inr (inl h))) h1 h2 h3 = absurd (omega arith)
freed_answer s addr _ (refused (inr (inr h))) h1 h2 h3 = let clash : true ≡ false = sym h3 ∙ h in cc

-- An answer at a free frame.
refused_answer :
    (s : Pframe) (addr : ℕ) (q : Status × Pframe)
    → FreeReply s addr q
    → allocated s (addr / page_size) ≡ false
    → q ≡ (err_invalid, s)
refused_answer s addr _ (freed aligned lt e m) h = let clash : true ≡ false = sym e ∙ h in cc
refused_answer s addr _ (refused why) h = refl

-- `pframe_free` takes back what `pframe_alloc` gave out: every frame is as it was before, and a
-- second `pframe_free` of the address is refused, with nothing changed.
pub free-alloc :
    (s s' : Pframe) (addr : ℕ)
    → IsValid s
    → alloc s ≡ done (ok, some addr, s')
    → (s'' : Pframe) × (free s' addr ≡ done (ok, s''))
      × ((j : ℕ) → allocated s'' j ≡ allocated s j)
      × (free s'' addr ≡ done (err_invalid, s''))
free-alloc s s' addr v e =
    let (f, at, lt, free_before, m) = alloc-Got s s' addr v e in
    let here : addr / page_size ≡ f = omega arith in
    let (q, e', r) = free-FreeReply s' addr m.valid in
    let taken : allocated s' (addr / page_size) ≡ true = rw here (m.frames f ∙ ground arith) in
    let (s'', e'', m') = freed_answer s' addr q r (omega arith) (omega (arith, m.total)) taken in
    let gone : allocated s'' (addr / page_size) ≡ false =
      m'.frames (addr / page_size) ∙ ground arith in
    let (q', e3, r') = free-FreeReply s'' addr m'.valid in
    (
      s'',
      e' ∙ ap done e'',
      λ j. m'.frames j ∙ rw here (ground (arith, m.frames j, free_before)),
      e3 ∙ ap done (refused_answer s'' addr q' r' gone),
    )
