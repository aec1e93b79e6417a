-- ===== src/Bitmap/Range.antt =====
-- kernel/bitmap/bitmap.c: single bits, ranges and the fresh bitmap, as updates of the set of bits.
use native.Mathlib.Decide.{dec_lt}
use native.Mathlib.Nat.{add-zero}
use ccoperating_system_x.Common.{
  ℕ, zero, suc, ◌+◌, ◌-◌, ◌^◌, ◌≤◌, ◌<◌, ◌≡◌, refl, ap, ◌∙◌, Bool, true, false, not, ◌&&◌, done,
  panic, ltb, leb, lt→ltb, ◌==◌, if◌then◌else◌, arith,
}
use ccoperating_system_x.Bitmap.{
  Bitmap, set_bit, clear_bit, flip_bit, set, clear, flip, set_loop, clear_loop, set_range,
  clear_range, range_end,
}
use ccoperating_system_x.Bitmap.Bytes.{set_bit-Updates, clear_bit-Updates, flip_bit-Updates}
use ccoperating_system_x.Bitmap.Valid.{IsValid, Wrote, is_set, update-Wrote}

module _ (bm : Bitmap) (v : IsValid bm) (k : ℕ) (h : k < bm.nbits) where
  pub set-Wrote : (bm' : Bitmap) × (set bm k ≡ done bm') × Wrote (λ _. true) (λ j. k == j) bm bm'
  unfolding set
  set-Wrote = update-Wrote set_bit (λ _. true) set_bit-Updates bm v k h

  pub clear-Wrote :
      (bm' : Bitmap) × (clear bm k ≡ done bm') × Wrote (λ _. false) (λ j. k == j) bm bm'
  unfolding clear
  clear-Wrote = update-Wrote clear_bit (λ _. false) clear_bit-Updates bm v k h

  -- `bitmap_flip` of an index that a valid bitmap has returns; it turns that bit over, and leaves
  -- every other bit and the size.
  pub flip-Wrote : (bm' : Bitmap) × (flip bm k ≡ done bm') × Wrote not (λ j. k == j) bm bm'
  unfolding flip
  flip-Wrote = update-Wrote flip_bit not flip_bit-Updates bm v k h

-- The indices from `start` on, up to `end`.
abbrev pub within : ℕ → ℕ → ℕ → Bool
within start end j = leb start j && ltb j end

-- The empty range.
Wrote-none : (f : Bool → Bool) (i : ℕ) (bm : Bitmap) → IsValid bm → Wrote f (within i i) bm bm
Wrote-none f i bm v = record { valid = v; same_size = refl; bit = λ j. ground arith }

-- The range from `i` on is the bit `i` and the range behind it.
Wrote-cons :
    (b : Bool) (i end : ℕ) (bm bm' bm'' : Bitmap)
    → i < end
    → Wrote (λ _. b) (λ j. i == j) bm bm'
    → Wrote (λ _. b) (within (i + 1) end) bm' bm''
    → Wrote (λ _. b) (within i end) bm bm''
Wrote-cons b i end bm bm' bm'' h w w' = record {
  valid = w'.valid;
  same_size = w'.same_size ∙ w.same_size;
  bit = λ j. ground (arith, w.bit j, w'.bit j);
}

set_loop-Wrote :
    (n i : ℕ) (bm : Bitmap)
    → IsValid bm
    → i + n ≤ bm.nbits
    → (bm' : Bitmap) × (set_loop n i bm ≡ done bm') × Wrote (λ _. true) (within i (i + n)) bm bm'
unfolding set_loop
set_loop-Wrote zero i bm v h = (bm, refl, rw add-zero (Wrote-none (λ _. true) i bm v))
set_loop-Wrote (suc n) i bm v h =
    let (bm', e, w) = set-Wrote bm v i (omega arith) in
    let (bm'', e', w') = set_loop-Wrote n (i + 1) bm' w.valid (omega (arith, w.same_size)) in
    (
      bm'',
      rw (e, set_loop) e',
      Wrote-cons true i (i + suc n) bm bm' bm'' (omega arith) w
          (let s : i + 1 + n ≡ i + suc n = omega arith in rw s at w'),
    )

clear_loop-Wrote :
    (n i : ℕ) (bm : Bitmap)
    → IsValid bm
    → i + n ≤ bm.nbits
    → (bm' : Bitmap) × (clear_loop n i bm ≡ done bm') × Wrote (λ _. false) (within i (i + n)) bm bm'
unfolding clear_loop
clear_loop-Wrote zero i bm v h = (bm, refl, rw add-zero (Wrote-none (λ _. false) i bm v))
clear_loop-Wrote (suc n) i bm v h =
    let (bm', e, w) = clear-Wrote bm v i (omega arith) in
    let (bm'', e', w') = clear_loop-Wrote n (i + 1) bm' w.valid (omega (arith, w.same_size)) in
    (
      bm'',
      rw (e, clear_loop) e',
      Wrote-cons false i (i + suc n) bm bm' bm'' (omega arith) w
          (let s : i + 1 + n ≡ i + suc n = omega arith in rw s at w'),
    )

-- Two descriptions of the same indices.
Wrote-ext :
    (f : Bool → Bool) (p q : ℕ → Bool) (bm bm' : Bitmap)
    → ((j : ℕ) → p j ≡ q j)
    → Wrote f p bm bm'
    → Wrote f q bm bm'
Wrote-ext f p q bm bm' e w = record {
  valid = w.valid;
  same_size = w.same_size;
  bit = λ j. w.bit j ∙ ap (λ b. if b then f (is_set bm j) else is_set bm j) (e j);
}

-- The indices of a range that exist.
abbrev pub in_range : Bitmap → ℕ → ℕ → ℕ → Bool
in_range bm start count j = within start (start + count) j && ltb j bm.nbits

rounds : Bitmap → ℕ → ℕ → ℕ
rounds bm start count = range_end bm start count - start

rounds_range :
    (bm : Bitmap) (start count j : ℕ)
    → start + count < 2 ^ 64
    → within start (start + rounds bm start count) j ≡ in_range bm start count j
unfolding rounds
rounds_range bm start count j h = ground arith

rounds-outside : (bm : Bitmap) (start count : ℕ) → bm.nbits < start → rounds bm start count ≡ 0
unfolding rounds
rounds-outside bm start count h = omega arith

rounds-inside :
    (bm : Bitmap) (start count : ℕ) → start ≤ bm.nbits → start + rounds bm start count ≤ bm.nbits
unfolding rounds
rounds-inside bm start count h = omega arith

module _ (bm : Bitmap) (start count : ℕ) (v : IsValid bm) (pos : 0 < count)
    (small : start + count < 2 ^ 64) where
  outside : (b : Bool) → bm.nbits < start → Wrote (λ _. b) (in_range bm start count) bm bm
  outside b h = record { valid = v; same_size = refl; bit = λ j. ground arith }

  set_rounds :
      (bm' : Bitmap) × (set_loop (rounds bm start count) start bm ≡ done bm')
      × Wrote (λ _. true) (in_range bm start count) bm bm'
  unfolding set_loop
  set_rounds = elim (dec_lt bm.nbits start) [
    | yes h ↦ (bm, rw (rounds-outside bm start count h), outside true h)
    | no h ↦
        let (bm', e, w) =
          set_loop-Wrote (rounds bm start count) start bm v
            (rounds-inside bm start count (omega arith)) in
        (
          bm',
          e,
          Wrote-ext (λ _. true) _ (in_range bm start count) bm bm'
              (λ j. rounds_range bm start count j small) w,
        )
  ]

  clear_rounds :
      (bm' : Bitmap) × (clear_loop (rounds bm start count) start bm ≡ done bm')
      × Wrote (λ _. false) (in_range bm start count) bm bm'
  unfolding clear_loop
  clear_rounds = elim (dec_lt bm.nbits start) [
    | yes h ↦ (bm, rw (rounds-outside bm start count h), outside false h)
    | no h ↦
        let (bm', e, w) =
          clear_loop-Wrote (rounds bm start count) start bm v
            (rounds-inside bm start count (omega arith)) in
        (
          bm',
          e,
          Wrote-ext (λ _. false) _ (in_range bm start count) bm bm'
              (λ j. rounds_range bm start count j small) w,
        )
  ]

  -- On a valid bitmap, at a count that is not 0 and where `start + count` does not wrap,
  -- `bitmap_set_range` returns; it sets the bits of the range
  -- that the bitmap has, and leaves every other bit and the size as they were.
  pub set_range-Wrote :
      (bm' : Bitmap) × (set_range bm start count ≡ done bm')
      × Wrote (λ _. true) (in_range bm start count) bm bm'
  unfolding set_range rounds
  set_range-Wrote = rw (lt→ltb _ _ pos) set_rounds

  -- On a valid bitmap, at a count that is not 0 and where `start + count` does not wrap,
  -- `bitmap_clear_range` returns; it clears the bits of the
  -- range that the bitmap has, and leaves every other bit and the size as they were.
  pub clear_range-Wrote :
      (bm' : Bitmap) × (clear_range bm start count ≡ done bm')
      × Wrote (λ _. false) (in_range bm start count) bm bm'
  unfolding clear_range rounds
  clear_range-Wrote = rw (lt→ltb _ _ pos) clear_rounds

-- An empty range fails its assertion.
pub range-panic :
    (bm : Bitmap) (start : ℕ) → (set_range bm start 0 ≡ panic) × (clear_range bm start 0 ≡ panic)
unfolding set_range clear_range
range-panic bm start = (refl, refl)
