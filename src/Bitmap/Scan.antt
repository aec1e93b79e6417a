-- ===== src/Bitmap/Scan.antt =====
-- The scans of kernel/bitmap/bitmap.c: they find the first bit of their kind, if there is one.
use native.Mathlib.Decide.{dec_lt}
use mathlib.Core.Bool.{not}
use mathlib.Core.Path.{subst}
use ccoperating_system_x.Common.{
  ℕ, zero, suc, ◌+◌, ◌-◌, ◌≤◌, ◌<◌, ◌≡◌, refl, inl, inr, Bool, true, false, Option, none, some,
  done, Bool-cases, arith,
}
use ccoperating_system_x.Bitmap.{
  Bitmap, find_zero_loop, find_set_loop, find_next_zero, find_next_set, find_first_zero,
}
use ccoperating_system_x.Bitmap.Valid.{is_set, test_lem}

-- What a scan from `i` for bits of value `b` reports: the first one, or that there is none up to
-- `end`.
pub data Found (b : Bool) (bm : Bitmap) (i end : ℕ) : Option ℕ → Type 0 where
  hit :
      (k : ℕ)
      → i ≤ k
      → k < end
      → is_set bm k ≡ b
      → ((j : ℕ) → i ≤ j → j < k → is_set bm j ≡ not b)
      → Found b bm i end (some k)
  miss : ((j : ℕ) → i ≤ j → j < end → is_set bm j ≡ not b) → Found b bm i end none

-- One more index in front that does not count.
Found-skip :
    (b : Bool) (bm : Bitmap) (i end : ℕ) {r : Option ℕ}
    → is_set bm i ≡ not b
    → Found b bm (i + 1) end r
    → Found b bm i end r
Found-skip b bm i end e (hit k lo hi is before) =
    hit k (omega arith) hi is
      λ j p q. elim (dec_lt i j) [ yes h ↦ before j (omega arith) q | no h ↦ at j e (omega arith) ]
  where
    at : (j : ℕ) → is_set bm i ≡ not b → j ≡ i → is_set bm j ≡ not b
    at j e same = rw same e
Found-skip b bm i end e (miss none_at) =
    miss
      λ j p q. elim (dec_lt i j) [ yes h ↦ none_at j (omega arith) q | no h ↦ at j e (omega arith) ]
  where
    at : (j : ℕ) → is_set bm i ≡ not b → j ≡ i → is_set bm j ≡ not b
    at j e same = rw same e

find_zero_loop-Found :
    (n i : ℕ) (bm : Bitmap)
    → i + n ≤ bm.nbits
    → (r : Option ℕ) × (find_zero_loop n i bm ≡ done r) × Found false bm i (i + n) r
unfolding find_zero_loop
find_zero_loop-Found zero i bm h = (none, refl, miss λ j p q. absurd (omega arith))
find_zero_loop-Found (suc n) i bm h = elim (Bool-cases (is_set bm i)) [
  | inl e ↦
      let (r, e', f) = find_zero_loop-Found n (i + 1) bm (omega arith) in
      let s : i + 1 + n ≡ i + suc n = omega arith in
      (
        r,
        rw (test_lem bm i (omega arith), e, find_zero_loop) e',
        Found-skip false bm i (i + suc n) e (rw s at f),
      )
  | inr e ↦ (
    some i,
    rw (test_lem bm i (omega arith), e, find_zero_loop),
    hit i (omega arith) (omega arith) e λ j p q. absurd (omega arith),
  )
]

find_set_loop-Found :
    (n i : ℕ) (bm : Bitmap)
    → i + n ≤ bm.nbits
    → (r : Option ℕ) × (find_set_loop n i bm ≡ done r) × Found true bm i (i + n) r
unfolding find_set_loop
find_set_loop-Found zero i bm h = (none, refl, miss λ j p q. absurd (omega arith))
find_set_loop-Found (suc n) i bm h = elim (Bool-cases (is_set bm i)) [
  | inr e ↦
      let (r, e', f) = find_set_loop-Found n (i + 1) bm (omega arith) in
      let s : i + 1 + n ≡ i + suc n = omega arith in
      (
        r,
        rw (test_lem bm i (omega arith), e, find_set_loop) e',
        Found-skip true bm i (i + suc n) e (rw s at f),
      )
  | inl e ↦ (
    some i,
    rw (test_lem bm i (omega arith), e, find_set_loop),
    hit i (omega arith) (omega arith) e λ j p q. absurd (omega arith),
  )
]

-- `bitmap_find_next_zero` returns, with the first clear bit from `start` on, or with -1 where every
-- bit from `start` on is set.
pub find_next_zero-Found :
    (bm : Bitmap) (start : ℕ)
    → (r : Option ℕ) × (find_next_zero bm start ≡ done r) × Found false bm start bm.nbits r
unfolding find_next_zero
find_next_zero-Found bm start = elim (dec_lt bm.nbits start) [
  | yes h ↦
      let e : bm.nbits - start ≡ 0 = omega arith in
      (none, rw e refl, miss λ j p q. absurd (omega arith))
  | no h ↦
      let e : start + (bm.nbits - start) ≡ bm.nbits = omega arith in
      let (r, e', f) = find_zero_loop-Found (bm.nbits - start) start bm (omega arith) in
      (r, e', subst (λ k. Found false bm start k r) e f)
]

-- `bitmap_find_next_set` returns, with the first set bit from `start` on, or with -1 where every
-- bit from `start` on is clear.
pub find_next_set-Found :
    (bm : Bitmap) (start : ℕ)
    → (r : Option ℕ) × (find_next_set bm start ≡ done r) × Found true bm start bm.nbits r
unfolding find_next_set
find_next_set-Found bm start = elim (dec_lt bm.nbits start) [
  | yes h ↦
      let e : bm.nbits - start ≡ 0 = omega arith in
      (none, rw e refl, miss λ j p q. absurd (omega arith))
  | no h ↦
      let e : start + (bm.nbits - start) ≡ bm.nbits = omega arith in
      let (r, e', f) = find_set_loop-Found (bm.nbits - start) start bm (omega arith) in
      (r, e', subst (λ k. Found true bm start k r) e f)
]

pub find_first_zero-Found :
    (bm : Bitmap) → (r : Option ℕ) × (find_first_zero bm ≡ done r) × Found false bm 0 bm.nbits r
unfolding find_first_zero
find_first_zero-Found bm = find_next_zero-Found bm 0
