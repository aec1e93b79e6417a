-- ===== src/Bitmap/Weight.antt =====
-- `bitmap_weight` of kernel/bitmap/bitmap.c counts the set bits.
use Prim.Native.Nat.{bit_and}
use native.Mathlib.Nat.{add-zero, zero-add}
use mathlib.Core.Path.{fun_ext}
use ccoperating_system_x.Common.{
  ℕ, zero, suc, ◌+◌, ◌-◌, ◌*◌, ◌/◌, ◌%◌, ◌^◌, ◌≤◌, ◌<◌, ◌≡◌, refl, ◌∙◌, Bool, true, false, List, [],
  ◌∷◌, ◌==◌, ==_iff, if◌then◌else◌, length, get_or, All, arith,
}
use ccoperating_system_x.Bitmap.{Bitmap, byte_count, has_bit, count_bits, weight_loop, weight}
use ccoperating_system_x.Bitmap.Bytes.{every, every_lem}
use ccoperating_system_x.Bitmap.Valid.{IsValid, is_set, is_set_lem}

-- How many of the indices below `n` satisfy `p`.
unfoldable pub count_true : (ℕ → Bool) → ℕ → ℕ
count_true p zero = 0
count_true p (suc n) = count_true p n + (if p n then 1 else 0)

count_true-add :
    (p : ℕ → Bool) (k m : ℕ) → count_true p (k + m) ≡ count_true p k + count_true (λ j. p (k + j)) m
unfolding count_true
count_true-add p k zero = rw (add-zero k) (omega arith)
count_true-add p k (suc m) =
    let e : k + suc m ≡ suc (k + m) = omega arith in rw e (omega (arith, count_true-add p k m))

count_true-zero : (p : ℕ → Bool) → count_true p 0 ≡ 0
unfolding count_true
count_true-zero p = refl

-- The loop of Kernighan on a byte counts its bits.
bits_table : every (λ b. count_bits 8 b 0 == count_true (λ k. has_bit b (2 ^ k)) 8) 256 ≡ true
unfolding every count_bits count_true has_bit
bits_table = refl

count_bits-add : (fuel byte count : ℕ) → count_bits fuel byte count ≡ count + count_bits fuel byte 0
unfolding count_bits
count_bits-add zero byte count = omega arith
count_bits-add (suc fuel) byte count = ground (
  arith,
  count_bits-add fuel (bit_and byte (byte - 1)) (count + 1),
  count_bits-add fuel (bit_and byte (byte - 1)) (0 + 1),
)

pub count_bits-eq-count_true :
    (b count : ℕ) → b < 256 → count_bits 8 b count ≡ count + count_true (λ k. has_bit b (2 ^ k)) 8
count_bits-eq-count_true b count h = omega (
  arith,
  count_bits-add 8 b count,
  (==_iff _ _).0 (
      every_lem (λ b. count_bits 8 b 0 == count_true (λ k. has_bit b (2 ^ k)) 8) 256 b h
        bits_table),
)

abbrev bit_of : List ℕ → ℕ → Bool
bit_of bs j = has_bit (get_or bs (j / 8) 0) (2 ^ (j % 8))

bit_of_cons : (b : ℕ) (bs : List ℕ) → (λ j. bit_of (b ∷ bs) (8 + j)) ≡ bit_of bs
bit_of_cons b bs = fun_ext λ j.
    let e : (8 + j) / 8 ≡ suc (j / 8) = omega arith in
    let e' : (8 + j) % 8 ≡ j % 8 = omega arith in rw (e, e')

bit_of_head :
    (b : ℕ) (bs : List ℕ) → count_true (bit_of (b ∷ bs)) 8 ≡ count_true (λ k. has_bit b (2 ^ k)) 8
unfolding count_true
bit_of_head b bs = refl

weight_loop-eq-count :
    (bs : List ℕ) (n count : ℕ)
    → All (λ b. b < 256) bs
    → n ≤ length bs
    → weight_loop bs n count ≡ count + count_true (bit_of bs) (8 * n)
unfolding weight_loop
weight_loop-eq-count [] n count h le =
    let e : n ≡ 0 = omega arith in rw e (omega (arith, count_true-zero (bit_of [])))
weight_loop-eq-count (b ∷ bs) zero count h le = omega (arith, count_true-zero (bit_of (b ∷ bs)))
weight_loop-eq-count (b ∷ bs) (suc n) count h le =
    let e : 8 * suc n ≡ 8 + 8 * n = omega arith in
    rw
      (
        e,
        count_true-add (bit_of (b ∷ bs)) 8 (8 * n),
        bit_of_cons b bs,
        bit_of_head b bs,
        weight_loop-eq-count bs n (count_bits 8 b count) h.1 (omega arith),
        count_bits-eq-count_true b count h.0,
      )
      (omega arith)

-- The bits that pad the last byte are clear.
abbrev pub IsClean : Bitmap → Type 0
IsClean bm = (j : ℕ) → bm.nbits ≤ j → j < 8 * byte_count bm.nbits → is_set bm j ≡ false

count_true-clear :
    (p : ℕ → Bool) (n m : ℕ)
    → ((j : ℕ) → n ≤ j → j < n + m → p j ≡ false)
    → count_true p (n + m) ≡ count_true p n
unfolding count_true
count_true-clear p n zero h = rw (add-zero n)
count_true-clear p n (suc m) h =
    let e : n + suc m ≡ suc (n + m) = omega arith in
    let c : p (n + m) ≡ false = h (n + m) (omega arith) (omega arith) in
    rw e (ground (arith, count_true-clear p n m (λ j lo hi. h j lo (omega arith))))

-- In a valid bitmap whose padding is clear, `bitmap_weight` is the number of indices that are set.
pub weight-eq-count :
    (bm : Bitmap) → IsValid bm → IsClean bm → weight bm ≡ count_true (is_set bm) bm.nbits
unfolding weight
weight-eq-count bm v c =
    let e : bm.nbits + (8 * byte_count bm.nbits - bm.nbits) ≡ 8 * byte_count bm.nbits =
      omega arith in
    weight_loop-eq-count bm.bits (byte_count bm.nbits) 0 v.bytes v.storage
    ∙ rw (← is_set_lem bm, ← e)
        (zero-add _
          ∙ count_true-clear (is_set bm) bm.nbits (8 * byte_count bm.nbits - bm.nbits)
              (λ j lo hi. c j lo (omega arith)))
