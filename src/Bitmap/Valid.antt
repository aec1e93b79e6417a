-- ===== src/Bitmap/Valid.antt =====
-- kernel/bitmap/bitmap.c as a set of bit indices: what each update does to the bits.
use native.Mathlib.Decide.{ℕ_discrete}
use ccoperating_system_x.Common.{
  ℕ, ◌/◌, ◌%◌, ◌^◌, ◌≤◌, ◌<◌, ◌≡◌, refl, Bool, false, done, panic, lt→ltb, ◌==◌, if◌then◌else◌,
  length, get_or, set as write, All, length-set, get_or-set_self, get_or-set_ne, get_or-All,
  set-All, arith,
}
use ccoperating_system_x.Bitmap.{
  Bitmap, byte_count, byte_at, bit_byte, byte_bitmask, has_bit, update, test,
}
use ccoperating_system_x.Bitmap.Bytes.{Updates, has_bit-zero}

-- The buffer holds bytes, and enough of them; the number of bits is a `size_t` that `ssize_t` holds.
pub record IsValid (bm : Bitmap) : Type 0 where
  pub bytes : All (λ b. b < 256) bm.bits
  pub storage : byte_count bm.nbits ≤ length bm.bits
  pub small : bm.nbits < 2 ^ 63

-- The bit of the index `j`.
unfoldable pub is_set : Bitmap → ℕ → Bool
is_set bm j = has_bit (byte_at bm (bit_byte j)) (byte_bitmask j)

-- The bits at which `p` holds become what `f` makes of them, the others stay, and so does the size.
pub record Wrote (f : Bool → Bool) (p : ℕ → Bool) (bm bm' : Bitmap) : Type 0 where
  pub valid : IsValid bm'
  pub same_size : bm'.nbits ≡ bm.nbits
  pub bit : (j : ℕ) → is_set bm' j ≡ (if p j then f (is_set bm j) else is_set bm j)

pub test_lem : (bm : Bitmap) (j : ℕ) → j < bm.nbits → test bm j ≡ done (is_set bm j)
unfolding test is_set
test_lem bm j h = rw (lt→ltb _ _ h)

pub is_set-zero : (bm : Bitmap) (j : ℕ) → byte_at bm (bit_byte j) ≡ 0 → is_set bm j ≡ false
unfolding is_set
is_set-zero bm j e = rw e (has_bit-zero (byte_bitmask j))

pub is_set_lem : (bm : Bitmap) → is_set bm ≡ (λ j. has_bit (get_or bm.bits (j / 8) 0) (2 ^ (j % 8)))
unfolding is_set
is_set_lem bm = refl

-- A test out of range fails its assertion.
pub test-panic : (bm : Bitmap) (j : ℕ) → bm.nbits ≤ j → test bm j ≡ panic
unfolding test
test-panic bm j h = ground arith

written : (ℕ → ℕ → ℕ) → Bitmap → ℕ → Bitmap
written op bm k = record bm {
  bits = write bm.bits (bit_byte k) (op (byte_at bm (bit_byte k)) (byte_bitmask k));
}

module _ (op : ℕ → ℕ → ℕ) (f : Bool → Bool) (u : Updates op f) (bm : Bitmap) (v : IsValid bm)
    (k : ℕ) (h : k < bm.nbits) where
  byte-lt : byte_at bm (bit_byte k) < 256
  byte-lt = get_or-All (λ b. b < 256) bm.bits (bit_byte k) 0 v.bytes (omega arith)

  same_byte :
      (j : ℕ)
      → k / 8 ≡ j / 8
      → is_set (written op bm k) j ≡ (if k == j then f (is_set bm j) else is_set bm j)
  unfolding is_set written
  same_byte j same =
      let e : (k == j) ≡ (k % 8 == j % 8) = ground arith in
      rw
        (
          ← same,
          get_or-set_self bm.bits (k / 8) (op (byte_at bm (k / 8)) (byte_bitmask k)) 0
              (omega (arith, v.storage)),
          e,
        )
        (u _ (k % 8) (j % 8) byte-lt (omega arith) (omega arith)).1

  bit-written :
      (j : ℕ) → is_set (written op bm k) j ≡ (if k == j then f (is_set bm j) else is_set bm j)
  unfolding is_set written
  bit-written j = elim (ℕ_discrete (k / 8) (j / 8)) [
    | yes same ↦ same_byte j same
    | no other ↦
        rw
          (get_or-set_ne bm.bits (k / 8) (j / 8) (op (byte_at bm (k / 8)) (byte_bitmask k)) 0 other)
          (ground arith)
  ]

  pub update-Wrote : (bm' : Bitmap) × (update op bm k ≡ done bm') × Wrote f (λ j. k == j) bm bm'
  unfolding update written
  update-Wrote = (
    written op bm k,
    rw (lt→ltb _ _ h),
    record {
      valid = record {
        bytes =
            set-All (λ b. b < 256) bm.bits _ _ v.bytes
              (u _ _ 0 byte-lt (omega arith) (omega arith)).0;
        storage = omega (
          arith,
          length-set bm.bits (bit_byte k) (op (byte_at bm (bit_byte k)) (byte_bitmask k)),
          v.storage,
        );
        small = v.small;
      };
      same_size = refl;
      bit = bit-written;
    },
  )
