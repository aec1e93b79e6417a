-- ===== src/Bitmap/Fresh.antt =====
-- `bitmap_init` of kernel/bitmap/bitmap.c.
use ccoperating_system_x.Common.{
  ℕ, zero, suc, ◌/◌, ◌^◌, ◌≤◌, ◌<◌, ◌≡◌, refl, ap, false, List, [], ◌∷◌, done, lt→ltb, length,
  get_or, All, arith,
}
use ccoperating_system_x.Bitmap.{Bitmap, byte_count, clear_bytes, init}
use ccoperating_system_x.Bitmap.Valid.{IsValid, is_set, is_set-zero}

clear_bytes-bytes :
    (n : ℕ) (buffer : List ℕ)
    → All (λ b. b < 256) buffer
    → All (λ b. b < 256) (clear_bytes n buffer)
unfolding clear_bytes
clear_bytes-bytes zero buffer h = h
clear_bytes-bytes (suc n) [] h = tt
clear_bytes-bytes (suc n) (b ∷ buffer) h = (omega arith, clear_bytes-bytes n buffer h.1)

length-clear_bytes : (n : ℕ) (buffer : List ℕ) → length (clear_bytes n buffer) ≡ length buffer
unfolding clear_bytes
length-clear_bytes zero buffer = refl
length-clear_bytes (suc n) [] = refl
length-clear_bytes (suc n) (b ∷ buffer) = ap suc (length-clear_bytes n buffer)

get_or-clear_bytes : (n i : ℕ) (buffer : List ℕ) → i < n → get_or (clear_bytes n buffer) i 0 ≡ 0
unfolding clear_bytes
get_or-clear_bytes zero i buffer h = absurd (omega arith)
get_or-clear_bytes (suc n) i [] h = refl
get_or-clear_bytes (suc n) zero (b ∷ buffer) h = refl
get_or-clear_bytes (suc n) (suc i) (b ∷ buffer) h = get_or-clear_bytes n i buffer (omega arith)

-- Over a buffer of bytes that is large enough, `bitmap_init` returns a valid bitmap of the size
-- asked for in which no bit is set.
pub init-IsValid :
    (buffer : List ℕ) (nbits : ℕ)
    → 0 < nbits
    → nbits < 2 ^ 63
    → All (λ b. b < 256) buffer
    → byte_count nbits ≤ length buffer
    → (bm : Bitmap) × (init buffer nbits ≡ done bm)
      × IsValid bm
      × (bm.nbits ≡ nbits)
      × ((j : ℕ) → j < nbits → is_set bm j ≡ false)
unfolding init
init-IsValid buffer nbits pos small bytes room = (
  record { bits = clear_bytes (byte_count nbits) buffer; nbits = nbits },
  rw (lt→ltb _ _ pos),
  record {
    bytes = clear_bytes-bytes (byte_count nbits) buffer bytes;
    storage = omega (arith, length-clear_bytes (byte_count nbits) buffer);
    small = small;
  },
  refl,
  λ j h. is_set-zero _ j (get_or-clear_bytes (byte_count nbits) (j / 8) buffer (omega arith)),
)
