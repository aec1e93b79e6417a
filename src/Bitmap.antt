-- ===== src/Bitmap.antt =====
-- kernel/bitmap/bitmap.c and kernel/bitmap/bitmap_helper.h: bit arrays over a byte buffer.
-- The buffer is the list of the bytes behind `bits`; a read past it gives 0 and a write past it
-- changes nothing, and `Bitmap.Valid.IsValid` rules both out. `ssize_t` results are `none` for -1.
-- The build is the debug one, where `CCOS_DEBUG_ASSERT` checks too.
pub mod Bytes
pub mod Valid
pub mod Range
pub mod Fresh
pub mod Scan
pub mod Weight
pub mod Count
mod Tests
use Prim.Native.Nat.{bit_and, bit_or, bit_xor, min}
use ccoperating_system_x.Common.{
  ℕ, zero, suc, ◌+◌, ◌-◌, ◌*◌, ◌/◌, ◌%◌, ◌^◌, Bool, true, false, not, ◌&&◌, Option, none, some,
  List, [], ◌∷◌, Exec, done, panic, ◌>>=◌, ◌>>◌, assert, ltb, ◌==◌, if◌then◌else◌, get_or,
  set as write, replicate,
}

pub record Bitmap : Type 0 where
  pub bits : List ℕ
  pub nbits : ℕ

-- `bitCntToByteCnt`
abbrev pub byte_count : ℕ → ℕ
byte_count nbits = (nbits + 7) / 8

abbrev pub bit_index_valid : Bitmap → ℕ → Bool
bit_index_valid bm given_index = ltb given_index bm.nbits

abbrev pub byte_bitmask : ℕ → ℕ
byte_bitmask bit = 2 ^ (bit % 8)

abbrev pub bit_byte : ℕ → ℕ
bit_byte bit = bit / 8

abbrev pub byte_at : Bitmap → ℕ → ℕ
byte_at bm i = get_or bm.bits i 0

-- `memset(buffer, 0, bytes)` at the front of a buffer.
pub clear_bytes : ℕ → List ℕ → List ℕ
clear_bytes zero buffer = buffer
clear_bytes (suc n) [] = []
clear_bytes (suc n) (b ∷ buffer) = 0 ∷ clear_bytes n buffer

pub init : List ℕ → ℕ → Exec Bitmap
init buffer nbits = do
  assert (ltb 0 nbits)
  done (record { bits = clear_bytes (byte_count nbits) buffer; nbits = nbits })

-- The byte of `bit` after one of the four updates.
unfoldable pub set_bit : ℕ → ℕ → ℕ
set_bit byte mask = bit_or byte mask

-- `byte & ~mask`, truncated to a byte.
pub clear_bit : ℕ → ℕ → ℕ
clear_bit byte mask = bit_and byte (bit_xor 255 mask)

pub flip_bit : ℕ → ℕ → ℕ
flip_bit byte mask = bit_xor byte mask

unfoldable pub has_bit : ℕ → ℕ → Bool
has_bit byte mask = not (bit_and byte mask == 0)

unfoldable pub update : (ℕ → ℕ → ℕ) → Bitmap → ℕ → Exec Bitmap
update op bm bit = do
  assert (bit_index_valid bm bit)
  done (record bm {
    bits = write bm.bits (bit_byte bit) (op (byte_at bm (bit_byte bit)) (byte_bitmask bit));
  })

unfoldable pub set : Bitmap → ℕ → Exec Bitmap
unfolding update
set bm bit = update set_bit bm bit

pub clear : Bitmap → ℕ → Exec Bitmap
unfolding update
clear bm bit = update clear_bit bm bit

pub flip : Bitmap → ℕ → Exec Bitmap
unfolding update
flip bm bit = update flip_bit bm bit

unfoldable pub test : Bitmap → ℕ → Exec Bool
test bm bit = do
  assert (bit_index_valid bm bit)
  done (has_bit (byte_at bm (bit_byte bit)) (byte_bitmask bit))

-- `for (i = start; i < end; i++)`, with the rounds that are left.
unfoldable pub set_loop : ℕ → ℕ → Bitmap → Exec Bitmap
set_loop zero i bm = done bm
set_loop (suc n) i bm = elim (set bm i) [ panic ↦ panic | done bm' ↦ set_loop n (i + 1) bm' ]

clear_loop : ℕ → ℕ → Bitmap → Exec Bitmap
clear_loop zero i bm = done bm
clear_loop (suc n) i bm = elim (clear bm i) [ panic ↦ panic | done bm' ↦ clear_loop n (i + 1) bm' ]

-- `min(start + count, bm->nbits)`: the sum wraps.
abbrev pub range_end : Bitmap → ℕ → ℕ → ℕ
range_end bm start count = min ((start + count) % 2 ^ 64) bm.nbits

unfoldable pub set_range : Bitmap → ℕ → ℕ → Exec Bitmap
unfolding set_loop
set_range bm start count = do
  assert (ltb 0 count)
  set_loop (range_end bm start count - start) start bm

pub clear_range : Bitmap → ℕ → ℕ → Exec Bitmap
unfolding clear_loop
clear_range bm start count = do
  assert (ltb 0 count)
  clear_loop (range_end bm start count - start) start bm

unfoldable pub find_zero_loop : ℕ → ℕ → Bitmap → Exec (Option ℕ)
find_zero_loop zero i bm = done none
find_zero_loop (suc n) i bm = elim (test bm i) [
  | panic ↦ panic
  | done true ↦ find_zero_loop n (i + 1) bm
  | done false ↦ done (some i)
]

find_set_loop : ℕ → ℕ → Bitmap → Exec (Option ℕ)
find_set_loop zero i bm = done none
find_set_loop (suc n) i bm = elim (test bm i) [
  | panic ↦ panic
  | done true ↦ done (some i)
  | done false ↦ find_set_loop n (i + 1) bm
]

unfoldable pub find_next_zero : Bitmap → ℕ → Exec (Option ℕ)
unfolding find_zero_loop
find_next_zero bm start = find_zero_loop (bm.nbits - start) start bm

pub find_next_set : Bitmap → ℕ → Exec (Option ℕ)
unfolding find_set_loop
find_next_set bm start = find_set_loop (bm.nbits - start) start bm

pub find_first_zero : Bitmap → Exec (Option ℕ)
unfolding find_next_zero
find_first_zero bm = find_next_zero bm 0

pub find_first_set : Bitmap → Exec (Option ℕ)
unfolding find_next_set
find_first_set bm = find_next_set bm 0

-- `while (byte) { byte &= byte - 1; count++; }`; eight rounds are enough for a byte
-- (`Bitmap.Weight.count_bits-eq-count_true`).
pub count_bits : ℕ → ℕ → ℕ → ℕ
count_bits zero byte count = count
count_bits (suc fuel) byte count = elim (byte == 0) [
  | true ↦ count
  | false ↦ count_bits fuel (bit_and byte (byte - 1)) (count + 1)
]

pub weight_loop : List ℕ → ℕ → ℕ → ℕ
weight_loop [] n count = count
weight_loop (b ∷ bs) zero count = count
weight_loop (b ∷ bs) (suc n) count = weight_loop bs n (count_bits 8 b count)

pub weight : Bitmap → ℕ
unfolding weight_loop
weight bm = weight_loop bm.bits (byte_count bm.nbits) 0

pub full : Bitmap → Bool
full bm = weight bm == bm.nbits

pub empty : Bitmap → Bool
empty bm = weight bm == 0
