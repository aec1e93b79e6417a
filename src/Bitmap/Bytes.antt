-- ===== src/Bitmap/Bytes.antt =====
-- The bit updates of kernel/bitmap/bitmap.c on one byte, by evaluation over every byte and bit.
use Prim.Native.Nat.{bit_and-bitwise}
use ccoperating_system_x.Common.{
  ℕ, zero, suc, ◌^◌, ◌<◌, ◌≡◌, refl, Bool, true, false, not, ◌&&◌, ◌==◌, ltb, if◌then◌else◌, arith,
}
use ccoperating_system_x.Bitmap.{set_bit, clear_bit, flip_bit, has_bit}

-- Whether a test holds at each of the numbers below a bound.
unfoldable pub every : (ℕ → Bool) → ℕ → Bool
every test zero = true
every test (suc bound) = if every test bound then test bound else false

pub every_lem :
    (test : ℕ → Bool) (bound i : ℕ) → i < bound → every test bound ≡ true → test i ≡ true
unfolding every
every_lem test zero i small holds = absurd (omega arith)
every_lem test (suc bound) i small holds = ground (arith, every_lem test bound i)

bool_eq : Bool → Bool → Bool
bool_eq true b = b
bool_eq false b = not b

bool_eq_sound : (a b : Bool) → bool_eq a b ≡ true → a ≡ b
unfolding bool_eq
bool_eq_sound a b h = ground arith

-- What a byte update has to satisfy: it stays a byte, and bit j changes as `f` says.
law : (ℕ → ℕ → ℕ) → (Bool → Bool) → ℕ → ℕ → ℕ → Bool
unfolding bool_eq
law op f b k j =
    ltb (op b (2 ^ k)) 256
    && bool_eq (has_bit (op b (2 ^ k)) (2 ^ j))
        (if k == j then f (has_bit b (2 ^ j)) else has_bit b (2 ^ j))

table : (ℕ → ℕ → ℕ) → (Bool → Bool) → Bool
unfolding law
table op f = every (λ b. every (λ k. every (law op f b k) 8) 8) 256

set_table : table set_bit (λ _. true) ≡ true
unfolding table every set_bit has_bit
set_table = refl

clear_table : table clear_bit (λ _. false) ≡ true
unfolding table every clear_bit has_bit
clear_table = refl

flip_table : table flip_bit not ≡ true
unfolding table every flip_bit has_bit
flip_table = refl

-- The law at one byte and two bits, out of the table.
table_lem :
    (op : ℕ → ℕ → ℕ) (f : Bool → Bool) (b k j : ℕ)
    → table op f ≡ true
    → b < 256
    → k < 8
    → j < 8
    → law op f b k j ≡ true
unfolding table
table_lem op f b k j t hb hk hj = every_lem (law op f b k) 8 j hj (
    every_lem (λ k. every (law op f b k) 8) 8 k hk
      (every_lem (λ b. every (λ k. every (law op f b k) 8) 8) 256 b hb t))

-- What a byte update does: the result is a byte, and only bit `k` changes, as `f` says.
abbrev pub Updates : (ℕ → ℕ → ℕ) → (Bool → Bool) → Type 0
Updates op f =
    (b k j : ℕ)
    → b < 256
    → k < 8
    → j < 8
    → (op b (2 ^ k) < 256)
      × (has_bit (op b (2 ^ k)) (2 ^ j)
          ≡ (if k == j then f (has_bit b (2 ^ j)) else has_bit b (2 ^ j)))

law-Updates : (op : ℕ → ℕ → ℕ) (f : Bool → Bool) → table op f ≡ true → Updates op f
unfolding law
law-Updates op f t b k j hb hk hj = ground (
  arith,
  table_lem op f b k j t hb hk hj,
  bool_eq_sound (has_bit (op b (2 ^ k)) (2 ^ j))
      (if k == j then f (has_bit b (2 ^ j)) else has_bit b (2 ^ j)),
)

pub set_bit-Updates : Updates set_bit (λ _. true)
set_bit-Updates = law-Updates set_bit (λ _. true) set_table

pub clear_bit-Updates : Updates clear_bit (λ _. false)
clear_bit-Updates = law-Updates clear_bit (λ _. false) clear_table

pub flip_bit-Updates : Updates flip_bit not
flip_bit-Updates = law-Updates flip_bit not flip_table

pub has_bit-zero : (mask : ℕ) → has_bit 0 mask ≡ false
unfolding has_bit
has_bit-zero mask = rw (bit_and-bitwise 0 mask)
