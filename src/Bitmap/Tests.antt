-- ===== src/Bitmap/Tests.antt =====
-- The bitmaps of kernel/bitmap/bitmap.c on concrete buffers.
use ccoperating_system_x.Common.{◌≡◌, refl, some, [], ◌∷◌, done, panic, arith}
use ccoperating_system_x.Bitmap.{
  Bitmap, set, update, set_range, set_loop, find_next_zero, find_zero_loop, test, weight,
  weight_loop, count_bits, has_bit, set_bit,
}
use ccoperating_system_x.Bitmap.Valid.{IsValid}
use ccoperating_system_x.Bitmap.Weight.{IsClean}

-- The bits 0, 1, 2 and 12 are set.
abbrev some_set : Bitmap
some_set = record { bits = 7 ∷ 16 ∷ []; nbits = 16 }

some_set-IsValid : IsValid some_set
some_set-IsValid = record {
  bytes = (omega arith, (omega arith, tt));
  storage = omega arith;
  small = omega arith;
}

some_set-IsClean : IsClean some_set
some_set-IsClean j h h' = absurd (omega arith)

scan : find_next_zero some_set 1 ≡ done (some 3)
unfolding find_next_zero find_zero_loop test has_bit
scan = refl

range : set_range some_set 2 8 ≡ done (record { bits = 255 ∷ 19 ∷ []; nbits = 16 })
unfolding set_range set_loop set update set_bit
range = refl

out_of_range : set some_set 16 ≡ panic
unfolding set update
out_of_range = refl

weight-some_set : weight some_set ≡ 4
unfolding weight weight_loop count_bits
weight-some_set = refl
