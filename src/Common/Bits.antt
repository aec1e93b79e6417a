-- ===== src/Common/Bits.antt =====
-- Bounds on the bit operations of the kernel's masks.
use Prim.Native.Nat.{ℕ, zero, suc, ◌/◌, ◌%◌, ◌≤◌, min, bit_and, digits, bit_and-bitwise}
use native.Mathlib.Omega.{arith}

-- Digits that are chosen below those of the mask make a number below the mask.
module _ (choose : ℕ → ℕ → ℕ) (below : (a b : ℕ) → choose a b ≤ b) where
  digits_below_mask : (mask n rounds : ℕ) → digits (λ a. 0) choose rounds n mask ≤ mask
  digits_below_mask mask n zero = omega arith
  digits_below_mask mask zero (suc rounds) = omega arith
  digits_below_mask mask (suc n) (suc rounds) =
      omega (arith, below (suc n % 2) (mask % 2), digits_below_mask (mask / 2) (suc n / 2) rounds)

-- `x & m` is at most `m`.
pub bit_and-le : (x m : ℕ) → bit_and x m ≤ m
bit_and-le x m =
    omega (arith, digits_below_mask min (λ a b. omega arith) m x x, bit_and-bitwise x m)
