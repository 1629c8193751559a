-- ===== src/Base/Masks.antt =====
-- The bound that a mask gives, from the definition by binary digits.
use Prim.Native.Nat.{ℕ, zero, suc, ◌/◌, ◌≤◌, min, bit_and, digits, bit_and-bitwise}
use native.Mathlib.Omega.{arith}

digits-mask : (count number mask : ℕ) → digits (λ rest. zero) min count number mask ≤ mask
digits-mask zero zero mask = omega arith
digits-mask (suc count) zero mask = omega arith
digits-mask zero (suc number) mask = omega arith
digits-mask (suc count) (suc number) mask =
    let halves : digits (λ rest. zero) min count (suc number / 2) (mask / 2) ≤ mask / 2 =
      digits-mask count (suc number / 2) (mask / 2) in
    omega arith

-- A mask bounds what it leaves.
pub bit_and-mask : (number mask : ℕ) → bit_and number mask ≤ mask
bit_and-mask zero mask = omega (arith, bit_and-bitwise 0 mask)
bit_and-mask (suc number) mask =
    omega (arith, bit_and-bitwise (suc number) mask, digits-mask (suc number) (suc number) mask)
