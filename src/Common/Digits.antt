-- ===== src/Common/Digits.antt =====
-- Single bits of `|` and `&`.
use Prim.Native.Nat.{ℕ, zero, suc, ◌/◌, ◌%◌, ◌^◌, ◌<◌, min, max, bit_and, bit_or}
use mathlib.Core.Path.{◌≡◌, refl, ap, sym, ◌∙◌}
use native.Mathlib.Omega.{arith}
use emac_driver.Common.Bits.{bit_or-halves, bit_and-halves, bit_and-ones, div_pow}

max_bit : (a b : ℕ) → max (a % 2) (b % 2) < 2
max_bit a b = ground arith

min_bit : (a b : ℕ) → min (a % 2) (b % 2) < 2
min_bit a b = ground arith

half_or : (a b : ℕ) → bit_or a b / 2 ≡ bit_or (a / 2) (b / 2)
half_or a b = omega (arith, bit_or-halves a b, max_bit a b)

half_and : (a b : ℕ) → bit_and a b / 2 ≡ bit_and (a / 2) (b / 2)
half_and a b = omega (arith, bit_and-halves a b, min_bit a b)

bit_above : (k x : ℕ) → x / 2 ^ suc k % 2 ≡ x / 2 / 2 ^ k % 2
bit_above k x = ap (λ (t : ℕ). t % 2) (div_pow x k)

-- Bit `k` of `|` and of `&`.
pub bit_or_at : (k x y : ℕ) → bit_or x y / 2 ^ k % 2 ≡ max (x / 2 ^ k % 2) (y / 2 ^ k % 2)
bit_or_at zero x y = omega (arith, bit_or-halves x y, max_bit x y)
bit_or_at (suc k) x y =
    rw (bit_above k (bit_or x y), bit_above k x, bit_above k y)
      (ap (λ (t : ℕ). t / 2 ^ k % 2) (half_or x y) ∙ bit_or_at k (x / 2) (y / 2))

pub bit_and_at : (k x y : ℕ) → bit_and x y / 2 ^ k % 2 ≡ min (x / 2 ^ k % 2) (y / 2 ^ k % 2)
bit_and_at zero x y = omega (arith, bit_and-halves x y, min_bit x y)
bit_and_at (suc k) x y =
    rw (bit_above k (bit_and x y), bit_above k x, bit_above k y)
      (ap (λ (t : ℕ). t / 2 ^ k % 2) (half_and x y) ∙ bit_and_at k (x / 2) (y / 2))

-- `u32` keeps the bits below 32, in the form of a mask.
pub low_bit_at : (k x : ℕ) → x % 2 ^ 32 / 2 ^ k % 2 ≡ min (x / 2 ^ k % 2) (0xFFFFFFFF / 2 ^ k % 2)
low_bit_at k x =
    ap (λ (t : ℕ). t / 2 ^ k % 2) (sym (bit_and-ones 32 x 0xFFFFFFFF refl))
    ∙ bit_and_at k x 0xFFFFFFFF
