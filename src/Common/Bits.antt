-- ===== src/Common/Bits.antt =====
-- `|` and `&` at variables, from the digit recursion that the native operations stand for.
use Prim.Native.Nat.{
  ℕ, zero, suc, ◌+◌, ◌*◌, ◌/◌, ◌%◌, ◌^◌, ◌≤◌, ◌<◌, min, max, digits, bitwise, bit_and, bit_or,
  bit_and-bitwise, bit_or-bitwise,
}
use mathlib.Core.Path.{◌≡◌, refl, ap, sym, subst}
use native.Mathlib.Nat.{pow-suc, div-one, div-add-mod', div-div-eq-div-mul}
use native.Mathlib.Omega.{arith}

-- Any fuel from the first operand on gives the same digits.
module _ (left_only : ℕ → ℕ) (both : ℕ → ℕ → ℕ) where
  digits_enough :
      (fuel more x y : ℕ)
      → x ≤ fuel
      → x ≤ more
      → digits left_only both more x y ≡ digits left_only both fuel x y
  digits_enough zero zero zero y h k = refl
  digits_enough (suc fuel) zero zero y h k = refl
  digits_enough zero (suc more) zero y h k = refl
  digits_enough (suc fuel) (suc more) zero y h k = refl
  digits_enough zero more (suc x) y h k = absurd (omega arith)
  digits_enough (suc fuel) zero (suc x) y h k = absurd (omega arith)
  digits_enough (suc fuel) (suc more) (suc x) y h k =
      omega (arith, digits_enough fuel more (suc x / 2) (y / 2) (omega arith) (omega arith))

  lowest_digit :
      (x y : ℕ)
      → bitwise left_only both (suc x) y
        ≡ bitwise left_only both (suc x / 2) (y / 2) * 2 + both (suc x % 2) (y % 2)
  lowest_digit x y =
      omega (arith, digits_enough (suc x / 2) x (suc x / 2) (y / 2) (omega arith) (omega arith))

pub bit_or-halves : (x y : ℕ) → bit_or x y ≡ bit_or (x / 2) (y / 2) * 2 + max (x % 2) (y % 2)
bit_or-halves zero y = omega (arith, bit_or-bitwise 0 y, bit_or-bitwise 0 (y / 2))
bit_or-halves (suc x) y = simp (bit_or-bitwise) (lowest_digit (λ d. d) max x y)

pub bit_and-halves : (x y : ℕ) → bit_and x y ≡ bit_and (x / 2) (y / 2) * 2 + min (x % 2) (y % 2)
bit_and-halves zero y = omega (arith, bit_and-bitwise 0 y, bit_and-bitwise 0 (y / 2))
bit_and-halves (suc x) y = simp (bit_and-bitwise) (lowest_digit (λ d. 0) min x y)

or_zero_below : (bound x : ℕ) → x ≤ bound → bit_or x 0 ≡ x
or_zero_below bound zero h = bit_or-bitwise 0 0
or_zero_below zero (suc x) h = absurd (omega arith)
or_zero_below (suc bound) (suc x) h =
    omega (arith, bit_or-halves (suc x) 0, or_zero_below bound (suc x / 2) (omega arith))

pub bit_or-zero : (x : ℕ) → bit_or x 0 ≡ x
bit_or-zero x = or_zero_below x x (omega arith)

and_zero_below : (bound x : ℕ) → x ≤ bound → bit_and x 0 ≡ 0
and_zero_below bound zero h = bit_and-bitwise 0 0
and_zero_below zero (suc x) h = absurd (omega arith)
and_zero_below (suc bound) (suc x) h =
    omega (arith, bit_and-halves (suc x) 0, and_zero_below bound (suc x / 2) (omega arith))

pub bit_and-zero : (x : ℕ) → bit_and x 0 ≡ 0
bit_and-zero x = and_zero_below x x (omega arith)

pub double_pow : (q k : ℕ) → q * 2 ^ suc k ≡ 2 * (q * 2 ^ k)
double_pow q k = omega (arith, ap (λ (t : ℕ). q * t) (pow-suc 2 k))

-- `hi << k | lo` is a sum where `lo` has only `k` bits.
pub bit_or-disjoint : (k hi lo : ℕ) → lo < 2 ^ k → bit_or (hi * 2 ^ k) lo ≡ hi * 2 ^ k + lo
bit_or-disjoint zero hi lo h = ground (arith, bit_or-zero hi)
bit_or-disjoint (suc k) hi lo h = ground (
  arith,
  bit_or-halves (hi * 2 ^ suc k) lo,
  double_pow hi k,
  pow-suc 2 k,
  bit_or-disjoint k hi (lo / 2),
)

pub div_pow : (x k : ℕ) → x / 2 ^ suc k ≡ x / 2 / 2 ^ k
div_pow x k =
    rw (div-div-eq-div-mul x 2 (2 ^ k)) (ap (λ (t : ℕ). x / t) (omega (arith, pow-suc 2 k)))

mod_pow : (x k : ℕ) → x % 2 ^ suc k ≡ x / 2 % 2 ^ k * 2 + x % 2
mod_pow x k = omega (
  arith,
  div-add-mod' x (2 ^ suc k),
  div-add-mod' (x / 2) (2 ^ k),
  div_pow x k,
  ap (λ (t : ℕ). t * 2 ^ suc k) (div_pow x k),
  double_pow (x / 2 / 2 ^ k) k,
)

-- A mask that starts at bit `k` takes the bits from `k` on.
pub bit_and-shifted : (k x m : ℕ) → bit_and x (m * 2 ^ k) ≡ bit_and (x / 2 ^ k) m * 2 ^ k
bit_and-shifted zero x m = rw div-one (omega (arith, ap (λ (t : ℕ). bit_and x t) (one m)))
  where
    one : (n : ℕ) → n * 2 ^ 0 ≡ n
    one n = omega arith
bit_and-shifted (suc k) x m = omega (
  arith,
  bit_and-halves x (m * 2 ^ suc k),
  double_pow m k,
  bit_and-shifted k (x / 2) m,
  ap (λ (t : ℕ). bit_and (x / 2) t) (halve m),
  ap (λ (t : ℕ). bit_and t m * 2 ^ suc k) (div_pow x k),
  double_pow (bit_and (x / 2 / 2 ^ k) m) k,
)
  where
    halve : (n : ℕ) → n * 2 ^ suc k / 2 ≡ n * 2 ^ k
    halve n = omega (arith, double_pow n k)

-- The mask of `k` ones is the remainder.
pub bit_and-ones : (k x m : ℕ) → m + 1 ≡ 2 ^ k → bit_and x m ≡ x % 2 ^ k
bit_and-ones zero x m h = let e : m ≡ 0 = omega arith in rw e (omega (arith, bit_and-zero x))
bit_and-ones (suc k) x m h =
    let low : bit_and (x / 2) (m / 2) ≡ x / 2 % 2 ^ k =
      bit_and-ones k (x / 2) (m / 2) (omega (arith, pow-suc 2 k)) in
    let odd : m % 2 ≡ 1 = omega (arith, pow-suc 2 k) in
    omega (arith, bit_and-halves x m, mod_pow x k, low, odd)

-- `|` of numbers with no bit in common, the left one above the right one.
pub bit_or-add : (k x y : ℕ) → x % 2 ^ k ≡ 0 → y < 2 ^ k → bit_or x y ≡ x + y
bit_or-add k x y h l =
    let e : x ≡ x / 2 ^ k * 2 ^ k = omega (arith, div-add-mod' x (2 ^ k)) in
    subst (λ t. bit_or t y ≡ t + y) (sym e) (bit_or-disjoint k (x / 2 ^ k) y l)

or_comm_below : (bound x y : ℕ) → x ≤ bound → y ≤ bound → bit_or x y ≡ bit_or y x
or_comm_below zero zero zero h k = refl
or_comm_below zero (suc x) y h k = absurd (omega arith)
or_comm_below zero zero (suc y) h k = absurd (omega arith)
or_comm_below (suc bound) x y h k = omega (
  arith,
  bit_or-halves x y,
  bit_or-halves y x,
  or_comm_below bound (x / 2) (y / 2) (omega arith) (omega arith),
)

pub bit_or_comm : (x y : ℕ) → bit_or x y ≡ bit_or y x
bit_or_comm x y = or_comm_below (x + y) x y (omega arith) (omega arith)
