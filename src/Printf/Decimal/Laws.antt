-- ===== src/Printf/Decimal/Laws.antt =====
-- The multiplications in place of divisions give the decimal digits.
use emac_driver.Common.{
  ℕ, zero, suc, ◌+◌, ◌*◌, ◌/◌, ◌%◌, ◌≤◌, ◌<◌, ◌^◌, ◌≡◌, refl, ap, ap₂, ◌∙◌, sym, arith, List, [],
  ◌∷◌, ◌++◌, ltb, ◌==◌, if◌then◌else◌, Bool-cases, ltb→lt, ltb→le, inl, inr,
}
use native.Mathlib.Nat.{pow-suc}
use emac_driver.Printf.Decimal.{
  put_thousands, put_hundreds, put_tens, put_dec_trunc, full_thousands, full_hundreds, full_tens,
  put_dec_full, put_dec_loop, put_dec,
}

-- The decimal digits of a number as characters, the lowest first: the division by ten that the
-- code avoids. `fuel` bounds the number of digits.
unfoldable pub dec_digits : ℕ → ℕ → List ℕ
dec_digits zero n = []
dec_digits (suc fuel) n =
    let rest = dec_digits fuel (n / 10) in (n % 10 + b'0') ∷ (if ltb n 10 then [] else rest)

-- A fixed number of digits.
unfoldable pub dec_padded : ℕ → ℕ → List ℕ
dec_padded zero n = []
dec_padded (suc k) n = (n % 10 + b'0') ∷ dec_padded k (n / 10)

abbrev more : ℕ → ℕ → List ℕ
more fuel n = if n == 0 then [] else dec_digits fuel n

dec_digits-suc : (fuel n : ℕ) → dec_digits (suc fuel) n ≡ (n % 10 + b'0') ∷ more fuel (n / 10)
unfolding dec_digits
dec_digits-suc fuel n = ground arith

put_thousands-more : (d : ℕ) → d < 100 → put_thousands d ≡ more 2 d
unfolding put_thousands dec_digits
put_thousands-more d h = ground arith

put_hundreds-more :
    (d2 d3 n : ℕ) → d2 < 69 → n ≡ d2 + 40 * d3 → n < 1000 → put_hundreds d2 d3 ≡ more 3 n
unfolding put_hundreds
put_hundreds-more d2 d3 n small e h =
    ground (arith, put_thousands-more (n / 10), dec_digits-suc 2 n)

put_tens-more :
    (d1 d2 d3 n : ℕ)
    → d1 < 340
    → 5 * d2 + 9 * d3 ≤ d1
    → d2 < 16
    → n ≡ d1 + 20 * d2 + 400 * d3
    → n < 10000
    → put_tens d1 d2 d3 ≡ more 4 n
unfolding put_tens
put_tens-more d1 d2 d3 n small high nibble e h =
    ground (arith, put_hundreds-more (d1 * 205 / 2048 + 2 * d2) d3 (n / 10), dec_digits-suc 3 n)

-- `put_dec_trunc` writes the digits of any number below 100000, with no leading zero.
pub put_dec_trunc-dec_digits : (q : ℕ) → q < 100000 → put_dec_trunc q ≡ dec_digits 5 q
unfolding put_dec_trunc
put_dec_trunc-dec_digits q h =
    ap₂ ◌∷◌ (omega arith) (
      put_tens-more _ (q / 256 % 16) (q / 4096) (q / 10) (omega arith) (omega arith) (omega arith)
        (omega arith) (omega arith))
    ∙ sym (dec_digits-suc 4 q)

full_thousands-padded : (d : ℕ) → d < 100 → full_thousands d ≡ dec_padded 2 d
unfolding full_thousands dec_padded
full_thousands-padded d h = ground arith

full_hundreds-padded :
    (d2 d3 n : ℕ) → d2 < 69 → n ≡ d2 + 40 * d3 → n < 1000 → full_hundreds d2 d3 ≡ dec_padded 3 n
unfolding full_hundreds dec_padded
full_hundreds-padded d2 d3 n small e h =
    ap₂ ◌∷◌ (omega arith) (full_thousands-padded _ (omega arith) ∙ ap (dec_padded 2) (omega arith))

full_tens-padded :
    (d1 d2 d3 n : ℕ)
    → d1 < 340
    → 5 * d2 + 9 * d3 ≤ d1
    → d2 < 16
    → n ≡ d1 + 20 * d2 + 400 * d3
    → n < 10000
    → full_tens d1 d2 d3 ≡ dec_padded 4 n
unfolding full_tens dec_padded
full_tens-padded d1 d2 d3 n small high nibble e h = ap₂ ◌∷◌ (omega arith) (
    full_hundreds-padded (d1 * 205 / 2048 + 2 * d2) d3 (n / 10) (omega arith) (omega arith)
      (omega arith))

-- `put_dec_full` writes the five digits of any number below 100000, leading zeros included.
pub put_dec_full-dec_padded : (q : ℕ) → q < 100000 → put_dec_full q ≡ dec_padded 5 q
unfolding put_dec_full dec_padded
put_dec_full-dec_padded q h = ap₂ ◌∷◌ (omega arith) (
    full_tens-padded _ (q / 256 % 16) (q / 4096) (q / 10) (omega arith) (omega arith) (omega arith)
      (omega arith) (omega arith))

-- Five digits are enough for a number below 100000.
dec_digits-fuel :
    (k n : ℕ) → n < 100000 → dec_digits (suc (suc (suc (suc (suc k))))) n ≡ dec_digits 5 n
unfolding dec_digits
dec_digits-fuel k n h = ground arith

dec_digits-split :
    (k n : ℕ)
    → 100000 ≤ n
    → dec_digits (suc (suc (suc (suc (suc k))))) n
      ≡ dec_padded 5 (n % 100000) ++ dec_digits k (n / 100000)
unfolding dec_digits dec_padded
dec_digits-split k n h = ground (arith, ap (dec_digits k) {y = n / 100000} same)
  where
    same : n / 10 / 10 / 10 / 10 / 10 ≡ n / 100000
    same = omega arith

abbrev five_times : ℕ → ℕ
five_times zero = zero
five_times (suc k) = suc (suc (suc (suc (suc (five_times k)))))

put_dec_loop-dec_digits :
    (fuel n : ℕ) → n < 100000 ^ fuel → put_dec_loop fuel n ≡ dec_digits (five_times fuel) n
unfolding put_dec_loop
put_dec_loop-dec_digits zero n h = unfold dec_digits in refl
put_dec_loop-dec_digits (suc fuel) n h = elim (Bool-cases (ltb n 100000)) [
  | inl e ↦ rw e (
      put_dec_trunc-dec_digits n (ltb→lt _ _ e)
      ∙ sym (dec_digits-fuel (five_times fuel) n (ltb→lt _ _ e)))
  | inr e ↦ rw e (
      rw (put_dec_full-dec_padded (n % 100000) (omega arith)) (
        rw (put_dec_loop-dec_digits fuel (n / 100000) (omega (arith, pow-suc 100000 fuel)))
          (sym (dec_digits-split (five_times fuel) n (ltb→le _ _ e)))))
]

-- `put_dec` writes the decimal digits of any 64-bit number: at most 20, with no leading zero.
pub put_dec-dec_digits : (n : ℕ) → n < 2 ^ 64 → put_dec n ≡ dec_digits 20 n
unfolding put_dec
put_dec-dec_digits n h = put_dec_loop-dec_digits 4 n (omega arith)
