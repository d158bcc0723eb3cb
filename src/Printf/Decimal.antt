-- ===== src/Printf/Decimal.antt =====
-- misc/vsnprintf.c, the decimal conversion: `put_dec_trunc`, `put_dec_full` and `put_dec`. What
-- they write from `buf` on is a list, the least significant digit first.
pub mod Laws
pub mod Parse
use emac_driver.Common.{
  ℕ, zero, suc, ◌+◌, ◌*◌, ◌/◌, ◌%◌, List, [], ◌∷◌, ◌++◌, Bool, not, ◌||◌, ltb, ◌==◌, if◌then◌else◌,
  ◌>>>◌, low_bits, sub32, u8,
}

-- `*buf++ = d + '0'`
abbrev pub digit_char : ℕ → ℕ
digit_char d = u8 (d + b'0')

-- The three nested `if`s of `put_dec_trunc`, the innermost first.
put_thousands : ℕ → List ℕ
put_thousands d3 =
    let q = (d3 * 0xcd) >>> 11 in
    if d3 == 0
    then []
    else digit_char (sub32 d3 (10 * q)) ∷ (if q == 0 then [] else digit_char q ∷ [])

put_hundreds : ℕ → ℕ → List ℕ
put_hundreds d2 d3 =
    let q = (d2 * 0xd) >>> 7 in
    if not (d2 == 0) || not (d3 == 0)
    then digit_char (sub32 d2 (10 * q)) ∷ put_thousands (q + 4 * d3)
    else []

put_tens : ℕ → ℕ → ℕ → List ℕ
put_tens d1 d2 d3 =
    let q = (d1 * 0xcd) >>> 11 in
    if d1 == 0 then [] else digit_char (sub32 d1 (10 * q)) ∷ put_hundreds (q + 2 * d2) d3

unfoldable pub put_dec_trunc : ℕ → List ℕ
unfolding put_tens put_hundreds put_thousands
put_dec_trunc q0 =
    let d1 = low_bits (q0 >>> 4) 4 in
    let d2 = low_bits (q0 >>> 8) 4 in
    let d3 = q0 >>> 12 in
    let d0 = 6 * (d3 + d2 + d1) + low_bits q0 4 in
    let q = (d0 * 0xcd) >>> 11 in
    digit_char (sub32 d0 (10 * q)) ∷ put_tens (q + 9 * d3 + 5 * d2 + d1) d2 d3

-- The same with the tests left out, from each digit on.
full_thousands : ℕ → List ℕ
full_thousands d3 = let q = (d3 * 0xcd) >>> 11 in digit_char (sub32 d3 (10 * q)) ∷ digit_char q ∷ []

full_hundreds : ℕ → ℕ → List ℕ
full_hundreds d2 d3 =
    let q = (d2 * 0xd) >>> 7 in digit_char (sub32 d2 (10 * q)) ∷ full_thousands (q + 4 * d3)

full_tens : ℕ → ℕ → ℕ → List ℕ
full_tens d1 d2 d3 =
    let q = (d1 * 0xcd) >>> 11 in digit_char (sub32 d1 (10 * q)) ∷ full_hundreds (q + 2 * d2) d3

unfoldable pub put_dec_full : ℕ → List ℕ
unfolding full_tens full_hundreds full_thousands
put_dec_full q0 =
    let d1 = low_bits (q0 >>> 4) 4 in
    let d2 = low_bits (q0 >>> 8) 4 in
    let d3 = q0 >>> 12 in
    let d0 = 6 * (d3 + d2 + d1) + low_bits q0 4 in
    let q = (d0 * 0xcd) >>> 11 in
    digit_char (sub32 d0 (10 * q)) ∷ full_tens (q + 9 * d3 + 5 * d2 + d1) d2 d3

-- The loop of `put_dec`, with fuel for the divisions of a 64-bit number by 100000.
put_dec_loop : ℕ → ℕ → List ℕ
put_dec_loop zero num = []
put_dec_loop (suc fuel) num =
    let rest = put_dec_full (num % 100000) ++ put_dec_loop fuel (num / 100000) in
    if ltb num 100000 then put_dec_trunc num else rest

unfoldable pub put_dec : ℕ → List ℕ
unfolding put_dec_loop put_dec_trunc put_dec_full
put_dec num = put_dec_loop 4 num
