-- ===== src/Printf/Decimal/Parse.antt =====
-- `simple_strtoul` of common.c reads the digits that `put_dec` of misc/vsnprintf.c writes.
use emac_driver.Common.{
  ℕ, zero, suc, ◌+◌, ◌*◌, ◌/◌, ◌%◌, ◌<◌, ◌^◌, ◌≡◌, refl, ap, ◌∙◌, arith, List, [], ◌∷◌, true, false,
  ◌&&◌, ltb, Bool-cases, ltb→lt, inl, inr, u64,
}
use native.Mathlib.Nat.{pow-suc}
use emac_driver.Text.{Text, is_xdigit, digit_value, strtoul_loop, simple_strtoul}
use emac_driver.Printf.Decimal.{put_dec}
use emac_driver.Printf.Decimal.Laws.{dec_digits, put_dec-dec_digits}

-- Digits that were collected with the lowest first, written out from the last one on, before `s`.
abbrev pub written_out : List ℕ → Text → Text
written_out [] s = s
written_out (c ∷ cs) s = written_out cs (c ∷ s)

digit_step :
    (r d : ℕ) (s : Text)
    → d < 10
    → r * 10 + d < 2 ^ 64
    → strtoul_loop 10 r ((d + b'0') ∷ s) ≡ strtoul_loop 10 (r * 10 + d) s
unfolding strtoul_loop
digit_step r d s h k =
    let accepted : is_xdigit (d + b'0') && ltb (digit_value (d + b'0')) 10 ≡ true = ground arith in
    let value : u64 (u64 (r * 10) + digit_value (d + b'0')) ≡ r * 10 + d = ground arith in
    rw (accepted, value) refl

read_digits :
    (fuel n : ℕ) (s : Text)
    → n < 10 ^ fuel
    → n < 2 ^ 64
    → strtoul_loop 10 0 (written_out (dec_digits fuel n) s) ≡ strtoul_loop 10 n s
unfolding dec_digits
read_digits zero n s h k = ap (λ (t : ℕ). strtoul_loop 10 t s) {x = 0} (omega arith)
read_digits (suc fuel) n s h k = elim (Bool-cases (ltb n 10)) [
  | inl one ↦ rw one (
      digit_step 0 (n % 10) s (omega arith) (omega arith)
      ∙ ap (λ (t : ℕ). strtoul_loop 10 t s) (omega (arith, ltb→lt n 10 one)))
  | inr more ↦ rw more (
      read_digits fuel (n / 10) ((n % 10 + b'0') ∷ s) (omega (arith, pow-suc 10 fuel)) (omega arith)
      ∙ digit_step (n / 10) (n % 10) s (omega arith) (omega arith)
      ∙ ap (λ (t : ℕ). strtoul_loop 10 t s) (omega arith))
]

-- A text whose first character is neither a digit nor a letter up to f.
abbrev pub Stops : Text → Type 0
Stops [] = Unit {0}
Stops (c ∷ s) = is_xdigit c ≡ false

stopped : (n : ℕ) (s : Text) → Stops s → strtoul_loop 10 n s ≡ (n, s)
unfolding strtoul_loop
stopped n [] h = refl
stopped n (c ∷ s) h = rw h refl

-- In base 10, `simple_strtoul` reads back the digits of `put_dec` for any 64-bit number, written out
-- with the highest first, and stops at the text behind them, which does not begin with a
-- hexadecimal digit.
pub simple_strtoul-put_dec :
    (n : ℕ) (s : Text)
    → n < 2 ^ 64
    → Stops s
    → simple_strtoul (written_out (put_dec n) s) 10 ≡ (n, s)
unfolding simple_strtoul
simple_strtoul-put_dec n s h stops =
    ap (λ ds. strtoul_loop 10 0 (written_out ds s)) (put_dec-dec_digits n h)
    ∙ read_digits 20 n s (omega arith) h
    ∙ stopped n s stops
