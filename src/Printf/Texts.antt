-- ===== src/Printf/Texts.antt =====
-- Formats of the program that mix text with `%s` and `%d`.
use emac_driver.Common.{
  ℕ, zero, suc, ◌+◌, ◌-◌, ◌/◌, ◌^◌, ◌≤◌, ◌<◌, ◌≡◌, refl, sym, ◌∙◌, ap, ap₂, arith, [], ◌∷◌, ◌++◌,
  true, Bool-cases, inl, inr, ltb, lt→ltb, length,
}
use mathlib.Core.List.{append_assoc}
use native.Mathlib.Nat.{pow-suc}
use emac_driver.Text.{Text, IsText}
use emac_driver.Printf.Decimal.{put_dec}
use emac_driver.Printf.Decimal.Laws.{dec_digits, put_dec-dec_digits}
use emac_driver.Printf.Decimal.Parse.{written_out}
use emac_driver.Printf.Output.{Writer, put, ◌>>◌, signed}
use emac_driver.Printf.Number.{number}
use emac_driver.Printf.Convert.{integer_value}
use emac_driver.Printf.Plain.{number-plain, put-append}

-- The decimal text of a number.
abbrev pub decimal : ℕ → Text
decimal n = written_out (put_dec n) []

pub seq-put : {v w : Writer} (s t : Text) → v ≡ put s → w ≡ put t → (v >> w) ≡ put (s ++ t)
seq-put s t e f = ap₂ ◌>>◌ e f ∙ put-append s t

-- What `%d` prints for an `int` that is not negative.
pub decimal-put :
    (n : ℕ)
    → n < 2 ^ 31
    → number (integer_value (2 ^ 32 - 1) true n) 10 (2 ^ 32 - 1) (2 ^ 32 - 1) signed
      ≡ put (decimal n)
decimal-put n h =
    let e : integer_value (2 ^ 32 - 1) true n ≡ n = unfold integer_value in ground arith in
    ap (λ (m : ℕ). number m 10 (2 ^ 32 - 1) (2 ^ 32 - 1) signed) e ∙ number-plain n h

written_out-IsText : (ds s : Text) → IsText ds → IsText s → IsText (written_out ds s)
written_out-IsText [] s h k = k
written_out-IsText (c ∷ ds) s h k = written_out-IsText ds (c ∷ s) h.2 (h.0, h.1, k)

dec_digits-IsText : (fuel n : ℕ) → IsText (dec_digits fuel n)
unfolding dec_digits
dec_digits-IsText zero n = tt
dec_digits-IsText (suc fuel) n = elim (Bool-cases (ltb n 10)) [
  | inl e ↦ rw e (omega arith, omega arith, tt)
  | inr e ↦ rw e (omega arith, omega arith, dec_digits-IsText fuel (n / 10))
]

pub decimal-IsText : (n : ℕ) → n < 2 ^ 64 → IsText (decimal n)
decimal-IsText n h =
    rw (put_dec-dec_digits n h)
      (written_out-IsText (dec_digits 20 n) [] (dec_digits-IsText 20 n) tt)

pub append-IsText : (s t : Text) → IsText s → IsText t → IsText (s ++ t)
append-IsText [] t h k = k
append-IsText (c ∷ s) t h k = (h.0, h.1, append-IsText s t h.2 k)

length-written_out : (ds s : Text) → length (written_out ds s) ≡ length ds + length s
length-written_out [] s = omega arith
length-written_out (c ∷ ds) s = omega (arith, length-written_out ds (c ∷ s))

short_digits : (k fuel n : ℕ) → n < 10 ^ suc k → length (dec_digits fuel n) ≤ suc k
unfolding dec_digits
short_digits k zero n h = omega arith
short_digits zero (suc fuel) n h = rw (lt→ltb n 10 (omega arith)) (omega arith)
short_digits (suc k) (suc fuel) n h = elim (Bool-cases (ltb n 10)) [
  | inl e ↦ rw e (omega arith)
  | inr e ↦ rw e (omega (arith, short_digits k fuel (n / 10) (omega (arith, pow-suc 10 (suc k)))))
]

-- A number below `10 ^ (k + 1)` has `k + 1` digits at most.
pub length-decimal : (k n : ℕ) → n < 2 ^ 64 → n < 10 ^ suc k → length (decimal n) ≤ suc k
length-decimal k n h l =
    rw (put_dec-dec_digits n h)
      (omega (arith, length-written_out (dec_digits 20 n) [], short_digits k 20 n l))

pub written_out-append : (ds s : Text) → written_out ds s ≡ written_out ds [] ++ s
written_out-append [] s = refl
written_out-append (c ∷ ds) s =
    written_out-append ds (c ∷ s)
    ∙ sym (
        ap (λ t. t ++ s) (written_out-append ds (c ∷ []))
        ∙ append_assoc (written_out ds []) (c ∷ []) s)
