-- ===== src/Printf/Plain.antt =====
-- Text that misc/vsnprintf.c prints into an array of the caller, and what plain `%d` and `%s` print.
use mathlib.Core.List.{reverse_aux}
use emac_driver.Common.{
  ℕ, zero, suc, ◌+◌, ◌-◌, ◌/◌, ◌^◌, ◌≤◌, ◌<◌, ◌≡◌, refl, ◌∙◌, ap, arith, List, [], ◌∷◌, ◌++◌,
  Option, none, some, true, false, Bool-cases, inl, inr, ltb, ◌==◌, if◌then◌else◌, length, take,
  fun_ext, u32, slt32, sub32, get_or, ne→==, lt→ltb,
}
use emac_driver.Common.Buffer.{Buffer, window}
use emac_driver.Text.{Text, IsText}
use emac_driver.Printf.Decimal.{put_dec}
use emac_driver.Printf.Decimal.Laws.{dec_digits, put_dec-dec_digits}
use emac_driver.Printf.Decimal.Parse.{written_out}
use emac_driver.Printf.Output.{Writer, Out, put, add_char, ◌>>◌, strnlen, signed}
use emac_driver.Printf.Number.{number, string, digits_of, sign_of}
use emac_driver.Printf.Format.{Arg, ◌>>=◌}
use emac_driver.Printf.Convert.{print, sprintf}
use emac_driver.Printf.Convert.Laws.{put-formatted}

-- The C string in an array of `n` bytes.
unfoldable pub string_in : ℕ → Buffer → Text
string_in zero b = []
string_in (suc n) b = let s = string_in n (window b 1) in if b 0 == 0 then [] else b 0 ∷ s

-- `sprintf` into a local array of `size` bytes at `place`, which held `old`: the string in it, or a
-- fault where the text does not fit into the array.
unfoldable pub sprintf_local : ℕ → ℕ → Buffer → Text → List Arg → Option Text
unfolding sprintf string_in
sprintf_local size place old fmt args = sprintf place fmt args old >>= λ (n, o).
    if ltb n size then some (string_in size o.memory) else none

length-dec_digits : (fuel n : ℕ) → length (dec_digits fuel n) ≤ fuel
unfolding dec_digits
length-dec_digits zero n = omega arith
length-dec_digits (suc fuel) n = elim (Bool-cases (ltb n 10)) [
  | inl e ↦ rw e (omega arith)
  | inr e ↦ rw e (omega (arith, length-dec_digits fuel (n / 10)))
]

length-put_dec : (n : ℕ) → n < 2 ^ 64 → length (put_dec n) ≤ 20
length-put_dec n h = rw (put_dec-dec_digits n h) (length-dec_digits 20 n)

written_out-reverse_aux : (l s : Text) → written_out l s ≡ reverse_aux l s
written_out-reverse_aux [] s = refl
written_out-reverse_aux (c ∷ l) s = written_out-reverse_aux l (c ∷ s)

digits_of-put_dec : (locase n : ℕ) → digits_of 10 locase n ≡ put_dec n
unfolding digits_of
digits_of-put_dec locase zero = unfold put_dec in refl
digits_of-put_dec locase (suc n) = rw (ne→== (suc n) 0 (λ e. omega (arith, e))) refl

-- Where neither a width nor a precision is given, nothing is padded.
narrow : (i : ℕ) → i ≤ 20 → slt32 (2 ^ 32 - 1) i ≡ true
narrow i h = ground arith

lead_size : (i : ℕ) → i ≤ 20 → ltb (sub32 (2 ^ 32 - 1) i) (2 ^ 31) ≡ false
lead_size i h = ground arith

fill_size : (i : ℕ) → i ≤ 20 → ltb (sub32 (sub32 (2 ^ 32 - 1) i) 1) (2 ^ 31) ≡ false
fill_size i h = ground arith

trail_size : (i : ℕ) → i ≤ 20 → ltb (sub32 (sub32 (sub32 (2 ^ 32 - 1) i) 1) 1) (2 ^ 31) ≡ false
trail_size i h = ground arith

sign_of-plain : (n : ℕ) → n < 2 ^ 31 → sign_of signed n ≡ 0
unfolding sign_of
sign_of-plain n h = ground arith

no_zeros : (i : ℕ) → i - i ≡ 0
no_zeros i = omega arith

pub number-plain :
    (n : ℕ)
    → n < 2 ^ 31
    → number n 10 (2 ^ 32 - 1) (2 ^ 32 - 1) signed ≡ put (written_out (put_dec n) [])
unfolding number put
number-plain n h =
    let short = length-put_dec n (omega arith) in
    let i = length (put_dec n) in
    rw
      (
        sign_of-plain n h,
        digits_of-put_dec 0 n,
        narrow i short,
        lead_size i short,
        fill_size i short,
        trail_size i short,
        no_zeros i,
        written_out-reverse_aux (put_dec n) [],
      )
      refl

strnlen-length : (s : Text) (count : ℕ) → length s ≤ count → strnlen s count ≡ length s
unfolding strnlen
strnlen-length [] count h = refl
strnlen-length (c ∷ s) zero h = absurd (omega arith)
strnlen-length (c ∷ s) (suc count) h = ap suc (strnlen-length s count (omega arith))

take-length : (s : Text) → take (length s) s ≡ s
take-length [] = refl
take-length (c ∷ s) = ap (◌∷◌ c) (take-length s)

not_missing : (n w : ℕ) → n < 2 ^ 31 → 2 ^ 31 ≤ w → w < 2 ^ 32 → slt32 n w ≡ false
not_missing n w h k l = ground arith

pub string-plain :
    (s : Text) → length s < 2 ^ 31 → string (some s) (2 ^ 32 - 1) (2 ^ 32 - 1) 0 ≡ put s
unfolding string put
string-plain s h =
    let n : u32 (length s) ≡ length s = omega arith in
    rw
      (
        strnlen-length s (2 ^ 64 - 1) (omega arith),
        n,
        not_missing (length s) (2 ^ 32 - 1) h (omega arith) (omega arith),
        not_missing (length s) (2 ^ 32 - 2) h (omega arith) (omega arith),
        take-length s,
      )
      refl

put_append_at :
    (s t : Text) (limit : ℕ) (o : Out) → put t limit (put s limit o) ≡ put (s ++ t) limit o
unfolding put
put_append_at [] t limit o = refl
put_append_at (c ∷ s) t limit o = put_append_at s t limit (add_char c limit o)

pub put-append : (s t : Text) → (put s >> put t) ≡ put (s ++ t)
put-append s t = fun_ext (λ limit. fun_ext (λ o. put_append_at s t limit o))

-- Reading back.
string_in-text :
    (n : ℕ) (t : Text) (b : Buffer)
    → IsText t
    → length t < n
    → ((i : ℕ) → i < length t → b i ≡ get_or t i 0)
    → b (length t) ≡ 0
    → string_in n b ≡ t
unfolding string_in
string_in-text zero t b text h same last = absurd (omega arith)
string_in-text (suc n) [] b text h same last = rw last refl
string_in-text (suc n) (c ∷ t) b text h same last =
    let first : b 0 ≡ c = same 0 (omega arith) in
    rw (first, ne→== c 0 (λ e. omega (arith, e)))
      (ap (◌∷◌ c) (
        string_in-text n t (window b 1) text.2 (omega arith)
          (λ i l. ap b {x = 1 + i} {y = suc i} (omega arith) ∙ same (suc i) (omega arith))
          (ap b {x = 1 + length t} {y = suc (length t)} (omega arith) ∙ last)))

-- The text stands in the array, where it fits.
pub sprintf-put :
    (size place : ℕ) (old : Buffer) (fmt : Text) (args : List Arg) (w : Writer) (t : Text)
    → print (suc (length fmt)) fmt args ≡ some w
    → w ≡ put t
    → IsText t
    → length t < size
    → size < 2 ^ 31
    → place < 2 ^ 63
    → (o : Out) × (sprintf place fmt args old ≡ some (length t, o)) × (string_in size o.memory ≡ t)
unfolding sprintf
sprintf-put size place old fmt args w t e same text fits small low =
    let x = put-formatted fmt args w e t text same place 2147483647 old (omega arith) in
    (
      x.0,
      x.1 ∙ ap (λ (n : ℕ). some (n, x.0)) {x = u32 (length t)} {y = length t} (omega arith),
      string_in-text size t x.0.memory text fits (λ i l. x.2 i ∙ ground arith)
          (x.2 (length t) ∙ ground arith),
    )

pub sprintf_local-put :
    (size place : ℕ) (old : Buffer) (fmt : Text) (args : List Arg) (w : Writer) (t : Text)
    → print (suc (length fmt)) fmt args ≡ some w
    → w ≡ put t
    → IsText t
    → length t < size
    → size < 2 ^ 31
    → place < 2 ^ 63
    → sprintf_local size place old fmt args ≡ some t
unfolding sprintf_local
sprintf_local-put size place old fmt args w t e same text fits small low =
    let x = sprintf-put size place old fmt args w t e same text fits small low in
    rw (x.1, lt→ltb (length t) size fits) (ap some x.2)
