-- ===== src/Printf/Format.antt =====
-- misc/vsnprintf.c: the interpretation of the format. Which directives there are and what they
-- print does not depend on the output, so a format with its arguments is a Writer; `none` is
-- undefined behaviour: an argument is missing, or is not of the kind that is read.
pub mod Laws
use emac_driver.Common.{
  ℕ, zero, suc, ◌+◌, ◌-◌, ◌*◌, ◌/◌, ◌^◌, ◌%◌, List, [], ◌∷◌, ◌++◌, Option, none, some, Bool, not,
  ◌&&◌, ◌||◌, true, false, ltb, leb, ◌==◌, if◌then◌else◌, length, replicate, bit_and, bit_or,
  has_bits, not32, sub32, slt32, sext32, u8, u16, u32, u64,
}
use emac_driver.Common.Buffer.{Buffer, store8}
use emac_driver.Text.{Text, first, is_digit, is_upper, is_lower}
use emac_driver.Printf.Output.{
  Writer, Out, put, ◌>>◌, add_char, zeropad, signed, plus, space, left, small, special,
}
use emac_driver.Printf.Number.{number, string}
use emac_driver.Printf.Pointer.{pointer}

-- An argument: a number in a 64-bit register, a `char *` with its string (`none` is NULL), or another
-- pointer with the bytes that it points to.
pub data Arg : Type 0 where
  int : ℕ → Arg
  text : Option Text → Arg
  address : ℕ → Buffer → Arg

infixl 5 ◌>>=◌
abbrev pub ◌>>=◌ {ℓ κ} : {A : Type ℓ} {B : Type κ} → Option A → (A → Option B) → Option B
none >>= f = none
some a >>= f = f a

-- `flags`, `field_width`, `precision` and `qualifier`; -1 stands for none of the last three.
pub record Directive : Type 0 where
  pub flags : ℕ
  pub field_width : ℕ
  pub precision : ℕ
  pub qualifier : ℕ

-- What is left of the format and of the arguments.
pub record Input : Type 0 where
  pub fmt : Text
  pub args : List Arg

-- `va_arg(args, int)` and the like.
unfoldable pub next_int : Text → List Arg → Option (ℕ × Input)
next_int fmt (int n ∷ args) = some (n, record { fmt = fmt; args = args })
next_int fmt args = none

flag_of : ℕ → Option ℕ
flag_of c =
    if c == b'-'
    then some left
    else (if c == b'+'
        then some plus
        else (if c == b' '
            then some space
            else (if c == b'#' then some special else (if c == b'0' then some zeropad else none))))

-- From `repeat` on; the format starts behind the `%`.
parse_flags : ℕ → Text → ℕ × Text
unfolding flag_of
parse_flags flags [] = (flags, [])
parse_flags flags (c ∷ s) = elim (flag_of c) [
  | none ↦ (flags, c ∷ s)
  | some f ↦ parse_flags (bit_or flags f) s
]

-- The loop of `skip_atoi`.
skip_atoi : ℕ → Text → ℕ × Text
skip_atoi i [] = (i, [])
skip_atoi i (c ∷ s) = if is_digit c then skip_atoi (sub32 (u32 (i * 10 + c)) b'0') s else (i, c ∷ s)

abbrev pub rest : Text → Text
rest [] = []
rest (c ∷ s) = s

-- The results are `flags`, `field_width`, and what is left.
parse_width : ℕ → Input → Option (ℕ × ℕ × Input)
unfolding skip_atoi next_int
parse_width flags i =
    if is_digit (first i.fmt)
    then (let (n, s) = skip_atoi 0 i.fmt in some (flags, n, record i { fmt = s }))
    else (if first i.fmt == b'*'
        then (next_int (rest i.fmt) i.args >>= λ (v, i').
            if leb (2 ^ 31) (u32 v)
            then some (bit_or flags left, sub32 0 (u32 v), i')
            else some (flags, u32 v, i'))
        else some (flags, 2 ^ 32 - 1, i))

-- `if (precision < 0) precision = 0`
abbrev not_negative : ℕ → ℕ
not_negative p = if leb (2 ^ 31) p then 0 else p

parse_precision : Input → Option (ℕ × Input)
unfolding skip_atoi next_int
parse_precision i =
    if first i.fmt == b'.'
    then (let s = rest i.fmt in
        if is_digit (first s)
        then (let (n, s') = skip_atoi 0 s in some (not_negative n, record i { fmt = s' }))
        else (if first s == b'*'
            then (next_int (rest s) i.args >>= λ (v, i'). some (not_negative (u32 v), i'))
            else some (0, record i { fmt = s })))
    else some (2 ^ 32 - 1, i)

abbrev is_qualifier : ℕ → Bool
is_qualifier c = c == b'h' || c == b'l' || c == b'L' || c == b'Z' || c == b'z' || c == b't'

parse_qualifier : Text → ℕ × Text
parse_qualifier s =
    if is_qualifier (first s)
    then (if first s == b'l' && first (rest s) == b'l'
        then (b'L', rest (rest s))
        else (first s, rest s))
    else (2 ^ 32 - 1, s)

unfoldable pub parse_directive : Input → Option (Directive × Input)
unfolding parse_flags parse_width parse_precision parse_qualifier
parse_directive i =
    let (flags0, s) = parse_flags 0 i.fmt in
    parse_width flags0 (record i { fmt = s }) >>= λ (flags, field_width, i1).
    parse_precision i1 >>= λ (precision, i2).
    let (qualifier, s') = parse_qualifier i2.fmt in
    some (
      record {
        flags = flags;
        field_width = field_width;
        precision = precision;
        qualifier = qualifier;
      },
      record i2 { fmt = s' },
    )
