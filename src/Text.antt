-- ===== src/Text.antt =====
-- The string functions of common.c and misc/string.c. A C string is the list of its bytes before
-- the terminating NUL; `*s` at its end reads that NUL.
pub mod Laws
pub mod Memory
use emac_driver.Common.{
  ℕ, zero, suc, ◌+◌, ◌-◌, ◌*◌, ◌≤◌, ◌<◌, List, [], ◌∷◌, Option, none, some, Bool, ◌&&◌, ◌||◌, not,
  ltb, leb, ◌==◌, if◌then◌else◌, sub32, u64,
}

abbrev pub Text : Type 0
Text = List ℕ

-- Every byte of a C string is one, and none is NUL.
abbrev pub IsText : Text → Type 0
IsText [] = Unit {0}
IsText (c ∷ s) = (0 < c) × (c < 256) × IsText s

-- `*s`
abbrev pub first : Text → ℕ
first [] = 0
first (c ∷ s) = c

-- The `int` result is a bit pattern.
unfoldable pub strcmp : Text → Text → ℕ
strcmp [] s2 = sub32 0 (first s2)
strcmp (c ∷ s1) [] = c
strcmp (c ∷ s1) (d ∷ s2) = if c == d then strcmp s1 s2 else sub32 c d

unfoldable pub strlen : Text → ℕ
strlen [] = 0
strlen (c ∷ s) = suc (strlen s)

-- The rest of the string from the first `c` on; `some []` is the terminator itself.
unfoldable pub strchr : Text → ℕ → Option Text
strchr [] c = if c == 0 then some [] else none
strchr (d ∷ s) c = if d == c then some (d ∷ s) else strchr s c

-- The classes of include/ctype.h that are asked for, read off its table.
abbrev pub is_digit : ℕ → Bool
is_digit c = leb b'0' c && leb c b'9'

abbrev pub is_xdigit : ℕ → Bool
is_xdigit c = is_digit c || (leb b'A' c && leb c b'F') || (leb b'a' c && leb c b'f')

abbrev pub is_upper : ℕ → Bool
is_upper c = (leb b'A' c && leb c b'Z') || (leb 192 c && leb c 222 && not (c == 215))

abbrev pub is_lower : ℕ → Bool
is_lower c = (leb b'a' c && leb c b'z') || (leb 223 c && leb c 255 && not (c == 247))

abbrev pub to_lower : ℕ → ℕ
to_lower c = if is_upper c then c + 32 else c

abbrev to_upper : ℕ → ℕ
to_upper c = if is_lower c then c - 32 else c

second : Text → ℕ
second [] = 0
second (c ∷ s) = first s

third : Text → ℕ
third [] = 0
third (c ∷ s) = second s

drop_two : Text → Text
drop_two [] = []
drop_two (c ∷ []) = []
drop_two (c ∷ d ∷ s) = s

-- `_parse_integer_fixup_radix`: the base, and the text behind a `0x`.
parse_integer_fixup_radix : Text → ℕ → ℕ × Text
unfolding second third drop_two
parse_integer_fixup_radix s base =
    let base' =
      if base == 0
      then (if first s == b'0'
          then (if to_lower (second s) == b'x' && is_xdigit (third s) then 16 else 8)
          else 10)
      else base in
    (
      base',
      (if base' == 16 && first s == b'0' && to_lower (second s) == b'x' then drop_two s else s),
    )

abbrev pub digit_value : ℕ → ℕ
digit_value c = if is_digit c then c - b'0' else (if is_lower c then to_upper c else c) - b'A' + 10

-- The loop: the result so far, and what `*endp` points to.
unfoldable pub strtoul_loop : ℕ → ℕ → Text → ℕ × Text
strtoul_loop base result [] = (result, [])
strtoul_loop base result (c ∷ s) =
    if is_xdigit c && ltb (digit_value c) base
    then strtoul_loop base (u64 (u64 (result * base) + digit_value c)) s
    else (result, c ∷ s)

unfoldable pub simple_strtoul : Text → ℕ → ℕ × Text
unfolding parse_integer_fixup_radix strtoul_loop
simple_strtoul cp base =
    let (base', s) = parse_integer_fixup_radix cp base in strtoul_loop base' 0 s
