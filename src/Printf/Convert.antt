-- ===== src/Printf/Convert.antt =====
-- misc/vsnprintf.c: the conversions of `vsnprintf_internal`, its loop, and the functions around it.
pub mod Emission
pub mod Laws
pub mod Rounds
use emac_driver.Common.{
  ℕ, zero, suc, ◌+◌, ◌-◌, ◌*◌, ◌/◌, ◌^◌, ◌%◌, List, [], ◌∷◌, ◌++◌, Option, none, some, Bool, not,
  ◌&&◌, ◌||◌, true, false, ltb, leb, ◌==◌, if◌then◌else◌, length, replicate, bit_or, has_bits,
  sub32, slt32, sext32, u8, u16, u32, u64,
}
use mathlib.Core.Option
use emac_driver.Common.Buffer.{Buffer, store8}
use emac_driver.Text.{Text, first, is_digit, is_upper, is_lower}
use emac_driver.Printf.Output.{Writer, Out, put, strnlen, ◌>>◌, add_char, signed, left, small}
use emac_driver.Printf.Number.{number, string, digits_of}
use emac_driver.Printf.Decimal.{put_dec, put_dec_trunc}
use emac_driver.Printf.Pointer.{pointer}
use emac_driver.Printf.Format.{
  Arg, int, text, address, Directive, Input, next_int, rest, parse_directive, ◌>>=◌,
}

-- What is printed, and what is left of the format and of the arguments.
pub record Step : Type 0 where
  pub writer : Writer
  pub input : Input

-- The cases of the `switch`; `integers` has the base and the flag that is set.
pub data Conversion : Type 0 where
  chars texts pointers counts percents unknown : Conversion
  integers : ℕ → ℕ → Conversion

conversion : ℕ → Conversion
conversion c =
    if c == b'c'
    then Conversion.chars
    else (if c == b's'
        then Conversion.texts
        else (if c == b'p'
            then Conversion.pointers
            else (if c == b'n'
                then Conversion.counts
                else (if c == b'%'
                    then Conversion.percents
                    else (if c == b'o'
                        then Conversion.integers 8 0
                        else (if c == b'x'
                            then Conversion.integers 16 small
                            else (if c == b'X'
                                then Conversion.integers 16 0
                                else (if c == b'd' || c == b'i'
                                    then Conversion.integers 10 signed
                                    else (if c == b'u'
                                        then Conversion.integers 10 0
                                        else Conversion.unknown)))))))))

-- `while (--field_width > 0)`: the rounds, and `field_width` behind the loop.
abbrev pad_rounds : ℕ → ℕ
pad_rounds width = if slt32 0 width then width - 1 else 0

abbrev behind : ℕ → ℕ
behind width = if slt32 0 width then 0 else sub32 width 1

pub put_char : Directive → ℕ → Writer
put_char d n =
    let filled = has_bits d.flags left in
    let width = if filled then d.field_width else behind d.field_width in
    put (if filled then [] else replicate (pad_rounds d.field_width) b' ')
    >> add_char (u8 n)
    >> put (replicate (pad_rounds width) b' ')

-- `*ip = (str - buf)`, for a `long` or an `int`.
pub store_count : Directive → Writer
store_count d limit o = record o {
  stored = (if d.qualifier == b'l' then u64 o.str else u32 o.str) ∷ o.stored;
}

-- `num` for the argument, by the qualifier; `sign` is whether SIGN is set.
unfoldable pub integer_value : ℕ → Bool → ℕ → ℕ
integer_value qualifier sign n =
    let quad = qualifier == b'L' || qualifier == b'l' in
    if quad || qualifier == b'Z' || qualifier == b'z' || qualifier == b't'
    then u64 n
    else (if qualifier == b'h'
        then (if sign && leb (2 ^ 15) (u16 n) then u16 n + (2 ^ 64 - 2 ^ 16) else u16 n)
        else (if sign then sext32 (u32 n) else u32 n))

is_alnum : ℕ → Bool
is_alnum c = is_digit c || is_upper c || is_lower c

-- `while (isalnum(fmt[1])) fmt++`
skip_alnum : Text → Text
unfolding is_alnum
skip_alnum [] = []
skip_alnum (c ∷ s) = if is_alnum c then skip_alnum s else c ∷ s

print_string : Directive → Text → List Arg → Option Step
print_string d fmt (text s ∷ args) = some (record {
  writer = string s d.field_width d.precision d.flags;
  input = record { fmt = fmt; args = args };
})
print_string d fmt args = none

-- The pointer of `%p` may be any.
print_pointer : Directive → Text → List Arg → Option Step
unfolding pointer skip_alnum
print_pointer d fmt (address ptr target ∷ args) = some (record {
  writer = pointer fmt ptr target d.field_width d.precision d.flags;
  input = record { fmt = skip_alnum fmt; args = args };
})
print_pointer d fmt args = none

print_count : Directive → Text → List Arg → Option Step
unfolding store_count
print_count d fmt (address ptr target ∷ args) =
    some (record { writer = store_count d; input = record { fmt = fmt; args = args } })
print_count d fmt args = none

-- `c` is the conversion character, 0 at the end of the format; `i` is what is behind it.
convert : Conversion → ℕ → Directive → Input → Option Step
unfolding put_char integer_value print_string print_pointer print_count next_int
convert Conversion.chars c d i =
    next_int i.fmt i.args >>= λ (n, i'). some (record { writer = put_char d n; input = i' })
convert Conversion.texts c d i = print_string d i.fmt i.args
convert Conversion.pointers c d i = print_pointer d i.fmt i.args
convert Conversion.counts c d i = print_count d i.fmt i.args
convert Conversion.percents c d i = some (record { writer = put (b'%' ∷ []); input = i })
convert Conversion.unknown c d i =
    some (record { writer = put (b'%' ∷ (if c == 0 then [] else c ∷ [])); input = i })
convert (Conversion.integers base flag) c d i = next_int i.fmt i.args >>= λ (n, i').
    let flags = bit_or d.flags flag in
    some (record {
      writer =
          number (integer_value d.qualifier (has_bits flags signed) n) base d.field_width
            d.precision flags;
      input = i';
    })

-- A round of the loop, for the format from `*fmt` on.
pub step : ℕ → Input → Option Step
unfolding conversion convert parse_directive
step c i =
    if c == b'%'
    then (parse_directive i >>= λ (d, i').
        convert (conversion (first i'.fmt)) (first i'.fmt) d (record i' { fmt = rest i'.fmt }))
    else some (record { writer = add_char c; input = i })

-- The loop, with fuel for its rounds.
unfoldable pub print : ℕ → Text → List Arg → Option Writer
unfolding step
print zero fmt args = none
print (suc fuel) [] args = some (λ limit o. o)
print (suc fuel) (c ∷ fmt) args = step c (record { fmt = fmt; args = args }) >>= λ s.
    print fuel s.input.fmt s.input.args >>= λ w. some (s.writer >> w)

-- `end - buf` for a buffer at `buf`: the buffer ends at the end of the address space at last.
unfoldable pub end_of : ℕ → ℕ → ℕ
end_of buf size = if ltb (u64 (buf + size)) buf then 2 ^ 64 - 1 - buf else size

-- After the loop: the number of characters as an `int`, and the output.
terminate : ℕ → Out → ℕ × Out
terminate limit o =
    if limit == 0
    then (u32 o.str, o)
    else (let o1 = add_char 0 limit o in
        let o2 =
          if ltb limit o1.str then record o1 { memory = store8 o1.memory (limit - 1) 0 } else o1 in
        (u32 (o2.str - 1), record o2 { str = o2.str - 1 }))

-- A round takes at least one character of the format, so there are no more rounds than characters.
unfoldable pub vsnprintf_internal : ℕ → ℕ → Text → List Arg → Buffer → Option (ℕ × Out)
unfolding print end_of terminate number string strnlen digits_of put_dec put_dec_trunc
vsnprintf_internal buf size fmt args memory =
    let limit = end_of buf size in
    print (suc (length fmt)) fmt args >>= λ w.
    some (terminate limit (w limit (record { memory = memory; str = 0; stored = [] })))

-- `snprintf` and `vsnprintf` return what `vsnprintf_internal` does.
unfoldable pub snprintf : ℕ → ℕ → Text → List Arg → Buffer → Option (ℕ × Out)
unfolding vsnprintf_internal
snprintf buf size fmt args memory = vsnprintf_internal buf size fmt args memory

-- `if (likely(i < size))` compares as `size_t`.
unfoldable pub scnprintf : ℕ → ℕ → Text → List Arg → Buffer → Option (ℕ × Out)
unfolding vsnprintf_internal
scnprintf buf size fmt args memory = vsnprintf_internal buf size fmt args memory >>= λ (i, o).
    some ((if ltb (sext32 i) size then i else (if not (size == 0) then u32 (size - 1) else 0)), o)

unfoldable pub sprintf : ℕ → Text → List Arg → Buffer → Option (ℕ × Out)
unfolding vsnprintf_internal
sprintf buf fmt args memory = vsnprintf_internal buf 2147483647 fmt args memory
