-- ===== src/Printf/Number.antt =====
-- misc/vsnprintf.c: `number` and `string`. An `int` is its bit pattern.
use mathlib.Core.List.{reverse}
use emac_driver.Common.{
  ℕ, zero, suc, ◌+◌, ◌-◌, ◌^◌, [], ◌∷◌, Option, none, some, Bool, not, ◌&&◌, ltb, leb, ◌==◌,
  if◌then◌else◌, length, take, replicate, bit_and, bit_or, has_bits, not32, sub32, sub64, slt32,
  sext32, ◌>>>◌, low_bits, u8, u32,
}
use emac_driver.Text.{Text}
use emac_driver.Printf.Decimal.{put_dec}
use emac_driver.Printf.Output.{
  Writer, put, ◌>>◌, padding, padded, strnlen, zeropad, signed, plus, space, left, small, special,
}

-- `digits[d]` in the upper case of the table.
abbrev digit_of : ℕ → ℕ
digit_of d = if ltb d 10 then b'0' + d else b'A' + (d - 10)

-- `do { tmp[i++] = ...; num >>= shift; } while (num)`: a 64-bit number has at most 22 octal digits.
unfoldable pub power_digits : ℕ → ℕ → ℕ → ℕ → Text
power_digits zero shift locase num = []
power_digits (suc fuel) shift locase num =
    let more = power_digits fuel shift locase (num >>> shift) in
    bit_or (digit_of (low_bits (u8 num) shift)) locase ∷ (if num >>> shift == 0 then [] else more)

-- `tmp`, the lowest digit first.
unfoldable pub digits_of : ℕ → ℕ → ℕ → Text
unfolding power_digits
digits_of base locase num =
    if num == 0
    then b'0' ∷ []
    else (if not (base == 10)
        then power_digits 22 (if base == 16 then 4 else 3) locase num
        else put_dec num)

-- `sign`, 0 where there is none.
unfoldable pub sign_of : ℕ → ℕ → ℕ
sign_of type num =
    if has_bits type signed
    then (if leb (2 ^ 63) num
        then b'-'
        else (if has_bits type plus then b'+' else (if has_bits type space then b' ' else 0)))
    else 0

abbrev sign_text : ℕ → Text
sign_text sign = if sign == 0 then [] else sign ∷ []

prefix_text : Bool → ℕ → ℕ → Text
prefix_text need_pfx base locase =
    if need_pfx then b'0' ∷ (if base == 16 then bit_or b'X' locase ∷ [] else []) else []

unfoldable pub number : ℕ → ℕ → ℕ → ℕ → ℕ → Writer
unfolding sign_of prefix_text
number num0 base size0 precision0 type0 =
    let need_pfx = has_bits type0 special && not (base == 10) in
    let locase = bit_and type0 small in
    let type = if has_bits type0 left then bit_and type0 (not32 zeropad) else type0 in
    let sign = sign_of type num0 in
    let num = if sign == b'-' then sub64 0 num0 else num0 in
    let size1 = if sign == 0 then size0 else sub32 size0 1 in
    let size2 = if need_pfx then sub32 size1 (if base == 16 then 2 else 1) else size1 in
    let tmp = digits_of base locase num in
    let i = length tmp in
    let precision = if slt32 precision0 i then i else precision0 in
    let size3 = sub32 size2 precision in
    let lead = has_bits type (zeropad + left) in
    let size4 = if lead then size3 else padded size3 in
    let filled = has_bits type left in
    let size5 = if filled then size4 else padded size4 in
    put (if lead then [] else padding b' ' size3)
    >> put (sign_text sign)
    >> put (prefix_text need_pfx base locase)
    >> put (if filled then [] else padding (if has_bits type zeropad then b'0' else b' ') size4)
    >> put (replicate (precision - i) b'0')
    >> put (reverse tmp)
    >> put (padding b' ' size5)

abbrev null_text : Text
null_text = b'<' ∷ b'N' ∷ b'U' ∷ b'L' ∷ b'L' ∷ b'>' ∷ []

-- `s == NULL`
abbrev text_or_null : Option Text → Text
text_or_null none = null_text
text_or_null (some s) = s

-- `while (len < field_width--)`: the rounds, and `field_width` behind the loop.
abbrev missing : ℕ → ℕ → ℕ
missing len field_width = if slt32 len field_width then field_width - len else 0

abbrev used_up : ℕ → ℕ → ℕ
used_up len field_width = sub32 (if slt32 len field_width then len else field_width) 1

unfoldable pub string : Option Text → ℕ → ℕ → ℕ → Writer
string s field_width precision flags =
    let text = text_or_null s in
    let len = u32 (strnlen text (sext32 precision)) in
    let filled = has_bits flags left in
    let field_width' = if filled then field_width else used_up len field_width in
    put (if filled then [] else replicate (missing len field_width) b' ')
    >> put (take len text)
    >> put (replicate (missing len field_width') b' ')
