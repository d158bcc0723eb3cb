-- ===== src/Printf/Pointer.antt =====
-- misc/vsnprintf.c: the addresses that `%p` prints, with CONFIG_CMD_NET.
use mathlib.Core.List.{reverse}
use emac_driver.Common.{
  ℕ, zero, suc, ◌+◌, ◌-◌, ◌^◌, [], ◌∷◌, ◌++◌, some, Bool, not, ◌&&◌, ◌||◌, ltb, ◌==◌, if◌then◌else◌,
  bit_and, bit_or, has_bits, not32, ◌>>>◌, ◌<<<◌,
}
use emac_driver.Common.Buffer.{Buffer, load32, window}
use emac_driver.Text.{Text, first}
use emac_driver.Printf.Decimal.{put_dec_trunc}
use emac_driver.Printf.Output.{Writer, zeropad, small, special}
use emac_driver.Printf.Number.{number, string}

-- `hex_asc[d]`
abbrev pub hex_asc : ℕ → ℕ
hex_asc d = if ltb d 10 then b'0' + d else b'a' + (d - 10)

-- What `hex_byte_pack` writes.
unfoldable pub hex_byte_pack : ℕ → Text
hex_byte_pack byte = hex_asc (bit_and byte 0xf0 >>> 4) ∷ hex_asc (bit_and byte 0x0f) ∷ []

-- The loop of `mac_address_string`, `k` bytes before its end.
unfoldable pub mac_bytes : Bool → Buffer → ℕ → Text
unfolding hex_byte_pack
mac_bytes plain addr zero = []
mac_bytes plain addr (suc k) =
    hex_byte_pack (addr 0)
    ++ ((if not plain && not (k == 0) then b':' ∷ [] else []) ++ mac_bytes plain (window addr 1) k)

unfoldable pub mac_address_string : Buffer → ℕ → ℕ → ℕ → Writer
unfolding mac_bytes
mac_address_string addr field_width precision flags =
    string (some (mac_bytes (has_bits flags special) addr 6)) field_width precision
      (bit_and flags (not32 special))

-- The loop of `ip6_addr_string`.
ip6_words : Bool → Buffer → ℕ → Text
unfolding hex_byte_pack
ip6_words plain addr zero = []
ip6_words plain addr (suc k) =
    hex_byte_pack (addr 0)
    ++ (hex_byte_pack (addr 1)
        ++ ((if not plain && not (k == 0) then b':' ∷ [] else [])
            ++ ip6_words plain (window addr 2) k))

unfoldable pub ip6_addr_string : Buffer → ℕ → ℕ → ℕ → Writer
unfolding ip6_words
ip6_addr_string addr field_width precision flags =
    string (some (ip6_words (has_bits flags special) addr 8)) field_width precision
      (bit_and flags (not32 special))

-- The loop of `ip4_addr_string`.
unfoldable pub ip4_quads : Buffer → ℕ → Text
ip4_quads addr zero = []
ip4_quads addr (suc k) =
    reverse (put_dec_trunc (addr 0))
    ++ ((if not (k == 0) then b'.' ∷ [] else []) ++ ip4_quads (window addr 1) k)

unfoldable pub ip4_addr_string : Buffer → ℕ → ℕ → ℕ → Writer
unfolding ip4_quads
ip4_addr_string addr field_width precision flags =
    string (some (ip4_quads addr 4)) field_width precision (bit_and flags (not32 special))

-- From the end of the `switch` on.
unfoldable pub pointer_number : ℕ → ℕ → ℕ → ℕ → Writer
pointer_number num field_width precision flags =
    let wide = field_width == 2 ^ 32 - 1 in
    let flags1 = bit_or flags small in
    number num 16 (if wide then 16 else field_width) precision
      (if wide then bit_or flags1 zeropad else flags1)

-- The cases of the `switch` of `pointer`; the Boolean is whether SPECIAL is set on the way.
pub data Shown : Type 0 where
  physical other plain_other : Shown
  mac ip6 ip4 : Bool → Shown

unfoldable pub shown : Text → Shown
shown [] = Shown.other
shown (c ∷ fmt) =
    if c == b'a'
    then Shown.physical
    else (if c == b'm' || c == b'M'
        then Shown.mac (c == b'm')
        else (if c == b'i' || c == b'I'
            then (if first fmt == b'6'
                then Shown.ip6 (c == b'i')
                else (if first fmt == b'4' then Shown.ip4 (c == b'i') else Shown.plain_other))
            else Shown.other))

abbrev with_special : Bool → ℕ → ℕ
with_special b flags = if b then bit_or flags special else flags

-- For the address `ptr`, where the bytes `target` are.
unfoldable pub print_shown : Shown → ℕ → Buffer → ℕ → ℕ → ℕ → Writer
unfolding pointer_number mac_address_string ip6_addr_string ip4_addr_string
print_shown Shown.physical ptr target field_width precision flags =
    pointer_number (load32 target 0 + (load32 target 4 <<< 32)) 18 precision
      (bit_or flags (bit_or special zeropad))
print_shown Shown.other ptr target field_width precision flags =
    pointer_number ptr field_width precision flags
print_shown Shown.plain_other ptr target field_width precision flags =
    pointer_number ptr field_width precision (bit_and flags (not32 special))
print_shown (Shown.mac b) ptr target field_width precision flags =
    mac_address_string target field_width precision (with_special b flags)
print_shown (Shown.ip6 b) ptr target field_width precision flags =
    ip6_addr_string target field_width precision (with_special b flags)
print_shown (Shown.ip4 b) ptr target field_width precision flags =
    ip4_addr_string target field_width precision (with_special b flags)

unfoldable pub pointer : Text → ℕ → Buffer → ℕ → ℕ → ℕ → Writer
unfolding shown print_shown
pointer fmt ptr target field_width precision flags =
    print_shown (shown fmt) ptr target field_width precision flags
