-- ===== src/Address.antt =====
-- Addresses as text: `string_to_ip` of common.c, `string_to_vlan` of net/net.c, and the callbacks of
-- net/net.c on the variables that hold addresses.
pub mod Laws
pub mod Print
use emac_driver.Common.{
  ℕ, zero, suc, ◌+◌, ◌*◌, ◌^◌, List, [], ◌∷◌, Option, none, some, Bool, not, ◌&&◌, ltb, ◌==◌,
  if◌then◌else◌, ◌>>>◌, bit_or, bit_and, low_bits, ◌<<<◌, u16, u32,
}
use emac_driver.Common.Buffer.{Buffer}
use emac_driver.Byteorder.{htons, htonl, ntohs, ntohl}
use emac_driver.Text.{Text, first, simple_strtoul}
use emac_driver.Text.Memory.{strcpy}
use emac_driver.Printf.Format.{int, ◌>>=◌}
use emac_driver.Printf.Convert.{sprintf}
use emac_driver.Net.{Net}
use emac_driver.Net.Ether.{vlan_none}

-- `s = (*e) ? e + 1 : e`
abbrev skip_one : Text → Text
skip_one [] = []
skip_one (c ∷ s) = s

-- The loop, with the number of octets to come; `none` where it returns the address 0.
unfoldable pub octets : ℕ → ℕ → Text → Option ℕ
octets zero addr s = some addr
octets (suc k) addr s =
    let (val, e) = simple_strtoul s 10 in
    let rest = octets k (bit_or (u32 (addr <<< 8)) (low_bits val 8)) (skip_one e) in
    if ltb 255 val then none else (if not (k == 0) && not (first e == b'.') then none else rest)

-- The result: 0 where the loop has returned, or the address in network byte order.
abbrev pub stored : Option ℕ → ℕ
stored none = 0
stored (some addr) = htonl addr

-- `none` as the argument is NULL.
unfoldable pub string_to_ip : Option Text → ℕ
string_to_ip none = 0
string_to_ip (some s) = stored (octets 4 0 s)

unfoldable pub string_to_vlan : Option Text → ℕ
string_to_vlan none = htons vlan_none
string_to_vlan (some s) =
    let id =
      if ltb (first s) b'0'
      then vlan_none
      else (if ltb b'9' (first s) then vlan_none else u16 (simple_strtoul s 10).0) in
    htons id

-- `flags & H_PROGRAMMATIC`
abbrev programmatic : ℕ → Bool
programmatic flags = not (bit_and flags (2 ^ 9) == 0)

unfoldable pub on_ipaddr : Option Text → ℕ → Net → Net
on_ipaddr value flags n = if programmatic flags then n else record n { net_ip = string_to_ip value }

unfoldable pub on_gatewayip : Option Text → ℕ → Net → Net
on_gatewayip value flags n =
    if programmatic flags then n else record n { net_gateway = string_to_ip value }

unfoldable pub on_netmask : Option Text → ℕ → Net → Net
on_netmask value flags n =
    if programmatic flags then n else record n { net_netmask = string_to_ip value }

unfoldable pub on_serverip : Option Text → ℕ → Net → Net
on_serverip value flags n =
    if programmatic flags then n else record n { net_server_ip = string_to_ip value }

unfoldable pub on_nvlan : Option Text → ℕ → Net → Net
on_nvlan value flags n =
    if programmatic flags then n else record n { net_native_vlan = string_to_vlan value }

unfoldable pub on_vlan : Option Text → ℕ → Net → Net
on_vlan value flags n =
    if programmatic flags then n else record n { net_our_vlan = string_to_vlan value }

-- "%d.%d.%d.%d"
abbrev pub dotted_format : Text
dotted_format = b'%' ∷ b'd' ∷ b'.' ∷ b'%' ∷ b'd' ∷ b'.' ∷ b'%' ∷ b'd' ∷ b'.' ∷ b'%' ∷ b'd' ∷ []

-- What is at `s`, an array at `place`, afterwards.
unfoldable pub ip_to_string : ℕ → ℕ → Buffer → Option Buffer
ip_to_string place x s =
    let a = ntohl x in
    sprintf place dotted_format
      (int (low_bits (a >>> 24) 8)
        ∷ int (low_bits (a >>> 16) 8)
        ∷ int (low_bits (a >>> 8) 8)
        ∷ int (low_bits a 8)
        ∷ [])
      s
    >>= λ r. some r.1.memory

abbrev pub none_text : Text
none_text = b'n' ∷ b'o' ∷ b'n' ∷ b'e' ∷ []

unfoldable pub vlan_to_string : ℕ → ℕ → Buffer → Option Buffer
unfolding strcpy
vlan_to_string place x s =
    let v = if ntohs x == 0xffff then vlan_none else ntohs x in
    if v == vlan_none
    then some (strcpy s none_text)
    else (sprintf place (b'%' ∷ b'd' ∷ []) (int (bit_and v 0x0fff) ∷ []) s >>= λ r. some r.1.memory)
