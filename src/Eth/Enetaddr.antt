-- ===== src/Eth/Enetaddr.antt =====
-- net/eth_common.c: Ethernet addresses in the environment, as text.
pub mod Laws
pub mod Names
use emac_driver.Common.{
  ℕ, zero, suc, ◌+◌, ◌*◌, ◌/◌, ◌%◌, ◌^◌, ◌-◌, List, [], ◌∷◌, Option, none, some, Bool, true, false,
  not, ◌&&◌, ◌==◌, if◌then◌else◌, has_bits,
}
use emac_driver.Common.Buffer.{Buffer, store8}
use emac_driver.Text.{Text, simple_strtoul}
use emac_driver.Env.{Env, env_set, env_get}
use emac_driver.Printf.Format.{int, text, address, rest, ◌>>=◌}
use emac_driver.Printf.Plain.{sprintf_local}
use emac_driver.Printf.Mac.{pm}
use emac_driver.Eth.Ethaddr.{is_valid_ethaddr}

-- The loop of `eth_parse_enetaddr`, `k` bytes before its end.
unfoldable pub parse_bytes : ℕ → ℕ → Text → Buffer → Buffer
parse_bytes zero i addr enetaddr = enetaddr
parse_bytes (suc k) i addr enetaddr =
    let (value, end) = simple_strtoul addr 16 in
    parse_bytes k (i + 1) (rest end) (store8 enetaddr i value)

-- The loop where `addr` is NULL.
pub clear_bytes : ℕ → ℕ → Buffer → Buffer
clear_bytes zero i enetaddr = enetaddr
clear_bytes (suc k) i enetaddr = clear_bytes k (i + 1) (store8 enetaddr i 0)

unfoldable pub eth_parse_enetaddr : Option Text → Buffer → Buffer
unfolding parse_bytes clear_bytes
eth_parse_enetaddr none enetaddr = clear_bytes 6 0 enetaddr
eth_parse_enetaddr (some addr) enetaddr = parse_bytes 6 0 addr enetaddr

-- The address that is read, and whether it is valid.
unfoldable pub eth_env_get_enetaddr : Text → Buffer → Env → Buffer × Bool
unfolding eth_parse_enetaddr is_valid_ethaddr
eth_env_get_enetaddr name enetaddr e =
    let a = eth_parse_enetaddr (env_get name e) enetaddr in (a, is_valid_ethaddr a)

-- "%s%daddr" or, for the first device, "%saddr".
unfoldable pub enetvar_format : ℕ → Text
enetvar_format index =
    if index == 0
    then b'%' ∷ b's' ∷ b'a' ∷ b'd' ∷ b'd' ∷ b'r' ∷ []
    else b'%' ∷ b's' ∷ b'%' ∷ b'd' ∷ b'a' ∷ b'd' ∷ b'd' ∷ b'r' ∷ []

-- "eth%dmacskip" or, for the first device, "ethmacskip".
unfoldable pub macskip_format : ℕ → Text
macskip_format index =
    b'e'
    ∷ b't'
    ∷ b'h'
    ∷ (if index == 0
        then b'm' ∷ b'a' ∷ b'c' ∷ b's' ∷ b'k' ∷ b'i' ∷ b'p' ∷ []
        else b'%' ∷ b'd' ∷ b'm' ∷ b'a' ∷ b'c' ∷ b's' ∷ b'k' ∷ b'i' ∷ b'p' ∷ [])

-- `!= NULL`
abbrev pub is_set : Option Text → Bool
is_set none = false
is_set (some value) = true

-- The local arrays stand at `place` and held `old`.
module _ (place : ℕ) (old : Buffer) where
  -- The second part is the `int` returned: 0, or -17 where a valid address is set. `none` is a fault.
  unfoldable pub eth_env_set_enetaddr : Text → Buffer → Env → Option (Env × ℕ)
  unfolding eth_env_get_enetaddr sprintf_local
  eth_env_set_enetaddr name enetaddr e =
      if (eth_env_get_enetaddr name old e).1
      then some (e, 2 ^ 32 - 17)
      else (sprintf_local 18 place (eth_env_get_enetaddr name old e).0 pm
            (address place enetaddr ∷ [])
          >>= λ buf. env_set name (some buf) e >>= λ e'. some (e', 0))

  unfoldable pub enetvar : Text → ℕ → Option Text
  unfolding enetvar_format sprintf_local
  enetvar base_name index =
      sprintf_local 32 place old (enetvar_format index) (text (some base_name) ∷ int index ∷ [])

  unfoldable pub eth_env_get_enetaddr_by_index : Text → ℕ → Buffer → Env → Option (Buffer × Bool)
  unfolding eth_env_get_enetaddr enetvar
  eth_env_get_enetaddr_by_index base_name index enetaddr e =
      enetvar base_name index >>= λ name. some (eth_env_get_enetaddr name enetaddr e)

  unfoldable pub eth_env_set_enetaddr_by_index : Text → ℕ → Buffer → Env → Option (Env × ℕ)
  unfolding eth_env_set_enetaddr enetvar
  eth_env_set_enetaddr_by_index base_name index enetaddr e =
      enetvar base_name index >>= λ name. eth_env_set_enetaddr name enetaddr e

  -- In an array of 15 bytes.
  unfoldable pub eth_mac_skip : ℕ → Env → Option Bool
  unfolding sprintf_local macskip_format
  eth_mac_skip index e =
      sprintf_local 15 place old (macskip_format index) (int index ∷ []) >>= λ name.
      some (is_set (env_get name e))
