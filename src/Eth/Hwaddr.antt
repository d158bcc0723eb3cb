-- ===== src/Eth/Hwaddr.antt =====
-- net/eth_legacy.c: the Ethernet address of a device, from the environment, from the device, or the
-- default one.
pub mod Choice
pub mod Laws
use emac_driver.Common.{
  ℕ, zero, suc, ◌+◌, ◌*◌, ◌-◌, ◌^◌, List, [], ◌∷◌, Option, none, some, Bool, true, false, not, ◌&&◌,
  ◌==◌, if◌then◌else◌, u32,
}
use emac_driver.Common.Buffer.{Buffer, copy, of_list}
use emac_driver.Text.{Text, simple_strtoul}
use emac_driver.Env.{Env}
use emac_driver.Printf.Format.{rest}
use emac_driver.Eth.{Eth, Device, ◌>>=◌, update, same}
use emac_driver.Eth.Ethaddr.{is_zero_ethaddr, is_valid_ethaddr}
use emac_driver.Eth.Enetaddr.{
  eth_parse_enetaddr, eth_env_get_enetaddr_by_index, eth_env_set_enetaddr_by_index, eth_mac_skip,
}

abbrev pub default_mac : Buffer
default_mac = of_list (0x6a ∷ 0xe3 ∷ 0xd1 ∷ 0x16 ∷ 0xb0 ∷ 0x50 ∷ [])

abbrev pub eth_name : Text
eth_name = b'e' ∷ b't' ∷ b'h' ∷ []

unfoldable pub set_enetaddr : ℕ → Buffer → Eth → Eth
set_enetaddr dev a e = record e {
  device = update e.device dev (record (e.device dev) { enetaddr = a });
}

pub data EnvOp : Type 0 where
  create delete overwrite : EnvOp

-- What follows on the choice of the address.
unfoldable pub tell_enetaddr : (ℕ → Buffer → ℕ) → ℕ → Eth → Eth × ℕ
unfolding is_valid_ethaddr
tell_enetaddr driver_write dev e =
    let a = (e.device dev).enetaddr in
    if not (is_valid_ethaddr a)
    then (e, 2 ^ 32 - 22)
    else (record e { hwaddrs = (dev, a) ∷ e.hwaddrs }, driver_write dev a)

-- The local arrays stand at `place` and held `old`.
module _ (place : ℕ) (old : Buffer) where
  -- Up to the `write_hwaddr` of the driver, with CONFIG_NET_RANDOM_ETHADDR.
  unfoldable pub choose_enetaddr : ℕ → Text → ℕ → Buffer → Eth → Option Eth
  unfolding set_enetaddr is_valid_ethaddr
  choose_enetaddr dev base_name eth_number env_enetaddr e =
      let own = (e.device dev).enetaddr in
      if not (is_zero_ethaddr env_enetaddr)
      then some (set_enetaddr dev (copy own 0 env_enetaddr 0 6) e)
      else (if is_valid_ethaddr own
          then (eth_env_set_enetaddr_by_index place old base_name eth_number own e.env >>= λ r.
              some (record e { env = r.0 }))
          else (if is_zero_ethaddr own
              then some (set_enetaddr dev (copy own 0 default_mac 0 6) e)
              else some e))

-- Which devices have a `write_hwaddr`, and what it returns for a device and its address, are the
-- driver's part.
module _ (place : ℕ) (old : Buffer) (has_write : ℕ → Bool) (driver_write : ℕ → Buffer → ℕ) where
  unfoldable pub eth_write_hwaddr : ℕ → Text → ℕ → Eth → Option (Eth × ℕ)
  unfolding choose_enetaddr tell_enetaddr
  eth_write_hwaddr dev base_name eth_number e =
      eth_env_get_enetaddr_by_index place old base_name eth_number old e.env >>= λ found.
      choose_enetaddr place old dev base_name eth_number found.0 e >>= λ e1.
      if has_write dev
      then (eth_mac_skip place old eth_number e1.env >>= λ skip.
          if skip then some (e1, 0) else some (tell_enetaddr driver_write dev e1))
      else some (e1, 0)

  -- `do { ... dev = dev->next; } while (dev != eth_devices);`
  unfoldable pub each_device : ℕ → (ℕ → Eth → Option Eth) → ℕ → Eth → Option Eth
  each_device zero body dev e = none
  each_device (suc fuel) body dev e = body dev e >>= λ e1.
      let next = (e1.device dev).next in
      let more = each_device fuel body next e1 in
      if same (some next) e1.eth_devices then some e1 else more

  unfoldable pub change_enetaddr : EnvOp → Option Text → ℕ → Eth → Option Eth
  unfolding eth_write_hwaddr eth_parse_enetaddr
  change_enetaddr EnvOp.delete value dev e =
      some (set_enetaddr dev (copy (e.device dev).enetaddr 0 (λ i. 0) 0 6) e)
  change_enetaddr op value dev e =
      let e1 = set_enetaddr dev (eth_parse_enetaddr value (e.device dev).enetaddr) e in
      eth_write_hwaddr dev eth_name (e1.device dev).index e1 >>= λ r. some r.0

  unfoldable pub on_ethaddr : Text → Option Text → EnvOp → Eth → Option Eth
  unfolding each_device change_enetaddr
  on_ethaddr name value op e = elim e.eth_devices [
    | none ↦ some e
    | some head ↦
        let index = u32 (simple_strtoul (rest (rest (rest name))) 10).0 in
        each_device e.registered
          (λ dev e1.
            if (e1.device dev).index == index then change_enetaddr op value dev e1 else some e1)
          head e
  ]
