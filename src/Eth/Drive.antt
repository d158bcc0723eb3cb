-- ===== src/Eth/Drive.antt =====
-- What net/eth_legacy.c asks of the current device: to start, to stop and to send.
use emac_driver.Common.{
  ℕ, zero, suc, ◌+◌, ◌-◌, ◌^◌, ◌∷◌, Option, none, some, Bool, true, false, if◌then◌else◌,
}
use emac_driver.Common.Buffer.{Buffer}
use emac_driver.Eth.{passive, active, Eth, ◌>>=◌, update, same, is_null, eth_try_another}

-- The drivers' part: whether `init` of a device returns a number that is not negative, at each of
-- its calls, counted from 0.
module _ (driver_init : ℕ → ℕ → Bool) where
  -- The loop of `eth_init`, which returns 0 or -110.
  unfoldable pub init_loop : ℕ → ℕ → Option ℕ → Eth → Option (Eth × ℕ)
  init_loop zero call old_current e = none
  init_loop (suc fuel) call old_current e = elim e.eth_current [
    | none ↦ none
    | some dev ↦
        if driver_init call dev
        then some (
          record e { device = update e.device dev (record (e.device dev) { state = active }) },
          0,
        )
        else (eth_try_another false e >>= λ e1.
            let rest = init_loop fuel (call + 1) old_current e1 in
            if same old_current e1.eth_current then some (e1, 2 ^ 32 - 110) else rest)
  ]

  unfoldable pub eth_init : Eth → Option (Eth × ℕ)
  unfolding init_loop eth_try_another
  eth_init e =
      if is_null e.eth_current
      then some (e, 2 ^ 32 - 19)
      else init_loop e.registered 0 e.eth_current e

unfoldable pub eth_halt : Eth → Eth
eth_halt e = elim e.eth_current [
  | none ↦ e
  | some dev ↦ record e {
    halted = update e.halted dev (e.halted dev + 1);
    device = update e.device dev (record (e.device dev) { state = passive });
  }
]

unfoldable pub eth_is_active : Option ℕ → Eth → Bool
eth_is_active none e = false
eth_is_active (some dev) e = elim (e.device dev).state [ active ↦ true | _ ↦ false ]

-- `eth_send` as `net_send_packet` calls it, which drops the result.
unfoldable pub eth_send : Buffer → ℕ → Eth → Eth
eth_send packet length e = elim e.eth_current [
  | none ↦ e
  | some dev ↦ record e { sent = record { to = dev; packet = packet; length = length } ∷ e.sent }
]
