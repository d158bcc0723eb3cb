-- ===== src/Eth/Select.antt =====
-- `eth_set_current` of net/eth_common.c, which makes the device current that the environment names.
use emac_driver.Common.{ℕ, [], ◌∷◌, Option, none, some, not, ◌||◌, ◌==◌, if◌then◌else◌, get_or}
use emac_driver.Text.{Text}
use emac_driver.Env.{env_get, env_get_row}
use emac_driver.Eth.{
  Eth, ◌>>=◌, ethact, is_null, eth_get_dev_by_name, eth_set_dev, eth_current_changed,
}

abbrev pub ethprime : Text
ethprime = b'e' ∷ b't' ∷ b'h' ∷ b'p' ∷ b'r' ∷ b'i' ∷ b'm' ∷ b'e' ∷ []

-- `get_env_id`, which misc/nvedit.c defines to return 1.
abbrev get_env_id : ℕ
get_env_id = 1

-- Without `ethact`: the device that `ethprime` names, or none.
set_prime : Eth → Option Eth
unfolding eth_get_dev_by_name eth_set_dev
set_prime e = elim (env_get ethprime e.env) [
  | none ↦ some (eth_set_dev none e)
  | some name ↦ eth_get_dev_by_name name e >>= λ dev. some (eth_set_dev dev e)
]

unfoldable pub eth_set_current : Eth → Option Eth
unfolding set_prime eth_current_changed
eth_set_current e =
    let e1 =
      if is_null e.act || not (e.env_changed_id == get_env_id)
      then record e { act = env_get_row ethact e.env; env_changed_id = get_env_id }
      else e in
    let e2 : Option Eth = elim e1.act [
      | none ↦ set_prime e1
      | some row ↦
          eth_get_dev_by_name (get_or e1.env.vals row []) e1 >>= λ dev. some (eth_set_dev dev e1)
    ] in
    e2 >>= λ e3. eth_current_changed e3
