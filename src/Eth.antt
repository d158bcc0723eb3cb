-- ===== src/Eth.antt =====
-- net/eth_legacy.c and the device rotation of net/eth_common.c: the registered devices, linked in
-- a ring by `next`. A device is named by its address; `none` as a result is a fault: a read through
-- NULL, or a walk that has not come back to `eth_devices` after as many steps as there were
-- registrations.
pub mod Drive
pub mod Ethaddr
pub mod Enetaddr
pub mod Hwaddr
pub mod Ring
pub mod Select
pub mod Register
pub mod Unregister
use emac_driver.Common.{
  ℕ, zero, suc, ◌+◌, ◌-◌, ◌*◌, ◌%◌, ◌^◌, List, [], ◌∷◌, Option, none, some, Bool, true, false, not,
  ◌&&◌, ◌||◌, ltb, leb, ◌==◌, if◌then◌else◌, u32,
}
use emac_driver.Common.Buffer.{Buffer}
use emac_driver.Text.{Text, strcmp}
use emac_driver.Env.{Env, env_set, env_get}
use mathlib.Core.Option

pub data EthState : Type 0 where
  init passive active : EthState

pub record Device : Type 0 where
  pub name : Text
  pub enetaddr : Buffer
  pub state : EthState
  pub next : ℕ
  pub index : ℕ

-- A packet handed to a device's `send`.
pub record Frame : Type 0 where
  pub to : ℕ
  pub packet : Buffer
  pub length : ℕ

pub record Eth : Type 0 where
  pub eth_devices : Option ℕ
  pub eth_current : Option ℕ
  pub device : ℕ → Device
  -- the `static int index` of `eth_register`
  pub registered : ℕ
  -- the `static` variables of `eth_try_another`
  pub first_failed : Option ℕ
  pub net_restart_wrap : Bool
  -- the `static` variables of `eth_set_current`: a pointer into a row of the environment, or NULL
  pub act : Option ℕ
  pub env_changed_id : ℕ
  pub env : Env
  -- what the devices were told: the packets sent and the addresses to take, the latest first, and
  -- how often each was halted
  pub sent : List Frame
  pub hwaddrs : List (ℕ × Buffer)
  pub halted : ℕ → ℕ

infixl 5 ◌>>=◌
abbrev pub ◌>>=◌ {ℓ κ} : {A : Type ℓ} {B : Type κ} → Option A → (A → Option B) → Option B
none >>= f = none
some a >>= f = f a

abbrev pub update {ℓ} : {A : Type ℓ} → (ℕ → A) → ℕ → A → ℕ → A
update f i v j = if j == i then v else f j

abbrev pub same : Option ℕ → Option ℕ → Bool
same none none = true
same none (some b) = false
same (some a) none = false
same (some a) (some b) = a == b

abbrev pub is_null : Option ℕ → Bool
is_null none = true
is_null (some a) = false

-- The `do ... while (dev != eth_devices)` that looks for a device.
unfoldable pub search_ring : ℕ → (ℕ → Device) → (Device → Bool) → ℕ → ℕ → Option (Option ℕ)
search_ring zero device test head dev = none
search_ring (suc fuel) device test head dev =
    let rest = search_ring fuel device test head (device dev).next in
    if test (device dev)
    then some (some dev)
    else (if (device dev).next == head then some none else rest)

search_devices : (Device → Bool) → Eth → Option (Option ℕ)
unfolding search_ring
search_devices test e = elim e.eth_devices [
  | none ↦ some none
  | some head ↦ search_ring e.registered e.device test head head
]

unfoldable pub eth_get_dev_by_name : Text → Eth → Option (Option ℕ)
unfolding search_devices
eth_get_dev_by_name devname = search_devices (λ d. strcmp devname d.name == 0)

unfoldable pub eth_get_dev_by_index : ℕ → Eth → Option (Option ℕ)
unfolding search_devices
eth_get_dev_by_index index = search_devices (λ d. d.index == index)

-- -1, as an `int`, where there is no device.
unfoldable pub eth_get_dev_index : Eth → ℕ
eth_get_dev_index e = elim e.eth_current [ none ↦ 2 ^ 32 - 1 | some dev ↦ (e.device dev).index ]

unfoldable pub eth_get_name : Eth → Text
eth_get_name e = elim e.eth_current [
  | none ↦ b'u' ∷ b'n' ∷ b'k' ∷ b'n' ∷ b'o' ∷ b'w' ∷ b'n' ∷ []
  | some dev ↦ (e.device dev).name
]

unfoldable pub eth_set_dev : Option ℕ → Eth → Eth
eth_set_dev dev e = record e { eth_current = dev }

unfoldable pub eth_set_current_to_next : Eth → Option Eth
eth_set_current_to_next e = elim e.eth_current [
  | none ↦ none
  | some dev ↦ some (record e { eth_current = some (e.device dev).next })
]

abbrev pub ethact : Text
ethact = b'e' ∷ b't' ∷ b'h' ∷ b'a' ∷ b'c' ∷ b't' ∷ []

abbrev ethrotate : Text
ethrotate = b'e' ∷ b't' ∷ b'h' ∷ b'r' ∷ b'o' ∷ b't' ∷ b'a' ∷ b't' ∷ b'e' ∷ []

-- `(ethrotate != NULL) && (strcmp(ethrotate, "no") == 0)`
pub no_rotation : Eth → Bool
no_rotation e = elim (env_get ethrotate e.env) [
  | none ↦ false
  | some value ↦ strcmp value (b'n' ∷ b'o' ∷ []) == 0
]

-- `act == NULL || strcmp(act, eth_get_name()) != 0`
abbrev pub differs : Option Text → Text → Bool
differs none name = true
differs (some act) name = not (strcmp act name == 0)

pub set_ethact : Option Text → Eth → Option Eth
set_ethact value e = env_set ethact value e.env >>= λ env. some (record e { env = env })

unfoldable pub eth_current_changed : Eth → Option Eth
unfolding no_rotation eth_get_name set_ethact
eth_current_changed e =
    let act = env_get ethact e.env in
    if no_rotation e
    then some e
    else (if not (is_null e.eth_current)
        then (if differs act (eth_get_name e) then set_ethact (some (eth_get_name e)) e else some e)
        else elim act [ none ↦ some e | some _ ↦ set_ethact none e ])

unfoldable pub eth_try_another : Bool → Eth → Option Eth
unfolding no_rotation eth_set_current_to_next eth_current_changed
eth_try_another first_restart e =
    if no_rotation e || is_null e.eth_current
    then some e
    else (let e1 = if first_restart then record e { first_failed = e.eth_current } else e in
        eth_set_current_to_next e1 >>= λ e2. eth_current_changed e2 >>= λ e3.
        some (
          if same e3.first_failed e3.eth_current
          then record e3 { net_restart_wrap = true }
          else e3))

-- The walk of `eth_register` to the last device of the ring.
unfoldable pub last_device : ℕ → (ℕ → Device) → ℕ → ℕ → Option ℕ
last_device zero device head d = none
last_device (suc fuel) device head d =
    let rest = last_device fuel device head (device d).next in
    if (device d).next == head then some d else rest

link : ℕ → ℕ → Eth → Eth
link d next e = record e { device = update e.device d (record (e.device d) { next = next }) }

-- The last three assignments, of `state`, `next` and `index`.
enroll : ℕ → ℕ → Eth → Eth
enroll dev head e = record e {
  device =
      update e.device dev
        (record (e.device dev) { state = EthState.init; next = head; index = e.registered });
  registered = u32 (e.registered + 1);
}

unfoldable pub eth_register : ℕ → Eth → Option Eth
unfolding eth_current_changed last_device link enroll
eth_register dev e = elim e.eth_devices [
  | none ↦
      eth_current_changed (record e { eth_devices = some dev; eth_current = some dev }) >>= λ e1.
      some (enroll dev dev e1)
  | some head ↦
      last_device e.registered e.device head head >>= λ d. some (enroll dev head (link d dev e))
]

-- The walk of `eth_unregister` to the device before `dev`, or to the last one.
unfoldable pub device_before : ℕ → (ℕ → Device) → ℕ → ℕ → ℕ → Option ℕ
device_before zero device head dev cur = none
device_before (suc fuel) device head dev cur =
    let rest = device_before fuel device head dev (device cur).next in
    if not ((device cur).next == head) && not ((device cur).next == dev) then rest else some cur

-- The result's second part is the `int` returned: 0, or -19 as a bit pattern.
unfoldable pub eth_unregister : ℕ → Eth → Option (Eth × ℕ)
unfolding device_before link eth_current_changed
eth_unregister dev e = elim e.eth_devices [
  | none ↦ some (e, 2 ^ 32 - 19)
  | some head ↦ device_before e.registered e.device head dev head >>= λ cur.
      if not ((e.device cur).next == dev)
      then some (e, 2 ^ 32 - 19)
      else (let after = (e.device dev).next in
          let e1 = link cur after e in
          let e2 =
            if head == dev
            then record e1 {
              eth_devices =
                  if (e1.device dev).next == head then none else some (e1.device dev).next;
            }
            else e1 in
          if same e2.eth_current (some dev)
          then (eth_current_changed (record e2 { eth_current = e2.eth_devices }) >>= λ e3.
              some (e3, 0))
          else some (e2, 0))
]
