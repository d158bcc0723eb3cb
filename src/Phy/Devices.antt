-- ===== src/Phy/Devices.antt =====
-- net/phy/phy.c: the drivers and devices of the PHY library, and how a PHY is found on a bus. A device
-- is named by its address. `none` as a result of malloc is NULL.
use emac_driver.Common.{
  ℕ, zero, suc, ◌+◌, ◌-◌, ◌/◌, ◌%◌, ◌^◌, Bool, false, not, List, [], ◌∷◌, ◌++◌, Option, none, some,
  ◌==◌, if◌then◌else◌, bit_and, bit_or, not32, u16, ◌<<<◌,
}
use emac_driver.Io.{Hardware, Io, ◌>>=◌, ◌>>◌, pure, udelay}
use emac_driver.Eth.{update}
use emac_driver.Mii.{Mii}
use emac_driver.Mii.Access.{Bus, is_negative}
use emac_driver.Mii.Registers.{mii_physid1, mii_physid2}
use emac_driver.Phy.{Ethtool, PhyDevice}
use emac_driver.Phy.Link.{phy_reset}

-- `struct phy_driver`; a function that is not set is `none`.
pub record PhyDriver : Type 0 where
  pub uid : ℕ
  pub mask : ℕ
  pub mmds : ℕ
  pub features : ℕ
  pub probe : Option (PhyDevice → Io (PhyDevice × ℕ))
  pub config : Option (PhyDevice → Io (PhyDevice × ℕ))
  pub startup : Option (PhyDevice → Io (PhyDevice × ℕ))
  pub shutdown : Option (PhyDevice → Io (PhyDevice × ℕ))

pub record PhyLibrary : Type 0 where
  pub phy_drivers : List ℕ
  pub genphy_driver : ℕ
  pub driver : ℕ → PhyDriver
  pub phydev : ℕ → PhyDevice
  pub mii : Mii

unfoldable pub phy_register : ℕ → PhyLibrary → PhyLibrary
phy_register drv lib = record lib { phy_drivers = lib.phy_drivers ++ (drv ∷ []) }

-- The features that a speed brings, and the status, -524 for another speed.
unfoldable pub phy_set_supported : Ethtool → ℕ → PhyDevice → PhyDevice × ℕ
phy_set_supported c max_speed p =
    let s0 =
      bit_and p.supported (bit_or (bit_or c.supported_autoneg c.supported_tp) c.supported_mii) in
    let ten = bit_or c.supported_10baset_half c.supported_10baset_full in
    let hundred = bit_or ten (bit_or c.supported_100baset_half c.supported_100baset_full) in
    let thousand = bit_or hundred (bit_or c.supported_1000baset_half c.supported_1000baset_full) in
    if max_speed == c.speed_1000
    then (record p { supported = bit_or s0 thousand }, 0)
    else (if max_speed == c.speed_100
        then (record p { supported = bit_or s0 hundred }, 0)
        else (if max_speed == c.speed_10
            then (record p { supported = bit_or s0 ten }, 0)
            else (record p { supported = s0 }, 2 ^ 32 - 524)))

-- Calls a function of a driver, where it is set.
abbrev pub call : Option (PhyDevice → Io (PhyDevice × ℕ)) → PhyDevice → Io (PhyDevice × ℕ)
call none p = pure (p, 0)
call (some f) p = f p

unfoldable pub phy_probe : (ℕ → PhyDriver) → PhyDevice → Io (PhyDevice × ℕ)
phy_probe driver p = call (driver p.drv).probe (record p {
  advertising = (driver p.drv).features;
  supported = (driver p.drv).features;
  mmds = (driver p.drv).mmds;
})

unfoldable pub search_drivers : (ℕ → PhyDriver) → ℕ → List ℕ → Option ℕ
search_drivers driver phy_id [] = none
search_drivers driver phy_id (drv ∷ rest) =
    if bit_and (driver drv).uid (driver drv).mask == bit_and phy_id (driver drv).mask
    then some drv
    else search_drivers driver phy_id rest

unfoldable pub get_phy_driver : PhyLibrary → ℕ → ℕ
unfolding search_drivers
get_phy_driver lib phy_id = elim (search_drivers lib.driver phy_id lib.phy_drivers) [
  | some drv ↦ drv
  | none ↦ lib.genphy_driver
]

module _ (c : Ethtool) where
  -- The device before phy_probe.
  unfoldable pub new_device : PhyLibrary → ℕ → ℕ → ℕ → ℕ → PhyDevice
  unfolding get_phy_driver
  new_device lib bus addr phy_id interface = record {
    bus = bus;
    drv = get_phy_driver lib phy_id;
    dev = none;
    speed = 0;
    duplex = 2 ^ 32 - 1;
    link = 0;
    interface = interface;
    advertising = 0;
    supported = 0;
    mmds = 0;
    autoneg = c.autoneg_enable;
    addr = addr;
    pause = 0;
    asym_pause = 0;
    phy_id = phy_id;
    flags = 0;
  }

  abbrev pub set_phymap : Mii → ℕ → ℕ → Option ℕ → Mii
  set_phymap m bus addr phydev = record m {
    bus = update m.bus bus (record (m.bus bus) { phymap = update (m.bus bus).phymap addr phydev });
  }

  -- `fresh` is what malloc returns.
  unfoldable pub phy_device_create :
      Option ℕ → ℕ → ℕ → ℕ → ℕ → PhyLibrary → Io (PhyLibrary × Option ℕ)
  unfolding new_device phy_probe
  phy_device_create none bus addr phy_id interface lib = pure (lib, none)
  phy_device_create (some dev) bus addr phy_id interface lib =
      phy_probe lib.driver (new_device lib bus addr phy_id interface) >>= λ r. pure (
        record lib {
          phydev = update lib.phydev dev r.0;
          mii = set_phymap lib.mii bus addr (some dev);
        },
        some dev,
      )

module _ (ops : Bus) where
  -- `none` is the status -5.
  unfoldable pub get_phy_id : ℕ → ℕ → ℕ → Io (Option ℕ)
  get_phy_id bus addr devad = ops.read bus addr devad mii_physid1 >>= λ high.
      if is_negative high
      then pure none
      else (ops.read bus addr devad mii_physid2 >>= λ low.
          pure (if is_negative low then none else some (bit_or (u16 high <<< 16) (u16 low))))

-- `ffs(mask) - 1` for a mask that is not 0, of at most `width` bits.
unfoldable pub lowest_bit : ℕ → ℕ → ℕ
lowest_bit zero mask = 0
lowest_bit (suc width) mask = if mask % 2 == 1 then 0 else suc (lowest_bit width (mask / 2))

-- `phy_mask &= ~(1 << addr);`
abbrev pub drop_bit : ℕ → ℕ → ℕ
drop_bit mask addr = bit_and mask (not32 (1 <<< addr))

abbrev pub is_present : Option ℕ → Bool
is_present none = false
is_present (some phy_id) = not (bit_and phy_id 0x1fffffff == 0x1fffffff)

module _ (c : Ethtool) (ops : Bus) (fresh : Option ℕ) (bus interface : ℕ) where
  -- Every round drops a bit of the mask, so 32 rounds are enough.
  unfoldable pub create_phy_by_mask : ℕ → ℕ → ℕ → PhyLibrary → Io (PhyLibrary × Option ℕ)
  unfolding lowest_bit get_phy_id phy_device_create
  create_phy_by_mask zero phy_mask devad lib = pure (lib, none)
  create_phy_by_mask (suc rounds) phy_mask devad lib =
      let addr = lowest_bit 32 phy_mask in
      let next = create_phy_by_mask rounds (drop_bit phy_mask addr) devad lib in
      if phy_mask == 0
      then pure (lib, none)
      else (get_phy_id ops bus addr devad >>= λ r. elim r [
        | none ↦ next
        | some phy_id ↦
            if is_present (some phy_id)
            then phy_device_create c fresh bus addr phy_id interface lib
            else next
      ])

  unfoldable pub search_for_existing_phy : ℕ → ℕ → PhyLibrary → PhyLibrary × Option ℕ
  unfolding lowest_bit
  search_for_existing_phy zero phy_mask lib = (lib, none)
  search_for_existing_phy (suc rounds) phy_mask lib =
      let addr = lowest_bit 32 phy_mask in
      let next = search_for_existing_phy rounds (drop_bit phy_mask addr) lib in
      if phy_mask == 0 then (lib, none) else elim ((lib.mii.bus bus).phymap addr) [
        | none ↦ next
        | some dev ↦ (
          record lib {
            phydev = update lib.phydev dev (record (lib.phydev dev) { interface = interface });
          },
          some dev,
        )
      ]

  -- The tries of get_phy_device_by_mask from device `i` of the PHY on.
  unfoldable pub try_devices : ℕ → ℕ → ℕ → PhyLibrary → Io (PhyLibrary × Option ℕ)
  unfolding create_phy_by_mask
  try_devices zero i phy_mask lib = pure (lib, none)
  try_devices (suc count) i phy_mask lib =
      let next = λ (lib' : PhyLibrary). try_devices count (i + 1) phy_mask lib' in
      create_phy_by_mask 32 phy_mask (if i == 0 then ops.devad_none else i) lib >>= λ r. elim r.1 [
        | some dev ↦ pure (r.0, some dev)
        | none ↦ next r.0
      ]

  unfoldable pub get_phy_device_by_mask : ℕ → PhyLibrary → Io (PhyLibrary × Option ℕ)
  unfolding search_for_existing_phy try_devices
  get_phy_device_by_mask phy_mask lib =
      let r = search_for_existing_phy 32 phy_mask lib in
      elim r.1 [ some dev ↦ pure (r.0, some dev) | none ↦ try_devices 5 0 phy_mask r.0 ]

  unfoldable pub get_phy_device : ℕ → PhyLibrary → Io (PhyLibrary × Option ℕ)
  unfolding get_phy_device_by_mask
  get_phy_device addr = get_phy_device_by_mask (1 <<< addr)

  -- `reset` is the bus's, where it is set.
  module _ (hw : Hardware) (patience : ℕ) (reset : Option (Io (Unit {0}))) where
    unfoldable pub mdelay : ℕ → Io (Unit {0})
    unfolding udelay
    mdelay zero = pure tt
    mdelay (suc msec) = udelay hw patience 1 1000 >> mdelay msec

    unfoldable pub phy_find_by_mask : ℕ → PhyLibrary → Io (PhyLibrary × Option ℕ)
    unfolding mdelay get_phy_device_by_mask
    phy_find_by_mask phy_mask lib = elim reset [
      | none ↦ get_phy_device_by_mask phy_mask lib
      | some go ↦ (go >>= λ _. mdelay 15 >>= λ _. get_phy_device_by_mask phy_mask lib)
    ]

    unfoldable pub phy_connect_dev : ℕ → ℕ → PhyLibrary → Io PhyLibrary
    unfolding phy_reset
    phy_connect_dev phydev dev lib = phy_reset ops hw patience (lib.phydev phydev) >>= λ _.
        pure (record lib {
          phydev = update lib.phydev phydev (record (lib.phydev phydev) { dev = some dev });
        })

    unfoldable pub phy_connect : ℕ → ℕ → PhyLibrary → Io (PhyLibrary × Option ℕ)
    unfolding phy_find_by_mask phy_connect_dev
    phy_connect addr dev lib = phy_find_by_mask (1 <<< addr) lib >>= λ r. elim r.1 [
      | none ↦ pure (r.0, none)
      | some phydev ↦ (phy_connect_dev phydev dev r.0 >>= λ lib'. pure (lib', some phydev))
    ]

-- The functions of the driver of a device.
module _ (lib : PhyLibrary) (p : PhyDevice) where
  unfoldable pub phy_startup : Io (PhyDevice × ℕ)
  phy_startup = call (lib.driver p.drv).startup p

  unfoldable pub board_phy_config : Io (PhyDevice × ℕ)
  board_phy_config = call (lib.driver p.drv).config p

  unfoldable pub phy_config : Io (PhyDevice × ℕ)
  unfolding board_phy_config
  phy_config = board_phy_config

  unfoldable pub phy_shutdown : Io (PhyDevice × ℕ)
  phy_shutdown = call (lib.driver p.drv).shutdown p >>= λ r. pure (r.0, 0)
