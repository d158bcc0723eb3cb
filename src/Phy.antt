-- ===== src/Phy.antt =====
-- net/phy/phy.c, the PHY library, for the configuration of include/autoconf.h, which has no PHY driver
-- but the generic one. A `phy_device` is a record that the functions take and return. Constants of
-- linux/ethtool.h, which is not part of the repository, are a parameter.
pub mod Negotiate
pub mod Link
pub mod Devices
use emac_driver.Common.{ℕ, ◌+◌, ◌^◌, Bool, Option, bit_or, ◌==◌, if◌then◌else◌, has_bits, u16}
use emac_driver.Io.{Io, ◌>>=◌, pure}
use emac_driver.Mii.Access.{Bus, is_negative}

-- Constants of linux/ethtool.h.
pub record Ethtool : Type 0 where
  pub speed_10 : ℕ
  pub speed_100 : ℕ
  pub speed_1000 : ℕ
  pub duplex_half : ℕ
  pub duplex_full : ℕ
  pub autoneg_enable : ℕ
  pub supported_10baset_half : ℕ
  pub supported_10baset_full : ℕ
  pub supported_100baset_half : ℕ
  pub supported_100baset_full : ℕ
  pub supported_1000baset_half : ℕ
  pub supported_1000baset_full : ℕ
  pub supported_autoneg : ℕ
  pub supported_tp : ℕ
  pub supported_mii : ℕ
  pub supported_aui : ℕ
  pub supported_fibre : ℕ
  pub supported_bnc : ℕ
  pub advertised_10baset_half : ℕ
  pub advertised_10baset_full : ℕ
  pub advertised_100baset_half : ℕ
  pub advertised_100baset_full : ℕ
  pub advertised_pause : ℕ
  pub advertised_asym_pause : ℕ
  pub advertised_1000basex_half : ℕ
  pub advertised_1000basex_full : ℕ

-- `struct phy_device`; a driver is named by its address.
pub record PhyDevice : Type 0 where
  pub bus : ℕ
  pub drv : ℕ
  pub dev : Option ℕ
  pub speed : ℕ
  pub duplex : ℕ
  pub link : ℕ
  pub interface : ℕ
  pub advertising : ℕ
  pub supported : ℕ
  pub mmds : ℕ
  pub autoneg : ℕ
  pub addr : ℕ
  pub pause : ℕ
  pub asym_pause : ℕ
  pub phy_id : ℕ
  pub flags : ℕ

-- `if (word & mask) out |= bits;`
abbrev pub put_if : ℕ → ℕ → ℕ → ℕ → ℕ
put_if word mask bits out = if has_bits word mask then bit_or out bits else out

module _ (ops : Bus) (phydev : PhyDevice) where
  abbrev pub phy_read : ℕ → Io ℕ
  phy_read regnum = ops.read phydev.bus phydev.addr ops.devad_none regnum

  abbrev pub phy_write : ℕ → ℕ → Io ℕ
  phy_write regnum val = ops.write phydev.bus phydev.addr ops.devad_none regnum (u16 val)

  -- A read, with what follows it; a failed one ends with its result.
  abbrev pub read_or_stop : PhyDevice → ℕ → (ℕ → Io (PhyDevice × ℕ)) → Io (PhyDevice × ℕ)
  read_or_stop p regnum next =
      phy_read regnum >>= λ val. if is_negative val then pure (p, val) else next val
