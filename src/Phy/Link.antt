-- ===== src/Phy/Link.antt =====
-- net/phy/phy.c: the state of the link, and the reset of a PHY.
pub mod Laws
use emac_driver.Common.{
  ℕ, zero, suc, ◌+◌, ◌-◌, ◌*◌, ◌%◌, ◌^◌, Bool, true, false, not, ◌&&◌, ◌∷◌, Option, none, some,
  ◌==◌, if◌then◌else◌, bit_and, bit_or, has_bits, u32, ◌<<<◌,
}
use emac_driver.Io.{Hardware, History, Io, ◌>>=◌, pure, udelay}
use emac_driver.Mii.Access.{Bus, is_negative}
use emac_driver.Mii.Registers.{
  mii_bmcr, mii_bmsr, mii_advertise, mii_lpa, mii_ctrl1000, mii_stat1000, mii_estatus, bmcr_reset,
  bmcr_fulldplx, bmcr_speed100, bmcr_speed1000, bmsr_lstatus, bmsr_anegcomplete, bmsr_estaten,
  bmsr_ercap, lpa_10full, lpa_100half, lpa_100full, estatus_1000_tfull, estatus_1000_thalf,
  estatus_1000_xfull, estatus_1000_xhalf,
}
use emac_driver.Phy.{Ethtool, PhyDevice, phy_read, phy_write}

abbrev pub phy_aneg_timeout : ℕ
phy_aneg_timeout = 4000

abbrev pub phy_1000btsr_1000fd : ℕ
phy_1000btsr_1000fd = 0x0800

abbrev pub phy_1000btsr_1000hd : ℕ
phy_1000btsr_1000hd = 0x0400

module _ (c : Ethtool) (ops : Bus) (hw : Hardware) (patience : ℕ) where
  -- The loop of genphy_update_link, for `rounds` more values of `i`.
  unfoldable pub wait_negotiation : ℕ → ℕ → PhyDevice → Io (PhyDevice × ℕ)
  unfolding udelay
  wait_negotiation zero mii_reg p =
      if has_bits mii_reg bmsr_anegcomplete
      then pure (record p { link = 1 }, 0)
      else pure (record p { link = 0 }, 2 ^ 32 - 110)
  wait_negotiation (suc rounds) mii_reg p =
      let again = λ (reg : ℕ). wait_negotiation rounds reg p in
      if has_bits mii_reg bmsr_anegcomplete
      then pure (record p { link = 1 }, 0)
      else (udelay hw patience 1 1000 >>= λ _. phy_read ops p mii_bmsr >>= λ reg. again reg)

  unfoldable pub genphy_update_link : PhyDevice → Io (PhyDevice × ℕ)
  unfolding wait_negotiation
  genphy_update_link p = phy_read ops p mii_bmsr >>= λ mii_reg.
      if not (p.link == 0) && has_bits mii_reg bmsr_lstatus
      then pure (p, 0)
      else (if p.autoneg == c.autoneg_enable && not (has_bits mii_reg bmsr_anegcomplete)
          then wait_negotiation (phy_aneg_timeout + 1) mii_reg p
          else (phy_read ops p mii_bmsr >>= λ reg.
              pure (record p { link = if has_bits reg bmsr_lstatus then 1 else 0 }, 0)))

-- The speed and duplex that the registers give.
module _ (c : Ethtool) where
  unfoldable pub gigabit_link : ℕ → PhyDevice → PhyDevice
  gigabit_link gblpa p = record p {
    speed = c.speed_1000;
    duplex = if has_bits gblpa phy_1000btsr_1000fd then c.duplex_full else c.duplex_half;
  }

  unfoldable pub common_link : ℕ → PhyDevice → PhyDevice
  common_link lpa p =
      if has_bits lpa (bit_or lpa_100full lpa_100half)
      then record p {
        speed = c.speed_100;
        duplex = if has_bits lpa lpa_100full then c.duplex_full else c.duplex_half;
      }
      else record p {
        speed = c.speed_10;
        duplex = if has_bits lpa lpa_10full then c.duplex_full else c.duplex_half;
      }

  unfoldable pub extended_link : ℕ → PhyDevice → PhyDevice
  extended_link estatus p =
      if has_bits estatus (
        bit_or (bit_or (bit_or estatus_1000_xfull estatus_1000_xhalf) estatus_1000_tfull)
          estatus_1000_thalf)
      then record p {
        speed = c.speed_1000;
        duplex =
            if has_bits estatus (bit_or estatus_1000_xfull estatus_1000_tfull)
            then c.duplex_full
            else p.duplex;
      }
      else p

  unfoldable pub forced_link : ℕ → PhyDevice → PhyDevice
  forced_link bmcr p = record p {
    speed =
        if has_bits bmcr bmcr_speed1000
        then c.speed_1000
        else (if has_bits bmcr bmcr_speed100 then c.speed_100 else c.speed_10);
    duplex = if has_bits bmcr bmcr_fulldplx then c.duplex_full else c.duplex_half;
  }

module _ (c : Ethtool) (ops : Bus) where
  -- `gblpa`
  unfoldable pub read_gigabit : PhyDevice → Io ℕ
  read_gigabit p =
      if has_bits p.supported (bit_or c.supported_1000baset_full c.supported_1000baset_half)
      then (phy_read ops p mii_stat1000 >>= λ gblpa. phy_read ops p mii_ctrl1000 >>= λ ctrl.
          pure (bit_and (if is_negative gblpa then 0 else gblpa) (u32 (ctrl <<< 2))))
      else pure 0

  -- From the reading of MII_ADVERTISE on.
  unfoldable pub parse_partner : ℕ → PhyDevice → Io (PhyDevice × ℕ)
  unfolding common_link extended_link
  parse_partner mii_reg p = phy_read ops p mii_advertise >>= λ adv.
      phy_read ops p mii_lpa >>= λ lpa.
      if has_bits mii_reg bmsr_estaten && not (has_bits mii_reg bmsr_ercap)
      then (phy_read ops p mii_estatus >>= λ estatus.
          pure (extended_link c estatus (common_link c (bit_and adv lpa) p), 0))
      else pure (common_link c (bit_and adv lpa) p, 0)

  unfoldable pub genphy_parse_link : PhyDevice → Io (PhyDevice × ℕ)
  unfolding read_gigabit gigabit_link parse_partner forced_link
  genphy_parse_link p = phy_read ops p mii_bmsr >>= λ mii_reg.
      if p.autoneg == c.autoneg_enable
      then (read_gigabit p >>= λ gblpa.
          if has_bits gblpa (bit_or phy_1000btsr_1000fd phy_1000btsr_1000hd)
          then pure (gigabit_link c gblpa p, 0)
          else parse_partner mii_reg p)
      else (phy_read ops p mii_bmcr >>= λ bmcr. pure (forced_link c bmcr p, 0))

module _ (c : Ethtool) (ops : Bus) (hw : Hardware) (patience : ℕ) where
  unfoldable pub genphy_startup : PhyDevice → Io (PhyDevice × ℕ)
  unfolding genphy_update_link genphy_parse_link
  genphy_startup phydev = genphy_update_link c ops hw patience phydev >>= λ r.
      if r.1 == 0 then genphy_parse_link c ops r.0 else pure r

-- The loop of phy_reset, for `timeout` more reads: the last value, `none` where a read has failed.
module _ (ops : Bus) (hw : Hardware) (patience : ℕ) where
  unfoldable pub poll_bmcr : ℕ → ℕ → PhyDevice → Io (Option ℕ)
  unfolding udelay
  poll_bmcr zero reg p = pure (some reg)
  poll_bmcr (suc timeout) reg p =
      let again = λ (value : ℕ). poll_bmcr timeout value p in
      if has_bits reg bmcr_reset
      then (phy_read ops p mii_bmcr >>= λ value.
          if is_negative value then pure none else (udelay hw patience 1 1000 >>= λ _. again value))
      else pure (some reg)

  reset_result : Option ℕ → ℕ
  reset_result none = 2 ^ 32 - 1
  reset_result (some reg) = if has_bits reg bmcr_reset then 2 ^ 32 - 1 else 0

  -- With 1 for PHY_FLAG_BROKEN_RESET.
  unfoldable pub phy_reset : PhyDevice → Io ℕ
  unfolding poll_bmcr reset_result
  phy_reset p =
      if has_bits p.flags 1
      then pure 0
      else (phy_write ops p mii_bmcr bmcr_reset >>= λ err.
          if is_negative err
          then pure (2 ^ 32 - 1)
          else (phy_read ops p mii_bmcr >>= λ reg.
              poll_bmcr 500 reg p >>= λ last. pure (reset_result last)))
