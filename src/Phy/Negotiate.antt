-- ===== src/Phy/Negotiate.antt =====
-- net/phy/phy.c: what a PHY advertises, and the start of a negotiation or of a forced mode.
use emac_driver.Common.{ℕ, ◌^◌, not, ◌||◌, ◌==◌, if◌then◌else◌, bit_and, bit_or, not32, has_bits}
use emac_driver.Io.{Io, ◌>>=◌, pure}
use emac_driver.Mii.Access.{Bus, is_negative}
use emac_driver.Mii.Registers.{
  mii_bmcr, mii_bmsr, mii_advertise, mii_ctrl1000, mii_estatus, bmcr_anenable, bmcr_anrestart,
  bmcr_isolate, bmcr_fulldplx, bmcr_speed100, bmcr_speed1000, bmsr_anegcapable, bmsr_estaten,
  bmsr_100full, bmsr_100half, bmsr_10full, bmsr_10half, advertise_10half, advertise_10full,
  advertise_100half, advertise_100full, advertise_pause_cap, advertise_pause_asym,
  advertise_1000xhalf, advertise_1000xfull, advertise_1000half, advertise_1000full,
  estatus_1000_tfull, estatus_1000_thalf, estatus_1000_xfull, estatus_1000_xhalf,
}
use emac_driver.Phy.{Ethtool, PhyDevice, phy_write, read_or_stop, put_if}

-- The bits that the driver sets itself: ADVERTISE_ALL, ADVERTISE_100BASE4 and the pause bits.
abbrev pub advertise_mask : ℕ
advertise_mask = 0x0FE0

module _ (c : Ethtool) where
  -- `adv` from `advertise`, up to 100 Mbit/s and for 1000BASE-X.
  unfoldable pub advertised : ℕ → ℕ → ℕ
  advertised advertise oldadv =
      let a0 = bit_and oldadv (not32 advertise_mask) in
      let a1 = put_if advertise c.advertised_10baset_half advertise_10half a0 in
      let a2 = put_if advertise c.advertised_10baset_full advertise_10full a1 in
      let a3 = put_if advertise c.advertised_100baset_half advertise_100half a2 in
      let a4 = put_if advertise c.advertised_100baset_full advertise_100full a3 in
      let a5 = put_if advertise c.advertised_pause advertise_pause_cap a4 in
      let a6 = put_if advertise c.advertised_asym_pause advertise_pause_asym a5 in
      let a7 = put_if advertise c.advertised_1000basex_half advertise_1000xhalf a6 in
      put_if advertise c.advertised_1000basex_full advertise_1000xfull a7

  -- `adv` for 1000BASE-T.
  unfoldable pub gigabit_advertised : ℕ → ℕ → ℕ → ℕ
  gigabit_advertised supported advertise oldadv =
      let adv = bit_and oldadv (not32 (bit_or advertise_1000full advertise_1000half)) in
      if has_bits supported (bit_or c.supported_1000baset_half c.supported_1000baset_full)
      then put_if advertise c.supported_1000baset_full advertise_1000full
          (put_if advertise c.supported_1000baset_half advertise_1000half adv)
      else adv

  -- The features of a PHY, by its status registers; `estatus` counts where the status says so.
  unfoldable pub features_of : ℕ → ℕ → ℕ
  features_of val estatus =
      let f0 =
        bit_or
          (bit_or (bit_or (bit_or c.supported_tp c.supported_mii) c.supported_aui)
            c.supported_fibre)
          c.supported_bnc in
      let f1 = put_if val bmsr_anegcapable c.supported_autoneg f0 in
      let f2 = put_if val bmsr_100full c.supported_100baset_full f1 in
      let f3 = put_if val bmsr_100half c.supported_100baset_half f2 in
      let f4 = put_if val bmsr_10full c.supported_10baset_full f3 in
      let f5 = put_if val bmsr_10half c.supported_10baset_half f4 in
      if has_bits val bmsr_estaten
      then put_if estatus estatus_1000_xhalf (2 ^ 21) (
          put_if estatus estatus_1000_xfull (2 ^ 22) (
            put_if estatus estatus_1000_thalf c.supported_1000baset_half
              (put_if estatus estatus_1000_tfull c.supported_1000baset_full f5)))
      else f5

  -- `ctl` of genphy_setup_forced.
  unfoldable pub forced_control : PhyDevice → ℕ
  forced_control p =
      let ctl =
        if p.speed == c.speed_1000
        then bit_or bmcr_anrestart bmcr_speed1000
        else (if p.speed == c.speed_100
            then bit_or bmcr_anrestart bmcr_speed100
            else bmcr_anrestart) in
      if p.duplex == c.duplex_full then bit_or ctl bmcr_fulldplx else ctl

module _ (c : Ethtool) (ops : Bus) where
  -- From the test of BMSR_ESTATEN on.
  unfoldable pub config_gigabit : PhyDevice → ℕ → Io (PhyDevice × ℕ)
  unfolding gigabit_advertised
  config_gigabit p changed = read_or_stop ops p p mii_bmsr (λ bmsr.
      if not (has_bits bmsr bmsr_estaten)
      then pure (p, changed)
      else (read_or_stop ops p p mii_ctrl1000 (λ oldadv.
          let adv = gigabit_advertised c p.supported p.advertising oldadv in
          phy_write ops p mii_ctrl1000 adv >>= λ err.
          pure (p, (if is_negative err then err else (if adv == oldadv then changed else 1))))))

  unfoldable pub genphy_config_advert : PhyDevice → Io (PhyDevice × ℕ)
  unfolding advertised config_gigabit
  genphy_config_advert phydev =
      let p = record phydev { advertising = bit_and phydev.advertising phydev.supported } in
      read_or_stop ops p p mii_advertise (λ oldadv.
        let adv = advertised c p.advertising oldadv in
        if adv == oldadv
        then config_gigabit p 0
        else (phy_write ops p mii_advertise adv >>= λ err.
            if is_negative err then pure (p, err) else config_gigabit p 1))

  unfoldable pub genphy_setup_forced : PhyDevice → Io (PhyDevice × ℕ)
  unfolding forced_control
  genphy_setup_forced phydev =
      let p = record phydev { pause = 0; asym_pause = 0 } in
      phy_write ops p mii_bmcr (forced_control c p) >>= λ err. pure (p, err)

  unfoldable pub genphy_restart_aneg : PhyDevice → Io (PhyDevice × ℕ)
  genphy_restart_aneg p = read_or_stop ops p p mii_bmcr (λ ctl.
      phy_write ops p mii_bmcr
        (bit_and (bit_or ctl (bit_or bmcr_anenable bmcr_anrestart)) (not32 bmcr_isolate))
      >>= λ err. pure (p, err))

  -- `result` after the advertisement has not changed.
  unfoldable pub needs_restart : PhyDevice → Io (PhyDevice × ℕ)
  needs_restart p = read_or_stop ops p p mii_bmcr (λ ctl.
      pure (p, (if not (has_bits ctl bmcr_anenable) || has_bits ctl bmcr_isolate then 1 else 0)))

  -- `if (result > 0)`, for an `int` bit pattern.
  unfoldable pub restart_if : PhyDevice × ℕ → Io (PhyDevice × ℕ)
  unfolding genphy_restart_aneg
  restart_if (p, result) =
      if is_negative result || result == 0 then pure (p, result) else genphy_restart_aneg p

  unfoldable pub genphy_config_aneg : PhyDevice → Io (PhyDevice × ℕ)
  unfolding genphy_setup_forced genphy_config_advert needs_restart restart_if
  genphy_config_aneg phydev =
      if not (phydev.autoneg == c.autoneg_enable)
      then genphy_setup_forced phydev
      else (genphy_config_advert phydev >>= λ r.
          if r.1 == 0 then (needs_restart r.0 >>= restart_if) else restart_if r)

  unfoldable pub take_features : PhyDevice → ℕ → Io (PhyDevice × ℕ)
  unfolding genphy_config_aneg
  take_features p features =
      genphy_config_aneg (record p {
        supported = bit_and p.supported features;
        advertising = bit_and p.advertising features;
      })
      >>= λ r. pure (r.0, 0)

  unfoldable pub genphy_config : PhyDevice → Io (PhyDevice × ℕ)
  unfolding features_of take_features
  genphy_config p = read_or_stop ops p p mii_bmsr (λ val.
      if has_bits val bmsr_estaten
      then read_or_stop ops p p mii_estatus (λ estatus. take_features p (features_of c val estatus))
      else take_features p (features_of c val 0))
