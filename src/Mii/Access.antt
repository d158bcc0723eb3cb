-- ===== src/Mii/Access.antt =====
-- net/miiphyutil.c from miiphy_read on: the registers of a PHY by the name of its bus. What a bus does
-- is a parameter; its results are `int` bit patterns. CONFIG_PHYLIB is set, so that the file's
-- miiphy_reset is not compiled, and CONFIG_PHY_GIGE is not.
pub mod Info
use emac_driver.Common.{
  ℕ, zero, suc, ◌+◌, ◌-◌, ◌*◌, ◌/◌, ◌%◌, ◌^◌, Bool, Option, none, some, ltb, leb, ◌==◌,
  if◌then◌else◌, not, bit_and, bit_or, has_bits, u8, u16, u32, ◌<<<◌, ◌>>>◌,
}
use emac_driver.Text.{Text}
use emac_driver.Io.{Hardware, Io, ◌>>=◌, ◌>>◌, pure, lift, udelay}
use emac_driver.Mii.{Mii, miiphy_get_active_dev}
use emac_driver.Mii.Registers.{
  mii_bmcr, mii_bmsr, mii_physid1, mii_physid2, mii_advertise, mii_lpa, bmcr_fulldplx,
  bmcr_anenable, bmcr_speed100, bmcr_reset, bmsr_lstatus, lpa_10full, lpa_100half, lpa_100full,
  lpa_100base4,
}

-- `read` and `write` of a bus, by its address, and MDIO_DEVAD_NONE.
pub record Bus : Type 0 where
  pub read : ℕ → ℕ → ℕ → ℕ → Io ℕ
  pub write : ℕ → ℕ → ℕ → ℕ → ℕ → Io ℕ
  pub devad_none : ℕ

-- An identifier: the maker, its model and the revision.
pub record PhyInfo : Type 0 where
  pub oui : ℕ
  pub model : ℕ
  pub rev : ℕ

abbrev pub speed_100baset : ℕ
speed_100baset = 100

abbrev pub speed_10baset : ℕ
speed_10baset = 10

abbrev pub half : ℕ
half = 22

abbrev pub full : ℕ
full = 44

abbrev pub is_negative : ℕ → Bool
is_negative ret = leb (2 ^ 31) ret

-- `reg >> 10` and so on, for the two registers of the identifier.
unfoldable pub split_id : ℕ → ℕ → PhyInfo
split_id physid1 physid2 =
    let reg = bit_or physid2 (u32 (physid1 <<< 16)) in
    record { oui = reg >>> 10; model = u8 (bit_and (reg >>> 4) 0x3F); rev = u8 (bit_and reg 0xF) }

-- What follows a successful read; a failed one ends with `failed`.
abbrev pub or_else : {A : Type 0} → A → (ℕ → Mii → Io (Mii × A)) → Mii × Option ℕ → Io (Mii × A)
or_else failed next (m, none) = pure (m, failed)
or_else failed next (m, some value) = next value m

module _ (ops : Bus) where
  -- `none` as the second part is the status 1.
  unfoldable pub miiphy_read : Text → ℕ → ℕ → Mii → Io (Mii × Option ℕ)
  unfolding miiphy_get_active_dev
  miiphy_read devname addr reg m = lift (miiphy_get_active_dev devname m) >>= λ r. elim r.1 [
    | none ↦ pure (r.0, none)
    | some bus ↦
        (ops.read bus addr ops.devad_none reg >>= λ ret.
        pure (r.0, (if is_negative ret then none else some (u16 ret))))
  ]

  unfoldable pub miiphy_write : Text → ℕ → ℕ → ℕ → Mii → Io (Mii × ℕ)
  unfolding miiphy_get_active_dev
  miiphy_write devname addr reg value m = lift (miiphy_get_active_dev devname m) >>= λ r. elim r.1 [
    | none ↦ pure (r.0, 1)
    | some bus ↦ (ops.write bus addr ops.devad_none reg value >>= λ ret. pure (r.0, ret))
  ]

  -- `none` as the second part is the status -1.
  unfoldable pub miiphy_info : Text → ℕ → Mii → Io (Mii × Option PhyInfo)
  unfolding miiphy_read split_id
  miiphy_info devname addr m =
      miiphy_read devname addr mii_physid2 m
      >>= or_else none (λ id2 m2.
        if id2 == 0xFFFF
        then pure (m2, none)
        else (miiphy_read devname addr mii_physid1 m2
            >>= or_else none (λ id1 m1. pure (m1, some (split_id id1 id2)))))

  -- `miiphy_read_failed` where a read fails.
  unfoldable pub miiphy_speed : Text → ℕ → Mii → Io (Mii × ℕ)
  unfolding miiphy_read
  miiphy_speed devname addr m =
      miiphy_read devname addr mii_bmcr m
      >>= or_else speed_10baset (λ bmcr m1.
        if has_bits bmcr bmcr_anenable
        then (miiphy_read devname addr mii_lpa m1
            >>= or_else speed_10baset (λ anlpar m2.
              miiphy_read devname addr mii_advertise m2
              >>= or_else speed_10baset (λ adv m3. pure (
                m3,
                (if has_bits (bit_and anlpar adv)
                      (bit_or (bit_or lpa_100full lpa_100half) lpa_100base4)
                    then speed_100baset
                    else speed_10baset),
              ))))
        else pure (m1, (if has_bits bmcr bmcr_speed100 then speed_100baset else speed_10baset)))

  unfoldable pub miiphy_duplex : Text → ℕ → Mii → Io (Mii × ℕ)
  unfolding miiphy_read
  miiphy_duplex devname addr m =
      miiphy_read devname addr mii_bmcr m
      >>= or_else half (λ bmcr m1.
        if has_bits bmcr bmcr_anenable
        then (miiphy_read devname addr mii_lpa m1
            >>= or_else half (λ anlpar m2.
              miiphy_read devname addr mii_advertise m2
              >>= or_else half (λ adv m3. pure (
                m3,
                (if has_bits (bit_and anlpar adv) (bit_or lpa_10full lpa_100full)
                    then full
                    else half),
              ))))
        else pure (m1, (if has_bits bmcr bmcr_fulldplx then full else half)))

  unfoldable pub miiphy_is_1000base_x : Text → ℕ → ℕ
  miiphy_is_1000base_x devname addr = 0
