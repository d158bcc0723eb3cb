-- ===== src/Geth/Phy.antt =====
-- mii_phy_init of net/emac/sunxi_geth.c: the PHY is found, reset and negotiates, and the MAC is set to
-- its speed and duplex.
use emac_driver.Common.{
  ℕ, zero, suc, ◌+◌, not, List, [], ◌∷◌, none, ◌==◌, if◌then◌else◌, bit_and, bit_or, not32,
  has_bits, u16, ◌<<<◌,
}
use emac_driver.Io.{Hardware, Io, ◌>>=◌, ◌>>◌, pure, when, writel, readl, udelay}
use emac_driver.Geth.{Mac, geth_basic_ctl0, int_phy}
use emac_driver.Geth.Mdio.{geth_phy_read, geth_phy_write}
use emac_driver.Mii.Registers.{
  mii_bmcr, mii_bmsr, mii_physid1, mii_physid2, mii_ctrl1000, bmcr_speed1000, bmcr_fulldplx,
  bmcr_pdown, bmcr_speed100, bmcr_reset, bmsr_anegcomplete, advertise_1000full,
}

-- The settings of an internal PHY: register and value.
abbrev pub internal_settings : List (ℕ × ℕ)
internal_settings =
    (0x1f, 0x013d)
    ∷ (0x10, 0x3ffe)
    ∷ (0x1f, 0x063d)
    ∷ (0x13, 0x8000)
    ∷ (0x1f, 0x023d)
    ∷ (0x18, 0x1000)
    ∷ (0x1f, 0x063d)
    ∷ (0x15, 0x132c)
    ∷ (0x1f, 0x013d)
    ∷ (0x13, 0xd602)
    ∷ (0x17, 0x003b)
    ∷ (0x1f, 0x063d)
    ∷ (0x14, 0x7088)
    ∷ (0x1f, 0x033d)
    ∷ (0x11, 0x8530)
    ∷ (0x1f, 0x003d)
    ∷ []

-- What `reg_val` of GETH_BASIC_CTL0 becomes for a BMCR.
unfoldable pub link_bits : ℕ → ℕ → ℕ
link_bits phy_val reg_val =
    let duplex =
      if has_bits phy_val bmcr_fulldplx then bit_or reg_val 1 else bit_and reg_val (not32 1) in
    let cleared = bit_and duplex (not32 0xc) in
    if has_bits phy_val bmcr_speed100
    then bit_or cleared 0x0c
    else (if not (has_bits phy_val bmcr_speed1000) then bit_or cleared 0x08 else cleared)

-- A bound on the rounds of every loop that polls the hardware.
module _ (hw : Hardware) (patience : ℕ) (iobase : ℕ) where
  -- The 32 bits of the identifier of the PHY at an address.
  unfoldable pub read_id : ℕ → Io ℕ
  unfolding geth_phy_read
  read_id i = do
    high ← geth_phy_read hw patience iobase i mii_physid1
    low ← geth_phy_read hw patience iobase i mii_physid2
    pure (bit_or (high <<< 16) low)

  -- The first address with a PHY, in `count` of them from `i` on; otherwise `phy_addr` stays.
  unfoldable pub find_phy : ℕ → ℕ → ℕ → Io ℕ
  unfolding read_id
  find_phy zero i phy_addr = pure phy_addr
  find_phy (suc count) i phy_addr =
      let next = find_phy count (i + 1) phy_addr in
      (read_id i >>= λ reg_val. if bit_and reg_val 0x1fffffff == 0x1fffffff then next else pure i)

  unfoldable pub write_settings : ℕ → List (ℕ × ℕ) → Io (Unit {0})
  unfolding geth_phy_write
  write_settings phy_addr [] = pure tt
  write_settings phy_addr ((reg, value) ∷ rest) =
      geth_phy_write hw patience iobase phy_addr reg value >> write_settings phy_addr rest

  -- `phy_val = geth_phy_read(reg); geth_phy_write(reg, f(phy_val));`
  unfoldable pub modify_phy : ℕ → ℕ → (ℕ → ℕ) → Io (Unit {0})
  unfolding geth_phy_read geth_phy_write
  modify_phy phy_addr reg f = do
    phy_val ← geth_phy_read hw patience iobase phy_addr reg
    geth_phy_write hw patience iobase phy_addr reg (u16 (f phy_val))

  -- `while (geth_phy_read(MII_BMCR) & mask);`
  unfoldable pub wait_bmcr : ℕ → ℕ → ℕ → Io (Unit {0})
  unfolding geth_phy_read
  wait_bmcr zero phy_addr mask h = none
  wait_bmcr (suc rounds) phy_addr mask h =
      let again = wait_bmcr rounds phy_addr mask in
      (geth_phy_read hw patience iobase phy_addr mii_bmcr >>= λ phy_val.
      if has_bits phy_val mask then again else pure tt)
        h

  unfoldable pub wait_negotiated : ℕ → ℕ → Io (Unit {0})
  unfolding geth_phy_read udelay
  wait_negotiated zero phy_addr h = none
  wait_negotiated (suc rounds) phy_addr h =
      let again = wait_negotiated rounds phy_addr in
      (geth_phy_read hw patience iobase phy_addr mii_bmsr >>= λ phy_val.
      if has_bits phy_val bmsr_anegcomplete
      then pure tt
      else (udelay hw patience 1 500000 >>= λ _. again))
        h

  -- The PHY is reset and negotiates for 100 Mbit/s at most.
  unfoldable pub reset_phy : ℕ → Io (Unit {0})
  unfolding modify_phy wait_bmcr wait_negotiated
  reset_phy phy_addr = do
    modify_phy phy_addr mii_bmcr (λ phy_val. bit_or phy_val bmcr_reset)
    wait_bmcr patience phy_addr bmcr_reset
    modify_phy phy_addr mii_bmcr (λ phy_val. bit_and phy_val (not32 bmcr_pdown))
    wait_bmcr patience phy_addr bmcr_pdown
    modify_phy phy_addr mii_ctrl1000 (λ phy_val. bit_and phy_val (not32 advertise_1000full))
    modify_phy phy_addr mii_bmcr (λ phy_val.
        bit_or (bit_or (bit_and phy_val (not32 bmcr_speed1000)) bmcr_speed100) bmcr_fulldplx)
    wait_negotiated patience phy_addr

  -- The MAC is set as BMCR says. The last read is for a message.
  unfoldable pub match_link : ℕ → Io (Unit {0})
  unfolding geth_phy_read link_bits
  match_link phy_addr = do
    phy_val ← geth_phy_read hw patience iobase phy_addr mii_bmcr
    reg_val ← readl hw (iobase + geth_basic_ctl0)
    writel (link_bits phy_val reg_val) (iobase + geth_basic_ctl0)
    shown ← geth_phy_read hw patience iobase phy_addr mii_bmcr
    pure tt

  unfoldable pub mii_phy_init : Mac → Io Mac
  unfolding find_phy write_settings reset_phy match_link
  mii_phy_init mac = do
    phy_addr ← find_phy 32 0 mac.phy_addr
    when (mac.used_type == int_phy) (write_settings phy_addr internal_settings)
    reset_phy phy_addr
    match_link phy_addr
    pure (record mac { phy_addr = phy_addr })
