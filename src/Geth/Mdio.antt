-- ===== src/Geth/Mdio.antt =====
-- Access to the registers of a PHY over MDIO: geth_phy_read, geth_phy_write and what is registered
-- with the MII bus list, geth_miiphy_read and geth_miiphy_write. `none` is a device that does not
-- exist, or a transfer that lasts longer than the patience.
pub mod Controller
pub mod Laws
use emac_driver.Common.{ℕ, ◌+◌, ◌*◌, ◌%◌, ◌^◌, Option, none, some, u8, u16, bit_and, bit_or, ◌<<<◌}
use emac_driver.Io.{Hardware, Io, ◌>>=◌, ◌>>◌, pure, writel, readl, wait_clear}
use emac_driver.Geth.{geth_mdio_addr, geth_mdio_data, mii_busy, mii_write}
use emac_driver.Text.{Text}
use emac_driver.Eth.{Eth, eth_get_dev_by_name}

-- `reg_val`, with MII_WRITE and MII_BUSY as given.
unfoldable pub mdio_command : ℕ → ℕ → ℕ → ℕ
mdio_command phy_adr reg bits =
    bit_or (6 <<< 20)
      (bit_or (bit_or (bit_and (phy_adr <<< 12) 0x0001F000) (bit_and (reg <<< 4) 0x000007F0)) bits)

module _ (hw : Hardware) (patience : ℕ) where
  unfoldable pub geth_phy_read : ℕ → ℕ → ℕ → Io ℕ
  unfolding mdio_command wait_clear
  geth_phy_read iobase phy_adr reg = do
    writel (mdio_command phy_adr reg mii_busy) (iobase + geth_mdio_addr)
    wait_clear hw patience mii_busy (iobase + geth_mdio_addr)
    value ← readl hw (iobase + geth_mdio_data)
    pure (u16 value)

  unfoldable pub geth_phy_write : ℕ → ℕ → ℕ → ℕ → Io (Unit {0})
  unfolding mdio_command wait_clear
  geth_phy_write iobase phy_adr reg value = do
    writel value (iobase + geth_mdio_data)
    writel (mdio_command phy_adr reg (bit_or mii_write mii_busy)) (iobase + geth_mdio_addr)
    wait_clear hw patience mii_busy (iobase + geth_mdio_addr)

  -- The registers of the device with a name, `iobase` by device.
  unfoldable pub geth_miiphy_read : (ℕ → ℕ) → Eth → Text → ℕ → ℕ → Io ℕ
  unfolding geth_phy_read
  geth_miiphy_read iobase e devname phy_adr reg = elim (eth_get_dev_by_name devname e) [
    | some (some dev) ↦ geth_phy_read (iobase dev) phy_adr reg
    | some none ↦ λ h. none
    | none ↦ λ h. none
  ]

  unfoldable pub geth_miiphy_write : (ℕ → ℕ) → Eth → Text → ℕ → ℕ → ℕ → Io (Unit {0})
  unfolding geth_phy_write
  geth_miiphy_write iobase e devname phy_adr reg value = elim (eth_get_dev_by_name devname e) [
    | some (some dev) ↦ geth_phy_write (iobase dev) phy_adr reg value
    | some none ↦ λ h. none
    | none ↦ λ h. none
  ]
