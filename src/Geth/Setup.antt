-- ===== src/Geth/Setup.antt =====
-- net/emac/sunxi_geth.c: clocks (geth_sys_init), start and stop of the MAC (geth_init, geth_halt) and
-- its Ethernet address (geth_write_hwaddr).
pub mod Laws
use emac_driver.Common.{
  ℕ, ◌+◌, ◌-◌, ◌*◌, ◌/◌, ◌%◌, ◌^◌, Bool, true, false, ◌||◌, ◌==◌, if◌then◌else◌, bit_and, bit_or,
  not32, ◌<<<◌,
}
use emac_driver.Common.Buffer.{Buffer}
use emac_driver.Io.{
  Hardware, Io, ◌>>=◌, ◌>>◌, pure, when, writel, write_pointer, readl, wipe_buffer, set_bits,
  clear_bits, wait_clear, flush_cache,
}
use emac_driver.Geth.{
  Mac, ext_phy, int_phy, geth_basic_ctl1, geth_int_en, geth_tx_ctl0, geth_tx_ctl1,
  geth_tx_desc_list, geth_rx_ctl0, geth_rx_ctl1, geth_rx_desc_list, geth_rx_frm_flt, geth_addr_hi,
  geth_addr_lo, desc3, desc_size, align_line,
}
use emac_driver.Geth.Phy.{mii_phy_init}

-- `phy_interface_t`
abbrev pub phy_interface_mode_gmii : ℕ
phy_interface_mode_gmii = 1

abbrev pub phy_interface_mode_rmii : ℕ
phy_interface_mode_rmii = 6

abbrev pub phy_interface_mode_rgmii : ℕ
phy_interface_mode_rgmii = 7

abbrev pub ccmu_gmac_clk_reg : ℕ
ccmu_gmac_clk_reg = 0x097c

abbrev pub ccmu_ephy_clk_reg : ℕ
ccmu_ephy_clk_reg = 0x0970

-- `value` from the selection of the PHY on.
unfoldable pub select_phy : ℕ → ℕ → ℕ
select_phy used_type value =
    if used_type == int_phy
    then bit_or (bit_and (bit_or value (1 <<< 15)) (not32 (1 <<< 16))) (3 <<< 17)
    else bit_or (bit_and value (not32 (1 <<< 15))) (1 <<< 16)

-- `value` from the comment `Set PHY clock` on.
unfoldable pub phy_clock : ℕ → ℕ → ℕ → ℕ → ℕ
phy_clock phy_interface tx_delay rx_delay value =
    let v1 =
      if phy_interface == phy_interface_mode_rgmii
      then bit_or value 4
      else bit_and value (not32 4) in
    let v2 = bit_and v1 (not32 3) in
    let v3 =
      if phy_interface == phy_interface_mode_rgmii || phy_interface == phy_interface_mode_gmii
      then bit_or v2 2
      else (if phy_interface == phy_interface_mode_rmii then bit_or v2 0x2001 else v2) in
    let v4 = bit_or (bit_and v3 (not32 (7 <<< 10))) (bit_and tx_delay 7 <<< 10) in
    bit_or (bit_and v4 (not32 (0x1f <<< 5))) (bit_and rx_delay 0x1f <<< 5)

module _ (hw : Hardware) where
  -- `phy_clk_reg` and `ccmu_base` are where main.c has mapped PHY_CLK_REG and CCMU_BASE.
  unfoldable pub geth_sys_init : ℕ → ℕ → Mac → Io (Mac × ℕ)
  unfolding select_phy phy_clock set_bits
  geth_sys_init phy_clk_reg ccmu_base mac = do
    value ← readl hw phy_clk_reg
    when (ext_phy == int_phy)
        (set_bits hw 1 (ccmu_base + 0x0070) >> set_bits hw 4 (ccmu_base + 0x02c8))
    writel (phy_clock phy_interface_mode_rgmii 3 0 (select_phy ext_phy value)) phy_clk_reg
    set_bits hw (bit_or (1 <<< 16) (1 <<< 0)) (ccmu_base + ccmu_gmac_clk_reg)
    set_bits hw (3 <<< 30) (ccmu_base + ccmu_ephy_clk_reg)
    pure (record mac { used_type = ext_phy; phy_interface = phy_interface_mode_rgmii }, 0)

  unfoldable pub geth_halt : ℕ → Io (Unit {0})
  unfolding clear_bits
  geth_halt iobase = do
    clear_bits hw 0x80000000 (iobase + geth_tx_ctl0)
    clear_bits hw 0x80000000 (iobase + geth_rx_ctl0)

unfoldable pub geth_write_hwaddr : ℕ → Buffer → Io ℕ
geth_write_hwaddr iobase addr = do
  writel (bit_or (addr 5 <<< 8) (addr 4)) (iobase + geth_addr_hi 0)
  writel (bit_or (bit_or (bit_or (addr 3 <<< 24) (addr 2 <<< 16)) (addr 1 <<< 8)) (addr 0))
      (iobase + geth_addr_lo 0)
  pure 0

module _ (hw : Hardware) (patience : ℕ) where
  -- From `Initialize core` up to the address.
  unfoldable pub start_core : ℕ → Io (Unit {0})
  unfolding set_bits
  start_core iobase = do
    set_bits hw (3 <<< 30) (iobase + geth_tx_ctl0)
    set_bits hw 2 (iobase + geth_tx_ctl1)
    set_bits hw (0x0F <<< 28) (iobase + geth_rx_ctl0)
    set_bits hw 2 (iobase + geth_rx_ctl1)
    set_bits hw 1 (iobase + geth_rx_frm_flt)
    set_bits hw (8 <<< 24) (iobase + geth_basic_ctl1)

  -- From the interrupts on: each descriptor is cleared and is its own successor.
  unfoldable pub link_descriptors : Mac → ℕ → Io (Unit {0})
  unfolding flush_cache
  link_descriptors mac iobase = do
    writel 0 (iobase + geth_int_en)
    wipe_buffer mac.dma_desc_tx desc_size
    wipe_buffer mac.dma_desc_rx desc_size
    write_pointer mac.dma_desc_tx (desc3 mac.dma_desc_tx)
    write_pointer mac.dma_desc_rx (desc3 mac.dma_desc_rx)
    flush_cache mac.dma_desc_tx (align_line desc_size)
    flush_cache mac.dma_desc_rx (align_line desc_size)
    writel mac.dma_desc_tx (iobase + geth_tx_desc_list)
    writel mac.dma_desc_rx (iobase + geth_rx_desc_list)

  -- For a device that geth_initialize has filled, so that its `write_hwaddr` is geth_write_hwaddr.
  unfoldable pub geth_init : ℕ → Buffer → Mac → Io (Mac × ℕ)
  unfolding set_bits wait_clear mii_phy_init start_core geth_write_hwaddr link_descriptors
  geth_init iobase enetaddr mac = do
    set_bits hw 1 (iobase + geth_basic_ctl1)
    wait_clear hw patience 1 (iobase + geth_basic_ctl1)
    mac' ← mii_phy_init hw patience iobase mac
    start_core iobase
    geth_write_hwaddr iobase enetaddr
    link_descriptors mac' iobase
    pure (mac', 0)
