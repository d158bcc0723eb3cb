-- ===== src/Geth.antt =====
-- net/emac/sunxi_geth.c, the driver of the Ethernet MAC: its registers, its static variables and
-- its DMA descriptors. The configuration is that of include/autoconf.h: RESET_DMA_EN,
-- NOT_SUPPORT_NOCACHED_ALLOC, PHY_RTL8211F and CONFIG_SUNXI_EXT_PHY are defined.
pub mod Rx
pub mod Descriptor
pub mod Mdio
pub mod Transmit
pub mod Receive
pub mod Phy
pub mod Setup
use emac_driver.Common.{
  ℕ, ◌+◌, ◌*◌, ◌/◌, ◌%◌, ◌^◌, Bool, not, ◌&&◌, ◌||◌, ◌==◌, if◌then◌else◌, low_bits, ◌>>>◌,
}

abbrev pub geth_basic_ctl0 : ℕ
geth_basic_ctl0 = 0x00

abbrev pub geth_basic_ctl1 : ℕ
geth_basic_ctl1 = 0x04

abbrev pub geth_int_sta : ℕ
geth_int_sta = 0x08

abbrev pub geth_int_en : ℕ
geth_int_en = 0x0C

abbrev pub geth_tx_ctl0 : ℕ
geth_tx_ctl0 = 0x10

abbrev pub geth_tx_ctl1 : ℕ
geth_tx_ctl1 = 0x14

abbrev pub geth_tx_desc_list : ℕ
geth_tx_desc_list = 0x20

abbrev pub geth_rx_ctl0 : ℕ
geth_rx_ctl0 = 0x24

abbrev pub geth_rx_ctl1 : ℕ
geth_rx_ctl1 = 0x28

abbrev pub geth_rx_desc_list : ℕ
geth_rx_desc_list = 0x34

abbrev pub geth_rx_frm_flt : ℕ
geth_rx_frm_flt = 0x38

abbrev pub geth_mdio_addr : ℕ
geth_mdio_addr = 0x48

abbrev pub geth_mdio_data : ℕ
geth_mdio_data = 0x4C

abbrev pub geth_addr_hi : ℕ → ℕ
geth_addr_hi reg = 0x50 + reg * 8

abbrev pub geth_addr_lo : ℕ → ℕ
geth_addr_lo reg = 0x54 + reg * 8

abbrev pub geth_tx_dma_sta : ℕ
geth_tx_dma_sta = 0xB0

abbrev pub mii_busy : ℕ
mii_busy = 1

abbrev pub mii_write : ℕ
mii_write = 2

-- The pointers that the driver keeps, and what it knows of the PHY.
pub record Mac : Type 0 where
  pub dma_desc_tx : ℕ
  pub dma_desc_rx : ℕ
  pub rx_packet : ℕ
  pub rx_handle_buf : ℕ
  pub used_type : ℕ
  pub phy_interface : ℕ
  pub phy_addr : ℕ

abbrev pub ext_phy : ℕ
ext_phy = 0

abbrev pub int_phy : ℕ
int_phy = 1

-- `sizeof(dma_desc_t)`: two words and two pointers of 64 bits, packed.
abbrev pub desc_size : ℕ
desc_size = 24

abbrev pub desc0 : ℕ → ℕ
desc0 p = p

abbrev pub desc1 : ℕ → ℕ
desc1 p = p + 4

abbrev pub desc2 : ℕ → ℕ
desc2 p = p + 8

abbrev pub desc3 : ℕ → ℕ
desc3 p = p + 16

-- `ALIGN(x, CACHE_LINE_SIZE)`
abbrev pub align_line : ℕ → ℕ
align_line x = (x + 63) / 64 * 64

-- The bit fields of a word are filled from the lowest bit on.
abbrev pub flag : ℕ → ℕ → Bool
flag word k = not (low_bits (word >>> k) 1 == 0)

-- `desc0.tx.own` and `desc0.rx.own`
abbrev pub own : ℕ → Bool
own word = flag word 31
