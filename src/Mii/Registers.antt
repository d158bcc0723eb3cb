-- ===== src/Mii/Registers.antt =====
-- The registers of a PHY and their bits, from include/mii.h.
use emac_driver.Common.{ℕ}

abbrev pub mii_bmcr : ℕ
mii_bmcr = 0x00

abbrev pub mii_bmsr : ℕ
mii_bmsr = 0x01

abbrev pub mii_physid1 : ℕ
mii_physid1 = 0x02

abbrev pub mii_physid2 : ℕ
mii_physid2 = 0x03

abbrev pub mii_advertise : ℕ
mii_advertise = 0x04

abbrev pub mii_lpa : ℕ
mii_lpa = 0x05

abbrev pub mii_ctrl1000 : ℕ
mii_ctrl1000 = 0x09

abbrev pub mii_stat1000 : ℕ
mii_stat1000 = 0x0a

abbrev pub mii_estatus : ℕ
mii_estatus = 0x0f

abbrev pub bmcr_speed1000 : ℕ
bmcr_speed1000 = 0x0040

abbrev pub bmcr_fulldplx : ℕ
bmcr_fulldplx = 0x0100

abbrev pub bmcr_anrestart : ℕ
bmcr_anrestart = 0x0200

abbrev pub bmcr_isolate : ℕ
bmcr_isolate = 0x0400

abbrev pub bmcr_pdown : ℕ
bmcr_pdown = 0x0800

abbrev pub bmcr_anenable : ℕ
bmcr_anenable = 0x1000

abbrev pub bmcr_speed100 : ℕ
bmcr_speed100 = 0x2000

abbrev pub bmcr_reset : ℕ
bmcr_reset = 0x8000

abbrev pub bmsr_ercap : ℕ
bmsr_ercap = 0x0001

abbrev pub bmsr_lstatus : ℕ
bmsr_lstatus = 0x0004

abbrev pub bmsr_anegcapable : ℕ
bmsr_anegcapable = 0x0008

abbrev pub bmsr_anegcomplete : ℕ
bmsr_anegcomplete = 0x0020

abbrev pub bmsr_estaten : ℕ
bmsr_estaten = 0x0100

abbrev pub bmsr_10half : ℕ
bmsr_10half = 0x0800

abbrev pub bmsr_10full : ℕ
bmsr_10full = 0x1000

abbrev pub bmsr_100half : ℕ
bmsr_100half = 0x2000

abbrev pub bmsr_100full : ℕ
bmsr_100full = 0x4000

abbrev pub advertise_10half : ℕ
advertise_10half = 0x0020

abbrev pub advertise_1000xfull : ℕ
advertise_1000xfull = 0x0020

abbrev pub advertise_10full : ℕ
advertise_10full = 0x0040

abbrev pub advertise_1000xhalf : ℕ
advertise_1000xhalf = 0x0040

abbrev pub advertise_100half : ℕ
advertise_100half = 0x0080

abbrev pub advertise_100full : ℕ
advertise_100full = 0x0100

abbrev pub advertise_100base4 : ℕ
advertise_100base4 = 0x0200

abbrev pub advertise_pause_cap : ℕ
advertise_pause_cap = 0x0400

abbrev pub advertise_pause_asym : ℕ
advertise_pause_asym = 0x0800

abbrev pub lpa_10full : ℕ
lpa_10full = 0x0040

abbrev pub lpa_100half : ℕ
lpa_100half = 0x0080

abbrev pub lpa_100full : ℕ
lpa_100full = 0x0100

abbrev pub lpa_100base4 : ℕ
lpa_100base4 = 0x0200

abbrev pub estatus_1000_xfull : ℕ
estatus_1000_xfull = 0x8000

abbrev pub estatus_1000_xhalf : ℕ
estatus_1000_xhalf = 0x4000

abbrev pub estatus_1000_tfull : ℕ
estatus_1000_tfull = 0x2000

abbrev pub estatus_1000_thalf : ℕ
estatus_1000_thalf = 0x1000

abbrev pub advertise_1000full : ℕ
advertise_1000full = 0x0200

abbrev pub advertise_1000half : ℕ
advertise_1000half = 0x0100
