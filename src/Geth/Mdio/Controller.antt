-- ===== src/Geth/Mdio/Controller.antt =====
-- A description of the MDIO controller of the MAC that net/emac/sunxi_geth.c drives.
use emac_driver.Common.{
  ℕ, ◌+◌, ◌-◌, ◌/◌, ◌%◌, ◌^◌, ◌≡◌, ◌&&◌, [], ◌∷◌, ltb, ◌==◌, if◌then◌else◌, u16, u32, has_bits,
}
use emac_driver.Io.{Access, load, store, History, Hardware}
use emac_driver.Geth.{mii_busy}

-- The controller: its data register, the registers of the PHYs by address and number, and how many
-- reads of the command register will still show it busy.
pub record Controller : Type 0 where
  pub held : ℕ
  pub register : ℕ → ℕ → ℕ
  pub left : ℕ

-- A command holds the address of the PHY in bits 12 to 16 and the register in bits 4 to 8.
abbrev pub phy_of : ℕ → ℕ
phy_of command = command / 4096 % 32

abbrev pub register_of : ℕ → ℕ
register_of command = command / 16 % 32

abbrev pub written : (ℕ → ℕ → ℕ) → ℕ → ℕ → ℕ → ℕ → ℕ → ℕ
written register phy_adr reg value p r = if p == phy_adr && r == reg then value else register p r

module _ (base latency : ℕ) where
  -- A command with the write bit stores the data register in the PHY, one without it loads it from
  -- there; either is over after `latency` reads of the command register.
  abbrev pub command : ℕ → Controller → Controller
  command v c =
      if v / 2 % 2 == 1
      then record c {
        register = written c.register (phy_of v) (register_of v) c.held;
        left = latency;
      }
      else record c { held = c.register (phy_of v) (register_of v); left = latency }

  unfoldable pub respond : Access → Controller → Controller
  respond (store a v) c =
      if a == base + 0x4C
      then record c { held = v % 2 ^ 16 }
      else (if a == base + 0x48 && v % 2 == 1 then command v c else c)
  respond (load a) c = if a == base + 0x48 then record c { left = c.left - 1 } else c
  respond (Access.clean a) c = c
  respond (Access.discard a) c = c
  respond (Access.wipe a n) c = c
  respond (Access.fetch a) c = c
  respond Access.tick c = c

  unfoldable pub controller : Controller → History → Controller
  unfolding respond
  controller start [] = start
  controller start (a ∷ h) = respond a (controller start h)

-- What the hardware shows in the two registers of the controller.
pub record IsController (hw : Hardware) (base latency : ℕ) (start : Controller) : Type 0 where
  pub busy :
      (h : History)
      → has_bits (u32 (hw.value h (base + 0x48))) mii_busy
        ≡ ltb 0 (controller base latency start h).left
  pub shown :
      (h : History) → u16 (u32 (hw.value h (base + 0x4C))) ≡ (controller base latency start h).held
