-- ===== src/Geth/Mdio/Laws.antt =====
-- The functions of net/emac/sunxi_geth.c on PHY registers, against the MDIO controller.
use emac_driver.Common.{
  ℕ, zero, suc, ◌+◌, ◌-◌, ◌*◌, ◌/◌, ◌%◌, ◌^◌, ◌<◌, ◌≡◌, refl, ◌∙◌, ap, ◌∷◌, some, ltb, ==_refl,
  ne→==, arith, bit_and, bit_or, u32, Bool-cases, ltb→lt, inl, inr,
}
use emac_driver.Common.Bits.{bit_or-add, bit_and-shifted, bit_and-ones}
use emac_driver.Io.{◌>>◌, proceed, load, store, History, Hardware, wait_clear}
use emac_driver.Geth.{geth_mdio_addr, mii_busy, mii_write}
use emac_driver.Geth.Mdio.{mdio_command, geth_phy_read, geth_phy_write}
use emac_driver.Geth.Mdio.Controller.{
  Controller, controller, command, respond, IsController, written, phy_of, register_of,
}

masked_phy : (p : ℕ) → p < 32 → bit_and (p * 2 ^ 12) 0x1F000 ≡ p * 4096
masked_phy p h =
    omega (arith, bit_and-shifted 12 (p * 2 ^ 12) 31, bit_and-ones 5 (p * 2 ^ 12 / 2 ^ 12) 31 refl)

masked_register : (r : ℕ) → r < 32 → bit_and (r * 2 ^ 4) 0x7F0 ≡ r * 16
masked_register r h =
    omega (arith, bit_and-shifted 4 (r * 2 ^ 4) 127, bit_and-ones 7 (r * 2 ^ 4 / 2 ^ 4) 127 refl)

-- The fields of a command do not overlap.
pub mdio_command-sum :
    (p r bits : ℕ)
    → p < 32
    → r < 32
    → bits < 4
    → mdio_command p r bits ≡ 6 * 2 ^ 20 + p * 4096 + r * 16 + bits
unfolding mdio_command
mdio_command-sum p r bits hp hr hb =
    rw
      (
        masked_phy p hp,
        masked_register r hr,
        bit_or-add 12 (p * 4096) (r * 16) (omega arith) (omega arith),
        bit_or-add 4 (p * 4096 + r * 16) bits (omega arith) (omega arith),
        bit_or-add 20 (6 * 2 ^ 20) (p * 4096 + r * 16 + bits) (omega arith) (omega arith),
      )
      (omega arith)

module _ (hw : Hardware) (base latency : ℕ) (start : Controller)
    (shows : IsController hw base latency start) where
  abbrev after : History → Controller
  after = controller base latency start

  after_load :
      (h : History)
      → after (load (base + 0x48) ∷ h) ≡ record (after h) { left = (after h).left - 1 }
  unfolding controller respond
  after_load h = rw (==_refl (base + 0x48)) refl

  after_data :
      (v : ℕ) (h : History)
      → after (store (base + 0x4C) v ∷ h) ≡ record (after h) { held = v % 2 ^ 16 }
  unfolding controller respond
  after_data v h = rw (==_refl (base + 0x4C)) refl

  after-command :
      (v : ℕ) (h : History)
      → v % 2 ≡ 1
      → after (store (base + 0x48) v ∷ h) ≡ command base latency v (after h)
  unfolding controller respond
  after-command v h e =
      rw (ne→== (base + 0x48) (base + 0x4C) (λ k. omega (arith, k)), ==_refl (base + 0x48), e) refl

  -- The loop ends once the controller is idle, and leaves its data and the PHYs alone.
  wait_clear-idle :
      (patience : ℕ) (h : History)
      → (after h).left < patience
      → (h' : History) × (wait_clear hw patience mii_busy (base + geth_mdio_addr) h ≡ some (tt, h'))
        × ((after h').held ≡ (after h).held)
        × ((after h').register ≡ (after h).register)
  unfolding wait_clear
  wait_clear-idle zero h l = absurd (omega arith)
  wait_clear-idle (suc patience) h l = elim (Bool-cases (ltb 0 (after h).left)) [
    | inl e ↦
        let l' : (after (load (base + 0x48) ∷ h)).left < patience =
          rw (after_load h) (ground (arith, l, ltb→lt _ _ e)) in
        let ih = wait_clear-idle patience (load (base + 0x48) ∷ h) l' in
        (
          ih.0,
          rw (shows.busy h, e) ih.1,
          ih.2 ∙ ap (λ (c : Controller). c.held) (after_load h),
          ih.3 ∙ ap (λ (c : Controller). c.register) (after_load h),
        )
    | inr e ↦ (
      load (base + 0x48) ∷ h,
      rw (shows.busy h, e) refl,
      ap (λ (c : Controller). c.held) (after_load h),
      ap (λ (c : Controller). c.register) (after_load h),
    )
  ]

  read_command : (p r : ℕ) → ℕ
  read_command p r = u32 (mdio_command p r mii_busy)

  write_command : (p r : ℕ) → ℕ
  write_command p r = u32 (mdio_command p r (bit_or mii_write mii_busy))

  read_fields :
      (p r : ℕ)
      → p < 32
      → r < 32
      → (read_command p r % 2 ≡ 1)
        × (read_command p r / 2 % 2 ≡ 0)
        × (phy_of (read_command p r) ≡ p)
        × (register_of (read_command p r) ≡ r)
  unfolding read_command
  read_fields p r hp hr = rw (mdio_command-sum p r 1 hp hr (omega arith)) (omega arith)

  write_fields :
      (p r : ℕ)
      → p < 32
      → r < 32
      → (write_command p r % 2 ≡ 1)
        × (write_command p r / 2 % 2 ≡ 1)
        × (phy_of (write_command p r) ≡ p)
        × (register_of (write_command p r) ≡ r)
  unfolding write_command
  write_fields p r hp hr = rw (mdio_command-sum p r 3 hp hr (omega arith)) (omega arith)

  after-read_command :
      (p r : ℕ) (h : History)
      → p < 32
      → r < 32
      → after (store (base + 0x48) (read_command p r) ∷ h)
        ≡ record (after h) { held = (after h).register p r; left = latency }
  after-read_command p r h hp hr =
      let f = read_fields p r hp hr in
      after-command (read_command p r) h f.0 ∙ rw (f.1, f.2, f.3) refl

  after-write_command :
      (p r : ℕ) (h : History)
      → p < 32
      → r < 32
      → after (store (base + 0x48) (write_command p r) ∷ h) ≡ record (after h) {
        register = written (after h).register p r (after h).held;
        left = latency;
      }
  after-write_command p r h hp hr =
      let f = write_fields p r hp hr in
      after-command (write_command p r) h f.0 ∙ rw (f.1, f.2, f.3) refl

  after_load_data : (h : History) → after (load (base + 0x4C) ∷ h) ≡ after h
  unfolding controller respond
  after_load_data h = rw (ne→== (base + 0x4C) (base + 0x48) (λ k. omega (arith, k))) refl

  -- A read ends, gives what the PHY has in the register, and leaves the PHYs alone.
  geth_phy_read-register :
      (patience p r : ℕ) (h : History)
      → latency < patience
      → p < 32
      → r < 32
      → (h' : History) × (geth_phy_read hw patience base p r h ≡ some ((after h).register p r, h'))
        × ((after h').register ≡ (after h).register)
  unfolding geth_phy_read read_command
  geth_phy_read-register patience p r h l hp hr =
      let h1 : History = store (base + 0x48) (read_command p r) ∷ h in
      let e = after-read_command p r h hp hr in
      let w = wait_clear-idle patience h1 (rw e l) in
      let got : (after w.0).held ≡ (after h).register p r =
        w.2 ∙ ap (λ (c : Controller). c.held) e in
      let kept : (after w.0).register ≡ (after h).register =
        w.3 ∙ ap (λ (c : Controller). c.register) e in
      (
        load (base + 0x4C) ∷ w.0,
        rw (w.1, proceed) (rw (shows.shown w.0, got) refl),
        ap (λ (c : Controller). c.register) (after_load_data w.0) ∙ kept,
      )

  -- A write ends, and changes the register that it is meant for and no other.
  geth_phy_write-register :
      (patience p r value : ℕ) (h : History)
      → latency < patience
      → p < 32
      → r < 32
      → value < 2 ^ 16
      → (h' : History) × (geth_phy_write hw patience base p r value h ≡ some (tt, h'))
        × ((after h').register ≡ written (after h).register p r value)
  unfolding geth_phy_write write_command
  geth_phy_write-register patience p r value h l hp hr hv =
      let h0 : History = store (base + 0x4C) (u32 value) ∷ h in
      let h1 : History = store (base + 0x48) (write_command p r) ∷ h0 in
      let e = after-write_command p r h0 hp hr in
      let w = wait_clear-idle patience h1 (rw e l) in
      let v : u32 value % 2 ^ 16 ≡ value = omega arith in
      (
        w.0,
        rw (w.1) refl,
        w.3 ∙ ap (λ (c : Controller). c.register) e ∙ rw (after_data (u32 value) h, v) refl,
      )

  -- With an MDIO controller that is busy for `latency` reads after a command, with PHY registers
  -- that keep what is written to them, and with a greater patience, a write of a 16-bit value
  -- followed by a read of any register of any PHY ends; the read gives the value where it is for
  -- the register written, and what the register held before where it is for another; and no
  -- register but the one written has changed.
  pub geth_phy_read-geth_phy_write :
      (patience p r value p' r' : ℕ) (h : History)
      → latency < patience
      → p < 32
      → r < 32
      → value < 2 ^ 16
      → p' < 32
      → r' < 32
      → (h' : History) × ((geth_phy_write hw patience base p r value
              >> geth_phy_read hw patience base p' r')
            h
          ≡ some (written (after h).register p r value p' r', h'))
        × ((after h').register ≡ written (after h).register p r value)
  geth_phy_read-geth_phy_write patience p r value p' r' h l hp hr hv hp' hr' =
      let w = geth_phy_write-register patience p r value h l hp hr hv in
      let g = geth_phy_read-register patience p' r' w.0 l hp' hr' in
      (g.0, rw (w.1, proceed) (g.1 ∙ ap (λ (f : ℕ → ℕ → ℕ). some (f p' r', g.0)) w.2), g.2 ∙ w.2)
