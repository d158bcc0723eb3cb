-- ===== src/Phy/Link/Laws.antt =====
-- A forced mode of a PHY in net/phy/phy.c.
use emac_driver.Common.{
  ℕ, ◌≡◌, ◌≢◌, ◌⊎◌, ap, Bool-cases, has_bits, inl, inr, refl, sym, ◌∙◌, true, false, some, u16,
  ◌==◌, eq→==, ne→==,
}
use emac_driver.Io.{History, ◌>>=◌, proceed}
use emac_driver.Mii.Access.{Bus}
use emac_driver.Mii.Registers.{
  mii_bmcr, mii_bmsr, bmcr_reset, bmcr_fulldplx, bmcr_speed100, bmcr_speed1000,
}
use emac_driver.Phy.{Ethtool, PhyDevice}
use emac_driver.Phy.Negotiate.{forced_control, genphy_setup_forced, genphy_config_aneg}
use emac_driver.Phy.Link.{forced_link, genphy_parse_link}

-- The speeds are different numbers, and so are the two kinds of duplex.
pub record IsEthtool (c : Ethtool) : Type 0 where
  pub slow : c.speed_10 ≢ c.speed_100
  pub medium : c.speed_100 ≢ c.speed_1000
  pub fast : c.speed_10 ≢ c.speed_1000
  pub duplex : c.duplex_half ≢ c.duplex_full

-- Two values of the control register that force the same mode: the bits of the speed and of the
-- duplex are the same.
pub record SameMode (v w : ℕ) : Type 0 where
  pub gigabit : has_bits v bmcr_speed1000 ≡ has_bits w bmcr_speed1000
  pub hundred : has_bits v bmcr_speed100 ≡ has_bits w bmcr_speed100
  pub full : has_bits v bmcr_fulldplx ≡ has_bits w bmcr_fulldplx

-- A PHY that keeps the mode that it is forced to: a write of the control register that does not reset
-- it succeeds and sets the bits of the mode, and reading the status does not change these. Any other
-- bit may clear itself, as the ones that reset the PHY and restart the negotiation do.
pub record KeepsMode (ops : Bus) (bus addr : ℕ) : Type 0 where
  pub holds : History → ℕ
  pub set :
      (v : ℕ) (h : History)
      → has_bits v bmcr_reset ≡ false
      → (h' : History) × (ops.write bus addr ops.devad_none mii_bmcr v h ≡ some (0, h'))
        × SameMode (holds h') v
  pub get :
      (h : History)
      → (h' : History) × (ops.read bus addr ops.devad_none mii_bmcr h ≡ some (holds h, h'))
  pub status :
      (h : History)
      → (val : ℕ) × (h' : History) × (ops.read bus addr ops.devad_none mii_bmsr h ≡ some (val, h'))
        × SameMode (holds h') (holds h)

-- The speeds and duplexes that can be forced.
abbrev pub IsForced : Ethtool → PhyDevice → Type 0
IsForced c p =
    ((p.speed ≡ c.speed_10) ⊎ ((p.speed ≡ c.speed_100) ⊎ (p.speed ≡ c.speed_1000)))
    × ((p.duplex ≡ c.duplex_half) ⊎ (p.duplex ≡ c.duplex_full))

module _ (c : Ethtool) (is : IsEthtool c) (p : PhyDevice) (q : PhyDevice) where
  abbrev seen : PhyDevice
  seen = forced_link c (u16 (forced_control c p)) q

  forced_duplex :
      (p.duplex ≡ c.duplex_half) ⊎ (p.duplex ≡ c.duplex_full)
      → ((p.duplex == c.duplex_full) ≡ false) × (p.duplex ≡ c.duplex_half)
        ⊎ ((p.duplex == c.duplex_full) ≡ true) × (p.duplex ≡ c.duplex_full)
  forced_duplex (inl f) = inl (ne→== p.duplex c.duplex_full (λ k. is.duplex (sym f ∙ k)), f)
  forced_duplex (inr f) = inr (eq→== p.duplex c.duplex_full f, f)

  -- What is read from a control register that was set for a mode is that mode.
  forced_link-forced_control : IsForced c p → (seen.speed ≡ p.speed) × (seen.duplex ≡ p.duplex)
  unfolding forced_link forced_control
  forced_link-forced_control (inl e, d) =
      let n1 = ne→== p.speed c.speed_1000 (λ k. is.fast (sym e ∙ k)) in
      let n2 = ne→== p.speed c.speed_100 (λ k. is.slow (sym e ∙ k)) in
      elim (forced_duplex d) [
        | inl (t, f) ↦ rw (n1, n2, t) (sym e, sym f)
        | inr (t, f) ↦ rw (n1, n2, t) (sym e, sym f)
      ]
  forced_link-forced_control (inr (inl e), d) =
      let n1 = ne→== p.speed c.speed_1000 (λ k. is.medium (sym e ∙ k)) in
      let n2 = eq→== p.speed c.speed_100 e in
      elim (forced_duplex d) [
        | inl (t, f) ↦ rw (n1, n2, t) (sym e, sym f)
        | inr (t, f) ↦ rw (n1, n2, t) (sym e, sym f)
      ]
  forced_link-forced_control (inr (inr e), d) =
      let n1 = eq→== p.speed c.speed_1000 e in
      elim (forced_duplex d) [
        | inl (t, f) ↦ rw (n1, t) (sym e, sym f)
        | inr (t, f) ↦ rw (n1, t) (sym e, sym f)
      ]

-- A forced mode does not reset the PHY.
forced_control-reset :
    (c : Ethtool) (p : PhyDevice) → has_bits (u16 (forced_control c p)) bmcr_reset ≡ false
unfolding forced_control
forced_control-reset c p = elim (Bool-cases (p.speed == c.speed_1000)) [
  | inl e ↦
      rw e (elim (Bool-cases (p.duplex == c.duplex_full)) [ inl d ↦ rw d refl | inr d ↦ rw d refl ])
  | inr e ↦ rw e (elim (Bool-cases (p.speed == c.speed_100)) [
    | inl f ↦
        rw f
          (elim (Bool-cases (p.duplex == c.duplex_full)) [ inl d ↦ rw d refl | inr d ↦ rw d refl ])
    | inr f ↦
        rw f
          (elim (Bool-cases (p.duplex == c.duplex_full)) [ inl d ↦ rw d refl | inr d ↦ rw d refl ])
  ])
]

-- Only the bits of the mode are read.
forced_link-SameMode :
    (c : Ethtool) (v w : ℕ) (q : PhyDevice) → SameMode v w → forced_link c v q ≡ forced_link c w q
unfolding forced_link
forced_link-SameMode c v w q same = rw (same.gigabit, same.hundred, same.full) refl

-- With the constants as `IsEthtool` says and a PHY that keeps the mode that it is forced to, whatever
-- its other control bits do: where negotiation is off and the speed and duplex are ones that can be forced, genphy_config_aneg followed by
-- genphy_parse_link ends with 0, and the speed and duplex that are read back are those of before, with
-- no pause.
pub genphy_parse_link-genphy_config_aneg :
    (c : Ethtool) (ops : Bus) (p : PhyDevice) (h : History)
    → IsEthtool c
    → KeepsMode ops p.bus p.addr
    → p.autoneg ≢ c.autoneg_enable
    → IsForced c p
    → (p' : PhyDevice) × (h' : History) × ((genphy_config_aneg c ops p >>= λ r.
            genphy_parse_link c ops r.0)
          h
        ≡ some ((p', 0), h'))
      × (p'.speed ≡ p.speed)
      × (p'.duplex ≡ p.duplex)
      × (p'.pause ≡ 0)
      × (p'.asym_pause ≡ 0)
unfolding genphy_config_aneg genphy_setup_forced genphy_parse_link
genphy_parse_link-genphy_config_aneg c ops p h is keeps off forced =
    let q = record p { pause = 0; asym_pause = 0 } in
    let w = keeps.set (u16 (forced_control c q)) h (forced_control-reset c q) in
    let s = keeps.status w.0 in
    let g = keeps.get s.1 in
    let o = ne→== p.autoneg c.autoneg_enable off in
    let held : forced_link c (keeps.holds s.1) q ≡ forced_link c (u16 (forced_control c q)) q =
      forced_link-SameMode c (keeps.holds s.1) (keeps.holds w.0) q s.3
      ∙ forced_link-SameMode c (keeps.holds w.0) (u16 (forced_control c q)) q w.2 in
    let m = forced_link-forced_control c is q q forced in
    (
      forced_link c (u16 (forced_control c q)) q,
      g.0,
      rw (o, w.1, proceed)
          (rw (s.2, proceed)
            (rw (o, g.1, proceed) (ap (λ (p' : PhyDevice). some ((p', 0), g.0)) held))),
      m.0,
      m.1,
      refl,
      refl,
    )
