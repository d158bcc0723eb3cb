-- ===== src/Tests/Buses.antt =====
-- The theorems on MII buses and PHYs, for a bus that works like memory.
use emac_driver.Common.{
  ℕ, bit_and, not, ap, ◌+◌, ◌*◌, ◌/◌, ◌%◌, ◌==◌, if◌then◌else◌, ◌-◌, ◌^◌, ◌≡◌, inl, inr, refl,
  arith, List, [], ◌∷◌, Option, none, some,
}
use emac_driver.Common.Bits.{bit_and-shifted, bit_and-ones}
use emac_driver.Text.{strlen}
use emac_driver.Io.{History, load, store, ◌>>=◌}
use emac_driver.Io.Laws.{last_store}
use emac_driver.Mii.{Mii, blank_bus}
use emac_driver.Mii.Access.{Bus}
use emac_driver.Mii.Buses.{IsConsistent}
use emac_driver.Mii.Operations.{Operation, perform, perform-IsConsistent}
use emac_driver.Phy.{Ethtool, PhyDevice}
use emac_driver.Phy.Negotiate.{genphy_config_aneg}
use emac_driver.Phy.Link.{genphy_parse_link}
use emac_driver.Phy.Link.Laws.{IsEthtool, KeepsMode, SameMode, genphy_parse_link-genphy_config_aneg}

abbrev no_buses : Mii
no_buses = record { mii_devs = some []; current_mii = none; bus = λ b. blank_bus }

-- The driver's bus is registered.
perform-IsConsistent_example :
    (m' : Mii) × (devs' : List ℕ) × (perform
        (Operation.legacy (b'e' ∷ b't' ∷ b'h' ∷ b'0' ∷ []) (some 5) (some 6))
        no_buses
      ≡ some m')
    × IsConsistent m' devs'
unfolding strlen
perform-IsConsistent_example =
    perform-IsConsistent (Operation.legacy (b'e' ∷ b't' ∷ b'h' ∷ b'0' ∷ []) (some 5) (some 6))
      no_buses [] (record { listing = refl; linked = tt; distinct = tt; current = tt })
      (omega arith, (λ k. k))

or_zero : Option ℕ → ℕ
or_zero none = 0
or_zero (some v) = v

-- The control register has 16 bits and clears the ones that reset the PHY and restart the
-- negotiation, 15 and 9, at once.
abbrev held : ℕ → ℕ
held v = v / 1024 % 32 * 1024 + v % 512

one_bit : (k x : ℕ) → bit_and x (1 * 2 ^ k) ≡ x / 2 ^ k % 2 * 2 ^ k
one_bit k x = rw (bit_and-shifted k x 1, bit_and-ones 1 (x / 2 ^ k) 1 refl)

held-SameMode : (v : ℕ) → SameMode (held v) v
held-SameMode v = record {
  gigabit = ap (λ (t : ℕ). not (t == 0)) (omega (arith, one_bit 6 v, one_bit 6 (held v)));
  hundred = ap (λ (t : ℕ). not (t == 0)) (omega (arith, one_bit 13 v, one_bit 13 (held v)));
  full = ap (λ (t : ℕ). not (t == 0)) (omega (arith, one_bit 8 v, one_bit 8 (held v)));
}

-- Every other register keeps what was last written, at the address of its number.
abbrev memory_bus : Bus
memory_bus = record {
  read = λ bus addr devad reg h. some (
    (if reg == 0 then held (or_zero (last_store h reg)) else or_zero (last_store h reg)),
    load reg ∷ h,
  );
  write = λ bus addr devad reg v h. some (0, store reg v ∷ h);
  devad_none = 2 ^ 32 - 1;
}

memory_bus-KeepsMode : KeepsMode memory_bus 0 1
unfolding last_store or_zero
memory_bus-KeepsMode = record {
  holds = λ h. held (or_zero (last_store h 0));
  set = λ v h r. (store 0 v ∷ h, refl, held-SameMode v);
  get = λ h. (load 0 ∷ h, refl);
  status = λ h. (
    or_zero (last_store h 1),
    load 1 ∷ h,
    refl,
    record { gigabit = refl; hundred = refl; full = refl },
  );
}

-- The values of Linux.
abbrev ethtool : Ethtool
ethtool = record {
  speed_10 = 10;
  speed_100 = 100;
  speed_1000 = 1000;
  duplex_half = 0;
  duplex_full = 1;
  autoneg_enable = 1;
  supported_10baset_half = 2 ^ 0;
  supported_10baset_full = 2 ^ 1;
  supported_100baset_half = 2 ^ 2;
  supported_100baset_full = 2 ^ 3;
  supported_1000baset_half = 2 ^ 4;
  supported_1000baset_full = 2 ^ 5;
  supported_autoneg = 2 ^ 6;
  supported_tp = 2 ^ 7;
  supported_mii = 2 ^ 9;
  supported_aui = 2 ^ 8;
  supported_fibre = 2 ^ 10;
  supported_bnc = 2 ^ 11;
  advertised_10baset_half = 2 ^ 0;
  advertised_10baset_full = 2 ^ 1;
  advertised_100baset_half = 2 ^ 2;
  advertised_100baset_full = 2 ^ 3;
  advertised_pause = 2 ^ 13;
  advertised_asym_pause = 2 ^ 14;
  advertised_1000basex_half = 2 ^ 21;
  advertised_1000basex_full = 2 ^ 22;
}

ethtool-IsEthtool : IsEthtool ethtool
ethtool-IsEthtool = record {
  slow = λ e. omega (arith, e);
  medium = λ e. omega (arith, e);
  fast = λ e. omega (arith, e);
  duplex = λ e. omega (arith, e);
}

abbrev phy : PhyDevice
phy = record {
  bus = 0;
  drv = 0;
  dev = none;
  speed = 100;
  duplex = 1;
  link = 0;
  interface = 7;
  advertising = 0;
  supported = 0;
  mmds = 0;
  autoneg = 0;
  addr = 1;
  pause = 1;
  asym_pause = 1;
  phy_id = 0x1cc916;
  flags = 0;
}

genphy_parse_link-genphy_config_aneg_example :
    (p' : PhyDevice) × (h' : History) × ((genphy_config_aneg ethtool memory_bus phy >>= λ r.
    genphy_parse_link ethtool memory_bus r.0)
        []
      ≡ some ((p', 0), h'))
    × (p'.speed ≡ 100)
    × (p'.duplex ≡ 1)
    × (p'.pause ≡ 0)
    × (p'.asym_pause ≡ 0)
genphy_parse_link-genphy_config_aneg_example =
    genphy_parse_link-genphy_config_aneg ethtool memory_bus phy [] ethtool-IsEthtool
      memory_bus-KeepsMode (λ e. omega (arith, e)) (inr (inl refl), inr refl)
