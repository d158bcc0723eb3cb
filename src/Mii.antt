-- ===== src/Mii.antt =====
-- net/miiphyutil.c: the list of MII buses, and access to PHY registers by the name of a bus.
-- A bus is named by its address, and the list `mii_devs` by its entries from the first to the last.
-- `none` as a result is a fault: a read through NULL, which a walk of the list before miiphy_init
-- is, as is the removal of a bus that was removed before.
pub mod Registers
pub mod Buses
pub mod Invariant
pub mod Current
pub mod Operations
pub mod Access
use emac_driver.Common.{
  ℕ, zero, suc, ◌+◌, ◌-◌, ◌^◌, Bool, true, false, not, ◌&&◌, ◌||◌, List, [], ◌∷◌, ◌++◌, Option,
  none, some, ◌==◌, if◌then◌else◌, take,
}
use emac_driver.Text.{Text, strcmp}
use emac_driver.Eth.{◌>>=◌, update, same}

-- What the `link` of a bus points to: itself, its neighbours in the list, or NULL.
pub data Link : Type 0 where
  alone listed poisoned : Link

-- `readable` and `writable` tell whether `read` and `write` are set.
pub record MiiDev : Type 0 where
  pub link : Link
  pub name : Text
  pub readable : Bool
  pub writable : Bool
  pub phymap : ℕ → Option ℕ

pub record Mii : Type 0 where
  pub mii_devs : Option (List ℕ)
  pub current_mii : Option ℕ
  pub bus : ℕ → MiiDev

abbrev pub mdio_name_len : ℕ
mdio_name_len = 32

abbrev pub phy_max_addr : ℕ
phy_max_addr = 32

unfoldable pub search_buses : (ℕ → MiiDev) → Text → List ℕ → Option ℕ
search_buses bus devname [] = none
search_buses bus devname (dev ∷ rest) =
    if strcmp (bus dev).name devname == 0 then some dev else search_buses bus devname rest

-- `none` for `devname` is NULL.
unfoldable pub miiphy_get_dev_by_name : Option Text → Mii → Option (Option ℕ)
unfolding search_buses
miiphy_get_dev_by_name none m = some none
miiphy_get_dev_by_name (some devname) m =
    m.mii_devs >>= λ devs. some (search_buses m.bus devname devs)

unfoldable pub miiphy_init : Mii → Mii
miiphy_init m = record m { mii_devs = some []; current_mii = none }

abbrev pub blank_bus : MiiDev
blank_bus = record {
  link = alone;
  name = [];
  readable = false;
  writable = false;
  phymap = λ i. none;
}

-- `bus` is what malloc returns, `none` for NULL.
unfoldable pub mdio_alloc : Option ℕ → Mii → Mii
mdio_alloc none m = m
mdio_alloc (some bus) m = record m { bus = update m.bus bus blank_bus }

-- `list_add_tail(&bus->link, &mii_devs); if (!current_mii) current_mii = bus;`
unfoldable pub add_bus : ℕ → List ℕ → Mii → Mii
add_bus bus devs m = record m {
  mii_devs = some (devs ++ (bus ∷ []));
  current_mii = elim m.current_mii [ none ↦ some bus | some dev ↦ some dev ];
  bus = update m.bus bus (record (m.bus bus) { link = listed });
}

-- `new_dev` and `ldev` are what malloc returns for the bus and for its operations.
unfoldable pub miiphy_register : Text → Option ℕ → Option ℕ → Mii → Option Mii
unfolding miiphy_get_dev_by_name mdio_alloc add_bus
miiphy_register name new_dev ldev m = m.mii_devs >>= λ devs.
    miiphy_get_dev_by_name (some name) m >>= λ found. elim found [
      | some dev ↦ some m
      | none ↦ elim new_dev [
        | none ↦ some m
        | some bus ↦ elim ldev [
          | none ↦ some (mdio_alloc (some bus) m)
          | some ops ↦
              let m' = mdio_alloc (some bus) m in
              some (
                add_bus bus devs (record m' {
                  bus = update m'.bus bus (record (m'.bus bus) {
                    name = take 31 name;
                    readable = true;
                    writable = true;
                  });
                }))
        ]
      ]
    ]

-- -1 is a bit pattern. `none` for `bus` is NULL.
unfoldable pub mdio_register : Option ℕ → Mii → Option (Mii × ℕ)
unfolding miiphy_get_dev_by_name add_bus
mdio_register none m = some (m, 2 ^ 32 - 1)
mdio_register (some bus) m =
    if not (m.bus bus).readable || not (m.bus bus).writable
    then some (m, 2 ^ 32 - 1)
    else (m.mii_devs >>= λ devs. miiphy_get_dev_by_name (some (m.bus bus).name) m >>= λ found.
        elim found [ some dev ↦ some (m, 2 ^ 32 - 1) | none ↦ some (add_bus bus devs m, 0) ])

unfoldable pub without : ℕ → List ℕ → List ℕ
without bus [] = []
without bus (dev ∷ rest) = if dev == bus then rest else dev ∷ without bus rest

-- `list_del(&bus->link)`
unfoldable pub unlink : Link → ℕ → Mii → Option Mii
unfolding without
unlink poisoned bus m = none
unlink alone bus m =
    some (record m { bus = update m.bus bus (record (m.bus bus) { link = poisoned }) })
unlink listed bus m = m.mii_devs >>= λ devs. some (record m {
  mii_devs = some (without bus devs);
  bus = update m.bus bus (record (m.bus bus) { link = poisoned });
})

unfoldable pub mdio_unregister : Option ℕ → Mii → Option (Mii × ℕ)
unfolding unlink
mdio_unregister none m = some (m, 0)
mdio_unregister (some bus) m = unlink (m.bus bus).link bus m >>= λ m'.
    some (
      record m' { current_mii = if same m'.current_mii (some bus) then none else m'.current_mii },
      0,
    )

unfoldable pub miiphy_set_current_dev : Option Text → Mii → Option (Mii × ℕ)
unfolding miiphy_get_dev_by_name
miiphy_set_current_dev devname m = miiphy_get_dev_by_name devname m >>= λ found. elim found [
  | some dev ↦ some (record m { current_mii = some dev }, 0)
  | none ↦ some (m, 1)
]

unfoldable pub mdio_get_current_dev : Mii → Option ℕ
mdio_get_current_dev m = m.current_mii

unfoldable pub miiphy_get_current_dev : Mii → Option Text
miiphy_get_current_dev m = elim m.current_mii [ none ↦ none | some dev ↦ some (m.bus dev).name ]

-- `none` as the second part is NULL.
unfoldable pub make_current : Text → Mii → Option (Mii × Option ℕ)
unfolding miiphy_set_current_dev
make_current devname m = miiphy_set_current_dev (some devname) m >>= λ r.
    some (r.0, (if r.1 == 0 then r.0.current_mii else none))

unfoldable pub miiphy_get_active_dev : Text → Mii → Option (Mii × Option ℕ)
unfolding make_current
miiphy_get_active_dev devname m = elim m.current_mii [
  | none ↦ make_current devname m
  | some dev ↦
      if strcmp (m.bus dev).name devname == 0 then some (m, some dev) else make_current devname m
]

-- The PHY of a device with a name: the first one on the first bus. `dev_of` is the `dev` of a PHY,
-- `name_of` the name of a device.
module _ (dev_of : ℕ → Option ℕ) (name_of : ℕ → Text) (ethname : Text) where
  belongs : Option ℕ → Bool
  belongs none = false
  belongs (some phydev) = elim (dev_of phydev) [
    | none ↦ false
    | some dev ↦ strcmp (name_of dev) ethname == 0
  ]

  unfoldable pub search_phymap : (ℕ → Option ℕ) → ℕ → ℕ → Option ℕ
  unfolding belongs
  search_phymap phymap zero i = none
  search_phymap phymap (suc count) i =
      if belongs (phymap i) then phymap i else search_phymap phymap count (i + 1)

  unfoldable pub search_phys : (ℕ → MiiDev) → List ℕ → Option ℕ
  unfolding search_phymap
  search_phys bus [] = none
  search_phys bus (dev ∷ rest) = elim (search_phymap (bus dev).phymap phy_max_addr 0) [
    | some phydev ↦ some phydev
    | none ↦ search_phys bus rest
  ]

  unfoldable pub mdio_phydev_for_ethname : Mii → Option (Option ℕ)
  unfolding search_phys
  mdio_phydev_for_ethname m = m.mii_devs >>= λ devs. some (search_phys m.bus devs)
