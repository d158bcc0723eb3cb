-- ===== src/Tests/Devices.antt =====
-- The theorems on the ring of devices, for a ring of one device.
use emac_driver.Common.{◌+◌, ◌≡◌, refl, arith, [], ◌∷◌, some, ◌==◌}
use emac_driver.Text.{strcmp}
use emac_driver.Eth.{
  Eth, eth_get_dev_by_name, eth_get_dev_by_index, eth_register, eth_unregister, update,
}
use emac_driver.Eth.Unregister.{eth_unregister-IsRing}
use emac_driver.Eth.Ring.{IsRing, find, eth_get_dev_by_name-find}
use emac_driver.Eth.Register.{eth_register-IsRing}
use emac_driver.Tests.Stations.{one_device, only_device}

abbrev with_two : Eth
with_two = record one_device {
  device =
      update (λ d. record only_device { next = 2 }) 2 (record only_device { next = 1; index = 1 });
  registered = 2;
}

ring : IsRing one_device (1 ∷ [])
ring = (refl, refl, (tt, tt), omega arith)

eth_get_dev_by_name-find_example :
    (eth_get_dev_by_name (b'e' ∷ []) one_device
      ≡ some (find (λ d. strcmp (b'e' ∷ []) (one_device.device d).name == 0) (1 ∷ [])))
    × (eth_get_dev_by_index 0 one_device
        ≡ some (find (λ d. (one_device.device d).index == 0) (1 ∷ [])))
eth_get_dev_by_name-find_example = eth_get_dev_by_name-find one_device (1 ∷ []) (b'e' ∷ []) 0 ring

eth_register-IsRing_example :
    (e' : Eth) × (eth_register 2 one_device ≡ some e')
    × IsRing e' (1 ∷ 2 ∷ [])
    × ((e'.device 2).index ≡ 1)
    × (e'.registered ≡ 1 + 1)
eth_register-IsRing_example =
    eth_register-IsRing one_device (1 ∷ []) 2 ring ((λ e. omega (arith, e)), tt) (omega arith)
      (omega arith)

two_devices : IsRing with_two (1 ∷ 2 ∷ [])
two_devices = (
  refl,
  (refl, (λ e. omega (arith, e)), refl),
  (((λ e. omega (arith, e)), tt), (tt, tt)),
  omega arith,
)

eth_unregister-IsRing_example :
    (e' : Eth) × (eth_unregister 2 with_two ≡ some (e', 0))
    × IsRing e' (1 ∷ [])
    × (e'.eth_current ≡ some 1)
eth_unregister-IsRing_example =
    eth_unregister-IsRing with_two 1 2 [] [] two_devices (λ e. ground (arith, e))
