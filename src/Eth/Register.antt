-- ===== src/Eth/Register.antt =====
-- `eth_register` puts a device at the end of the ring.
use emac_driver.Common.{
  ℕ, ◌+◌, ◌<◌, ◌^◌, ◌≡◌, ◌≢◌, refl, sym, ◌∙◌, arith, List, [], ◌∷◌, ◌++◌, some, if◌then◌else◌,
  length, length-append, inl, inr, Bool-cases, ne→==, ==_refl, lt→ltb,
}
use emac_driver.Text.{Text}
use emac_driver.Env.{env_set, env_get}
use emac_driver.Eth.{
  Eth, ethact, differs, no_rotation, set_ethact, eth_get_name, eth_current_changed, link, enroll,
  eth_register,
}
use emac_driver.Eth.Ring.{
  NotIn, IsRing, last, last_device-last, Walk-append, Distinct-append, NotIn-last,
}

-- What `eth_current_changed` leaves alone.
record KeepsDevices (e e' : Eth) : Type 0 where
  pub devices : e'.eth_devices ≡ e.eth_devices
  pub table : e'.device ≡ e.device
  pub count : e'.registered ≡ e.registered

set_ethact-some :
    (e : Eth) (value : Text)
    → length value < 20
    → (e' : Eth) × (set_ethact (some value) e ≡ some e') × KeepsDevices e e'
unfolding set_ethact env_set
set_ethact-some e value short =
    rw (lt→ltb (length value) 20 short)
      (_, refl, record { devices = refl; table = refl; count = refl })

eth_current_changed-some :
    (e : Eth) (dev : ℕ)
    → e.eth_current ≡ some dev
    → length (e.device dev).name < 20
    → (e' : Eth) × (eth_current_changed e ≡ some e') × KeepsDevices e e'
unfolding eth_current_changed eth_get_name
eth_current_changed-some e dev current short = elim (Bool-cases (no_rotation e)) [
  | inl fixed ↦ rw fixed (e, refl, record { devices = refl; table = refl; count = refl })
  | inr free ↦
      let set : eth_current_changed e ≡ (
          if differs (env_get ethact e.env) (e.device dev).name
          then set_ethact (some (e.device dev).name) e
          else some e) =
        rw (free, current) refl in
      elim (Bool-cases (differs (env_get ethact e.env) (e.device dev).name)) [
        | inl other ↦
            let (e', done, keeps) = set_ethact-some e (e.device dev).name short in
            (e', set ∙ rw other done, keeps)
        | inr named ↦
            (e, set ∙ rw named refl, record { devices = refl; table = refl; count = refl })
      ]
]

-- Registering a device with a name that fits, in a ring that it is not in, comes to an end and makes
-- a ring of the same devices in the same order with the new one behind them, which gets the next
-- index; the counter of indices does not wrap around.
pub eth_register-IsRing :
    (e : Eth) (ds : List ℕ) (dev : ℕ)
    → IsRing e ds
    → NotIn dev ds
    → length (e.device dev).name < 20
    → e.registered + 1 < 2 ^ 32
    → (e' : Eth) × (eth_register dev e ≡ some e')
      × IsRing e' (ds ++ (dev ∷ []))
      × ((e'.device dev).index ≡ e.registered)
      × (e'.registered ≡ e.registered + 1)
unfolding eth_register
eth_register-IsRing e [] dev h new short fits =
    let e0 = record e { eth_devices = some dev; eth_current = some dev } in
    let (e1, done, keeps) = eth_current_changed-some e0 dev refl short in
    (
      enroll dev dev e1,
      rw h (rw done refl),
      (keeps.devices, rw (==_refl dev) refl, (tt, tt), omega (arith, keeps.count, fits)),
      rw (==_refl dev) (keeps.count),
      omega (arith, keeps.count, fits),
    )
eth_register-IsRing e (head ∷ xs) dev h new short fits =
    let at = last head xs in
    let ne : dev ≢ at = NotIn-last dev head xs new in
    (
      enroll dev head (link at dev e),
      rw (h.0, last_device-last e.registered e.device head head xs (h.1) (omega (arith, h.3))) refl,
      (
        h.0,
        Walk-append e.device (enroll dev head (link at dev e)).device head head dev xs (h.1) (h.2)
            new (new.0) (λ y a b. rw (ne→== y dev b, ne→== y at a) refl)
            (rw (ne→== at dev (λ same. ne (sym same)), ==_refl at) refl) (rw (==_refl dev) refl),
        Distinct-append dev (head ∷ xs) (h.2) new,
        omega (arith, length-append xs (dev ∷ []), h.3, fits),
      ),
      rw (==_refl dev) refl,
      omega (arith, fits),
    )
