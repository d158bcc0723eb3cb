-- ===== src/Eth/Unregister.antt =====
-- `eth_unregister` takes a device out of the ring.
use emac_driver.Common.{
  ℕ, zero, suc, ◌-◌, ◌<◌, ◌^◌, ◌≡◌, ◌≢◌, refl, ap, sym, arith, List, [], ◌∷◌, ◌++◌, Option, none,
  some, false, length, length-append, ne→==, ==_refl,
}
use emac_driver.Eth.{Eth, Device, update, same, device_before, link, eth_unregister}
use emac_driver.Eth.Ring.{NotIn, Distinct, Walk, IsRing, last}

-- The list without its part `dev`.
NotIn-remove :
    (a dev : ℕ) (xs ys : List ℕ) → NotIn a (xs ++ (dev ∷ ys)) → (a ≢ dev) × NotIn a (xs ++ ys)
NotIn-remove a dev [] ys h = h
NotIn-remove a dev (x ∷ xs) ys h =
    let (ne, rest) = NotIn-remove a dev xs ys (h.1) in (ne, (h.0, rest))

Distinct-remove : (dev : ℕ) (xs ys : List ℕ) → Distinct (xs ++ (dev ∷ ys)) → Distinct (xs ++ ys)
Distinct-remove dev [] ys h = h.1
Distinct-remove dev (x ∷ xs) ys h =
    ((NotIn-remove x dev xs ys (h.0)).1, Distinct-remove dev xs ys (h.1))

device_before-last :
    (fuel : ℕ) (device : ℕ → Device) (head d dev : ℕ) (xs ys : List ℕ)
    → Walk device head d (xs ++ (dev ∷ ys))
    → Distinct (d ∷ (xs ++ (dev ∷ ys)))
    → length xs < fuel
    → (device_before fuel device head dev d ≡ some (last d xs)) × ((device (last d xs)).next ≡ dev)
unfolding device_before
device_before-last zero device head d dev xs ys w u h = absurd (omega arith)
device_before-last (suc fuel) device head d dev [] ys w u h =
    (rw (w.0, ne→== dev head (w.1), ==_refl dev) refl, w.0)
device_before-last (suc fuel) device head d dev (x ∷ xs) ys w u h =
    let ne : x ≢ dev = (NotIn-remove x dev xs ys (u.1.0)).0 in
    let (found, next) = device_before-last fuel device head x dev xs ys (w.2) (u.1) (omega arith) in
    (rw (w.0, ne→== x head (w.1), ne→== x dev ne) found, next)

-- A device that is not on a walk may be changed.
Walk-update :
    (device : ℕ → Device) (cur : ℕ) (r : Device) (head d : ℕ) (xs : List ℕ)
    → NotIn cur (d ∷ xs)
    → Walk device head d xs
    → Walk (update device cur r) head d xs
Walk-update device cur r head d [] h w = rw (ne→== d cur (λ e. h.0 (sym e))) w
Walk-update device cur r head d (x ∷ xs) h w =
    (rw (ne→== d cur (λ e. h.0 (sym e))) (w.0), w.1, Walk-update device cur r head x xs (h.1) (w.2))

NotIn-tail : (a : ℕ) (xs ys : List ℕ) → NotIn a (xs ++ ys) → NotIn a ys
NotIn-tail a [] ys h = h
NotIn-tail a (x ∷ xs) ys h = NotIn-tail a xs ys (h.1)

-- The device before `dev` gets the link of `dev`.
Walk-remove :
    (device : ℕ → Device) (head d dev : ℕ) (xs ys : List ℕ)
    → Walk device head d (xs ++ (dev ∷ ys))
    → Distinct (d ∷ (xs ++ (dev ∷ ys)))
    → Walk
        (update device (last d xs) (record (device (last d xs)) { next = (device dev).next }))
        head
        d
        (xs ++ ys)
Walk-remove device head d dev [] [] w u = rw (==_refl d) (w.2)
Walk-remove device head d dev [] (y ∷ ys) w u =
    (rw (==_refl d) (w.2.0), w.2.1, Walk-update device d _ head y ys (u.0.1) (w.2.2))
Walk-remove device head d dev (x ∷ xs) ys w u = (
  rw (ne→== d (last x xs) (last_ne d x xs (dev ∷ ys) (u.0))) (w.0),
  w.1,
  Walk-remove device head x dev xs ys (w.2) (u.1),
)
  where
    last_ne : (a x : ℕ) (xs zs : List ℕ) → NotIn a (x ∷ (xs ++ zs)) → a ≢ last x xs
    last_ne a x [] zs h = h.0
    last_ne a x (y ∷ xs) zs h = last_ne a y xs zs (h.1)

not_same : (o : Option ℕ) (dev : ℕ) → o ≢ some dev → same o (some dev) ≡ false
not_same none dev h = refl
not_same (some c) dev h = ne→== c dev (λ e. h (ap some e))

-- Unregistering a device of the ring that is neither its head nor current returns 0, takes the device
-- out, keeps the order of the others, and leaves the current device and the head as they are.
pub eth_unregister-IsRing :
    (e : Eth) (head dev : ℕ) (xs ys : List ℕ)
    → IsRing e (head ∷ (xs ++ (dev ∷ ys)))
    → e.eth_current ≢ some dev
    → (e' : Eth) × (eth_unregister dev e ≡ some (e', 0))
      × IsRing e' (head ∷ (xs ++ ys))
      × (e'.eth_current ≡ e.eth_current)
unfolding eth_unregister
eth_unregister-IsRing e head dev xs ys h idle =
    let at = last head xs in
    let size = length-append xs (dev ∷ ys) in
    let (found, next) =
      device_before-last e.registered e.device head head dev xs ys (h.1) (h.2)
        (omega (arith, h.3, size)) in
    let not_head : head ≢ dev = (NotIn-remove head dev xs ys (h.2.0)).0 in
    (
      link at (e.device dev).next e,
      rw (h.0) (
          rw found (
            rw (next, ==_refl dev, ne→== head dev not_head, not_same e.eth_current dev idle) refl)),
      (
        h.0,
        Walk-remove e.device head head dev xs ys (h.1) (h.2),
        Distinct-remove dev (head ∷ xs) ys (h.2),
        omega (arith, h.3, size, length-append xs ys),
      ),
      refl,
    )

device_before-missing :
    (fuel : ℕ) (device : ℕ → Device) (head d dev : ℕ) (xs : List ℕ)
    → Walk device head d xs
    → dev ≢ head
    → NotIn dev xs
    → length xs < fuel
    → (device_before fuel device head dev d ≡ some (last d xs)) × ((device (last d xs)).next ≡ head)
unfolding device_before
device_before-missing zero device head d dev xs w ne v h = absurd (omega arith)
device_before-missing (suc fuel) device head d dev [] w ne v h = (rw (w, ==_refl head) refl, w)
device_before-missing (suc fuel) device head d dev (x ∷ xs) w ne v h =
    let (found, next) =
      device_before-missing fuel device head x dev xs (w.2) ne (v.1) (omega arith) in
    (rw (w.0, ne→== x head (w.1), ne→== x dev (λ e. v.0 (sym e))) found, next)

-- Unregistering a device that is not in the ring returns -19 and changes nothing, whether there are
-- devices or not.
pub eth_unregister_missing :
    (e : Eth) (ds : List ℕ) (dev : ℕ)
    → IsRing e ds
    → NotIn dev ds
    → eth_unregister dev e ≡ some (e, 2 ^ 32 - 19)
unfolding eth_unregister
eth_unregister_missing e [] dev h v = rw h refl
eth_unregister_missing e (head ∷ xs) dev h v =
    let (found, next) =
      device_before-missing e.registered e.device head head dev xs (h.1) (v.0) (v.1)
        (omega (arith, h.3)) in
    rw (h.0) (rw found (rw (next, ne→== head dev (λ same_device. v.0 (sym same_device))) refl))
