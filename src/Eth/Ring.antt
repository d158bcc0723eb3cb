-- ===== src/Eth/Ring.antt =====
-- The ring of registered devices as a list, in the order of their registration.
use emac_driver.Common.{
  ℕ, zero, suc, ◌≤◌, ◌<◌, ◌≡◌, ◌≢◌, refl, sym, ◌∙◌, arith, List, [], ◌∷◌, ◌++◌, Option, none, some,
  Bool, ◌==◌, if◌then◌else◌, length, inl, inr, Bool-cases, ne→==, ==_refl,
}
use emac_driver.Text.{Text, strcmp}
use emac_driver.Eth.{
  Eth, Device, search_ring, search_devices, eth_get_dev_by_name, eth_get_dev_by_index, last_device,
}

abbrev pub NotIn : ℕ → List ℕ → Type 0
NotIn a [] = Unit {0}
NotIn a (x ∷ xs) = (a ≢ x) × NotIn a xs

abbrev pub Distinct : List ℕ → Type 0
Distinct [] = Unit {0}
Distinct (x ∷ xs) = NotIn x xs × Distinct xs

-- From `d` the links lead through the devices of the list, and then to `head`.
abbrev pub Walk : (ℕ → Device) → ℕ → ℕ → List ℕ → Type 0
Walk device head d [] = (device d).next ≡ head
Walk device head d (x ∷ xs) = ((device d).next ≡ x) × (x ≢ head) × Walk device head x xs

abbrev pub IsRing : Eth → List ℕ → Type 0
IsRing e [] = e.eth_devices ≡ none
IsRing e (head ∷ xs) =
    (e.eth_devices ≡ some head)
    × Walk e.device head head xs
    × Distinct (head ∷ xs)
    × (length (head ∷ xs) ≤ e.registered)

-- The first device of the list that passes the test.
abbrev pub find : (ℕ → Bool) → List ℕ → Option ℕ
find test [] = none
find test (x ∷ xs) = if test x then some x else find test xs

abbrev pub last : ℕ → List ℕ → ℕ
last d [] = d
last d (x ∷ xs) = last x xs

search_ring-find :
    (fuel : ℕ) (device : ℕ → Device) (test : Device → Bool) (head d : ℕ) (xs : List ℕ)
    → Walk device head d xs
    → length xs < fuel
    → search_ring fuel device test head d ≡ some (find (λ (x : ℕ). test (device x)) (d ∷ xs))
unfolding search_ring
search_ring-find zero device test head d xs w h = absurd (omega arith)
search_ring-find (suc fuel) device test head d [] w h = elim (Bool-cases (test (device d))) [
  | inl hit ↦ rw hit refl
  | inr miss ↦ rw (miss, w, ==_refl head) refl
]
search_ring-find (suc fuel) device test head d (x ∷ xs) w h = elim (Bool-cases (test (device d))) [
  | inl hit ↦ rw hit refl
  | inr miss ↦
      rw (miss, w.0, ne→== x head (w.1))
        (search_ring-find fuel device test head x xs (w.2) (omega arith))
]

-- In a ring of devices both look-ups come to an end and return the device that was registered first
-- among those with the name, or the index, asked for; NULL if there is none.
pub eth_get_dev_by_name-find :
    (e : Eth) (ds : List ℕ) (name : Text) (index : ℕ)
    → IsRing e ds
    → (eth_get_dev_by_name name e ≡ some (find (λ d. strcmp name (e.device d).name == 0) ds))
      × (eth_get_dev_by_index index e ≡ some (find (λ d. (e.device d).index == index) ds))
unfolding eth_get_dev_by_name eth_get_dev_by_index search_devices
eth_get_dev_by_name-find e [] name index h = rw h (refl, refl)
eth_get_dev_by_name-find e (head ∷ xs) name index h = rw (h.0) (
  search_ring-find e.registered e.device (λ d. strcmp name d.name == 0) head head xs (h.1)
      (omega (arith, h.3)),
  search_ring-find e.registered e.device (λ d. d.index == index) head head xs (h.1)
      (omega (arith, h.3)),
)

pub last_device-last :
    (fuel : ℕ) (device : ℕ → Device) (head d : ℕ) (xs : List ℕ)
    → Walk device head d xs
    → length xs < fuel
    → last_device fuel device head d ≡ some (last d xs)
unfolding last_device
last_device-last zero device head d xs w h = absurd (omega arith)
last_device-last (suc fuel) device head d [] w h = rw (w, ==_refl head) refl
last_device-last (suc fuel) device head d (x ∷ xs) w h =
    rw (w.0, ne→== x head (w.1)) (last_device-last fuel device head x xs (w.2) (omega arith))

pub NotIn-last : (a x : ℕ) (xs : List ℕ) → NotIn a (x ∷ xs) → a ≢ last x xs
NotIn-last a x [] h = h.0
NotIn-last a x (y ∷ xs) h = NotIn-last a y xs (h.1)

-- A new device behind the last one.
pub Walk-append :
    (device device' : ℕ → Device) (head d dev : ℕ) (xs : List ℕ)
    → Walk device head d xs
    → Distinct (d ∷ xs)
    → NotIn dev (d ∷ xs)
    → dev ≢ head
    → ((y : ℕ) → y ≢ last d xs → y ≢ dev → (device' y).next ≡ (device y).next)
    → (device' (last d xs)).next ≡ dev
    → (device' dev).next ≡ head
    → Walk device' head d (xs ++ (dev ∷ []))
Walk-append device device' head d dev [] w u v ne same at here = (at, ne, here)
Walk-append device device' head d dev (x ∷ xs) w u v ne same at here = (
  same d (NotIn-last d x xs (u.0)) (λ e. v.0 (sym e)) ∙ w.0,
  w.1,
  Walk-append device device' head x dev xs (w.2) (u.1) (v.1) ne same at here,
)

NotIn-append : (a dev : ℕ) (xs : List ℕ) → NotIn a xs → a ≢ dev → NotIn a (xs ++ (dev ∷ []))
NotIn-append a dev [] h ne = (ne, tt)
NotIn-append a dev (x ∷ xs) h ne = (h.0, NotIn-append a dev xs (h.1) ne)

pub Distinct-append :
    (dev : ℕ) (xs : List ℕ) → Distinct xs → NotIn dev xs → Distinct (xs ++ (dev ∷ []))
Distinct-append dev [] h k = (tt, tt)
Distinct-append dev (x ∷ xs) h k =
    (NotIn-append x dev xs (h.0) (λ e. k.0 (sym e)), Distinct-append dev xs (h.1) (k.1))
