-- ===== src/Mii/Operations.antt =====
-- Every operation of net/miiphyutil.c on the list of buses keeps it consistent.
use emac_driver.Common.{
  ℕ, zero, suc, ◌<◌, ◌≡◌, ◌≢◌, ◌⊎◌, inl, inr, refl, ◌∙◌, ap, arith, true, not, ◌||◌, List, [], ◌∷◌,
  ◌++◌, Option, none, some, ==_refl, Bool-cases, Option-cases, take,
}
use emac_driver.Text.{Text, strcmp, strlen}
use emac_driver.Text.Laws.{strcmp_self}
use emac_driver.Eth.{◌>>=◌, update}
use emac_driver.Mii.{
  Mii, alone, listed, poisoned, search_buses, add_bus, without, blank_bus, mdio_alloc, miiphy_init,
  miiphy_get_dev_by_name, miiphy_register, mdio_register, unlink, mdio_unregister,
  miiphy_set_current_dev,
}
use emac_driver.Mii.Buses.{
  Every, IsMember, IsConsistent, Every-map, Every-without, Every-IsMember, IsDistinct-without,
  removed_lem, search_buses-none, search_buses-IsMember,
}
use emac_driver.Mii.Current.{left_current, IsCurrent-without, IsCurrent-left}
use emac_driver.Mii.Invariant.{not_member, update-IsConsistent, add_bus-IsConsistent}

-- The operations, and what a caller has to see to.
pub data Operation : Type 0 where
  initialise : Operation
  register unregister : Option ℕ → Operation
  legacy : Text → Option ℕ → Option ℕ → Operation
  choose : Option Text → Operation

first {ℓ κ} : {A : Type ℓ} {B : Type κ} → Option (A × B) → Option A
first none = none
first (some (a, b)) = some a

unfoldable pub perform : Operation → Mii → Option Mii
unfolding first miiphy_init mdio_register mdio_unregister miiphy_register miiphy_set_current_dev
perform initialise m = some (miiphy_init m)
perform (register bus) m = first (mdio_register bus m)
perform (unregister bus) m = first (mdio_unregister bus m)
perform (legacy name new_dev ldev) m = miiphy_register name new_dev ldev m
perform (choose devname) m = first (miiphy_set_current_dev devname m)

-- malloc gives a bus that is not in the list, a name fits with its NUL in 32 bytes, and a bus that is
-- taken out is in the list or was never put in.
abbrev pub IsAllowed : Operation → Mii → List ℕ → Type 0
IsAllowed initialise m devs = Unit {0}
IsAllowed (register bus) m devs = Unit {0}
IsAllowed (unregister none) m devs = Unit {0}
IsAllowed (unregister (some bus)) m devs =
    IsMember bus devs ⊎ (((m.bus bus).link ≡ alone) × ¬ IsMember bus devs)
IsAllowed (legacy name none ldev) m devs = Unit {0}
IsAllowed (legacy name (some bus) ldev) m devs = (strlen name < 32) × ¬ IsMember bus devs
IsAllowed (choose devname) m devs = Unit {0}

abbrev Kept : Option Mii → Type 0
Kept r = (m' : Mii) × (devs' : List ℕ) × (r ≡ some m') × IsConsistent m' devs'

-- A bus with a name that no entry has is not an entry.
new_bus :
    (m : Mii) (devs : List ℕ) (bus : ℕ)
    → Every (λ d. strcmp (m.bus d).name (m.bus bus).name ≢ 0) devs
    → ¬ IsMember bus devs
new_bus m devs bus new k =
    Every-IsMember (λ d. strcmp (m.bus d).name (m.bus bus).name ≢ 0) devs bus new k
      (strcmp_self (m.bus bus).name)

register-Kept :
    (bus : Option ℕ) (m : Mii) (devs : List ℕ)
    → IsConsistent m devs
    → Kept (perform (register bus) m)
unfolding perform first mdio_register miiphy_get_dev_by_name
register-Kept none m devs c = (m, devs, refl, c)
register-Kept (some bus) m devs c =
    elim (Bool-cases (not (m.bus bus).readable || not (m.bus bus).writable)) [
      | inl e ↦ (m, devs, rw e refl, c)
      | inr e ↦ elim (Option-cases (search_buses m.bus (m.bus bus).name devs)) [
        | inr (d, f) ↦ (m, devs, rw e (simp (c.listing, f)), c)
        | inl f ↦
            let new = search_buses-none m.bus (m.bus bus).name devs f in
            (
              add_bus bus devs m,
              devs ++ (bus ∷ []),
              rw e (simp (c.listing, f)),
              add_bus-IsConsistent m devs bus c (new_bus m devs bus new) new,
            )
      ]
    ]

choose-Kept :
    (devname : Option Text) (m : Mii) (devs : List ℕ)
    → IsConsistent m devs
    → Kept (perform (choose devname) m)
unfolding perform first miiphy_set_current_dev miiphy_get_dev_by_name
choose-Kept none m devs c = (m, devs, refl, c)
choose-Kept (some devname) m devs c = elim (Option-cases (search_buses m.bus devname devs)) [
  | inl f ↦ (m, devs, simp (c.listing, f), c)
  | inr (d, f) ↦ (
    record m { current_mii = some d },
    devs,
    simp (c.listing, f),
    record {
      listing = c.listing;
      linked = c.linked;
      distinct = c.distinct;
      current = search_buses-IsMember m.bus devname devs d f;
    },
  )
]

unregister-Kept :
    (bus : Option ℕ) (m : Mii) (devs : List ℕ)
    → IsConsistent m devs
    → IsAllowed (unregister bus) m devs
    → Kept (perform (unregister bus) m)
unfolding perform first mdio_unregister unlink
unregister-Kept none m devs c a = (m, devs, refl, c)
unregister-Kept (some bus) m devs c (inl k) =
    let l = Every-IsMember (λ d. (m.bus d).link ≡ listed) devs bus c.linked k in
    let rest = record m {
      mii_devs = some (without bus devs);
      current_mii = left_current m.current_mii bus;
    } in
    let poison = record (m.bus bus) { link = poisoned } in
    (
      record rest { bus = update m.bus bus poison },
      without bus devs,
      simp (l, c.listing),
      update-IsConsistent rest (without bus devs) bus poison
          (record {
            listing = refl;
            linked = Every-without (λ d. (m.bus d).link ≡ listed) devs bus c.linked;
            distinct = IsDistinct-without (λ d. (m.bus d).name) devs bus c.distinct;
            current = IsCurrent-without m.current_mii devs bus c.current;
          })
          (removed_lem (λ d. (m.bus d).name) devs bus c.distinct),
    )
unregister-Kept (some bus) m devs c (inr (l, out)) =
    let rest = record m { current_mii = left_current m.current_mii bus } in
    let poison = record (m.bus bus) { link = poisoned } in
    (
      record rest { bus = update m.bus bus poison },
      devs,
      simp l,
      update-IsConsistent rest devs bus poison
          (record {
            listing = c.listing;
            linked = c.linked;
            distinct = c.distinct;
            current = IsCurrent-left m.current_mii devs bus c.current;
          })
          out,
    )

take_all : (n : ℕ) (s : Text) → strlen s < suc n → take n s ≡ s
unfolding strlen
take_all zero [] h = refl
take_all zero (c ∷ s) h = absurd (omega arith)
take_all (suc n) [] h = refl
take_all (suc n) (c ∷ s) h = ap (λ (t : Text). c ∷ t) (take_all n s (omega arith))

legacy-Kept :
    (name : Text) (new_dev ldev : Option ℕ) (m : Mii) (devs : List ℕ)
    → IsConsistent m devs
    → IsAllowed (legacy name new_dev ldev) m devs
    → Kept (perform (legacy name new_dev ldev) m)
unfolding perform miiphy_register miiphy_get_dev_by_name mdio_alloc
legacy-Kept name new_dev ldev m devs c a = elim (Option-cases (search_buses m.bus name devs)) [
  | inr (d, f) ↦ (m, devs, simp (c.listing, f), c)
  | inl f ↦ fresh new_dev ldev a f
]
  where
    fresh :
        (new_dev ldev : Option ℕ)
        → IsAllowed (legacy name new_dev ldev) m devs
        → search_buses m.bus name devs ≡ none
        → Kept (miiphy_register name new_dev ldev m)
    fresh none ldev a f = (m, devs, simp (c.listing, f), c)
    fresh (some bus) none a f = (
      mdio_alloc (some bus) m,
      devs,
      simp (c.listing, f),
      update-IsConsistent m devs bus blank_bus c a.1,
    )
    fresh (some bus) (some ops) (short, out) f =
        let m1 = mdio_alloc (some bus) m in
        let b = record (m1.bus bus) { name = take 31 name; readable = true; writable = true } in
        let m2 = record m1 { bus = update m1.bus bus b } in
        let c1 = update-IsConsistent m devs bus blank_bus c out in
        let c2 = update-IsConsistent m1 devs bus b c1 out in
        let own_name : (m2.bus bus).name ≡ name = rw (==_refl bus) (take_all 31 name short) in
        let new =
          Every-map (λ d. strcmp (m.bus d).name name ≢ 0)
            (λ d. strcmp (m2.bus d).name (m2.bus bus).name ≢ 0) devs
            (λ d k ne. rw (own_name, not_member devs bus d out k) ne)
            (search_buses-none m.bus name devs f) in
        (
          add_bus bus devs m2,
          devs ++ (bus ∷ []),
          ap
                (λ (o : Option (List ℕ)). o >>= λ ds.
                  (o >>= λ ds'. some (search_buses m.bus name ds')) >>= λ found.
                  elim found as (λ x. Option Mii) [
                    | some dev ↦ some m
                    | none ↦ some (add_bus bus ds m2)
                  ])
                c.listing
              ∙ rw f refl,
          add_bus-IsConsistent m2 devs bus c2 out new,
        )

-- On a consistent list, every allowed operation on it ends without a fault and leaves a consistent
-- list: its entries are linked in it, no two have the same name, and the current bus is one of them.
pub perform-IsConsistent :
    (o : Operation) (m : Mii) (devs : List ℕ)
    → IsConsistent m devs
    → IsAllowed o m devs
    → (m' : Mii) × (devs' : List ℕ) × (perform o m ≡ some m') × IsConsistent m' devs'
unfolding perform miiphy_init
perform-IsConsistent initialise m devs c a =
    (miiphy_init m, [], refl, record { listing = refl; linked = tt; distinct = tt; current = tt })
perform-IsConsistent (register bus) m devs c a = register-Kept bus m devs c
perform-IsConsistent (unregister bus) m devs c a = unregister-Kept bus m devs c a
perform-IsConsistent (legacy name new_dev ldev) m devs c a =
    legacy-Kept name new_dev ldev m devs c a
perform-IsConsistent (choose devname) m devs c a = choose-Kept devname m devs c
