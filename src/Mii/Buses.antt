-- ===== src/Mii/Buses.antt =====
-- The list of MII buses of net/miiphyutil.c under every operation on it.
use emac_driver.Common.{
  ℕ, ◌≡◌, ◌≢◌, ◌⊎◌, inl, inr, refl, sym, subst, ◌∙◌, ap, ap₂, arith, false, List, [], ◌∷◌, ◌++◌,
  Option, none, some, ◌==◌, ==→eq, Bool-cases,
}
use emac_driver.Text.{Text, strcmp}
use emac_driver.Text.Laws.{strcmp_self}
use emac_driver.Mii.{Mii, MiiDev, listed, search_buses, without}

module _ (P : ℕ → Type 0) where
  abbrev pub Every : List ℕ → Type 0
  Every [] = Unit {0}
  Every (d ∷ devs) = P d × Every devs

-- No name is that of a later entry.
abbrev pub IsDistinct : (ℕ → Text) → List ℕ → Type 0
IsDistinct name [] = Unit {0}
IsDistinct name (d ∷ devs) = Every (λ e. strcmp (name d) (name e) ≢ 0) devs × IsDistinct name devs

abbrev pub IsMember : ℕ → List ℕ → Type 0
IsMember c [] = ⊥
IsMember c (d ∷ devs) = (c ≡ d) ⊎ IsMember c devs

abbrev pub IsCurrent : Option ℕ → List ℕ → Type 0
IsCurrent none devs = Unit {0}
IsCurrent (some c) devs = IsMember c devs

-- The list is there, its entries are linked in it and have different names, and the current bus, if
-- there is one, is one of them.
pub record IsConsistent (m : Mii) (devs : List ℕ) : Type 0 where
  pub listing : m.mii_devs ≡ some devs
  pub linked : Every (λ d. (m.bus d).link ≡ listed) devs
  pub distinct : IsDistinct (λ d. (m.bus d).name) devs
  pub current : IsCurrent m.current_mii devs

-- Lists of which something holds.
module _ (P : ℕ → Type 0) (Q : ℕ → Type 0) where
  pub Every-map :
      (devs : List ℕ) → ((d : ℕ) → IsMember d devs → P d → Q d) → Every P devs → Every Q devs
  Every-map [] f h = tt
  Every-map (d ∷ devs) f (p, h) = (f d (inl refl) p, Every-map devs (λ e k. f e (inr k)) h)

module _ (P : ℕ → Type 0) where
  pub Every-append : (devs : List ℕ) (bus : ℕ) → Every P devs → P bus → Every P (devs ++ (bus ∷ []))
  Every-append [] bus h p = (p, tt)
  Every-append (d ∷ devs) bus (q, h) p = (q, Every-append devs bus h p)

  pub Every-IsMember : (devs : List ℕ) (c : ℕ) → Every P devs → IsMember c devs → P c
  Every-IsMember [] c h k = absurd k
  Every-IsMember (d ∷ devs) c (p, h) (inl e) = subst P (sym e) p
  Every-IsMember (d ∷ devs) c (p, h) (inr k) = Every-IsMember devs c h k

  pub Every-without : (devs : List ℕ) (bus : ℕ) → Every P devs → Every P (without bus devs)
  unfolding without
  Every-without [] bus h = tt
  Every-without (d ∷ devs) bus (p, h) = elim (Bool-cases (d == bus)) [
    | inl e ↦ rw e h
    | inr e ↦ rw e (p, Every-without devs bus h)
  ]

pub IsMember-append :
    (devs : List ℕ) (c bus : ℕ) → IsMember c devs → IsMember c (devs ++ (bus ∷ []))
IsMember-append [] c bus k = absurd k
IsMember-append (d ∷ devs) c bus (inl e) = inl e
IsMember-append (d ∷ devs) c bus (inr k) = inr (IsMember-append devs c bus k)

pub appended-IsMember : (devs : List ℕ) (bus : ℕ) → IsMember bus (devs ++ (bus ∷ []))
appended-IsMember [] bus = inl refl
appended-IsMember (d ∷ devs) bus = inr (appended-IsMember devs bus)

pub IsMember-without :
    (devs : List ℕ) (c bus : ℕ) → c ≢ bus → IsMember c devs → IsMember c (without bus devs)
unfolding without
IsMember-without [] c bus ne k = k
IsMember-without (d ∷ devs) c bus ne k = elim (Bool-cases (d == bus)) [
  | inl e ↦ rw e (elim k [ inl f ↦ absurd (ne (f ∙ ==→eq d bus e)) | inr k' ↦ k' ])
  | inr e ↦ rw e (elim k [ inl f ↦ inl f | inr k' ↦ inr (IsMember-without devs c bus ne k') ])
]

pub IsDistinct-append :
    (name : ℕ → Text) (devs : List ℕ) (bus : ℕ)
    → IsDistinct name devs
    → Every (λ d. strcmp (name d) (name bus) ≢ 0) devs
    → IsDistinct name (devs ++ (bus ∷ []))
IsDistinct-append name [] bus h k = (tt, tt)
IsDistinct-append name (d ∷ devs) bus (p, h) (q, k) = (
  Every-append (λ e. strcmp (name d) (name e) ≢ 0) devs bus p q,
  IsDistinct-append name devs bus h k,
)

pub IsDistinct-without :
    (name : ℕ → Text) (devs : List ℕ) (bus : ℕ)
    → IsDistinct name devs
    → IsDistinct name (without bus devs)
unfolding without
IsDistinct-without name [] bus h = tt
IsDistinct-without name (d ∷ devs) bus (p, h) = elim (Bool-cases (d == bus)) [
  | inl e ↦ rw e h
  | inr e ↦ rw e (
    Every-without (λ f. strcmp (name d) (name f) ≢ 0) devs bus p,
    IsDistinct-without name devs bus h,
  )
]

-- Only the names of the entries count.
pub IsDistinct-agree :
    (name name' : ℕ → Text) (devs : List ℕ)
    → ((d : ℕ) → IsMember d devs → name' d ≡ name d)
    → IsDistinct name devs
    → IsDistinct name' devs
IsDistinct-agree name name' [] f h = tt
IsDistinct-agree name name' (d ∷ devs) f (p, h) = (
  Every-map (λ e. strcmp (name d) (name e) ≢ 0) (λ e. strcmp (name' d) (name' e) ≢ 0) devs
      (λ e k ne z. ne (ap₂ strcmp (sym (f d (inl refl))) (sym (f e (inr k))) ∙ z)) p,
  IsDistinct-agree name name' devs (λ e k. f e (inr k)) h,
)

-- An entry is in a list with different names once.
pub removed_lem :
    (name : ℕ → Text) (devs : List ℕ) (bus : ℕ)
    → IsDistinct name devs
    → ¬ IsMember bus (without bus devs)
unfolding without
removed_lem name [] bus h = λ k. k
removed_lem name (d ∷ devs) bus (p, h) = elim (Bool-cases (d == bus)) [
  | inl e ↦ rw e (λ k.
      Every-IsMember (λ f. strcmp (name d) (name f) ≢ 0) devs bus p k
        (ap (λ (x : ℕ). strcmp (name d) (name x)) (sym (==→eq d bus e)) ∙ strcmp_self (name d)))
  | inr e ↦
      rw e (λ k. elim k [ inl f ↦ different d bus e f | inr k' ↦ removed_lem name devs bus h k' ])
]
  where
    different : (d bus : ℕ) → (d == bus) ≡ false → bus ≡ d → ⊥
    different d bus e f = ground (arith, e, f)

-- Where no entry has a name, all names differ from it.
pub search_buses-none :
    (bus : ℕ → MiiDev) (devname : Text) (devs : List ℕ)
    → search_buses bus devname devs ≡ none
    → Every (λ d. strcmp (bus d).name devname ≢ 0) devs
unfolding search_buses
search_buses-none bus devname [] h = tt
search_buses-none bus devname (d ∷ devs) h = elim (Bool-cases (strcmp (bus d).name devname == 0)) [
  | inl e ↦ ground (arith, e, h)
  | inr e ↦ ((λ z. ground (arith, e, z)), search_buses-none bus devname devs (ground (arith, e, h)))
]

pub search_buses-IsMember :
    (bus : ℕ → MiiDev) (devname : Text) (devs : List ℕ) (d : ℕ)
    → search_buses bus devname devs ≡ some d
    → IsMember d devs
unfolding search_buses
search_buses-IsMember bus devname [] d h = cc
search_buses-IsMember bus devname (e ∷ devs) d h =
    elim (Bool-cases (strcmp (bus e).name devname == 0)) [
      | inl k ↦ inl (ground (arith, k, h))
      | inr k ↦ inr (search_buses-IsMember bus devname devs d (ground (arith, k, h)))
    ]
