-- ===== src/Mii/Invariant.antt =====
-- A consistent list of MII buses of net/miiphyutil.c when a bus changes or is added.
use emac_driver.Common.{
  ℕ, ◌≡◌, ◌≢◌, inl, inr, refl, sym, subst, ap, false, List, [], ◌∷◌, ◌++◌, Option, none, some, ◌==◌,
  ==_refl, ==→eq, ne→==, Bool-cases,
}
use emac_driver.Text.{strcmp}
use emac_driver.Eth.{update}
use emac_driver.Mii.{Mii, MiiDev, listed, add_bus}
use emac_driver.Mii.Buses.{
  Every, IsMember, IsCurrent, IsConsistent, Every-map, Every-append, IsMember-append,
  appended-IsMember, IsDistinct-append, IsDistinct-agree,
}

pub not_member :
    (devs : List ℕ) (bus d : ℕ) → ¬ IsMember bus devs → IsMember d devs → (d == bus) ≡ false
not_member devs bus d out k = ne→== d bus (λ e. out (subst (λ x. IsMember x devs) e k))

-- A bus that is not in the list may change.
pub update-IsConsistent :
    (m : Mii) (devs : List ℕ) (bus : ℕ) (b : MiiDev)
    → IsConsistent m devs
    → ¬ IsMember bus devs
    → IsConsistent (record m { bus = update m.bus bus b }) devs
update-IsConsistent m devs bus b c out = record {
  listing = c.listing;
  linked =
      Every-map (λ d. (m.bus d).link ≡ listed) (λ d. (update m.bus bus b d).link ≡ listed) devs
        (λ d k e. rw (not_member devs bus d out k) e) c.linked;
  distinct =
      IsDistinct-agree (λ d. (m.bus d).name) (λ d. (update m.bus bus b d).name) devs
        (λ d k. rw (not_member devs bus d out k) refl) c.distinct;
  current = c.current;
}

pub add_bus-IsConsistent :
    (m : Mii) (devs : List ℕ) (bus : ℕ)
    → IsConsistent m devs
    → ¬ IsMember bus devs
    → Every (λ d. strcmp (m.bus d).name (m.bus bus).name ≢ 0) devs
    → IsConsistent (add_bus bus devs m) (devs ++ (bus ∷ []))
unfolding add_bus
add_bus-IsConsistent m devs bus c out new =
    let b = record (m.bus bus) { link = listed } in
    record {
      listing = refl;
      linked =
          Every-append (λ d. (update m.bus bus b d).link ≡ listed) devs bus
            (Every-map (λ d. (m.bus d).link ≡ listed) (λ d. (update m.bus bus b d).link ≡ listed)
              devs (λ d k e. rw (not_member devs bus d out k) e) c.linked)
            (rw (==_refl bus) refl);
      distinct =
          IsDistinct-agree (λ d. (m.bus d).name) (λ d. (update m.bus bus b d).name)
            (devs ++ (bus ∷ [])) (λ d k. same_name d)
            (IsDistinct-append (λ d. (m.bus d).name) devs bus c.distinct new);
      current = now m.current_mii c.current;
    }
  where
    same_name :
        (d : ℕ) → (update m.bus bus (record (m.bus bus) { link = listed }) d).name ≡ (m.bus d).name
    same_name d = elim (Bool-cases (d == bus)) [
      | inl e ↦ rw e (ap (λ (x : ℕ). (m.bus x).name) (sym (==→eq d bus e)))
      | inr e ↦ rw e refl
    ]

    now :
        (cur : Option ℕ)
        → IsCurrent cur devs
        → IsCurrent
            (elim cur as (λ c. Option ℕ) [ none ↦ some bus | some dev ↦ some dev ])
            (devs ++ (bus ∷ []))
    now none k = appended-IsMember devs bus
    now (some c) k = IsMember-append devs c bus k
