-- ===== src/Mii/Current.antt =====
-- The current bus of net/miiphyutil.c when a bus is taken out.
use emac_driver.Common.{
  ℕ, inl, inr, arith, List, Option, none, some, ◌==◌, if◌then◌else◌, Bool-cases,
}
use emac_driver.Eth.{same}
use emac_driver.Mii.{without}
use emac_driver.Mii.Buses.{IsCurrent, IsMember-without}

-- The current bus after `bus` is taken out.
abbrev pub left_current : Option ℕ → ℕ → Option ℕ
left_current cur bus = if same cur (some bus) then none else cur

pub IsCurrent-without :
    (cur : Option ℕ) (devs : List ℕ) (bus : ℕ)
    → IsCurrent cur devs
    → IsCurrent (left_current cur bus) (without bus devs)
IsCurrent-without none devs bus k = tt
IsCurrent-without (some c) devs bus k = elim (Bool-cases (c == bus)) [
  | inl e ↦ rw e tt
  | inr e ↦ rw e (IsMember-without devs c bus (λ f. ground (arith, e, f)) k)
]

pub IsCurrent-left :
    (cur : Option ℕ) (devs : List ℕ) (bus : ℕ)
    → IsCurrent cur devs
    → IsCurrent (left_current cur bus) devs
IsCurrent-left none devs bus k = tt
IsCurrent-left (some c) devs bus k = elim (Bool-cases (c == bus)) [
  | inl e ↦ rw e tt
  | inr e ↦ rw e k
]
