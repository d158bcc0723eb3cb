-- ===== src/Eth/Hwaddr/Choice.antt =====
-- The choice that `eth_write_hwaddr` of net/eth_legacy.c makes between addresses.
use emac_driver.Common.{
  ℕ, ◌+◌, ◌-◌, ◌<◌, ◌≡◌, ◌⊎◌, refl, ap, sym, ◌∙◌, arith, Option, none, some, Bool, true, false,
  Bool-cases, inl, inr, ==_refl,
}
use emac_driver.Common.Buffer.{Buffer, copy}
use emac_driver.Text.{Text}
use emac_driver.Env.{Env}
use emac_driver.Eth.{Eth, ◌>>=◌}
use emac_driver.Eth.Ethaddr.{is_zero_ethaddr, is_valid_ethaddr}
use emac_driver.Eth.Enetaddr.Laws.{valid_same}
use emac_driver.Eth.Hwaddr.{default_mac, set_enetaddr, choose_enetaddr}

-- The bytes of two addresses are the same.
abbrev pub SameAddress : Buffer → Buffer → Type 0
SameAddress a b = (i : ℕ) → i < 6 → a i ≡ b i

copied : (own a : Buffer) → SameAddress (copy own 0 a 0 6) a
copied own a i h = ground (arith, ap a {x = 0 + (i - 0)} {y = i} (omega arith))

-- The address of the environment comes first, then the device's own, then the default one.
pub record IsChosen (found own address : Buffer) : Type 0 where
  pub valid : is_valid_ethaddr address ≡ true
  pub given : is_zero_ethaddr found ≡ false → SameAddress address found
  pub kept : is_zero_ethaddr found ≡ true → is_valid_ethaddr own ≡ true → address ≡ own
  pub default :
      is_zero_ethaddr found ≡ true → is_zero_ethaddr own ≡ true → SameAddress address default_mac

own_address : (dev : ℕ) (a : Buffer) (e : Eth) → ((set_enetaddr dev a e).device dev).enetaddr ≡ a
unfolding set_enetaddr
own_address dev a e = rw (==_refl dev) refl

valid_nonzero : (a : Buffer) → is_valid_ethaddr a ≡ true → is_zero_ethaddr a ≡ false
unfolding is_valid_ethaddr
valid_nonzero a h = ground arith

default_valid : is_valid_ethaddr default_mac ≡ true
unfolding is_valid_ethaddr
default_valid = refl

-- An address that may stand in the environment or in a device.
abbrev pub IsSound : Buffer → Type 0
IsSound a = (is_zero_ethaddr a ≡ true) ⊎ (is_valid_ethaddr a ≡ true)

nonzero_valid : (a : Buffer) → IsSound a → is_zero_ethaddr a ≡ false → is_valid_ethaddr a ≡ true
nonzero_valid a (inl z) h = cc
nonzero_valid a (inr v) h = v

-- The three choices.
from_found :
    (found own : Buffer)
    → IsSound found
    → is_zero_ethaddr found ≡ false
    → IsChosen found own (copy own 0 found 0 6)
from_found found own sound nonzero = record {
  valid =
      valid_same found (copy own 0 found 0 6) (copied own found)
      ∙ nonzero_valid found sound nonzero;
  given = λ h. copied own found;
  kept = λ h k. cc;
  default = λ h k. cc;
}

from_own :
    (found own : Buffer)
    → is_zero_ethaddr found ≡ true
    → is_valid_ethaddr own ≡ true
    → IsChosen found own own
from_own found own zero valid = record {
  valid = valid;
  given = λ h. cc;
  kept = λ h k. refl;
  default = λ h k. absurd (true_false (sym k ∙ valid_nonzero own valid));
}
  where
    true_false : ◌≡◌ {A = Bool} true false → ⊥
    true_false h = cc

from_default :
    (found own : Buffer)
    → is_zero_ethaddr found ≡ true
    → is_valid_ethaddr own ≡ false
    → IsChosen found own (copy own 0 default_mac 0 6)
from_default found own zero invalid = record {
  valid =
      valid_same default_mac (copy own 0 default_mac 0 6) (copied own default_mac) ∙ default_valid;
  given = λ h. cc;
  kept = λ h k. cc;
  default = λ h k. copied own default_mac;
}

-- What `choose_enetaddr` gives.
abbrev pub Chosen : ℕ → Buffer → Eth → Eth → Type 0
Chosen dev found e e' =
    IsChosen found (e.device dev).enetaddr (e'.device dev).enetaddr × (e'.hwaddrs ≡ e.hwaddrs)

abbrev pub AllChosen : ℕ → Buffer → Eth → Option Eth → Type 0
AllChosen dev found e none = Unit {0}
AllChosen dev found e (some e') = Chosen dev found e e'

set_enetaddr-Chosen :
    (dev : ℕ) (found a : Buffer) (e : Eth)
    → IsChosen found (e.device dev).enetaddr a
    → Chosen dev found e (set_enetaddr dev a e)
set_enetaddr-Chosen dev found a e h = (rw (own_address dev a e) h, unfold set_enetaddr in refl)

>>=-Chosen :
    (dev : ℕ) (found : Buffer) (e : Eth) (m : Option (Env × ℕ))
    → IsChosen found (e.device dev).enetaddr (e.device dev).enetaddr
    → AllChosen dev found e (m >>= λ r. some (record e { env = r.0 }))
>>=-Chosen dev found e none h = tt
>>=-Chosen dev found e (some r) h = (h, refl)

pub choose_enetaddr-IsChosen :
    (place : ℕ) (old : Buffer) (dev : ℕ) (base_name : Text) (number : ℕ) (found : Buffer) (e : Eth)
    → IsSound found
    → IsSound (e.device dev).enetaddr
    → AllChosen dev found e (choose_enetaddr place old dev base_name number found e)
unfolding choose_enetaddr
choose_enetaddr-IsChosen place old dev base_name number found e sound own_sound =
    let own = (e.device dev).enetaddr in
    elim (Bool-cases (is_zero_ethaddr found)) [
      | inr z ↦
          rw z
            (set_enetaddr-Chosen dev found (copy own 0 found 0 6) e (from_found found own sound z))
      | inl z ↦ rw z (elim (Bool-cases (is_valid_ethaddr own)) [
        | inl v ↦ rw v (>>=-Chosen dev found e _ (from_own found own z v))
        | inr v ↦
            rw (v, own_zero own own_sound v)
              (set_enetaddr-Chosen dev found (copy own 0 default_mac 0 6) e
                (from_default found own z v))
      ])
    ]
  where
    own_zero : (a : Buffer) → IsSound a → is_valid_ethaddr a ≡ false → is_zero_ethaddr a ≡ true
    own_zero a (inl zero) h = zero
    own_zero a (inr valid) h = cc
