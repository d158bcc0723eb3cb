-- ===== src/Eth/Hwaddr/Laws.antt =====
-- The address of a device after `eth_write_hwaddr` of net/eth_legacy.c.
use emac_driver.Common.{
  ℕ, ◌<◌, ◌^◌, ◌≡◌, refl, ap, sym, ◌∙◌, subst, arith, ◌∷◌, none, some, Bool, true, false,
  Bool-cases, inl, inr,
}
use emac_driver.Common.Buffer.{Buffer, IsBytes}
use emac_driver.Text.{Text}
use emac_driver.Env.{Env, env_get}
use emac_driver.Eth.{Eth}
use emac_driver.Eth.Ethaddr.{is_zero_ethaddr, is_valid_ethaddr}
use emac_driver.Eth.Enetaddr.{
  eth_env_get_enetaddr, eth_env_get_enetaddr_by_index, eth_env_set_enetaddr_by_index, is_set,
}
use emac_driver.Eth.Enetaddr.Names.{
  eth_text, ethaddr_name, enetvar-ethaddr_name, length-ethaddr_name, macskip_name,
  eth_mac_skip-macskip_name,
}
use emac_driver.Eth.Enetaddr.Laws.{eth_env_set_enetaddr-defined}
use emac_driver.Eth.Hwaddr.{choose_enetaddr, tell_enetaddr, eth_write_hwaddr}
use emac_driver.Eth.Hwaddr.Choice.{IsChosen, IsSound, AllChosen, choose_enetaddr-IsChosen}

-- The driver of a device is told the address that the device has where it has a `write_hwaddr` and
-- the variable `skip_name` is not set, and nothing otherwise.
pub record IsTold (has_write : ℕ → Bool) (driver_write : ℕ → Buffer → ℕ) (dev : ℕ)
    (skip_name : Text) (e e' : Eth) (r : ℕ) : Type 0 where
  pub told :
      has_write dev ≡ true
      → env_get skip_name e'.env ≡ none
      → (e'.hwaddrs ≡ (dev, (e'.device dev).enetaddr) ∷ e.hwaddrs)
        × (r ≡ driver_write dev (e'.device dev).enetaddr)
  pub unwritable : has_write dev ≡ false → (e'.hwaddrs ≡ e.hwaddrs) × (r ≡ 0)
  pub skipped :
      (value : Text) → env_get skip_name e'.env ≡ some value → (e'.hwaddrs ≡ e.hwaddrs) × (r ≡ 0)

module _ (has_write : ℕ → Bool) (driver_write : ℕ → Buffer → ℕ) (dev : ℕ) (skip_name : Text)
    (e e1 : Eth) (same : e1.hwaddrs ≡ e.hwaddrs) where
  not_written : has_write dev ≡ false → IsTold has_write driver_write dev skip_name e e1 0
  not_written w = record {
    told = λ h k. cc;
    unwritable = λ h. (same, refl);
    skipped = λ value k. (same, refl);
  }

  mac_skipped :
      is_set (env_get skip_name e1.env) ≡ true → IsTold has_write driver_write dev skip_name e e1 0
  mac_skipped s = record {
    told = λ h k. absurd (true_ne_none (sym (ap is_set k) ∙ s));
    unwritable = λ h. (same, refl);
    skipped = λ value k. (same, refl);
  }
    where
      true_ne_none : ◌≡◌ {A = Bool} false true → ⊥
      true_ne_none h = cc

  tell_enetaddr-IsTold :
      has_write dev ≡ true
      → is_set (env_get skip_name e1.env) ≡ false
      → is_valid_ethaddr (e1.device dev).enetaddr ≡ true
      → (tell_enetaddr driver_write dev e1).0.device ≡ e1.device
        × IsTold has_write driver_write dev skip_name e
            (tell_enetaddr driver_write dev e1).0
            (tell_enetaddr driver_write dev e1).1
  unfolding tell_enetaddr
  tell_enetaddr-IsTold w s valid = rw valid (
    refl,
    record {
      told = λ h k. (ap (◌∷◌ (dev, (e1.device dev).enetaddr)) same, refl);
      unwritable = λ h. absurd (true_ne_false (sym w ∙ h));
      skipped = λ value k. absurd (true_ne_false (sym (ap is_set k) ∙ s));
    },
  )
    where
      true_ne_false : ◌≡◌ {A = Bool} true false → ⊥
      true_ne_false h = cc

module _ (place : ℕ) (old : Buffer) (dev number : ℕ) (e : Eth) (low : place < 2 ^ 63)
    (small : number < 10000) where
  set_by_index-defined :
      (a : Buffer) (env : Env)
      → IsBytes a
      → (r : Env × ℕ) × (eth_env_set_enetaddr_by_index place old eth_text number a env ≡ some r)
  unfolding eth_env_set_enetaddr_by_index
  set_by_index-defined a env bytes = rw (enetvar-ethaddr_name place old number low (omega arith)) (
      eth_env_set_enetaddr-defined place old a (ethaddr_name number) env low bytes
        (omega (arith, length-ethaddr_name 9 number (omega arith) (omega arith))))

  choose_enetaddr-defined :
      (found : Buffer)
      → IsBytes (e.device dev).enetaddr
      → (e' : Eth) × (choose_enetaddr place old dev eth_text number found e ≡ some e')
  unfolding choose_enetaddr
  choose_enetaddr-defined found bytes =
      let own = (e.device dev).enetaddr in
      let s = set_by_index-defined own e.env bytes in
      elim (Bool-cases (is_zero_ethaddr found)) [
        | inr z ↦ rw z (_, refl)
        | inl z ↦ rw z (elim (Bool-cases (is_valid_ethaddr own)) [
          | inl v ↦ rw (v, s.1) (_, refl)
          | inr v ↦ rw v (elim (Bool-cases (is_zero_ethaddr own)) [
            | inl w ↦ rw w (_, refl)
            | inr w ↦ rw w (_, refl)
          ])
        ])
      ]

  found_by_index :
      (env : Env)
      → eth_env_get_enetaddr_by_index place old eth_text number old env
        ≡ some (eth_env_get_enetaddr (ethaddr_name number) old env)
  unfolding eth_env_get_enetaddr_by_index
  found_by_index env = rw (enetvar-ethaddr_name place old number low (omega arith)) refl

  module _ (has_write : ℕ → Bool) (driver_write : ℕ → Buffer → ℕ) where
    -- Where the address in the environment and the device's own are zero or valid, eth_write_hwaddr
    -- for a device with a number below 10000 returns, and the device has a valid address then: that
    -- of the environment unless it is zero, else its own unless it is zero, else the default one.
    -- Where the device has a `write_hwaddr` and the variable ethmacskip of that device is not set in
    -- the environment that the call leaves, the driver is told that address and its result is
    -- returned; where one of the two fails, it is told nothing and 0 is returned.
    pub eth_write_hwaddr-IsChosen :
        IsBytes (e.device dev).enetaddr
        → IsSound (eth_env_get_enetaddr (ethaddr_name number) old e.env).0
        → IsSound (e.device dev).enetaddr
        → (e' : Eth) × (r : ℕ) × (eth_write_hwaddr place old has_write driver_write dev eth_text
              number e
            ≡ some (e', r))
          × IsChosen
              (eth_env_get_enetaddr (ethaddr_name number) old e.env).0
              (e.device dev).enetaddr
              (e'.device dev).enetaddr
          × IsTold has_write driver_write dev (macskip_name number) e e' r
    unfolding eth_write_hwaddr
    eth_write_hwaddr-IsChosen bytes found_sound own_sound =
        let found = (eth_env_get_enetaddr (ethaddr_name number) old e.env).0 in
        let c = choose_enetaddr-defined found bytes in
        let chosen =
          subst (AllChosen dev found e) c.1 (
            choose_enetaddr-IsChosen place old dev eth_text number found e found_sound own_sound) in
        let skip = eth_mac_skip-macskip_name place old number low c.0.env small in
        let name = macskip_name number in
        elim (Bool-cases (has_write dev)) [
          | inr w ↦ (
            c.0,
            0,
            rw (found_by_index e.env, c.1, w) refl,
            chosen.0,
            not_written has_write driver_write dev name e c.0 chosen.1 w,
          )
          | inl w ↦ elim (Bool-cases (is_set (env_get name c.0.env))) [
            | inl s ↦ (
              c.0,
              0,
              rw (found_by_index e.env, c.1, w, skip, s) refl,
              chosen.0,
              mac_skipped has_write driver_write dev name e c.0 chosen.1 s,
            )
            | inr s ↦
                let t =
                  tell_enetaddr-IsTold has_write driver_write dev name e c.0 chosen.1 w s
                    chosen.0.valid in
                (
                  (tell_enetaddr driver_write dev c.0).0,
                  (tell_enetaddr driver_write dev c.0).1,
                  rw (found_by_index e.env, c.1, w, skip, s) refl,
                  rw t.0 chosen.0,
                  t.1,
                )
          ]
        ]
