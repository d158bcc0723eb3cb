-- ===== src/Eth/Enetaddr/Names.antt =====
-- The names of the variables of a device, as net/eth_common.c prints them.
use emac_driver.Common.{
  ℕ, suc, ◌+◌, ◌-◌, ◌^◌, ◌≤◌, ◌<◌, ◌≡◌, refl, ◌∙◌, ap, arith, [], ◌∷◌, ◌++◌, Option, some, true,
  false, Bool-cases, inl, inr, ◌==◌, if◌then◌else◌, length, length-append,
}
use emac_driver.Common.Buffer.{Buffer}
use emac_driver.Text.{Text, IsText}
use emac_driver.Env.{Env, env_get}
use emac_driver.Printf.Output.{put, ◌>>◌, signed}
use emac_driver.Printf.Number.{number, string}
use emac_driver.Printf.Format.{int, text, ◌>>=◌}
use emac_driver.Printf.Convert.{print, integer_value}
use emac_driver.Printf.Plain.{sprintf_local, sprintf_local-put, string-plain}
use emac_driver.Printf.Texts.{
  decimal, seq-put, decimal-put, decimal-IsText, append-IsText, length-decimal,
}
use emac_driver.Eth.Enetaddr.{enetvar, enetvar_format, macskip_format, is_set, eth_mac_skip}

abbrev pub eth_text : Text
eth_text = b'e' ∷ b't' ∷ b'h' ∷ []

abbrev addr_text : Text
addr_text = b'a' ∷ b'd' ∷ b'd' ∷ b'r' ∷ []

abbrev number_text : ℕ → Text
number_text n = if n == 0 then [] else decimal n

-- "ethaddr", "eth1addr", "eth2addr" and so on.
abbrev pub ethaddr_name : ℕ → Text
ethaddr_name n = eth_text ++ (number_text n ++ addr_text)

abbrev skip_text : Text
skip_text = b'm' ∷ b'a' ∷ b'c' ∷ b's' ∷ b'k' ∷ b'i' ∷ b'p' ∷ []

-- "ethmacskip", "eth1macskip" and so on.
abbrev pub macskip_name : ℕ → Text
macskip_name n = eth_text ++ (number_text n ++ skip_text)

decimal_addr-IsText : (n : ℕ) → n < 2 ^ 31 → IsText (eth_text ++ (decimal n ++ addr_text))
decimal_addr-IsText n h =
    append-IsText eth_text (decimal n ++ addr_text) (omega arith)
      (append-IsText (decimal n) addr_text (decimal-IsText n (omega arith)) (omega arith))

length-decimal_addr :
    (k n : ℕ) → n < 2 ^ 31 → n < 10 ^ suc k → length (eth_text ++ (decimal n ++ addr_text)) ≤ k + 8
length-decimal_addr k n h l =
    omega (arith, length-append {0} (decimal n) addr_text, length-decimal k n (omega arith) l)

pub ethaddr_name-IsText : (n : ℕ) → n < 2 ^ 31 → IsText (ethaddr_name n)
ethaddr_name-IsText n h = elim (Bool-cases (n == 0)) [
  | inl e ↦ rw e (omega arith)
  | inr e ↦ rw e (decimal_addr-IsText n h)
]

pub length-ethaddr_name : (k n : ℕ) → n < 2 ^ 31 → n < 10 ^ suc k → length (ethaddr_name n) ≤ k + 8
length-ethaddr_name k n h l = elim (Bool-cases (n == 0)) [
  | inl e ↦ rw e (omega arith)
  | inr e ↦ rw e (length-decimal_addr k n h l)
]

module _ (place : ℕ) (old : Buffer) (n : ℕ) (low : place < 2 ^ 63) where
  first_name :
      sprintf_local 32 place old (enetvar_format 0) (text (some eth_text) ∷ int n ∷ [])
      ≡ some (eth_text ++ addr_text)
  unfolding enetvar_format print put
  first_name =
      sprintf_local-put 32 place old (enetvar_format 0) (text (some eth_text) ∷ int n ∷ [])
        (string (some eth_text) (2 ^ 32 - 1) (2 ^ 32 - 1) 0 >> put addr_text)
        (eth_text ++ addr_text) refl
        (seq-put eth_text addr_text (string-plain eth_text (omega arith)) refl) (omega arith)
        (omega arith) (omega arith) low

  other_name :
      n < 2 ^ 31
      → sprintf_local 32 place old (enetvar_format 1) (text (some eth_text) ∷ int n ∷ [])
        ≡ some (eth_text ++ (decimal n ++ addr_text))
  unfolding enetvar_format print put
  other_name h =
      sprintf_local-put 32 place old (enetvar_format 1) (text (some eth_text) ∷ int n ∷ [])
        (string (some eth_text) (2 ^ 32 - 1) (2 ^ 32 - 1) 0
          >> (number (integer_value (2 ^ 32 - 1) true n) 10 (2 ^ 32 - 1) (2 ^ 32 - 1) signed
              >> put addr_text))
        (eth_text ++ (decimal n ++ addr_text)) refl
        (seq-put eth_text (decimal n ++ addr_text) (string-plain eth_text (omega arith))
          (seq-put (decimal n) addr_text (decimal-put n h) refl))
        (decimal_addr-IsText n h) (omega (arith, length-decimal_addr 9 n h (omega arith)))
        (omega arith) low

  printed_name :
      (fmt : Text)
      → enetvar_format n ≡ fmt
      → enetvar place old eth_text n
        ≡ sprintf_local 32 place old fmt (text (some eth_text) ∷ int n ∷ [])
  unfolding enetvar
  printed_name fmt e = ap (λ f. sprintf_local 32 place old f (text (some eth_text) ∷ int n ∷ [])) e

  format_first : (n == 0) ≡ true → enetvar_format n ≡ enetvar_format 0
  unfolding enetvar_format
  format_first e = rw e refl

  format_other : (n == 0) ≡ false → enetvar_format n ≡ enetvar_format 1
  unfolding enetvar_format
  format_other e = rw e refl

  pub enetvar-ethaddr_name : n < 2 ^ 31 → enetvar place old eth_text n ≡ some (ethaddr_name n)
  enetvar-ethaddr_name h = elim (Bool-cases (n == 0)) [
    | inl e ↦ rw e (printed_name (enetvar_format 0) (format_first e) ∙ first_name)
    | inr e ↦ rw e (printed_name (enetvar_format 1) (format_other e) ∙ other_name h)
  ]

  first_skip :
      sprintf_local 15 place old (macskip_format 0) (int n ∷ []) ≡ some (eth_text ++ skip_text)
  unfolding macskip_format print put
  first_skip =
      sprintf_local-put 15 place old (macskip_format 0) (int n ∷ []) (put (eth_text ++ skip_text))
        (eth_text ++ skip_text) refl refl (omega arith) (omega arith) (omega arith) low

  other_skip :
      n < 10000
      → sprintf_local 15 place old (macskip_format 1) (int n ∷ [])
        ≡ some (eth_text ++ (decimal n ++ skip_text))
  unfolding macskip_format print put
  other_skip h =
      sprintf_local-put 15 place old (macskip_format 1) (int n ∷ [])
        (put eth_text
          >> (number (integer_value (2 ^ 32 - 1) true n) 10 (2 ^ 32 - 1) (2 ^ 32 - 1) signed
              >> put skip_text))
        (eth_text ++ (decimal n ++ skip_text)) refl
        (seq-put eth_text (decimal n ++ skip_text) refl
          (seq-put (decimal n) skip_text (decimal-put n (omega arith)) refl))
        (append-IsText eth_text (decimal n ++ skip_text) (omega arith)
          (append-IsText (decimal n) skip_text (decimal-IsText n (omega arith)) (omega arith)))
        (omega (arith, length-append {0} (decimal n) skip_text, length-decimal 3 n (omega arith) h))
        (omega arith) low

  skip_format_first : (n == 0) ≡ true → macskip_format n ≡ macskip_format 0
  unfolding macskip_format
  skip_format_first e = rw e refl

  skip_format_other : (n == 0) ≡ false → macskip_format n ≡ macskip_format 1
  unfolding macskip_format
  skip_format_other e = rw e refl

  printed_skip :
      (fmt : Text) (e : Env) (name : Text)
      → macskip_format n ≡ fmt
      → sprintf_local 15 place old fmt (int n ∷ []) ≡ some name
      → eth_mac_skip place old n e ≡ some (is_set (env_get name e))
  unfolding eth_mac_skip
  printed_skip fmt e name f h =
      ap (λ (m : Option Text). m >>= λ name. some (is_set (env_get name e)))
        (ap (λ g. sprintf_local 15 place old g (int n ∷ [])) f ∙ h)

  -- The number of a device with at most four digits leaves room for the NUL.
  pub eth_mac_skip-macskip_name :
      (e : Env)
      → n < 10000
      → eth_mac_skip place old n e ≡ some (is_set (env_get (macskip_name n) e))
  eth_mac_skip-macskip_name e h = elim (Bool-cases (n == 0)) [
    | inl z ↦
        rw z (
          printed_skip (macskip_format 0) e (eth_text ++ skip_text) (skip_format_first z)
            first_skip)
    | inr z ↦ rw z (
        printed_skip (macskip_format 1) e (eth_text ++ (decimal n ++ skip_text))
          (skip_format_other z) (other_skip h))
  ]
