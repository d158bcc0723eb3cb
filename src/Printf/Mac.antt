-- ===== src/Printf/Mac.antt =====
-- The text of an Ethernet address, as `%pM` of misc/vsnprintf.c prints it and as `simple_strtoul` of
-- common.c reads it.
use emac_driver.Common.{
  ℕ, zero, suc, ◌+◌, ◌-◌, ◌*◌, ◌/◌, ◌^◌, ◌%◌, ◌<◌, ◌≡◌, refl, ◌∙◌, ap, arith, [], ◌∷◌, ◌++◌, some,
  Bool, not, true, false, Bool-cases, inl, inr, ltb, ◌==◌, ◌&&◌, if◌then◌else◌, bit_and, ◌>>>◌, u64,
}
use emac_driver.Common.Bits.{bit_and-ones, bit_and-shifted}
use emac_driver.Common.Buffer.{Buffer, window, IsBytes}
use emac_driver.Text.{Text, IsText, is_xdigit, to_lower, digit_value, strtoul_loop, simple_strtoul}
use emac_driver.Printf.Output.{◌>>◌}
use emac_driver.Printf.Number.{string}
use emac_driver.Printf.Pointer.{hex_asc, hex_byte_pack, mac_bytes, mac_address_string, pointer}
use emac_driver.Printf.Format.{address}
use emac_driver.Printf.Convert.{print}
use emac_driver.Printf.Plain.{sprintf_local, sprintf_local-put, string-plain}

high_digit : (v : ℕ) → v < 256 → bit_and v 0xf0 >>> 4 ≡ v / 16
high_digit v h = omega (arith, bit_and-shifted 4 v 15, bit_and-ones 4 (v / 2 ^ 4) 15 refl)

low_digit : (v : ℕ) → bit_and v 0x0f ≡ v % 16
low_digit v = bit_and-ones 4 v 15 refl

hex_byte_pack-digits :
    (v : ℕ) → v < 256 → hex_byte_pack v ≡ hex_asc (v / 16) ∷ hex_asc (v % 16) ∷ []
unfolding hex_byte_pack
hex_byte_pack-digits v h = rw (high_digit v h, low_digit v) refl

hex_asc-byte : (d : ℕ) → d < 16 → (0 < hex_asc d) × (hex_asc d < 256)
hex_asc-byte d h = ground arith

-- A rest at which the conversion of a byte stops.
abbrev pub Stops16 : Text → Type 0
Stops16 [] = Unit {0}
Stops16 (c ∷ s) = is_xdigit c ≡ false

digit_step :
    (r d : ℕ) (s : Text)
    → d < 16
    → r < 16
    → strtoul_loop 16 r (hex_asc d ∷ s) ≡ strtoul_loop 16 (r * 16 + d) s
unfolding strtoul_loop
digit_step r d s h k =
    let accepted : is_xdigit (hex_asc d) && ltb (digit_value (hex_asc d)) 16 ≡ true =
      ground arith in
    let value : u64 (u64 (r * 16) + digit_value (hex_asc d)) ≡ r * 16 + d = ground arith in
    rw (accepted, value) refl

stopped : (n : ℕ) (s : Text) → Stops16 s → strtoul_loop 16 n s ≡ (n, s)
unfolding strtoul_loop
stopped n [] h = refl
stopped n (c ∷ s) h = rw h refl

no_prefix :
    (d e : ℕ) (s : Text)
    → d < 16
    → e < 16
    → simple_strtoul (hex_asc d ∷ hex_asc e ∷ s) 16 ≡ strtoul_loop 16 0 (hex_asc d ∷ hex_asc e ∷ s)
unfolding simple_strtoul
no_prefix d e s h k =
    let not_x : (to_lower (hex_asc e) == b'x') ≡ false = ground arith in
    elim (Bool-cases (hex_asc d == b'0')) [ inl f ↦ rw (f, not_x) refl | inr f ↦ rw f refl ]

pub simple_strtoul-hex_byte_pack :
    (v : ℕ) (s : Text) → v < 256 → Stops16 s → simple_strtoul (hex_byte_pack v ++ s) 16 ≡ (v, s)
simple_strtoul-hex_byte_pack v s h stops = rw (hex_byte_pack-digits v h) (
    no_prefix (v / 16) (v % 16) s (omega arith) (omega arith)
    ∙ digit_step 0 (v / 16) (hex_asc (v % 16) ∷ s) (omega arith) (omega arith)
    ∙ digit_step (0 * 16 + v / 16) (v % 16) s (omega arith) (omega arith)
    ∙ stopped ((0 * 16 + v / 16) * 16 + v % 16) s stops
    ∙ ap (λ (n : ℕ). (n, s)) (omega arith))

abbrev pub mac_text : Buffer → Text
mac_text a = mac_bytes false a 6

abbrev pub pm : Text
pm = b'%' ∷ b'p' ∷ b'M' ∷ []

colon-IsText : (s : Text) (b : Bool) → IsText s → IsText ((if b then b':' ∷ [] else []) ++ s)
colon-IsText s true h = (omega arith, omega arith, h)
colon-IsText s false h = h

mac_bytes-IsText : (k : ℕ) (a : Buffer) → IsBytes a → IsText (mac_bytes false a k)
unfolding mac_bytes
mac_bytes-IsText zero a h = tt
mac_bytes-IsText (suc k) a h =
    let x = hex_asc-byte (a 0 / 16) (omega (arith, h 0)) in
    let y = hex_asc-byte (a 0 % 16) (omega arith) in
    rw (high_digit (a 0) (h 0), low_digit (a 0))
      (
        x.0,
        x.1,
        (
          y.0,
          y.1,
          colon-IsText (mac_bytes false (window a 1) k) (not (k == 0))
              (mac_bytes-IsText k (window a 1) (λ i. h (1 + i))),
        ),
      )

pub sprintf_local-mac :
    (place p : ℕ) (old a : Buffer)
    → place < 2 ^ 63
    → IsBytes a
    → sprintf_local 18 place old pm (address p a ∷ []) ≡ some (mac_text a)
unfolding print pointer mac_address_string mac_bytes
sprintf_local-mac place p old a low h =
    sprintf_local-put 18 place old pm (address p a ∷ [])
      (string (some (mac_text a)) (2 ^ 32 - 1) (2 ^ 32 - 1) 0 >> (λ limit o. o)) (mac_text a) refl
      (string-plain (mac_text a) (omega arith)) (mac_bytes-IsText 6 a h) (omega arith) (omega arith)
      low
