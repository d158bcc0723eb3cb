-- ===== src/Address/Print.antt =====
-- Addresses that are printed and read back.
use mathlib.Core.List.{append-nil}
use emac_driver.Common.{
  ℕ, ◌+◌, ◌-◌, ◌*◌, ◌/◌, ◌%◌, ◌^◌, ◌<◌, ◌≡◌, refl, sym, ap, ◌∙◌, arith, List, [], ◌∷◌, ◌++◌, Option,
  some, true, length, length-append, low_bits, ◌>>>◌,
}
use emac_driver.Common.Buffer.{Buffer}
use emac_driver.Byteorder.{ntohl}
use emac_driver.Byteorder.Laws.{swab32_bytes}
use emac_driver.Text.{Text, IsText}
use emac_driver.Printf.Decimal.{put_dec}
use emac_driver.Printf.Output.{Writer, Out, put, ◌>>◌, signed}
use emac_driver.Printf.Number.{number}
use emac_driver.Printf.Format.{Arg, int, ◌>>=◌}
use emac_driver.Printf.Convert.{print, sprintf, integer_value}
use emac_driver.Printf.Plain.{string_in, sprintf-put}
use emac_driver.Printf.Texts.{
  decimal, decimal-put, decimal-IsText, seq-put, append-IsText, length-decimal, written_out-append,
}
use emac_driver.Address.{string_to_ip, ip_to_string, dotted_format}
use emac_driver.Address.Laws.{dotted, string_to_ip-dotted}

abbrev dot_text : Text
dot_text = b'.' ∷ []

abbrev digits_writer : ℕ → Writer
digits_writer n = number (integer_value (2 ^ 32 - 1) true n) 10 (2 ^ 32 - 1) (2 ^ 32 - 1) signed

abbrev joined : ℕ → ℕ → ℕ → ℕ → Text
joined a b c d =
    decimal a ++ (dot_text ++ (decimal b ++ (dot_text ++ (decimal c ++ (dot_text ++ decimal d)))))

joined-dotted : (a b c d : ℕ) → joined a b c d ≡ dotted a b c d
joined-dotted a b c d = sym (
    written_out-append (put_dec a) _
    ∙ ap (λ (t : Text). decimal a ++ (b'.' ∷ t))
        (written_out-append (put_dec b) _
          ∙ ap (λ (t : Text). decimal b ++ (b'.' ∷ t)) (written_out-append (put_dec c) _)))

module _ (a b c d : ℕ) (ha : a < 256) (hb : b < 256) (hc : c < 256) (hd : d < 256) where
  joined-IsText : IsText (joined a b c d)
  joined-IsText = append-IsText (decimal a) _ (decimal-IsText a (omega arith)) (
      append-IsText dot_text (decimal b ++ _) (omega arith) (
        append-IsText (decimal b) _ (decimal-IsText b (omega arith)) (
          append-IsText dot_text (decimal c ++ _) (omega arith) (
            append-IsText (decimal c) _ (decimal-IsText c (omega arith)) (
              append-IsText dot_text (decimal d) (omega arith) (decimal-IsText d (omega arith)))))))

  length-joined : length (joined a b c d) < 16
  length-joined =
      let short =
        λ (n : ℕ) (h : n < 256). length-decimal 2 n (omega (arith, h)) (omega (arith, h)) in
      omega (
        arith,
        length-append {0} (decimal a)
            (dot_text ++ (decimal b ++ (dot_text ++ (decimal c ++ (dot_text ++ decimal d))))),
        length-append {0} (decimal b) (dot_text ++ (decimal c ++ (dot_text ++ decimal d))),
        length-append {0} (decimal c) (dot_text ++ decimal d),
        short a ha,
        short b hb,
        short c hc,
        short d hd,
      )

  abbrev quads : List Arg
  quads = int a ∷ int b ∷ int c ∷ int d ∷ []

  abbrev quads_writer : Writer
  quads_writer =
      digits_writer a
      >> (put dot_text
          >> (digits_writer b
              >> (put dot_text
                  >> (digits_writer c >> (put dot_text >> (digits_writer d >> put []))))))

  quads-put : quads_writer ≡ put (joined a b c d)
  quads-put = seq-put (decimal a) _ (decimal-put a (omega arith)) (
      seq-put dot_text _ refl (
        seq-put (decimal b) _ (decimal-put b (omega arith)) (
          seq-put dot_text _ refl (
            seq-put (decimal c) _ (decimal-put c (omega arith)) (
              seq-put dot_text _ refl (
                seq-put (decimal d) [] (decimal-put d (omega arith)) refl
                ∙ ap put (append-nil (decimal d))))))))

  printed_quads :
      (place : ℕ) (old : Buffer)
      → place < 2 ^ 63
      → (o : Out) × (sprintf place dotted_format quads old ≡ some (length (joined a b c d), o))
        × (string_in 16 o.memory ≡ joined a b c d)
  unfolding print put
  printed_quads place old low =
      sprintf-put 16 place old dotted_format quads quads_writer (joined a b c d) refl quads-put
        joined-IsText length-joined (omega arith) low

ntohl_bytes :
    (x : ℕ)
    → ntohl x
      ≡ x % 256 * 16777216 + x / 256 % 256 * 65536 + x / 65536 % 256 * 256 + x / 16777216 % 256
unfolding ntohl
ntohl_bytes x = swab32_bytes x

-- ip_to_string, into 16 bytes, returns for every address, and string_to_ip reads the address back.
pub string_to_ip-ip_to_string :
    (place x : ℕ) (s : Buffer)
    → place < 2 ^ 63
    → x < 2 ^ 32
    → (s' : Buffer) × (ip_to_string place x s ≡ some s')
      × (string_to_ip (some (string_in 16 s')) ≡ x)
unfolding ip_to_string
string_to_ip-ip_to_string place x s low h =
    let a = ntohl x in
    let q0 = low_bits (a >>> 24) 8 in
    let q1 = low_bits (a >>> 16) 8 in
    let q2 = low_bits (a >>> 8) 8 in
    let q3 = low_bits a 8 in
    let p =
      printed_quads q0 q1 q2 q3 (omega arith) (omega arith) (omega arith) (omega arith) place s
        low in
    (
      p.0.memory,
      ap (λ (m : Option (ℕ × Out)). m >>= λ r. some r.1.memory) p.1,
      ap (λ (t : Text). string_to_ip (some t)) (p.2 ∙ joined-dotted q0 q1 q2 q3)
          ∙ string_to_ip-dotted q0 q1 q2 q3 (omega arith) (omega arith) (omega arith) (omega arith)
          ∙ omega (arith, ntohl_bytes x),
    )
