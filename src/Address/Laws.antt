-- ===== src/Address/Laws.antt =====
-- Addresses that are read from their usual text.
use emac_driver.Common.{
  ℕ, suc, ◌+◌, ◌*◌, ◌%◌, ◌<◌, ◌^◌, ◌≡◌, refl, ap, ◌∙◌, arith, [], ◌∷◌, some, bit_or, low_bits,
  ◌<<<◌, u32, ne→==, le→ltb,
}
use emac_driver.Common.Bits.{bit_or-disjoint}
use emac_driver.Byteorder.{htonl}
use emac_driver.Byteorder.Laws.{swab32_bytes}
use emac_driver.Text.{Text}
use emac_driver.Printf.Decimal.{put_dec}
use emac_driver.Printf.Decimal.Parse.{written_out, simple_strtoul-put_dec}
use emac_driver.Address.{octets, stored, string_to_ip}

-- The text of an address, as `%d.%d.%d.%d` prints it.
abbrev pub dotted : ℕ → ℕ → ℕ → ℕ → Text
dotted a b c d = written_out (put_dec a) (
    b'.'
    ∷ written_out (put_dec b) (b'.' ∷ written_out (put_dec c) (b'.' ∷ written_out (put_dec d) [])))

shifted_in :
    (addr v : ℕ)
    → addr < 2 ^ 24
    → v < 256
    → bit_or (u32 (addr <<< 8)) (low_bits v 8) ≡ addr * 256 + v
shifted_in addr v h k =
    ap (λ (t : ℕ). bit_or t (v % 256)) {x = u32 (addr <<< 8)} {y = addr * 2 ^ 8} (omega arith)
    ∙ ap (λ (t : ℕ). bit_or (addr * 2 ^ 8) t) {x = v % 256} {y = v} (omega arith)
    ∙ bit_or-disjoint 8 addr v k
    ∙ omega arith

octets-dotted :
    (k addr v : ℕ) (s : Text)
    → addr < 2 ^ 24
    → v < 256
    → octets (suc (suc k)) addr (written_out (put_dec v) (b'.' ∷ s))
      ≡ octets (suc k) (addr * 256 + v) s
unfolding octets
octets-dotted k addr v s h l =
    rw
      (
        simple_strtoul-put_dec v (b'.' ∷ s) (omega arith) refl,
        le→ltb 255 v (omega arith),
        shifted_in addr v h l,
      )
      (rw (ne→== (suc k) 0 (λ e. omega (arith, e))) refl)

octets-last :
    (addr v : ℕ)
    → addr < 2 ^ 24
    → v < 256
    → octets 1 addr (written_out (put_dec v) []) ≡ some (addr * 256 + v)
unfolding octets
octets-last addr v h l =
    rw
      (
        simple_strtoul-put_dec v [] (omega arith) tt,
        le→ltb 255 v (omega arith),
        shifted_in addr v h l,
      )
      refl

-- `string_to_ip` reads the address with the four bytes that the text shows, the first one at the
-- lowest address in memory.
pub string_to_ip-dotted :
    (a b c d : ℕ)
    → a < 256
    → b < 256
    → c < 256
    → d < 256
    → string_to_ip (some (dotted a b c d)) ≡ a + 256 * b + 65536 * c + 16777216 * d
unfolding string_to_ip htonl
string_to_ip-dotted a b c d ha hb hc hd =
    let n2 = (0 * 256 + a) * 256 + b in
    let all : octets 4 0 (dotted a b c d) ≡ some ((n2 * 256 + c) * 256 + d) =
      octets-dotted 2 0 a _ (omega arith) ha
      ∙ octets-dotted 1 (0 * 256 + a) b _ (omega arith) hb
      ∙ octets-dotted 0 n2 c _ (omega arith) hc
      ∙ octets-last (n2 * 256 + c) d (omega arith) hd in
    ap stored all ∙ omega (arith, swab32_bytes ((n2 * 256 + c) * 256 + d))
