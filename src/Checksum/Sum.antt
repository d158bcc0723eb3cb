-- ===== src/Checksum/Sum.antt =====
-- The loop's sum as a sum of weighted bytes: 1 for the low byte of a word, 256 for the high one.
use emac_driver.Common.{
  ℕ, zero, suc, ◌+◌, ◌*◌, ◌≤◌, ◌<◌, ◌^◌, ◌≡◌, refl, ap, arith, Bool, true, false, not,
  if◌then◌else◌, ◌==◌, low_bits,
}
use emac_driver.Common.Buffer.{Buffer, IsBytes}
use emac_driver.Checksum.{sum_words}

abbrev pub weight : Bool → ℕ
weight even = if even then 1 else 256

unfoldable pub weigh : Bool → Buffer → ℕ → ℕ → ℕ
weigh even b p zero = 0
weigh even b p (suc n) = weight even * b p + weigh (not even) b (p + 1) n

sum_words_from : (b : Buffer) (p n sum : ℕ) → sum_words b p n sum ≡ sum + weigh true b p n
unfolding sum_words weigh
sum_words_from b p zero sum = omega arith
sum_words_from b p (suc zero) sum = omega arith
sum_words_from b p (suc (suc n)) sum =
    let next : weigh true b (p + 2) n ≡ weigh true b (p + 1 + 1) n =
      ap (λ (t : ℕ). weigh true b t n) (omega arith) in
    omega (arith, sum_words_from b (p + 2) n (sum + (b p + 256 * b (p + 1))), next)

pub sum_words-weigh : (b : Buffer) (p n : ℕ) → sum_words b p n 0 ≡ weigh true b p n
sum_words-weigh b p n = omega (arith, sum_words_from b p n 0)

pub weigh-le :
    (even : Bool) (b : Buffer) (p n : ℕ)
    → IsBytes b
    → 2 * weigh even b p n ≤ 65535 * n + (if even then 0 else 65025)
unfolding weigh
weigh-le true b p zero h = omega arith
weigh-le false b p zero h = omega arith
weigh-le true b p (suc n) h = omega (arith, h p, weigh-le false b (p + 1) n h)
weigh-le false b p (suc n) h = omega (arith, h p, weigh-le true b (p + 1) n h)

-- For at most 65536 bytes the `int` that the loop adds up in does not overflow.
pub sum_fits : (b : Buffer) (p n : ℕ) → IsBytes b → n ≤ 65536 → sum_words b p n 0 < 2 ^ 31
sum_fits b p n h k = omega (arith, sum_words-weigh b p n, weigh-le true b p n h)

-- Whether offset `n` from an `even` one is even.
abbrev pub parity : ℕ → Bool → Bool
parity zero even = even
parity (suc n) even = parity n (not even)

pub parity_flip : (n : ℕ) (even : Bool) → parity n (not even) ≡ not (parity n even)
parity_flip zero even = refl
parity_flip (suc n) even = parity_flip n (not even)

-- The parity of an offset is its lowest bit.
pub parity_even : (n : ℕ) → (low_bits n 1 == 0) ≡ parity n true
parity_even zero = refl
parity_even (suc n) = ground (arith, parity_even n, parity_flip n true)
