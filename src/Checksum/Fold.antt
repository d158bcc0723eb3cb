-- ===== src/Checksum/Fold.antt =====
-- The folds as arithmetic: the one's complement sum, which is the remainder by 65535 with 65535
-- in place of 0 for a sum that is not 0.
use emac_driver.Common.{
  ℕ, zero, suc, ◌+◌, ◌-◌, ◌*◌, ◌/◌, ◌%◌, ◌≤◌, ◌<◌, ◌^◌, ◌≡◌, refl, ap, ◌∙◌, arith, true, ◌↔◌, ◌⊎◌,
  bit_and, ==→eq, eq→==,
}
use emac_driver.Common.Bits.{bit_and-shifted, bit_and-ones}
use emac_driver.Common.Buffer.{Buffer, IsBytes}
use emac_driver.Checksum.{sum_words, finish, compute_ip_checksum, ip_checksum_ok}
use emac_driver.Checksum.Sum.{weigh, sum_words-weigh, sum_fits}

abbrev pub ones_sum : ℕ → ℕ
ones_sum zero = 0
ones_sum (suc s) = s % 65535 + 1

pub ones_sum-lt : (s : ℕ) → ones_sum s < 2 ^ 16
ones_sum-lt zero = omega arith
ones_sum-lt (suc s) = omega arith

pub finish-eq : (s : ℕ) → s < 2 ^ 31 → finish s ≡ 65535 - ones_sum s
unfolding finish
finish-eq zero h = refl
finish-eq (suc s) h = omega arith

-- For at most 65536 bytes, `compute_ip_checksum` is the complement of the one's complement sum of the
-- bytes, each with the weight 1 at an even offset and 256 at an odd one, an odd byte at the end
-- included.
pub compute_ip_checksum-ones_sum :
    (b : Buffer) (p n : ℕ)
    → IsBytes b
    → n ≤ 65536
    → compute_ip_checksum b p n ≡ 65535 - ones_sum (weigh true b p n)
unfolding compute_ip_checksum
compute_ip_checksum-ones_sum b p n h k =
    finish-eq (sum_words b p n 0) (sum_fits b p n h k)
    ∙ ap (λ (s : ℕ). 65535 - ones_sum s) (sum_words-weigh b p n)

pub compute_ip_checksum-sum_words :
    (b : Buffer) (p n : ℕ)
    → IsBytes b
    → n ≤ 65536
    → compute_ip_checksum b p n ≡ 65535 - ones_sum (sum_words b p n 0)
compute_ip_checksum-sum_words b p n h k =
    rw (sum_words-weigh b p n) (compute_ip_checksum-ones_sum b p n h k)

pub compute_ip_checksum-lt :
    (b : Buffer) (p n : ℕ) → IsBytes b → n ≤ 65536 → compute_ip_checksum b p n < 2 ^ 16
compute_ip_checksum-lt b p n h k = omega (arith, compute_ip_checksum-sum_words b p n h k)

mask_zero_iff : (c : ℕ) → c < 2 ^ 16 → (bit_and c 0xfffe ≡ 0) ↔ (c ≤ 1)
mask_zero_iff c h = (λ e. omega (arith, high), λ l. omega (arith, high))
  where
    high : bit_and c 0xfffe ≡ c / 2 % 32768 * 2
    high = omega (arith, bit_and-shifted 1 c 32767, bit_and-ones 15 (c / 2) 32767 refl)

-- `ip_checksum_ok` accepts a range of at most 65536 bytes exactly when the one's complement sum of
-- its words is 65535 or 65534; only the first is what a correct checksum gives.
pub ip_checksum_ok_iff :
    (b : Buffer) (p n : ℕ)
    → IsBytes b
    → n ≤ 65536
    → (ip_checksum_ok b p n ≡ true)
      ↔ ((ones_sum (sum_words b p n 0) ≡ 65535) ⊎ (ones_sum (sum_words b p n 0) ≡ 65534))
unfolding ip_checksum_ok
ip_checksum_ok_iff b p n h k = (
  λ e. accepted ((mask_zero_iff _ (compute_ip_checksum-lt b p n h k)).0 (==→eq _ 0 e)),
  λ s. eq→== _ 0 ((mask_zero_iff _ (compute_ip_checksum-lt b p n h k)).1 (small s)),
)
  where
    s : ℕ
    s = ones_sum (sum_words b p n 0)

    accepted :
        compute_ip_checksum b p n ≤ 1
        → (ones_sum (sum_words b p n 0) ≡ 65535) ⊎ (ones_sum (sum_words b p n 0) ≡ 65534)
    accepted l =
        grind (arith, compute_ip_checksum-sum_words b p n h k, ones_sum-lt (sum_words b p n 0))

    small :
        (ones_sum (sum_words b p n 0) ≡ 65535) ⊎ (ones_sum (sum_words b p n 0) ≡ 65534)
        → compute_ip_checksum b p n ≤ 1
    small e = ground (arith, compute_ip_checksum-sum_words b p n h k)
