-- ===== src/Checksum/Fill.antt =====
-- Filling in the checksum field of a header.
use emac_driver.Common.{
  ℕ, zero, suc, ◌+◌, ◌-◌, ◌*◌, ◌/◌, ◌%◌, ◌≤◌, ◌<◌, ◌^◌, ◌≡◌, refl, ap, ◌∙◌, arith, Bool, true,
  false, not, inl,
}
use emac_driver.Common.Buffer.{Buffer, IsBytes, store8, store16, store16-IsBytes}
use emac_driver.Checksum.{sum_words, compute_ip_checksum, ip_checksum_ok}
use emac_driver.Checksum.Sum.{weight, weigh, parity, parity_even, parity_flip, sum_words-weigh}
use emac_driver.Checksum.Fold.{
  ones_sum, compute_ip_checksum-sum_words, compute_ip_checksum-lt, ip_checksum_ok_iff,
}

-- A write before the range changes nothing of its sum.
weigh-store8_before :
    (even : Bool) (b : Buffer) (q v p n : ℕ)
    → q < p
    → weigh even (store8 b q v) p n ≡ weigh even b p n
unfolding weigh
weigh-store8_before even b q v p zero h = refl
weigh-store8_before even b q v p (suc n) h =
    ground (arith, weigh-store8_before (not even) b q v (p + 1) n)

-- A byte that was 0 adds its new value, weighted.
weigh-store8 :
    (k : ℕ) (even : Bool) (b : Buffer) (q v p n : ℕ)
    → q ≡ p + k
    → k < n
    → b q ≡ 0
    → weigh even (store8 b q v) p n ≡ weigh even b p n + weight (parity k even) * (v % 256)
unfolding weigh
weigh-store8 k even b q v p zero e h z = absurd (omega arith)
weigh-store8 zero even b q v p (suc n) e h z = at_start even
  where
    at_start :
        (even : Bool)
        → weigh even (store8 b q v) p (suc n) ≡ weigh even b p (suc n) + weight even * (v % 256)
    at_start true = ground (arith, weigh-store8_before false b q v (p + 1) n)
    at_start false = ground (arith, weigh-store8_before true b q v (p + 1) n)
weigh-store8 (suc k) even b q v p (suc n) e h z =
    ground (arith, weigh-store8 k (not even) b q v (p + 1) n)

-- A 16-bit field that was 0 adds its new value.
sum_words-store16 :
    (b : Buffer) (p n k v : ℕ)
    → k % 2 ≡ 0
    → k + 1 < n
    → v < 2 ^ 16
    → b (p + k) ≡ 0
    → b (p + k + 1) ≡ 0
    → sum_words (store16 b (p + k) v) p n 0 ≡ sum_words b p n 0 + v
sum_words-store16 b p n k v even inside fits low high =
    let b' = store8 b (p + k) v in
    let still : b' (p + k + 1) ≡ 0 = ground (arith, high) in
    let first = weigh-store8 k true b (p + k) v p n refl (omega arith) low in
    let second =
      weigh-store8 (suc k) true b' (p + k + 1) (v / 256) p n (omega arith) (omega arith) still in
    rw (sum_words-weigh (store16 b (p + k) v) p n, sum_words-weigh b p n)
      (ground (arith, first, second, parity_even k, parity_flip k true))

filled_sum : (s : ℕ) → ones_sum (s + (65535 - ones_sum s)) ≡ 65535
filled_sum zero = refl
filled_sum (suc s) =
    let e : ones_sum (suc s + (65535 - (s % 65535 + 1)))
        ≡ ones_sum (suc (s + (65535 - (s % 65535 + 1)))) =
      ap ones_sum {y = suc (s + (65535 - (s % 65535 + 1)))} (omega arith) in
    omega (arith, e)

-- A header of at most 65536 bytes with a two-byte checksum field that is 0 and stands at an even
-- offset in it passes `ip_checksum_ok` once the field is filled with what `compute_ip_checksum`
-- returns for the header.
pub compute_ip_checksum-fill :
    (b : Buffer) (p n k : ℕ)
    → IsBytes b
    → n ≤ 65536
    → k % 2 ≡ 0
    → k + 1 < n
    → b (p + k) ≡ 0
    → b (p + k + 1) ≡ 0
    → ip_checksum_ok (store16 b (p + k) (compute_ip_checksum b p n)) p n ≡ true
compute_ip_checksum-fill b p n k h fits even inside low high =
    let c = compute_ip_checksum b p n in
    let small : c < 2 ^ 16 = compute_ip_checksum-lt b p n h fits in
    let total = sum_words-store16 b p n k c even inside small low high in
    (ip_checksum_ok_iff (store16 b (p + k) c) p n (store16-IsBytes (p + k) c h) fits).1 (
      inl (
        ap ones_sum (
          total
          ∙ ap (λ (t : ℕ). sum_words b p n 0 + t) (compute_ip_checksum-sum_words b p n h fits))
        ∙ filled_sum (sum_words b p n 0)))
