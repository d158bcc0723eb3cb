-- ===== src/Checksum/Compose.antt =====
-- The checksum of a range from the checksums of its two parts.
use emac_driver.Common.{
  ℕ, zero, suc, ◌+◌, ◌-◌, ◌*◌, ◌/◌, ◌%◌, ◌≤◌, ◌<◌, ◌^◌, ◌≡◌, refl, ap, sym, arith, Bool, true,
  false, not, if◌then◌else◌, bit_and, low_bits, not32, ◌==◌, ltb,
}
use emac_driver.Common.Bits.{bit_and-shifted, bit_and-ones, bit_or-add, bit_or_comm}
use emac_driver.Common.Buffer.{Buffer, IsBytes}
use emac_driver.Checksum.{swap_bytes, end_around, compute_ip_checksum, add_ip_checksums}
use emac_driver.Checksum.Sum.{weigh, parity, parity_even, sum_words-weigh}
use emac_driver.Checksum.Fold.{ones_sum, ones_sum-lt, compute_ip_checksum-sum_words}

weigh-add :
    (even : Bool) (b : Buffer) (p n m : ℕ)
    → weigh even b p (n + m) ≡ weigh even b p n + weigh (parity n even) b (p + n) m
unfolding weigh
weigh-add even b p zero m =
    let start : weigh even b (p + 0) m ≡ weigh even b p m =
      ap (λ (t : ℕ). weigh even b t m) (omega arith) in
    omega (arith, start, ap (weigh even b p) (none_before m))
  where
    none_before : (k : ℕ) → 0 + k ≡ k
    none_before k = omega arith
weigh-add even b p (suc n) m =
    let start : weigh (parity n (not even)) b (p + 1 + n) m
        ≡ weigh (parity n (not even)) b (p + suc n) m =
      ap (λ (t : ℕ). weigh (parity n (not even)) b t m) (omega arith) in
    let count : weigh even b p (suc n + m) ≡ weigh even b p (suc (n + m)) =
      ap (weigh even b p) {y = suc (n + m)} (omega arith) in
    omega (arith, start, count, weigh-add (not even) b (p + 1) n m)

-- Bytes on the wrong side of their words, in multiples of 65535.
carry : Bool → Buffer → ℕ → ℕ → ℕ
carry even b p zero = 0
carry even b p (suc n) = (if even then 0 else b p) + carry (not even) b (p + 1) n

weigh-swap :
    (even : Bool) (b : Buffer) (p n : ℕ)
    → 256 * weigh even b p n ≡ weigh (not even) b p n + 65535 * carry even b p n
unfolding weigh carry
weigh-swap even b p zero = refl
weigh-swap true b p (suc n) = omega (arith, weigh-swap false b (p + 1) n)
weigh-swap false b p (suc n) = omega (arith, weigh-swap true b (p + 1) n)

weigh-le_swap :
    (even : Bool) (b : Buffer) (p n : ℕ) → weigh even b p n ≤ 256 * weigh (not even) b p n
unfolding weigh
weigh-le_swap even b p zero = omega arith
weigh-le_swap true b p (suc n) = omega (arith, weigh-le_swap false b (p + 1) n)
weigh-le_swap false b p (suc n) = omega (arith, weigh-le_swap true b (p + 1) n)

swap_bytes-eq : (x : ℕ) → x < 2 ^ 16 → swap_bytes x ≡ x % 256 * 256 + x / 256
unfolding swap_bytes
swap_bytes-eq x h =
    let high : bit_and (x * 2 ^ 8) 0xff00 ≡ x % 256 * 256 = omega (
      arith,
      bit_and-shifted 8 (x * 2 ^ 8) 255,
      bit_and-ones 8 (x * 2 ^ 8 / 2 ^ 8) 255 refl,
      again,
    ) in
    omega (
      arith,
      high,
      bit_or_comm (x / 256 % 256) (bit_and (x * 2 ^ 8) 0xff00),
      bit_or-add 8 (bit_and (x * 2 ^ 8) 0xff00) (x / 256 % 256) (omega arith) (omega arith),
    )
  where
    again : x * 2 ^ 8 / 2 ^ 8 ≡ x
    again = omega arith

-- End-around addition of two one's complement sums.
ones_add :
    (s t : ℕ)
    → ones_sum (s + t) ≡ (
        if ltb 65535 (ones_sum s + ones_sum t)
        then ones_sum s + ones_sum t - 65535
        else ones_sum s + ones_sum t)
ones_add zero t = ground (arith, ones_sum-lt t, ap ones_sum (none_before t))
  where
    none_before : (k : ℕ) → 0 + k ≡ k
    none_before k = omega arith
ones_add (suc s) zero = ground (arith, ap ones_sum (none_after (suc s)))
  where
    none_after : (k : ℕ) → k + 0 ≡ k
    none_after k = omega arith
ones_add (suc s) (suc t) =
    let e : ones_sum (suc s + suc t) ≡ ones_sum (suc (s + suc t)) =
      ap ones_sum {y = suc (s + suc t)} (omega arith) in
    ground (arith, e)

-- Byte swapping a one's complement sum is multiplying it by 256.
ones_swap :
    (s t c : ℕ) → 256 * s ≡ t + 65535 * c → s ≤ 256 * t → swap_bytes (ones_sum s) ≡ ones_sum t
ones_swap zero zero c h k = swap_bytes-eq 0 (omega arith)
ones_swap zero (suc t) c h k = absurd (omega arith)
ones_swap (suc s) zero c h k = absurd (omega arith)
ones_swap (suc s) (suc t) c h k = omega (arith, swap_bytes-eq (s % 65535 + 1) (omega arith))

abbrev wrapped : ℕ → ℕ
wrapped x = if ltb 65535 x then x - 65535 else x

end_around-eq : (x z : ℕ) → x < 2 ^ 16 → z < 2 ^ 16 → end_around x z ≡ 65535 - wrapped (x + z)
unfolding end_around
end_around-eq x z hx hz = ground arith

complement_twice : (x : ℕ) → x < 2 ^ 16 → low_bits (not32 (65535 - x)) 16 ≡ x
complement_twice x h = omega arith

add_of_sums :
    (n x y : ℕ)
    → x < 2 ^ 16
    → y < 2 ^ 16
    → add_ip_checksums n (65535 - x) (65535 - y)
      ≡ end_around x (if low_bits n 1 == 0 then y else swap_bytes y)
unfolding add_ip_checksums
add_of_sums n x y hx hy = rw (complement_twice x hx, complement_twice y hy)

-- The weight of the second range, on whichever side of its words it starts.
second_sum :
    (b : Buffer) (p n m : ℕ)
    → (if low_bits n 1 == 0
        then ones_sum (weigh true b p m)
        else swap_bytes (ones_sum (weigh true b p m)))
      ≡ ones_sum (weigh (parity n true) b p m)
second_sum b p n m = rw (parity_even n) (by_parity (parity n true))
  where
    by_parity :
        (even : Bool)
        → (if even then ones_sum (weigh true b p m) else swap_bytes (ones_sum (weigh true b p m)))
          ≡ ones_sum (weigh even b p m)
    by_parity true = refl
    by_parity false =
        ones_swap (weigh true b p m) (weigh false b p m) (carry true b p m) (weigh-swap true b p m)
          (weigh-le_swap true b p m)

joined :
    (b : Buffer) (p n m : ℕ)
    → add_ip_checksums n
        (65535 - ones_sum (weigh true b p n))
        (65535 - ones_sum (weigh true b (p + n) m))
      ≡ 65535 - ones_sum (weigh true b p (n + m))
joined b p n m =
    let s = weigh true b p n in
    let t = weigh (parity n true) b (p + n) m in
    rw
      (add_of_sums n (ones_sum s) (ones_sum (weigh true b (p + n) m)) (ones_sum-lt _)
        (ones_sum-lt _))
      (rw (second_sum b (p + n) n m) (
        rw (weigh-add true b p n m, ones_add s t)
          (end_around-eq (ones_sum s) (ones_sum t) (ones_sum-lt s) (ones_sum-lt t))))

-- The checksum of two adjacent ranges, of at most 65536 bytes together, is what
-- `add_ip_checksums` makes of their checksums and of the length of the first, even or odd.
pub compute_ip_checksum-add :
    (b : Buffer) (p n m : ℕ)
    → IsBytes b
    → n + m ≤ 65536
    → compute_ip_checksum b p (n + m)
      ≡ add_ip_checksums n (compute_ip_checksum b p n) (compute_ip_checksum b (p + n) m)
compute_ip_checksum-add b p n m h k =
    rw
      (
        compute_ip_checksum-sum_words b p (n + m) h k,
        compute_ip_checksum-sum_words b p n h (omega arith),
        compute_ip_checksum-sum_words b (p + n) m h (omega arith),
        sum_words-weigh b p (n + m),
        sum_words-weigh b p n,
        sum_words-weigh b (p + n) m,
      )
      (sym (joined b p n m))
