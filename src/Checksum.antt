-- ===== src/Checksum.antt =====
-- net/checksum.c. `vptr` is a buffer with the offset that the pointer has in it. The `int sum` of
-- the loop is kept exact: `Checksum.Sum.sum_fits` shows that it does not overflow.
pub mod Sum
pub mod Fold
pub mod Compose
pub mod Fill
pub mod Agree
use emac_driver.Common.{
  ℕ, zero, suc, ◌+◌, ◌-◌, ◌^◌, Bool, not, ltb, ◌==◌, if◌then◌else◌, bit_and, bit_or, ◌<<<◌, ◌>>>◌,
  low_bits, not32, u32, sub64,
}
use emac_driver.Common.Buffer.{Buffer, load16}

-- The `while` loop and the odd byte after it.
pub sum_words : Buffer → ℕ → ℕ → ℕ → ℕ
sum_words b p zero sum = sum
sum_words b p (suc zero) sum = sum + b p
sum_words b p (suc (suc nbytes)) sum = sum_words b (p + 2) nbytes (sum + load16 b p)

-- The two folds and the complement.
pub finish : ℕ → ℕ
finish sum =
    let once = (sum >>> 16) + low_bits sum 16 in
    let twice = once + (once >>> 16) in low_bits (not32 twice) 16

unfoldable pub compute_ip_checksum : Buffer → ℕ → ℕ → ℕ
unfolding sum_words finish
compute_ip_checksum b p nbytes = finish (sum_words b p nbytes 0)

swap_bytes : ℕ → ℕ
swap_bytes new = bit_or (low_bits (new >>> 8) 8) (bit_and (new <<< 8) 0xff00)

-- The addition, the carry put back, and the complement of the `unsigned long`.
end_around : ℕ → ℕ → ℕ
end_around sum new =
    let checksum = u32 (sum + new) in
    let checksum' = if ltb 0xffff checksum then sub64 checksum 0xffff else checksum in
    low_bits (2 ^ 64 - 1 - checksum') 16

unfoldable pub add_ip_checksums : ℕ → ℕ → ℕ → ℕ
unfolding swap_bytes end_around
add_ip_checksums offset sum new =
    let sum' = low_bits (not32 sum) 16 in
    let new' = low_bits (not32 new) 16 in
    end_around sum' (if low_bits offset 1 == 0 then new' else swap_bytes new')

unfoldable pub ip_checksum_ok : Buffer → ℕ → ℕ → Bool
unfolding compute_ip_checksum
ip_checksum_ok b p nbytes = bit_and (compute_ip_checksum b p nbytes) 0xfffe == 0
