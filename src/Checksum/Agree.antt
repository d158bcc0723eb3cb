-- ===== src/Checksum/Agree.antt =====
-- Checksums of two buffers that agree on the range.
use emac_driver.Common.{ℕ, zero, suc, ◌+◌, ◌≤◌, ◌<◌, ◌≡◌, refl, ap, arith}
use emac_driver.Common.Buffer.{Buffer, load16}
use emac_driver.Checksum.{sum_words, finish, compute_ip_checksum, ip_checksum_ok}

-- The sum depends on the bytes it is over, and on nothing else.
pub sum_words-agree :
    (b b' : Buffer) (p n sum : ℕ)
    → ((i : ℕ) → p ≤ i → i < p + n → b' i ≡ b i)
    → sum_words b' p n sum ≡ sum_words b p n sum
unfolding sum_words
sum_words-agree b b' p zero sum h = refl
sum_words-agree b b' p (suc zero) sum h = rw (h p (omega arith) (omega arith)) refl
sum_words-agree b b' p (suc (suc n)) sum h =
    rw (h p (omega arith) (omega arith), h (p + 1) (omega arith) (omega arith))
      (sum_words-agree b b' (p + 2) n (sum + load16 b p) (λ i l m. h i (omega arith) (omega arith)))

pub compute_ip_checksum-agree :
    (b b' : Buffer) (p n : ℕ)
    → ((i : ℕ) → p ≤ i → i < p + n → b' i ≡ b i)
    → compute_ip_checksum b' p n ≡ compute_ip_checksum b p n
unfolding compute_ip_checksum
compute_ip_checksum-agree b b' p n h = ap finish (sum_words-agree b b' p n 0 h)

pub ip_checksum_ok-agree :
    (b b' : Buffer) (p n : ℕ)
    → ((i : ℕ) → p ≤ i → i < p + n → b' i ≡ b i)
    → ip_checksum_ok b' p n ≡ ip_checksum_ok b p n
unfolding ip_checksum_ok
ip_checksum_ok-agree b b' p n h = rw (compute_ip_checksum-agree b b' p n h) refl
