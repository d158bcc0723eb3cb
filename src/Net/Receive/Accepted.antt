-- ===== src/Net/Receive/Accepted.antt =====
-- What the tests on the IP header in `net_process_received_packet` of net/net.c let through, in the
-- bytes of the frame.
use emac_driver.Common.{
  ℕ, ◌+◌, ◌*◌, ◌/◌, ◌%◌, ◌^◌, ◌≤◌, ◌<◌, ◌≡◌, ◌⊎◌, refl, ap, sym, ◌∙◌, arith, true, false, Bool, not,
  zero, suc, subst, sext32, slt32, sub32,
}
use emac_driver.Common.Buffer.{Buffer, IsBytes, load16, load32, window}
use emac_driver.Byteorder.{ntohs}
use emac_driver.Checksum.{sum_words, ip_checksum_ok}
use emac_driver.Checksum.Sum.{weight, weigh, sum_words-weigh}
use emac_driver.Checksum.Fold.{ones_sum, ip_checksum_ok_iff}
use emac_driver.Net.{Net}
use emac_driver.Net.Receive.{ip_accepts}
use emac_driver.Net.Receive.Carried.{word, ntohs-window}

-- The IP header at `hdr` of a frame of `len` bytes is whole, fits with its packet into the frame, has
-- at most five words, a checksum that is accepted, and the station as its destination.
pub record IsAccepted (et : Buffer) (hdr len : ℕ) (n : Net) : Type 0 where
  pub whole : hdr + 28 ≤ len
  pub fits : hdr + word et (hdr + 2) ≤ len
  pub version : et hdr / 16 ≡ 4
  pub plain : et hdr % 16 ≤ 5
  pub checksum :
      (ones_sum (weigh true et hdr 20) ≡ 65535) ⊎ (ones_sum (weigh true et hdr 20) ≡ 65534)
  pub destination :
      (n.net_ip ≡ 0)
      ⊎ ((load32 (window et hdr) 16 ≡ n.net_ip) ⊎ (load32 (window et hdr) 16 ≡ 0xffffffff))

accepted_tests :
    (n : Net) (ip : Buffer) (len : ℕ)
    → ip_accepts n ip len ≡ true
    → (28 ≤ sext32 len)
      × (slt32 len (ntohs (load16 ip 2)) ≡ false)
      × (ip 0 / 16 % 16 ≡ 4)
      × (ip 0 % 16 ≤ 5)
      × (ip_checksum_ok ip 0 20 ≡ true)
      × ((n.net_ip ≡ 0) ⊎ ((load32 ip 16 ≡ n.net_ip) ⊎ (load32 ip 16 ≡ 0xffffffff)))
unfolding ip_accepts
accepted_tests n ip len h = ground arith

weigh-window :
    (even : Bool) (b : Buffer) (p q n : ℕ) → weigh even (window b p) q n ≡ weigh even b (p + q) n
unfolding weigh
weigh-window even b p q zero = refl
weigh-window even b p q (suc n) =
    let next : weigh (not even) b (p + (q + 1)) n ≡ weigh (not even) b (p + q + 1) n =
      ap (λ (t : ℕ). weigh (not even) b t n) (omega arith) in
    omega (
      arith,
      ap (λ (t : ℕ). weight even * b (p + q) + t) (weigh-window (not even) b p (q + 1) n ∙ next),
    )

checked :
    (et : Buffer) (hdr : ℕ)
    → IsBytes et
    → ip_checksum_ok (window et hdr) 0 20 ≡ true
    → (ones_sum (weigh true et hdr 20) ≡ 65535) ⊎ (ones_sum (weigh true et hdr 20) ≡ 65534)
checked et hdr h ok =
    let total : sum_words (window et hdr) 0 20 0 ≡ weigh true et hdr 20 =
      sum_words-weigh (window et hdr) 0 20
      ∙ weigh-window true et hdr 0 20
      ∙ ap (λ (t : ℕ). weigh true et t 20) {x = hdr + 0} {y = hdr} (omega arith) in
    subst (λ (t : ℕ). (ones_sum t ≡ 65535) ⊎ (ones_sum t ≡ 65534)) total
      ((ip_checksum_ok_iff (window et hdr) 0 20 (λ i. h (hdr + i)) (omega arith)).0 ok)

room :
    (hdr len total : ℕ)
    → hdr ≤ 22
    → len < 2 ^ 31
    → total < 2 ^ 16
    → 28 ≤ sext32 (sub32 len hdr)
    → slt32 (sub32 len hdr) total ≡ false
    → (hdr + 28 ≤ len) × (hdr + total ≤ len)
room hdr len total low small short long fits = ground arith

-- `rest` is what `len` leaves behind the header, as an `int`.
pub ip_accepts-IsAccepted :
    (n : Net) (et : Buffer) (hdr len : ℕ)
    → IsBytes et
    → len < 2 ^ 31
    → hdr ≤ 22
    → ip_accepts n (window et hdr) (sub32 len hdr) ≡ true
    → IsAccepted et hdr len n
ip_accepts-IsAccepted n et hdr len h small low ok =
    let (long, total, version, plain, sum, to) =
      accepted_tests n (window et hdr) (sub32 len hdr) ok in
    let field = ntohs-window et hdr 2 h in
    let first : et (hdr + 0) ≡ et hdr = ap et {x = hdr + 0} {y = hdr} (omega arith) in
    let fitting =
      room hdr len (word et (hdr + 2)) low small (omega (arith, h (hdr + 2), h (hdr + 2 + 1))) long
        (sym (ap (slt32 (sub32 len hdr)) field) ∙ total) in
    record {
      whole = fitting.0;
      fits = fitting.1;
      version = omega (arith, h hdr);
      plain = omega arith;
      checksum = checked et hdr h sum;
      destination = to;
    }
