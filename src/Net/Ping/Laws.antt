-- ===== src/Net/Ping/Laws.antt =====
-- What stands in the packets of net/ping.c.
use emac_driver.Common.{
  ℕ, ◌+◌, ◌-◌, ◌≤◌, ◌<◌, ◌^◌, ◌≡◌, refl, ap, ◌∙◌, arith, true, sub32, u16, u32,
}
use emac_driver.Common.Buffer.{
  Buffer, IsBytes, load16, store8, store16, store32, copy, store8-IsBytes, store16-IsBytes,
  store32-IsBytes, copy-IsBytes,
}
use emac_driver.Byteorder.{htons, ntohs}
use emac_driver.Byteorder.Laws.{stored_htons}
use emac_driver.Checksum.{compute_ip_checksum, ip_checksum_ok}
use emac_driver.Checksum.Agree.{ip_checksum_ok-agree}
use emac_driver.Checksum.Fill.{compute_ip_checksum-fill}
use emac_driver.Net.{Net}
use emac_driver.Net.Ip.{ip_header, net_set_ip_header, finish_ip_header, ip_hdr_size, ipproto_icmp}
use emac_driver.Net.Ip.Laws.{
  IsIpHeader, IsIpHeader-agree, ip_header-IsBytes, finish_ip_header-IsIpHeader,
  finish_ip_header-IsBytes,
}
use emac_driver.Net.Ping.{
  icmp_echo_reply, icmp_echo_request, ip_icmp_hdr_size, echo_header, set_icmp_header, echo_answer,
}

-- The packet of an echo request or reply: its headers, and the checksum over the ICMP part.
pub record IsEcho (b : Buffer) (len kind src dest : ℕ) : Type 0 where
  pub ip : IsIpHeader b len ipproto_icmp src dest
  pub type : b 20 ≡ kind
  pub checksum : ip_checksum_ok b 20 (len - ip_hdr_size) ≡ true

module _ (n : Net) (ip : Buffer) (len src : ℕ) where
  cleared : Buffer
  cleared =
      store32 (copy (store16 (store16 ip 10 0) 6 0) 16 (store16 (store16 ip 10 0) 6 0) 12 4) 12
        n.net_ip

  cleared-IsBytes : IsBytes ip → IsBytes cleared
  unfolding cleared
  cleared-IsBytes h =
      let h' = store16-IsBytes 6 0 (store16-IsBytes 10 0 h) in
      store32-IsBytes 12 n.net_ip (copy-IsBytes 16 12 4 h' h')

  filled : Buffer
  unfolding cleared
  filled = store16 cleared 10 (compute_ip_checksum cleared 0 ip_hdr_size)

  emptied : Buffer
  unfolding filled
  emptied = store16 (store8 filled 20 icmp_echo_reply) 22 0

  emptied-IsBytes : IsBytes ip → IsBytes emptied
  unfolding emptied filled
  emptied-IsBytes h = store16-IsBytes 22 0 (
      store8-IsBytes 20 icmp_echo_reply
        (store16-IsBytes 10 (compute_ip_checksum cleared 0 ip_hdr_size) (cleared-IsBytes h)))

  -- The answer to a packet with an IPv4 header for ICMP, whose length is that in the header and at
  -- least that of both headers, is an echo reply of the same length, from `net_ip` to the sender of the
  -- packet, with checksums that `ip_checksum_ok` accepts, and with all bytes from the identifier on as
  -- they were.
  pub echo_answer-IsEcho :
      IsBytes ip
      → IsIpHeader ip len ipproto_icmp src n.net_ip
      → ip_icmp_hdr_size ≤ len
      → len < 2 ^ 16
      → n.net_ip < 2 ^ 32
      → IsEcho (echo_answer n ip len) len icmp_echo_reply n.net_ip src
        × ((i : ℕ) → 24 ≤ i → echo_answer n ip len i ≡ ip i)
  unfolding echo_answer emptied filled cleared ntohs
  echo_answer-IsEcho h e l k j = (
    record {
      ip = record {
        version = e.version;
        total_length = e.total_length;
        unfragmented = refl;
        protocol = e.protocol;
        source = omega arith;
        destination = e.source;
        checksum =
            ip_checksum_ok-agree filled (echo_answer n ip len) 0 20 (λ i a b. ground arith)
            ∙ compute_ip_checksum-fill cleared 0 20 10 (cleared-IsBytes h) (omega arith) refl
                (omega arith) refl refl;
      };
      type = refl;
      checksum = rw answered (
          compute_ip_checksum-fill emptied 20 (len - 20) 2 (emptied-IsBytes h) (omega arith) refl
            (omega arith) refl refl);
    },
    λ i a. ground arith,
  )
    where
      answered :
          echo_answer n ip len ≡ store16 emptied 22 (compute_ip_checksum emptied 20 (len - 20))
      answered =
          ap (λ (t : ℕ). store16 emptied 22 (compute_ip_checksum emptied 20 t)) {x = sub32 len 20}
            (omega arith)

echo_header-IsBytes_before :
    (seq : ℕ) (b : Buffer)
    → IsBytes b
    → IsBytes (
        store16
          (store16 (store16 (store8 (store8 b 20 icmp_echo_request) 21 0) 22 0) 24 0)
          26
          (htons seq))
echo_header-IsBytes_before seq b h = store16-IsBytes 26 (htons seq) (
    store16-IsBytes 24 0
      (store16-IsBytes 22 0 (store8-IsBytes 21 0 (store8-IsBytes 20 icmp_echo_request h))))

-- `set_icmp_header` writes an echo request of 28 bytes from `net_ip` to the destination, with both
-- checksums right, the identifier 0 and the current sequence number, and counts that number and the
-- number of the next packet up.
pub set_icmp_header-IsEcho :
    (pkt : Buffer) (dest : ℕ) (n : Net)
    → IsBytes pkt
    → dest < 2 ^ 32
    → n.net_ip < 2 ^ 32
    → n.ping_seq_number < 2 ^ 16
    → let (b, n') = set_icmp_header pkt dest n in
      IsEcho b ip_icmp_hdr_size icmp_echo_request n.net_ip dest
      × (load16 b 24 ≡ 0)
      × (ntohs (load16 b 26) ≡ n.ping_seq_number)
      × (n' ≡ record n {
        net_ip_id = u32 (n.net_ip_id + 1);
        ping_seq_number = u16 (n.ping_seq_number + 1);
      })
unfolding set_icmp_header net_set_ip_header echo_header
set_icmp_header-IsEcho pkt dest n h hd hs hq = (
  record {
    ip = IsIpHeader-agree inner (set_icmp_header pkt dest n).0 (λ i l. ground arith) header;
    type = refl;
    checksum =
        compute_ip_checksum-fill _ 20 8 2
          (echo_header-IsBytes_before n.ping_seq_number inner inner-IsBytes) (omega arith) refl
          (omega arith) refl refl;
  },
  refl,
  stored_htons n.ping_seq_number hq,
  refl,
)
  where
    inner : Buffer
    inner = finish_ip_header (ip_header n.net_ip_id pkt dest n.net_ip) ip_icmp_hdr_size ipproto_icmp

    header : IsIpHeader inner ip_icmp_hdr_size ipproto_icmp n.net_ip dest
    header =
        finish_ip_header-IsIpHeader n.net_ip_id pkt dest n.net_ip ip_icmp_hdr_size ipproto_icmp h hd
          hs (omega arith) (omega arith)

    inner-IsBytes : IsBytes inner
    inner-IsBytes =
        finish_ip_header-IsBytes (ip_header n.net_ip_id pkt dest n.net_ip) ip_icmp_hdr_size
          ipproto_icmp (ip_header-IsBytes n.net_ip_id pkt dest n.net_ip h)
