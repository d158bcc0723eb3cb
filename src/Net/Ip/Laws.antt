-- ===== src/Net/Ip/Laws.antt =====
-- What a receiver reads from the headers.
use emac_driver.Common.{
  ℕ, ◌+◌, ◌≤◌, ◌<◌, ◌^◌, ◌≡◌, refl, ap, ◌∙◌, arith, true, ◌==◌, if◌then◌else◌, low_bits, u32,
}
use emac_driver.Common.Buffer.{
  Buffer, IsBytes, load16, load32, store8, store16, store8-IsBytes, store16-IsBytes,
  store32-IsBytes,
}
use emac_driver.Byteorder.{htons, ntohs}
use emac_driver.Byteorder.Laws.{stored_htons}
use emac_driver.Checksum.{compute_ip_checksum, ip_checksum_ok}
use emac_driver.Checksum.Agree.{ip_checksum_ok-agree}
use emac_driver.Checksum.Fill.{compute_ip_checksum-fill}
use emac_driver.Net.{Net}
use emac_driver.Net.Ip.{
  ip_header, finish_ip_header, net_set_udp_header, ip_hdr_size, ip_udp_hdr_size, udp_hdr_size,
  ipproto_udp,
}

-- What stands in the memory behind `ip` as an IPv4 header without options, from `src` to `dest`.
pub record IsIpHeader (b : Buffer) (ip_len ip_p src dest : ℕ) : Type 0 where
  pub version : b 0 ≡ 0x45
  pub total_length : ntohs (load16 b 2) ≡ ip_len
  pub unfragmented : low_bits (ntohs (load16 b 6)) 14 ≡ 0
  pub protocol : b 9 ≡ ip_p
  pub source : load32 b 12 ≡ src
  pub destination : load32 b 16 ≡ dest
  pub checksum : ip_checksum_ok b 0 ip_hdr_size ≡ true

pub ip_header-IsBytes :
    (ip_id : ℕ) (pkt : Buffer) (dest source : ℕ)
    → IsBytes pkt
    → IsBytes (ip_header ip_id pkt dest source)
unfolding ip_header
ip_header-IsBytes ip_id pkt dest source h = store32-IsBytes 16 dest (
    store32-IsBytes 12 source (
      store16-IsBytes 10 0 (
        store8-IsBytes 8 255 (
          store16-IsBytes 6 (htons 0x4000) (
            store16-IsBytes 4 (htons ip_id)
              (store16-IsBytes 2 (htons 20) (store8-IsBytes 1 0 (store8-IsBytes 0 0x45 h))))))))

finished-IsBytes :
    (b : Buffer) (ip_len ip_p : ℕ)
    → IsBytes b
    → IsBytes (store8 (store16 b 2 (htons ip_len)) 9 ip_p)
finished-IsBytes b ip_len ip_p h = store8-IsBytes 9 ip_p (store16-IsBytes 2 (htons ip_len) h)

pub finish_ip_header-IsBytes :
    (b : Buffer) (ip_len ip_p : ℕ) → IsBytes b → IsBytes (finish_ip_header b ip_len ip_p)
unfolding finish_ip_header
finish_ip_header-IsBytes b ip_len ip_p h =
    store16-IsBytes 10
      (compute_ip_checksum (store8 (store16 b 2 (htons ip_len)) 9 ip_p) 0 ip_hdr_size)
      (finished-IsBytes b ip_len ip_p h)

-- The header that is finished is an IPv4 header.
pub finish_ip_header-IsIpHeader :
    (ip_id : ℕ) (pkt : Buffer) (dest source ip_len ip_p : ℕ)
    → IsBytes pkt
    → dest < 2 ^ 32
    → source < 2 ^ 32
    → ip_len < 2 ^ 16
    → ip_p < 256
    → IsIpHeader
        (finish_ip_header (ip_header ip_id pkt dest source) ip_len ip_p)
        ip_len
        ip_p
        source
        dest
unfolding finish_ip_header ip_header
finish_ip_header-IsIpHeader ip_id pkt dest source ip_len ip_p h hd hs hl hp = record {
  version = refl;
  total_length = stored_htons ip_len hl;
  unfragmented = ap (λ (t : ℕ). low_bits t 14) (stored_htons 0x4000 (omega arith));
  protocol = omega arith;
  source = omega arith;
  destination = omega arith;
  checksum =
      compute_ip_checksum-fill
        (store8 (store16 (ip_header ip_id pkt dest source) 2 (htons ip_len)) 9 ip_p) 0 20 10
        (finished-IsBytes (ip_header ip_id pkt dest source) ip_len ip_p
          (ip_header-IsBytes ip_id pkt dest source h))
        (omega arith) refl (omega arith) refl refl;
}

-- The header is the first twenty bytes.
pub IsIpHeader-agree :
    (b b' : Buffer) {ip_len ip_p src dest : ℕ}
    → ((i : ℕ) → i < 20 → b' i ≡ b i)
    → IsIpHeader b ip_len ip_p src dest
    → IsIpHeader b' ip_len ip_p src dest
IsIpHeader-agree b b' h k = record {
  version = rw (h 0 (omega arith)) k.version;
  total_length = rw (h 2 (omega arith), h 3 (omega arith)) k.total_length;
  unfragmented = rw (h 6 (omega arith), h 7 (omega arith)) k.unfragmented;
  protocol = rw (h 9 (omega arith)) k.protocol;
  source =
      rw (h 12 (omega arith), h 13 (omega arith), h 14 (omega arith), h 15 (omega arith)) k.source;
  destination =
      rw (h 16 (omega arith), h 17 (omega arith), h 18 (omega arith), h 19 (omega arith))
        k.destination;
  checksum = ip_checksum_ok-agree b b' 0 20 (λ i l m. h i m) ∙ k.checksum;
}

-- After `net_set_udp_header` the buffer starts with an IPv4 header without options, from `net_ip`
-- to the destination, whose checksum `ip_checksum_ok` accepts, and behind it a UDP header with the
-- ports, the length of the payload and no checksum; the next packet gets the next identification.
pub net_set_udp_header-IsIpHeader :
    (pkt : Buffer) (dest dport sport len : ℕ) (n : Net)
    → IsBytes pkt
    → dest < 2 ^ 32
    → n.net_ip < 2 ^ 32
    → dport < 2 ^ 16
    → sport < 2 ^ 16
    → ip_udp_hdr_size + len < 2 ^ 16
    → let (b, n') = net_set_udp_header pkt dest dport sport len n in
      IsIpHeader b (ip_udp_hdr_size + len) ipproto_udp n.net_ip dest
      × (ntohs (load16 b 20) ≡ sport)
      × (ntohs (load16 b 22) ≡ dport)
      × (ntohs (load16 b 24) ≡ udp_hdr_size + len)
      × (load16 b 26 ≡ 0)
      × (n' ≡ record n { net_ip_id = u32 (n.net_ip_id + 1) })
unfolding net_set_udp_header
net_set_udp_header-IsIpHeader pkt dest dport sport len n h hd hs hp hq hl = (
  header,
  stored_htons sport hq,
  stored_htons dport hp,
  stored_htons (udp_hdr_size + len) (omega arith),
  refl,
  refl,
)
  where
    padded : Buffer
    padded = if low_bits len 1 == 0 then pkt else store8 pkt (ip_udp_hdr_size + len) 0

    padded-IsBytes : IsBytes padded
    padded-IsBytes i = ground (arith, h i)

    inner : Buffer
    inner =
        finish_ip_header (ip_header n.net_ip_id padded dest n.net_ip) (ip_udp_hdr_size + len)
          ipproto_udp

    outer : Buffer
    outer = (net_set_udp_header pkt dest dport sport len n).0

    header : IsIpHeader outer (ip_udp_hdr_size + len) ipproto_udp n.net_ip dest
    header =
        IsIpHeader-agree inner outer (λ i l. ground arith)
          (finish_ip_header-IsIpHeader n.net_ip_id padded dest n.net_ip (ip_udp_hdr_size + len)
            ipproto_udp padded-IsBytes hd hs hl (omega arith))

ip_header_behind :
    (ip_id : ℕ) (b : Buffer) (dest source k : ℕ) → 20 ≤ k → ip_header ip_id b dest source k ≡ b k
unfolding ip_header
ip_header_behind ip_id b dest source k h = ground arith

finish_ip_header_behind :
    (b : Buffer) (ip_len ip_p k : ℕ) → 20 ≤ k → finish_ip_header b ip_len ip_p k ≡ b k
unfolding finish_ip_header
finish_ip_header_behind b ip_len ip_p k h = ground arith

udp_header_behind :
    (b : Buffer) (u v w k : ℕ)
    → 28 ≤ k
    → store16 (store16 (store16 (store16 b 20 u) 22 v) 24 w) 26 0 k ≡ b k
udp_header_behind b u v w k h = ground arith

-- The payload stays as it is.
pub net_set_udp_header_payload :
    (pkt : Buffer) (dest dport sport len : ℕ) (n : Net) (i : ℕ)
    → i < len
    → (net_set_udp_header pkt dest dport sport len n).0 (ip_udp_hdr_size + i)
      ≡ pkt (ip_udp_hdr_size + i)
unfolding net_set_udp_header
net_set_udp_header_payload pkt dest dport sport len n i h =
    let padded = if low_bits len 1 == 0 then pkt else store8 pkt (ip_udp_hdr_size + len) 0 in
    let inner = ip_header n.net_ip_id padded dest n.net_ip in
    udp_header_behind (finish_ip_header inner (ip_udp_hdr_size + len) ipproto_udp) (htons sport)
      (htons dport) (htons (udp_hdr_size + len)) (ip_udp_hdr_size + i) (omega arith)
    ∙ finish_ip_header_behind inner (ip_udp_hdr_size + len) ipproto_udp (ip_udp_hdr_size + i)
        (omega arith)
    ∙ ip_header_behind n.net_ip_id padded dest n.net_ip (ip_udp_hdr_size + i) (omega arith)
    ∙ ground (arith, h)
