-- ===== src/Net/Arp.antt =====
-- net/arp.c, and `net_send_udp_packet` of net/net.c, which starts an ARP request.
pub mod Laws
pub mod Timeout
use emac_driver.Common.{
  ℕ, ◌+◌, ◌-◌, ◌*◌, ◌%◌, ◌^◌, Option, none, some, Bool, true, false, not, ◌&&◌, ltb, ◌==◌,
  if◌then◌else◌, bit_and, u32, sub64, slt32,
}
use emac_driver.Common.Buffer.{
  Buffer, load16, load32, store8, store16, store32, copy, window, overlay,
}
use emac_driver.Byteorder.{htons, ntohs}
use emac_driver.Eth.{update}
use emac_driver.Net.{
  Net, Handler, Datagram, LoopState, net_bcast_ethaddr, net_null_ethaddr, is_null_ethaddr,
  net_set_state, net_send_packet, call_handler,
}
use emac_driver.Net.Ether.{net_set_ether, net_update_ether, prot_ip, prot_arp}
use emac_driver.Net.Ip.{net_set_udp_header, ip_udp_hdr_size}

abbrev pub arp_timeout : ℕ
arp_timeout = 5000

abbrev pub arp_timeout_count : ℕ
arp_timeout_count = 5

abbrev pub arp_ether : ℕ
arp_ether = 1

abbrev pub arp_hlen : ℕ
arp_hlen = 6

abbrev pub arp_plen : ℕ
arp_plen = 4

abbrev pub arp_hdr_size : ℕ
arp_hdr_size = 28

abbrev pub arpop_request : ℕ
arpop_request = 1

abbrev pub arpop_reply : ℕ
arpop_reply = 2

-- The packet of `arp_raw_request` behind the Ethernet header.
unfoldable pub arp_packet : Net → Buffer → ℕ → Buffer → ℕ → Buffer
arp_packet n arp source_ip target_ethaddr target_ip =
    let b1 = store16 arp 0 (htons arp_ether) in
    let b2 = store16 b1 2 (htons prot_ip) in
    let b3 = store8 b2 4 arp_hlen in
    let b4 = store8 b3 5 arp_plen in
    let b5 = store16 b4 6 (htons arpop_request) in
    let b6 = copy b5 8 n.net_ethaddr 0 arp_hlen in
    let b7 = store32 b6 14 source_ip in
    let b8 = copy b7 18 target_ethaddr 0 arp_hlen in store32 b8 24 target_ip

unfoldable pub arp_raw_request : ℕ → Buffer → ℕ → Net → Net
arp_raw_request source_ip target_ethaddr target_ip n =
    let (pkt, eth_hdr_size) = net_set_ether n n.arp_tx_packet net_bcast_ethaddr prot_arp in
    let arp = arp_packet n (window pkt eth_hdr_size) source_ip target_ethaddr target_ip in
    let frame = overlay pkt eth_hdr_size arp in
    net_send_packet frame (eth_hdr_size + arp_hdr_size) (record n { arp_tx_packet = frame })

-- The address that a request asks for: the gateway's for a packet to another subnet.
unfoldable pub arp_target : Net → ℕ
arp_target n =
    if not (bit_and n.net_arp_wait_packet_ip n.net_netmask == bit_and n.net_ip n.net_netmask)
    then (if n.net_gateway == 0 then n.net_arp_wait_packet_ip else n.net_gateway)
    else n.net_arp_wait_packet_ip

unfoldable pub arp_request : Net → Net
arp_request n =
    let n' = record n { net_arp_wait_reply_ip = arp_target n } in
    arp_raw_request n'.net_ip net_null_ethaddr n'.net_arp_wait_reply_ip n'

-- `t` is what `get_timer(0)` reads. The second part is the `int` returned.
unfoldable pub arp_timeout_check : ℕ → Net → Net × ℕ
arp_timeout_check t n =
    if n.net_arp_wait_packet_ip == 0
    then (n, 0)
    else (if ltb arp_timeout (sub64 t n.arp_wait_timer_start)
        then (let try = u32 (n.arp_wait_try + 1) in
            if not (slt32 try arp_timeout_count)
            then (net_set_state LoopState.fail (record n { arp_wait_try = 0 }), 1)
            else (arp_request (record n { arp_wait_try = try; arp_wait_timer_start = t }), 1))
        else (n, 1))

-- `memcpy(arp_wait_packet_ethaddr, &arp->ar_sha, ARP_HLEN)`, unless the pointer is NULL.
save_ethaddr : Option ℕ → Buffer → Net → Net
save_ethaddr none arp n = n
save_ethaddr (some p) arp n = record n { macs = update n.macs p (copy (n.macs p) 0 arp 8 arp_hlen) }

-- The answer to a request: the received frame, turned round. `arp` is its part behind the header.
unfoldable pub arp_answer : Net → Buffer → Buffer
arp_answer n arp =
    let b1 = store16 arp 6 (htons arpop_reply) in
    let b2 = copy b1 18 b1 8 arp_hlen in
    let b3 = copy b2 24 b2 14 4 in
    let b4 = copy b3 8 n.net_ethaddr 0 arp_hlen in store32 b4 14 n.net_ip

-- The tests before the `switch`, which let a packet through.
unfoldable pub arp_accepts : Net → Buffer → ℕ → Bool
arp_accepts n arp len =
    not (slt32 len arp_hdr_size)
    && ntohs (load16 arp 0) == arp_ether
    && ntohs (load16 arp 2) == prot_ip
    && arp 4 == arp_hlen
    && arp 5 == arp_plen
    && not (n.net_ip == 0)
    && load32 arp 24 == n.net_ip

module _ (handle : ℕ → Datagram → Net → Net) where
  -- The branch for a reply from the address that was asked for.
  unfoldable pub arp_resolved : Buffer → ℕ → Net → Net
  unfolding save_ethaddr
  arp_resolved arp len n =
      let n1 = save_ethaddr n.arp_wait_packet_ethaddr arp n in
      let n2 =
        call_handler handle n1.arp_packet_handler
          (record { pkt = arp; dport = 0; sip = load32 arp 14; sport = 0; len = len }) n1 in
      let n3 = record n2 { net_tx_packet = copy n2.net_tx_packet 0 arp 8 arp_hlen } in
      let n4 = net_send_packet n3.net_tx_packet n3.arp_wait_tx_packet_size n3 in
      record n4 {
        net_arp_wait_packet_ip = 0;
        arp_wait_packet_ethaddr = none;
        arp_wait_tx_packet_size = 0;
      }

  -- `et` is the frame, `hdr` the offset of `ip` in it, `len` an `int` as a bit pattern.
  unfoldable pub arp_receive : Buffer → ℕ → ℕ → Net → Net
  arp_receive et hdr len n =
      let arp = window et hdr in
      let op = ntohs (load16 arp 6) in
      if not (arp_accepts n arp len)
      then n
      else (if op == arpop_request
          then (let (et', eth_hdr_size) = net_update_ether n et (window et 6) prot_arp in
              let frame = overlay et' hdr (arp_answer n (window et' hdr)) in
              net_send_packet frame (eth_hdr_size + arp_hdr_size) n)
          else (if op == arpop_reply
              then (if not (n.net_arp_wait_packet_ip == 0)
                    && load32 arp 14 == n.net_arp_wait_reply_ip
                  then arp_resolved arp len n
                  else n)
              else n))

-- The pointer `net_bcast_ethaddr`, and what a pointer to an Ethernet address points to.
abbrev pub bcast_pointer : ℕ
bcast_pointer = 0

abbrev pub mac_at : Net → ℕ → Buffer
mac_at n ether = if ether == bcast_pointer then net_bcast_ethaddr else n.macs ether

-- The packet in the transmit buffer, and its size.
unfoldable pub build_udp : ℕ → ℕ → ℕ → ℕ → ℕ → Net → Net × ℕ
build_udp ether dest dport sport payload_len n =
    let (pkt, eth_hdr_size) = net_set_ether n n.net_tx_packet (mac_at n ether) prot_ip in
    let (ip, n1) = net_set_udp_header (window pkt eth_hdr_size) dest dport sport payload_len n in
    (
      record n1 { net_tx_packet = overlay pkt eth_hdr_size ip },
      eth_hdr_size + ip_udp_hdr_size + payload_len,
    )

-- The part of `net_send_udp_packet` after `dest` and `ether` are settled.
unfoldable pub send_udp : ℕ → ℕ → ℕ → ℕ → ℕ → ℕ → Net → Net × ℕ
send_udp ether dest dport sport payload_len now n =
    let (n2, size) = build_udp ether dest dport sport payload_len n in
    if is_null_ethaddr (mac_at n ether)
    then (
      arp_request (record n2 {
        net_arp_wait_packet_ip = dest;
        arp_wait_packet_ethaddr = some ether;
        arp_wait_tx_packet_size = size;
        arp_wait_try = 1;
        arp_wait_timer_start = now;
      }),
      1,
    )
    else (net_send_packet n2.net_tx_packet size n2, 0)

-- The result's second part is the `int`: -1 (as a bit pattern), 1 while waiting for ARP, or 0.
unfoldable pub net_send_udp_packet : ℕ → ℕ → ℕ → ℕ → ℕ → ℕ → Net → Net × ℕ
net_send_udp_packet ether0 dest0 dport sport payload_len now n =
    if not n.initialized
    then (n, 2 ^ 32 - 1)
    else (let dest = if dest0 == 0 then 0xffffffff else dest0 in
        send_udp (if dest == 0xffffffff then bcast_pointer else ether0) dest dport sport payload_len
          now n)
