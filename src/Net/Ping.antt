-- ===== src/Net/Ping.antt =====
-- net/ping.c.
pub mod Laws
pub mod Send
use emac_driver.Common.{ℕ, ◌+◌, ◌^◌, Option, some, Bool, ◌==◌, if◌then◌else◌, u16, u32, sub32}
use emac_driver.Common.Buffer.{
  Buffer, load16, load32, store8, store16, copy, store32, window, overlay,
}
use emac_driver.Byteorder.{htons}
use emac_driver.Checksum.{compute_ip_checksum}
use emac_driver.Eth.Drive.{eth_halt}
use emac_driver.Net.{
  Net, LoopState, Timeout, net_null_ethaddr, net_set_state, net_send_packet,
  net_set_timeout_handler,
}
use emac_driver.Net.Ether.{net_set_ether, net_update_ether, prot_ip}
use emac_driver.Net.Ip.{net_set_ip_header, finish_ip_header, ip_hdr_size, ipproto_icmp}
use emac_driver.Net.Arp.{arp_request}

abbrev pub icmp_echo_reply : ℕ
icmp_echo_reply = 0

abbrev pub icmp_echo_request : ℕ
icmp_echo_request = 8

abbrev pub icmp_hdr_size : ℕ
icmp_hdr_size = 8

abbrev pub ip_icmp_hdr_size : ℕ
ip_icmp_hdr_size = 28

-- The ICMP part of the packet, `icmp` of `set_icmp_header`, at offset 20 of the IP header.
unfoldable pub echo_header : ℕ → Buffer → Buffer
echo_header seq b =
    let b1 = store8 b 20 icmp_echo_request in
    let b2 = store8 b1 21 0 in
    let b3 = store16 b2 22 0 in
    let b4 = store16 b3 24 0 in
    let b5 = store16 b4 26 (htons seq) in store16 b5 22 (compute_ip_checksum b5 20 icmp_hdr_size)

unfoldable pub set_icmp_header : Buffer → ℕ → Net → Buffer × Net
unfolding net_set_ip_header finish_ip_header echo_header
set_icmp_header pkt dest n =
    let (b, n') = net_set_ip_header pkt dest n.net_ip n in
    let b1 = finish_ip_header b ip_icmp_hdr_size ipproto_icmp in
    (
      echo_header n'.ping_seq_number b1,
      record n' { ping_seq_number = u16 (n'.ping_seq_number + 1) },
    )

-- `now` is what `get_timer(0)` reads; the function always returns 1.
unfoldable pub ping_send : ℕ → Net → Net
unfolding net_set_ether set_icmp_header arp_request
ping_send now n =
    let n1 = record n { net_arp_wait_packet_ip = n.net_ping_ip } in
    let (pkt, eth_hdr_size) = net_set_ether n1 n1.net_tx_packet net_null_ethaddr prot_ip in
    let (ip, n2) = set_icmp_header (window pkt eth_hdr_size) n1.net_ping_ip n1 in
    arp_request (record n2 {
      net_tx_packet = overlay pkt eth_hdr_size ip;
      arp_wait_tx_packet_size = eth_hdr_size + ip_icmp_hdr_size;
      arp_wait_try = 1;
      arp_wait_timer_start = now;
    })

unfoldable pub ping_timeout_handler : Net → Net
unfolding net_set_state eth_halt
ping_timeout_handler n = net_set_state LoopState.fail (record n { eth = eth_halt n.eth })

unfoldable pub ping_start : ℕ → ℕ → Net → Net
unfolding net_set_timeout_handler ping_send
ping_start set_at now n =
    ping_send now (net_set_timeout_handler 10000 (some Timeout.ping_timeout_handler) set_at n)

-- The packet that answers an echo request, from its IP header on. `compute_ip_checksum` takes the
-- length as an `unsigned`, so `len - IP_HDR_SIZE` wraps around.
unfoldable pub echo_answer : Net → Buffer → ℕ → Buffer
echo_answer n ip len =
    let b1 = store16 ip 10 0 in
    let b2 = store16 b1 6 0 in
    let b3 = copy b2 16 b2 12 4 in
    let b4 = store32 b3 12 n.net_ip in
    let b5 = store16 b4 10 (compute_ip_checksum b4 0 ip_hdr_size) in
    let b6 = store8 b5 20 icmp_echo_reply in
    let b7 = store16 b6 22 0 in store16 b7 22 (compute_ip_checksum b7 20 (sub32 len ip_hdr_size))

-- `et` is the frame, `hdr` the offset of `ip` in it.
unfoldable pub ping_receive : Buffer → ℕ → ℕ → Net → Net
ping_receive et hdr len n =
    let ip = window et hdr in
    if ip 20 == icmp_echo_reply
    then (if load32 ip 12 == n.net_ping_ip then net_set_state LoopState.success n else n)
    else (if ip 20 == icmp_echo_request
        then (let (et', eth_hdr_size) = net_update_ether n et (window et 6) prot_ip in
            let frame = overlay et' hdr (echo_answer n (window et' hdr) len) in
            net_send_packet frame (eth_hdr_size + len) n)
        else n)
