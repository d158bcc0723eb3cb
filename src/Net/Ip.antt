-- ===== src/Net/Ip.antt =====
-- The IP and UDP headers: the end of net/net.c. A header is a buffer from its first byte on.
pub mod Laws
use emac_driver.Common.{ℕ, ◌+◌, ◌^◌, ◌==◌, if◌then◌else◌, low_bits, u32}
use emac_driver.Common.Buffer.{Buffer, load32, store8, store16, store32}
use emac_driver.Byteorder.{htons}
use emac_driver.Checksum.{compute_ip_checksum}
use emac_driver.Net.{Net}

abbrev pub ip_hdr_size : ℕ
ip_hdr_size = 20

abbrev pub ip_udp_hdr_size : ℕ
ip_udp_hdr_size = 28

abbrev pub udp_hdr_size : ℕ
udp_hdr_size = 8

abbrev pub ip_flags_dfrag : ℕ
ip_flags_dfrag = 0x4000

abbrev pub ipproto_icmp : ℕ
ipproto_icmp = 1

abbrev pub ipproto_udp : ℕ
ipproto_udp = 17

-- The header that is written with the number `ip_id`; `net_set_ip_header` counts it up.
unfoldable pub ip_header : ℕ → Buffer → ℕ → ℕ → Buffer
ip_header ip_id pkt dest source =
    let b1 = store8 pkt 0 0x45 in
    let b2 = store8 b1 1 0 in
    let b3 = store16 b2 2 (htons ip_hdr_size) in
    let b4 = store16 b3 4 (htons ip_id) in
    let b5 = store16 b4 6 (htons ip_flags_dfrag) in
    let b6 = store8 b5 8 255 in
    let b7 = store16 b6 10 0 in let b8 = store32 b7 12 source in store32 b8 16 dest

unfoldable pub net_set_ip_header : Buffer → ℕ → ℕ → Net → Buffer × Net
unfolding ip_header
net_set_ip_header pkt dest source n =
    (ip_header n.net_ip_id pkt dest source, record n { net_ip_id = u32 (n.net_ip_id + 1) })

-- What `net_set_udp_header` and the code of net/ping.c write after `net_set_ip_header`: the length,
-- the protocol and the checksum.
unfoldable pub finish_ip_header : Buffer → ℕ → ℕ → Buffer
finish_ip_header b ip_len ip_p =
    let b1 = store16 b 2 (htons ip_len) in
    let b2 = store8 b1 9 ip_p in store16 b2 10 (compute_ip_checksum b2 0 ip_hdr_size)

unfoldable pub net_set_udp_header : Buffer → ℕ → ℕ → ℕ → ℕ → Net → Buffer × Net
unfolding net_set_ip_header finish_ip_header
net_set_udp_header pkt dest dport sport len n =
    let pkt' = if low_bits len 1 == 0 then pkt else store8 pkt (ip_udp_hdr_size + len) 0 in
    let (b, n') = net_set_ip_header pkt' dest n.net_ip n in
    let b1 = finish_ip_header b (ip_udp_hdr_size + len) ipproto_udp in
    let b2 = store16 b1 20 (htons sport) in
    let b3 = store16 b2 22 (htons dport) in
    let b4 = store16 b3 24 (htons (udp_hdr_size + len)) in (store16 b4 26 0, n')
