-- ===== src/Net/Receive.antt =====
-- The receive path of net/net.c, from a frame to the protocols. A length that the source keeps in
-- an `int` is its bit pattern: a comparison with a `sizeof` converts it to `unsigned long`.
pub mod Laws
pub mod Udp
pub mod Arp
pub mod Handshake
pub mod Carried
pub mod Accepted
pub mod Success
pub mod Echo
use emac_driver.Common.{
  ℕ, ◌+◌, ◌-◌, ◌^◌, ◌/◌, ◌%◌, Option, none, some, Bool, true, false, not, ◌&&◌, ◌||◌, ltb, leb,
  ◌==◌, if◌then◌else◌, low_bits, sub32, slt32, sext32,
}
use emac_driver.Common.Buffer.{Buffer, load16, load32, window}
use emac_driver.Byteorder.{ntohs}
use emac_driver.Checksum.{ip_checksum_ok}
use emac_driver.Net.{Net, Datagram, call_handler}
use emac_driver.Net.Ether.{
  vlan_of, vlan_none, prot_ip, prot_arp, prot_vlan, ether_hdr_size, e802_hdr_size,
  vlan_ether_hdr_size,
}
use emac_driver.Net.Ip.{ip_hdr_size, ip_udp_hdr_size, udp_hdr_size, ipproto_icmp, ipproto_udp}
use emac_driver.Net.Arp.{arp_receive}
use emac_driver.Net.Ping.{ping_receive}

abbrev pub icmp_redirect : ℕ
icmp_redirect = 5

-- Both branches of a redirect only return, one of them after a message.
unfoldable pub receive_icmp : Buffer → ℕ → ℕ → Net → Net
unfolding ping_receive
receive_icmp et hdr len n = if et (hdr + 20) == icmp_redirect then n else ping_receive et hdr len n

-- Without CONFIG_IP_DEFRAG a fragment is NULL.
unfoldable pub net_defragment : Buffer → Option Buffer
net_defragment ip = if low_bits (ntohs (load16 ip 6)) 14 == 0 then some ip else none

-- What the first half of `net_process_received_packet` finds in a frame: `eth_proto`, the offset of
-- `ip`, what is left of `len`, and `vlanid`.
pub record Parsed : Type 0 where
  pub eth_proto : ℕ
  pub header : ℕ
  pub rest : ℕ
  pub vlanid : ℕ

unfoldable pub parse_ether : Net → Buffer → ℕ → Option Parsed
parse_ether n et len =
    let eth_proto = ntohs (load16 et 12) in
    if ltb (sext32 len) ether_hdr_size
    then none
    else (if ltb eth_proto 1514
        then some (record {
          eth_proto = ntohs (load16 et 20);
          header = e802_hdr_size;
          rest = sub32 len e802_hdr_size;
          vlanid = vlan_none;
        })
        else (if not (eth_proto == prot_vlan)
            then some (record {
              eth_proto = eth_proto;
              header = ether_hdr_size;
              rest = sub32 len ether_hdr_size;
              vlanid = vlan_none;
            })
            else (if ltb (sext32 len) vlan_ether_hdr_size
                  || low_bits (ntohs n.net_our_vlan) 12 == vlan_none
                then none
                else some (record {
                  eth_proto = ntohs (load16 et 16);
                  header = vlan_ether_hdr_size;
                  rest = sub32 len vlan_ether_hdr_size;
                  vlanid = low_bits (ntohs (load16 et 14)) 12;
                }))))

-- `if ((myvlanid & VLAN_IDMASK) != VLAN_NONE) { ... }` lets the frame through.
unfoldable pub vlan_matches : Net → ℕ → Bool
unfolding vlan_of
vlan_matches n vlanid =
    let mine = low_bits (vlan_of n.net_our_vlan) 12 in
    let seen = if vlanid == vlan_none then low_bits (vlan_of n.net_native_vlan) 12 else vlanid in
    if mine == vlan_none then true else seen == mine

-- The tests of `case PROT_IP` before `net_defragment`.
unfoldable pub ip_accepts : Net → Buffer → ℕ → Bool
ip_accepts n ip len =
    not (ltb (sext32 len) ip_udp_hdr_size)
    && not (slt32 len (ntohs (load16 ip 2)))
    && ip 0 / 16 % 16 == 4
    && not (ltb 5 (low_bits (ip 0) 4))
    && ip_checksum_ok ip 0 ip_hdr_size
    && (n.net_ip == 0 || load32 ip 16 == n.net_ip || load32 ip 16 == 0xffffffff)

-- The arguments of the UDP handler.
unfoldable pub datagram : Buffer → Datagram
datagram ip = record {
  pkt = window ip ip_udp_hdr_size;
  dport = ntohs (load16 ip 22);
  sip = load32 ip 12;
  sport = ntohs (load16 ip 20);
  len = sub32 (ntohs (load16 ip 24)) udp_hdr_size;
}

module _ (handle : ℕ → Datagram → Net → Net) where
  unfoldable pub ip_receive : Buffer → ℕ → ℕ → Net → Net
  ip_receive et hdr len n =
      if not (ip_accepts n (window et hdr) len) then n else elim (net_defragment (window et hdr)) [
        | none ↦ n
        | some ip ↦
            if ip 9 == ipproto_icmp
            then receive_icmp et hdr (ntohs (load16 ip 2)) n
            else (if not (ip 9 == ipproto_udp)
                then n
                else call_handler handle n.udp_packet_handler (datagram ip) n)
      ]

  -- From the test of the VLAN number on.
  unfoldable pub route : Buffer → Net → Option Parsed → Net
  route et n none = n
  route et n (some p) =
      if not (vlan_matches n p.vlanid)
      then n
      else (if p.eth_proto == prot_arp
          then arp_receive handle et p.header p.rest n
          else (if p.eth_proto == prot_ip then ip_receive et p.header p.rest n else n))

  unfoldable pub net_process_received_packet : Buffer → ℕ → Net → Net
  unfolding route
  net_process_received_packet et len n = route et n (parse_ether n et len)
