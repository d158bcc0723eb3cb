-- ===== src/Tests/Packets.antt =====
-- The theorems on the layout of packets, for alice and bob.
use emac_driver.Common.{ap, ℕ, ◌+◌, ◌≤◌, ◌<◌, ◌≡◌, refl, sym, subst, arith, true, u16, u32}
use emac_driver.Common.Buffer.{
  IsBytes, store8, store8-IsBytes, overlay-IsBytes, Buffer, load16, window, overlay, window-overlay,
}
use emac_driver.Byteorder.{ntohs}
use emac_driver.Net.{Net, net_null_ethaddr, net_bcast_ethaddr, net_send_packet}
use emac_driver.Net.Ether.{
  vlan_of, net_eth_hdr_size, net_set_ether, net_update_ether, prot_ip, prot_arp,
}
use emac_driver.Net.Ether.Laws.{net_set_ether-IsBytes}
use emac_driver.Net.Ether.Update.{net_update_ether-net_set_ether}
use emac_driver.Net.Ip.{
  net_set_udp_header, ip_udp_hdr_size, udp_hdr_size, ipproto_udp, ipproto_icmp, ip_header,
  finish_ip_header,
}
use emac_driver.Net.Ip.Laws.{
  IsIpHeader, IsIpHeader-agree, net_set_udp_header-IsIpHeader, finish_ip_header-IsIpHeader,
  finish_ip_header-IsBytes, ip_header-IsBytes,
}
use emac_driver.Net.Arp.{arp_packet, arp_hdr_size, arpop_request, arpop_reply}
use emac_driver.Net.Arp.Laws.{IsArp, arp_packet-IsArp}
use emac_driver.Net.Ping.{
  set_icmp_header, echo_answer, ip_icmp_hdr_size, icmp_echo_request, icmp_echo_reply,
}
use emac_driver.Net.Ping.Laws.{IsEcho, set_icmp_header-IsEcho, echo_answer-IsEcho}
use emac_driver.Net.Receive.{parse_ether, vlan_matches, net_process_received_packet}
use emac_driver.Net.Receive.Laws.{found, parse_ether-net_set_ether}
use emac_driver.Net.Receive.Echo.{IsIcmpFrame, net_process_received_packet-IsEcho}
use emac_driver.Net.Receive.Arp.{IsArpFrame, arp_receive-request}
use emac_driver.Tests.Stations.{filled, alice, bob, alice_ip, bob_ip, ignore}

-- An IP packet of 28 bytes for bob.
abbrev pub request : Buffer
request = finish_ip_header (ip_header 3 (filled 8) bob_ip alice_ip) 28 ipproto_icmp

request-IsIpHeader : IsIpHeader request 28 ipproto_icmp alice_ip bob_ip
request-IsIpHeader =
    finish_ip_header-IsIpHeader 3 (filled 8) bob_ip alice_ip 28 ipproto_icmp (λ i. omega arith)
      (omega arith) (omega arith) (omega arith) (omega arith)

echo_answer-IsEcho_example :
    IsEcho (echo_answer bob request 28) 28 icmp_echo_reply bob_ip alice_ip
    × ((i : ℕ) → 24 ≤ i → echo_answer bob request 28 i ≡ request i)
echo_answer-IsEcho_example =
    echo_answer-IsEcho bob request 28 alice_ip
      (finish_ip_header-IsBytes (ip_header 3 (filled 8) bob_ip alice_ip) 28 ipproto_icmp
        (ip_header-IsBytes 3 (filled 8) bob_ip alice_ip (λ i. omega arith)))
      request-IsIpHeader (omega arith) (omega arith) (omega arith)

set_icmp_header-IsEcho_example :
    IsEcho
      (set_icmp_header (filled 8) bob_ip alice).0
      ip_icmp_hdr_size
      icmp_echo_request
      alice_ip
      bob_ip
    × (load16 (set_icmp_header (filled 8) bob_ip alice).0 24 ≡ 0)
    × (ntohs (load16 (set_icmp_header (filled 8) bob_ip alice).0 26) ≡ 0)
    × ((set_icmp_header (filled 8) bob_ip alice).1
        ≡ record alice { net_ip_id = u32 (0 + 1); ping_seq_number = u16 (0 + 1) })
set_icmp_header-IsEcho_example =
    set_icmp_header-IsEcho (filled 8) bob_ip alice (λ i. omega arith) (omega arith) (omega arith)
      (omega arith)

net_set_udp_header-IsIpHeader_example :
    IsIpHeader
      (net_set_udp_header (filled 8) bob_ip 69 1024 4 alice).0
      (ip_udp_hdr_size + 4)
      ipproto_udp
      alice_ip
      bob_ip
    × (ntohs (load16 (net_set_udp_header (filled 8) bob_ip 69 1024 4 alice).0 20) ≡ 1024)
    × (ntohs (load16 (net_set_udp_header (filled 8) bob_ip 69 1024 4 alice).0 22) ≡ 69)
    × (ntohs (load16 (net_set_udp_header (filled 8) bob_ip 69 1024 4 alice).0 24)
        ≡ udp_hdr_size + 4)
    × (load16 (net_set_udp_header (filled 8) bob_ip 69 1024 4 alice).0 26 ≡ 0)
    × ((net_set_udp_header (filled 8) bob_ip 69 1024 4 alice).1
        ≡ record alice { net_ip_id = u32 (0 + 1) })
net_set_udp_header-IsIpHeader_example =
    net_set_udp_header-IsIpHeader (filled 8) bob_ip 69 1024 4 alice (λ i. omega arith) (omega arith)
      (omega arith) (omega arith) (omega arith) (omega arith)

abbrev ip_frame : Buffer
ip_frame = (net_set_ether alice (filled 0) (filled 2) prot_ip).0

small : net_eth_hdr_size alice ≤ 42
unfolding net_eth_hdr_size vlan_of ntohs
small = omega arith

parse_ether-net_set_ether_example :
    (v : ℕ) × (parse_ether bob ip_frame 42 ≡ found prot_ip (net_eth_hdr_size alice) 42 v)
    × (vlan_matches bob v ≡ true)
parse_ether-net_set_ether_example =
    parse_ether-net_set_ether alice bob (filled 0) (filled 2) ip_frame prot_ip 42 refl (omega arith)
      (omega arith) (λ e. omega (arith, e)) small (omega arith) (λ i l. refl)

net_update_ether-net_set_ether_example :
    ((net_update_ether bob ip_frame (filled 1) prot_ip).1 ≡ net_eth_hdr_size bob)
    × ((i : ℕ)
        → i < net_eth_hdr_size bob
        → (net_update_ether bob ip_frame (filled 1) prot_ip).0 i
          ≡ (net_set_ether bob ip_frame (filled 1) prot_ip).0 i)
    × ((i : ℕ)
        → net_eth_hdr_size bob ≤ i
        → (net_update_ether bob ip_frame (filled 1) prot_ip).0 i ≡ ip_frame i)
net_update_ether-net_set_ether_example =
    net_update_ether-net_set_ether alice bob (filled 0) (filled 2) ip_frame (filled 1) prot_ip refl
      (omega arith) (omega arith) (λ e. omega (arith, e)) (λ i l. refl)

-- alice asks for bob's address.
abbrev question : Buffer
question =
    overlay (net_set_ether alice (filled 0) net_bcast_ethaddr prot_arp).0 (net_eth_hdr_size alice)
      (arp_packet alice (filled 0) alice_ip net_null_ethaddr bob_ip)

question-IsArpFrame :
    IsArpFrame alice question arpop_request net_bcast_ethaddr
      (filled 1)
      alice_ip
      net_null_ethaddr
      bob_ip
question-IsArpFrame = record {
  base = filled 0;
  header = λ i l. ground arith;
  packet =
      subst (λ b. IsArp b arpop_request (filled 1) alice_ip net_null_ethaddr bob_ip)
        (sym (
          window-overlay (net_set_ether alice (filled 0) net_bcast_ethaddr prot_arp).0
            (arp_packet alice (filled 0) alice_ip net_null_ethaddr bob_ip)
            (net_eth_hdr_size alice)))
        (arp_packet-IsArp alice (filled 0) net_null_ethaddr alice_ip bob_ip (omega arith)
          (omega arith));
}

arp_receive-request_example :
    (g : Buffer) × (net_process_received_packet ignore question
        (net_eth_hdr_size bob + arp_hdr_size)
        bob
      ≡ net_send_packet g (net_eth_hdr_size bob + arp_hdr_size) bob)
    × IsArpFrame bob g arpop_reply (window question 6) (filled 2) bob_ip (filled 1) alice_ip
arp_receive-request_example =
    arp_receive-request ignore alice bob question net_bcast_ethaddr (filled 1) net_null_ethaddr
      alice_ip refl (λ e. omega (arith, e)) (omega arith) question-IsArpFrame

-- alice pings bob.
abbrev pub ping_packet : Buffer
ping_packet = store8 request 20 icmp_echo_request

abbrev pub ping_frame : Buffer
ping_frame =
    overlay (net_set_ether alice (filled 0) (filled 2) prot_ip).0 (net_eth_hdr_size alice)
      ping_packet

pub ping_frame-IsBytes : IsBytes ping_frame
ping_frame-IsBytes =
    overlay-IsBytes (net_eth_hdr_size alice)
      (net_set_ether-IsBytes alice (filled 0) (filled 2) prot_ip (λ i. omega arith)
        (λ i. omega arith) (λ i. omega arith))
      (store8-IsBytes 20 icmp_echo_request (
        finish_ip_header-IsBytes (ip_header 3 (filled 8) bob_ip alice_ip) 28 ipproto_icmp
          (ip_header-IsBytes 3 (filled 8) bob_ip alice_ip (λ i. omega arith))))

ping_seen : window ping_frame (net_eth_hdr_size alice) ≡ ping_packet
ping_seen =
    window-overlay (net_set_ether alice (filled 0) (filled 2) prot_ip).0 ping_packet
      (net_eth_hdr_size alice)

pub ping_frame-IsIcmpFrame :
    IsIcmpFrame alice ping_frame (filled 2) 28 icmp_echo_request alice_ip bob_ip
ping_frame-IsIcmpFrame = record {
  base = filled 0;
  header = λ i l. ground arith;
  ip =
      subst (λ b. IsIpHeader b 28 ipproto_icmp alice_ip bob_ip) (sym ping_seen)
        (IsIpHeader-agree request ping_packet (λ i l. ground arith) request-IsIpHeader);
  type = ap (λ (b : Buffer). b 20) ping_seen;
}

net_process_received_packet-IsEcho_example :
    (g : Buffer) × (net_process_received_packet ignore ping_frame (net_eth_hdr_size bob + 28) bob
      ≡ net_send_packet g (net_eth_hdr_size bob + 28) bob)
    × ((i : ℕ)
        → i < net_eth_hdr_size bob
        → g i ≡ (net_set_ether bob ping_frame (window ping_frame 6) prot_ip).0 i)
    × IsEcho (window g (net_eth_hdr_size bob)) 28 icmp_echo_reply bob_ip alice_ip
    × ((i : ℕ) → 24 ≤ i → g (net_eth_hdr_size bob + i) ≡ ping_frame (net_eth_hdr_size bob + i))
net_process_received_packet-IsEcho_example =
    net_process_received_packet-IsEcho ignore alice bob ping_frame (filled 2) 28 alice_ip refl
      ping_frame-IsIcmpFrame ping_frame-IsBytes (omega arith) (omega arith) (omega arith)
