-- ===== src/Net/Receive/Laws.antt =====
-- A receiver understands the frames that the senders build.
use emac_driver.Common.{
  ℕ, ◌-◌, ◌≤◌, ◌<◌, ◌^◌, ◌≡◌, ◌≢◌, refl, ap, sym, ◌∙◌, arith, Option, some, true, false, ◌==◌,
  low_bits, ltb, sub32, slt32, sext32, inl, inr, Bool-cases, ne→==, le→ltb, ==_refl,
}
use emac_driver.Common.Buffer.{Buffer, load16, window}
use emac_driver.Byteorder.{ntohs}
use emac_driver.Net.{Net, Datagram, call_handler}
use emac_driver.Net.Ether.{
  vlan_of, vlan_none, net_eth_hdr_size, net_set_ether, prot_ip, prot_arp, prot_vlan, ether_hdr_size,
  vlan_ether_hdr_size,
}
use emac_driver.Net.Ether.Laws.{
  untagged, vlan_of-low_bits, net_set_ether-untagged, net_set_ether_tagged,
}
use emac_driver.Net.Ip.{ip_udp_hdr_size, ipproto_udp}
use emac_driver.Net.Ip.Laws.{IsIpHeader}
use emac_driver.Net.Receive.{
  Parsed, parse_ether, vlan_matches, ip_accepts, net_defragment, datagram, ip_receive, route,
  net_process_received_packet,
}
use emac_driver.Net.Arp.{arp_receive}

-- What the receiver finds in a frame with protocol `prot` and a header of `size` bytes.
abbrev pub found : ℕ → ℕ → ℕ → ℕ → Option Parsed
found prot size len v =
    some (record { eth_proto = prot; header = size; rest = len - size; vlanid = v })

parse_untagged :
    (m : Net) (frame : Buffer) (prot len : ℕ)
    → ntohs (load16 frame 12) ≡ prot
    → 1514 ≤ prot
    → prot ≢ prot_vlan
    → ether_hdr_size ≤ len
    → len < 2 ^ 31
    → parse_ether m frame len ≡ found prot ether_hdr_size len vlan_none
unfolding parse_ether
parse_untagged m frame prot len e l ne h k =
    let enough : ltb (sext32 len) ether_hdr_size ≡ false = ground arith in
    let rest : sub32 len ether_hdr_size ≡ len - ether_hdr_size = omega arith in
    rw (e, enough, le→ltb prot 1514 l, ne→== prot prot_vlan ne, rest) refl

parse_tagged :
    (m : Net) (frame : Buffer) (prot tag len : ℕ)
    → ntohs (load16 frame 12) ≡ prot_vlan
    → ntohs (load16 frame 14) ≡ tag
    → ntohs (load16 frame 16) ≡ prot
    → tag < 4096
    → (low_bits (ntohs m.net_our_vlan) 12 == vlan_none) ≡ false
    → vlan_ether_hdr_size ≤ len
    → len < 2 ^ 31
    → parse_ether m frame len ≡ found prot vlan_ether_hdr_size len tag
unfolding parse_ether
parse_tagged m frame prot tag len e t p l active h k =
    let enough : ltb (sext32 len) ether_hdr_size ≡ false = ground arith in
    let enough' : ltb (sext32 len) vlan_ether_hdr_size ≡ false = ground arith in
    let rest : sub32 len vlan_ether_hdr_size ≡ len - vlan_ether_hdr_size = omega arith in
    let low : low_bits tag 12 ≡ tag = omega arith in
    rw (e, t, p, enough, enough', active, rest, low) refl

-- A frame that starts with a header of `net_set_ether` for a protocol other than a length or a
-- VLAN tag is parsed, by a receiver in the same VLAN, into that protocol, the size of the header,
-- what is left of the length, and a VLAN number that `vlan_matches` lets through.
pub parse_ether-net_set_ether :
    (n m : Net) (xet dest frame : Buffer) (prot len : ℕ)
    → m.net_our_vlan ≡ n.net_our_vlan
    → 1514 ≤ prot
    → prot < 2 ^ 16
    → prot ≢ prot_vlan
    → net_eth_hdr_size n ≤ len
    → len < 2 ^ 31
    → ((i : ℕ) → i < net_eth_hdr_size n → frame i ≡ (net_set_ether n xet dest prot).0 i)
    → (v : ℕ) × (parse_ether m frame len ≡ found prot (net_eth_hdr_size n) len v)
      × (vlan_matches m v ≡ true)
unfolding net_eth_hdr_size vlan_matches
parse_ether-net_set_ether n m xet dest frame prot len same lo hi ne h k agree =
    elim (Bool-cases (untagged n)) [
      | inl u ↦
          let a : (i : ℕ) → i < 14 → frame i ≡ (net_set_ether n xet dest prot).0 i =
            rw u at agree in
          let h' : 14 ≤ len = rw u at h in
          let here : ntohs (load16 frame 12) ≡ prot =
            rw (a 12 (omega arith), a 13 (omega arith))
              ((net_set_ether-untagged n xet dest prot u hi).1) in
          (vlan_none, (rw u (parse_untagged m frame prot len here lo ne h' k)), rw (same, u) refl)
      | inr t ↦
          let a : (i : ℕ) → i < 18 → frame i ≡ (net_set_ether n xet dest prot).0 i =
            rw t at agree in
          let h' : 18 ≤ len = rw t at h in
          let tag = low_bits (vlan_of n.net_our_vlan) 12 in
          let tagged = net_set_ether_tagged n xet dest prot t hi in
          let active : (low_bits (ntohs m.net_our_vlan) 12 == vlan_none) ≡ false =
            rw (same, sym (vlan_of-low_bits n.net_our_vlan)) t in
          (
            tag,
            (rw t (
                parse_tagged m frame prot tag len
                  (rw (a 12 (omega arith), a 13 (omega arith)) (tagged.1))
                  (rw (a 14 (omega arith), a 15 (omega arith)) (tagged.2))
                  (rw (a 16 (omega arith), a 17 (omega arith)) (tagged.3)) (omega arith) active h'
                  k)),
            rw (same, t, ==_refl tag) refl,
          )
    ]

-- An IPv4 header that is not longer than what was received, for the receiver, is accepted.
pub ip_accepts-IsIpHeader :
    (m : Net) (ip : Buffer) (len ip_len ip_p src : ℕ)
    → IsIpHeader ip ip_len ip_p src m.net_ip
    → ip_len ≤ len
    → ip_udp_hdr_size ≤ len
    → len < 2 ^ 31
    → ip_accepts m ip len ≡ true
unfolding ip_accepts
ip_accepts-IsIpHeader m ip len ip_len ip_p src h l k j =
    let enough : ltb (sext32 len) ip_udp_hdr_size ≡ false = ground arith in
    let whole : slt32 len ip_len ≡ false = ground arith in
    rw (h.version, h.total_length, h.checksum, h.destination, enough, whole, ==_refl m.net_ip)
      (elim (Bool-cases (m.net_ip == 0)) [ inl z ↦ rw z refl | inr z ↦ rw z refl ])

module _ (handle : ℕ → Datagram → Net → Net) where
  -- A UDP packet for the receiver reaches the handler that is set.
  pub ip_receive-datagram :
      (m : Net) (et : Buffer) (hdr len ip_len src : ℕ)
      → IsIpHeader (window et hdr) ip_len ipproto_udp src m.net_ip
      → ip_len ≤ len
      → ip_udp_hdr_size ≤ len
      → len < 2 ^ 31
      → ip_receive handle et hdr len m
        ≡ call_handler handle m.udp_packet_handler (datagram (window et hdr)) m
  unfolding ip_receive net_defragment
  ip_receive-datagram m et hdr len ip_len src h l k j =
      rw
        (ip_accepts-IsIpHeader m (window et hdr) len ip_len ipproto_udp src h l k j, h.unfragmented)
        (rw (h.protocol) refl)

  -- Where a parsed frame goes.
  pub received-ip :
      (m : Net) (frame : Buffer) (len : ℕ) (size rest v : ℕ)
      → parse_ether m frame len
        ≡ some (record { eth_proto = prot_ip; header = size; rest = rest; vlanid = v })
      → vlan_matches m v ≡ true
      → net_process_received_packet handle frame len m ≡ ip_receive handle frame size rest m
  unfolding net_process_received_packet
  received-ip m frame len size rest v e k = ap (route handle frame m) e ∙ rw k refl

  pub received-arp :
      (m : Net) (frame : Buffer) (len : ℕ) (size rest v : ℕ)
      → parse_ether m frame len
        ≡ some (record { eth_proto = prot_arp; header = size; rest = rest; vlanid = v })
      → vlan_matches m v ≡ true
      → net_process_received_packet handle frame len m ≡ arp_receive handle frame size rest m
  unfolding net_process_received_packet
  received-arp m frame len size rest v e k = ap (route handle frame m) e ∙ rw k refl
