-- ===== src/Net/Receive/Success.antt =====
-- What makes the loop end in success while the handlers are dummies, as they are during a ping.
use emac_driver.Common.{
  ℕ, ◌+◌, ◌%◌, ◌<◌, ◌^◌, ◌≡◌, ◌≢◌, refl, ap, sym, ◌∙◌, some, true, not, ◌&&◌, ◌==◌, if◌then◌else◌,
  inl, inr, Bool-cases, Option-cases, ==→eq, low_bits,
}
use emac_driver.Common.Buffer.{Buffer, IsBytes, load16, load32, window}
use emac_driver.Byteorder.{ntohs}
use emac_driver.Net.{
  Net, Handler, LoopState, Datagram, call_handler, net_send_packet, net_set_state,
}
use emac_driver.Net.Ether.{prot_ip, prot_arp}
use emac_driver.Net.Ip.{ipproto_icmp, ipproto_udp}
use emac_driver.Net.Arp.{arp_receive, arp_resolved, arp_accepts, arpop_request, arpop_reply}
use emac_driver.Net.Ping.{ping_receive, icmp_echo_reply, icmp_echo_request}
use emac_driver.Net.Receive.{
  Parsed, parse_ether, vlan_matches, ip_accepts, net_defragment, receive_icmp, icmp_redirect,
  datagram, ip_receive, route, net_process_received_packet,
}
use emac_driver.Net.Receive.Carried.{word, IsCarried, ntohs-window, parse_ether-IsCarried}
use emac_driver.Net.Receive.Accepted.{IsAccepted, ip_accepts-IsAccepted}

-- An ICMP echo reply from the address that is pinged, not fragmented, behind the IP header at `hdr`.
pub record IsReply (et : Buffer) (hdr : ℕ) (n : Net) : Type 0 where
  pub unfragmented : word et (hdr + 6) % 16384 ≡ 0
  pub icmp : et (hdr + 9) ≡ 1
  pub reply : et (hdr + 20) ≡ 0
  pub from : load32 (window et hdr) 12 ≡ n.net_ping_ip

module _ (handle : ℕ → Datagram → Net → Net) where
  arp_resolved-net_state :
      (arp : Buffer) (len : ℕ) (n : Net)
      → n.arp_packet_handler ≡ Handler.dummy
      → (arp_resolved handle arp len n).net_state ≡ n.net_state
  unfolding arp_resolved call_handler net_send_packet
  arp_resolved-net_state arp len n quiet = elim (Option-cases n.arp_wait_packet_ethaddr) [
    | inl e ↦ rw (e, quiet) refl
    | inr (p, e) ↦ rw (e, quiet) refl
  ]

  arp_receive-net_state :
      (et : Buffer) (hdr len : ℕ) (n : Net)
      → n.arp_packet_handler ≡ Handler.dummy
      → (arp_receive handle et hdr len n).net_state ≡ n.net_state
  unfolding arp_receive net_send_packet
  arp_receive-net_state et hdr len n quiet =
      let op = ntohs (load16 (window et hdr) 6) in
      let asked =
        not (n.net_arp_wait_packet_ip == 0)
        && load32 (window et hdr) 14 == n.net_arp_wait_reply_ip in
      elim (Bool-cases (arp_accepts n (window et hdr) len)) [
        | inr fails ↦ rw fails refl
        | inl holds ↦ rw holds (elim (Bool-cases (op == arpop_request)) [
          | inl request ↦ rw request refl
          | inr other ↦ rw other (elim (Bool-cases (op == arpop_reply)) [
            | inr neither ↦ rw neither refl
            | inl reply ↦ rw reply (elim (Bool-cases asked) [
              | inr not_asked ↦ rw not_asked refl
              | inl was_asked ↦ rw was_asked (arp_resolved-net_state (window et hdr) len n quiet)
            ])
          ])
        ])
      ]

  -- The IP header behind `hdr` passes the tests, and is one of an echo reply from the address pinged.
  abbrev Passes : Buffer → ℕ → ℕ → Net → Type 0
  Passes et hdr len n =
      (ip_accepts n (window et hdr) len ≡ true)
      × (low_bits (ntohs (load16 (window et hdr) 6)) 14 ≡ 0)
      × (et (hdr + 9) ≡ ipproto_icmp)
      × (et (hdr + 20) ≡ icmp_echo_reply)
      × (load32 (window et hdr) 12 ≡ n.net_ping_ip)

  udp_keeps :
      (et : Buffer) (hdr : ℕ) (n : Net)
      → n.udp_packet_handler ≡ Handler.dummy
      → (if not (et (hdr + 9) == ipproto_udp)
          then n
          else call_handler handle n.udp_packet_handler (datagram (window et hdr)) n).net_state
        ≡ LoopState.success
      → n.net_state ≡ LoopState.success
  unfolding call_handler
  udp_keeps et hdr n quiet now = elim (Bool-cases (et (hdr + 9) == ipproto_udp)) [
    | inr fails ↦ rw fails at now
    | inl udp ↦ rw (udp, quiet) at now
  ]

  icmp_reply :
      (et : Buffer) (hdr len : ℕ) (n : Net)
      → n.net_state ≢ LoopState.success
      → (receive_icmp et hdr len n).net_state ≡ LoopState.success
      → (et (hdr + 20) ≡ icmp_echo_reply) × (load32 (window et hdr) 12 ≡ n.net_ping_ip)
  unfolding receive_icmp ping_receive net_send_packet net_set_state
  icmp_reply et hdr len n not_yet now = elim (Bool-cases (et (hdr + 20) == icmp_redirect)) [
    | inl redirect ↦ absurd (not_yet (rw redirect at now))
    | inr other ↦
        let now1 = rw other at now in
        elim (Bool-cases (et (hdr + 20) == icmp_echo_reply)) [
          | inl reply ↦
              let now2 = rw reply at now1 in
              elim (Bool-cases (load32 (window et hdr) 12 == n.net_ping_ip)) [
                | inl from ↦
                    (==→eq (et (hdr + 20)) icmp_echo_reply reply, ==→eq _ n.net_ping_ip from)
                | inr elsewhere ↦ absurd (not_yet (rw elsewhere at now2))
              ]
          | inr fails ↦
              let now2 = rw fails at now1 in
              elim (Bool-cases (et (hdr + 20) == icmp_echo_request)) [
                | inl request ↦ absurd (not_yet (rw request at now2))
                | inr neither ↦ absurd (not_yet (rw neither at now2))
              ]
        ]
  ]

  ip_receive-Passes :
      (et : Buffer) (hdr len : ℕ) (n : Net)
      → n.udp_packet_handler ≡ Handler.dummy
      → n.net_state ≢ LoopState.success
      → (ip_receive handle et hdr len n).net_state ≡ LoopState.success
      → Passes et hdr len n
  unfolding ip_receive net_defragment
  ip_receive-Passes et hdr len n quiet not_yet now =
      elim (Bool-cases (ip_accepts n (window et hdr) len)) [
        | inr fails ↦ absurd (not_yet (rw fails at now))
        | inl holds ↦
            let now1 = rw holds at now in
            elim (Bool-cases (low_bits (ntohs (load16 (window et hdr) 6)) 14 == 0)) [
              | inr fragment ↦ absurd (not_yet (rw fragment at now1))
              | inl whole ↦
                  let now2 = rw whole at now1 in
                  elim (Bool-cases (et (hdr + 9) == ipproto_icmp)) [
                    | inr other ↦ absurd (not_yet (udp_keeps et hdr n quiet (rw other at now2)))
                    | inl icmp ↦
                        let (reply, from) =
                          icmp_reply et hdr (ntohs (load16 (window et hdr) 2)) n not_yet
                            (rw icmp at now2) in
                        (
                          holds,
                          ==→eq _ 0 whole,
                          ==→eq (et (hdr + 9)) ipproto_icmp icmp,
                          reply,
                          from,
                        )
                  ]
            ]
      ]

  routed :
      (et : Buffer) (n : Net) (p : Parsed)
      → n.udp_packet_handler ≡ Handler.dummy
      → n.arp_packet_handler ≡ Handler.dummy
      → n.net_state ≢ LoopState.success
      → (route handle et n (some p)).net_state ≡ LoopState.success
      → (vlan_matches n p.vlanid ≡ true) × (p.eth_proto ≡ prot_ip) × Passes et p.header p.rest n
  unfolding route
  routed et n p quiet quiet' not_yet now = elim (Bool-cases (vlan_matches n p.vlanid)) [
    | inr fails ↦ absurd (not_yet (rw fails at now))
    | inl passes ↦
        let now1 = rw passes at now in
        elim (Bool-cases (p.eth_proto == prot_arp)) [
          | inl arp ↦
              absurd (
                not_yet
                  (sym (arp_receive-net_state et p.header p.rest n quiet') ∙ (rw arp at now1)))
          | inr other ↦
              let now2 = rw other at now1 in
              elim (Bool-cases (p.eth_proto == prot_ip)) [
                | inr neither ↦ absurd (not_yet (rw neither at now2))
                | inl ip ↦ (
                  passes,
                  ==→eq p.eth_proto prot_ip ip,
                  ip_receive-Passes et p.header p.rest n quiet not_yet (rw ip at now2),
                )
              ]
        ]
  ]

  -- While no protocol has set a handler, a frame of bytes puts a loop that is not in the state
  -- NETLOOP_SUCCESS into it only if an IP header stands in it behind an Ethernet header, one with a
  -- VLAN tag, or one with a length in place of the protocol, for the VLAN of the station. This header
  -- is for IPv4 and gives at most five words as its length, its 20 bytes have the one's complement sum
  -- 65535 or 65534, and its destination is the station, where that has an address, or all. It and its
  -- packet fit into the frame, and it carries, unfragmented, an ICMP echo reply from the address that
  -- is pinged.
  pub net_process_received_packet-IsReply :
      (et : Buffer) (len : ℕ) (n : Net)
      → IsBytes et
      → len < 2 ^ 31
      → n.udp_packet_handler ≡ Handler.dummy
      → n.arp_packet_handler ≡ Handler.dummy
      → n.net_state ≢ LoopState.success
      → (net_process_received_packet handle et len n).net_state ≡ LoopState.success
      → (hdr : ℕ) × IsCarried n et hdr × IsAccepted et hdr len n × IsReply et hdr n
  unfolding net_process_received_packet
  net_process_received_packet-IsReply et len n bytes small quiet quiet' not_yet now =
      elim (Option-cases (parse_ether n et len)) [
        | inl e ↦ absurd (not_yet (sym (ap (λ o. (route handle et n o).net_state) e) ∙ now))
        | inr (p, e) ↦
            let (passes, proto, (accepts, whole, icmp, reply, from)) =
              routed et n p quiet quiet' not_yet
                (sym (ap (λ o. (route handle et n o).net_state) e) ∙ now) in
            let (carried, left, low) = parse_ether-IsCarried n et len p bytes e passes proto in
            (
              p.header,
              carried,
              ip_accepts-IsAccepted n et p.header len bytes small low
                  (sym (ap (ip_accepts n (window et p.header)) left) ∙ accepts),
              record {
                unfragmented =
                    sym (ap (λ (t : ℕ). t % 16384) (ntohs-window et p.header 6 bytes)) ∙ whole;
                icmp = icmp;
                reply = reply;
                from = from;
              },
            )
      ]
