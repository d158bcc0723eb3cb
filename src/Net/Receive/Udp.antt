-- ===== src/Net/Receive/Udp.antt =====
-- A datagram from `net_send_udp_packet` of one station to the UDP handler of another.
use emac_driver.Common.{
  ℕ, ◌+◌, ◌-◌, ◌<◌, ◌^◌, ◌≡◌, ◌≢◌, refl, ap, sym, subst, ◌∙◌, arith, ◌∷◌, some, true, false, ◌==◌,
  ne→==,
}
use emac_driver.Common.Buffer.{
  Buffer, IsBytes, load16, window, overlay, window-IsBytes, window-overlay,
}
use emac_driver.Byteorder.{ntohs}
use emac_driver.Eth.{Frame}
use emac_driver.Eth.Drive.{eth_send}
use emac_driver.Net.{Net, Handler, Datagram, is_null_ethaddr, net_send_packet, call_handler}
use emac_driver.Net.Ether.{net_eth_hdr_size, net_set_ether, prot_ip}
use emac_driver.Net.Ether.Laws.{
  net_set_ether-net_eth_hdr_size, net_set_ether-IsBytes, net_eth_hdr_size-le,
}
use emac_driver.Net.Ip.{ip_udp_hdr_size, udp_hdr_size, ipproto_udp, net_set_udp_header}
use emac_driver.Net.Ip.Laws.{IsIpHeader, net_set_udp_header-IsIpHeader, net_set_udp_header_payload}
use emac_driver.Net.Arp.{mac_at, build_udp, send_udp, net_send_udp_packet}
use emac_driver.Net.Receive.{net_process_received_packet, datagram}
use emac_driver.Net.Receive.Laws.{parse_ether-net_set_ether, ip_receive-datagram, received-ip}

-- The frame that `net_send_udp_packet` builds in the transmit buffer.
abbrev pub udp_frame : Net → ℕ → ℕ → ℕ → ℕ → ℕ → Buffer
udp_frame n ether dest dport sport len =
    let (et, size) = net_set_ether n n.net_tx_packet (mac_at n ether) prot_ip in
    overlay et size (net_set_udp_header (window et size) dest dport sport len n).0

abbrev pub udp_size : Net → ℕ → ℕ
udp_size n len = net_eth_hdr_size n + ip_udp_hdr_size + len

module _ (handle : ℕ → Datagram → Net → Net) where
  udp_delivered :
      (n m : Net) (ether dport sport len k : ℕ)
      → IsBytes n.net_tx_packet
      → IsBytes (mac_at n ether)
      → IsBytes n.net_ethaddr
      → m.net_our_vlan ≡ n.net_our_vlan
      → m.udp_packet_handler ≡ Handler.protocol k
      → n.net_ip < 2 ^ 32
      → m.net_ip < 2 ^ 32
      → dport < 2 ^ 16
      → sport < 2 ^ 16
      → ip_udp_hdr_size + len < 2 ^ 16
      → let frame = udp_frame n ether m.net_ip dport sport len in
        let d = datagram (window frame (net_eth_hdr_size n)) in
        (net_process_received_packet handle frame (udp_size n len) m
          ≡ handle k d (record m { delivered = (k, d) ∷ m.delivered }))
        × (d.dport ≡ dport)
        × (d.sport ≡ sport)
        × (d.sip ≡ n.net_ip)
        × (d.len ≡ len)
        × ((i : ℕ) → i < len → d.pkt i ≡ n.net_tx_packet (udp_size n i))
  unfolding call_handler datagram
  udp_delivered n m ether dport sport len k hb hm he same listens hn hd hp hq hl = (
    received,
    back (λ d. d.dport ≡ dport) (fields.2),
    back (λ d. d.sport ≡ sport) (fields.1),
    back (λ d. d.sip ≡ n.net_ip) (header.source),
    back (λ d. d.len ≡ len) (rw (fields.3) (omega arith)),
    payload,
  )
    where
      S : ℕ
      S = net_eth_hdr_size n

      frame : Buffer
      frame = udp_frame n ether m.net_ip dport sport len

      et : Buffer × ℕ
      et = net_set_ether n n.net_tx_packet (mac_at n ether) prot_ip

      ip : Buffer
      ip = (net_set_udp_header (window et.0 et.1) m.net_ip dport sport len n).0

      size_eq : et.1 ≡ S
      size_eq = (net_set_ether-net_eth_hdr_size n n.net_tx_packet (mac_at n ether) prot_ip).0

      fields :
          IsIpHeader ip (ip_udp_hdr_size + len) ipproto_udp n.net_ip m.net_ip
          × (ntohs (load16 ip 20) ≡ sport)
          × (ntohs (load16 ip 22) ≡ dport)
          × (ntohs (load16 ip 24) ≡ udp_hdr_size + len)
      fields =
          let f =
            net_set_udp_header-IsIpHeader (window et.0 et.1) m.net_ip dport sport len n
              (window-IsBytes et.1
                (net_set_ether-IsBytes n n.net_tx_packet (mac_at n ether) prot_ip hb hm he))
              hd hn hp hq hl in
          (f.0, f.1, f.2, f.3)

      header : IsIpHeader ip (ip_udp_hdr_size + len) ipproto_udp n.net_ip m.net_ip
      header = fields.0

      seen : window frame S ≡ ip
      seen = ap (λ (s : ℕ). window frame s) (sym size_eq) ∙ window-overlay et.0 ip et.1

      back : (P : Datagram → Type 0) → P (datagram ip) → P (datagram (window frame S))
      back P p = subst (λ b. P (datagram b)) (sym seen) p

      payload :
          (i : ℕ) → i < len → window frame S (ip_udp_hdr_size + i) ≡ n.net_tx_packet (udp_size n i)
      payload i h =
          ap (λ (b : Buffer). b (ip_udp_hdr_size + i)) seen
          ∙ net_set_udp_header_payload (window et.0 et.1) m.net_ip dport sport len n i h
          ∙ (net_set_ether-net_eth_hdr_size n n.net_tx_packet (mac_at n ether) prot_ip).3
              (ip_udp_hdr_size + i)
          ∙ ap n.net_tx_packet {x = et.1 + (ip_udp_hdr_size + i)} (omega (arith, size_eq))

      received :
          net_process_received_packet handle frame (udp_size n len) m
          ≡ handle k
              (datagram (window frame S))
              (record m { delivered = (k, datagram (window frame S)) ∷ m.delivered })
      received =
          let (v, parsed, passes) =
            parse_ether-net_set_ether n m n.net_tx_packet (mac_at n ether) frame prot_ip
              (udp_size n len) same (omega arith) (omega arith) (λ e. omega (arith, e))
              (omega arith) (omega (arith, net_eth_hdr_size-le n))
              (λ i l. ground (arith, size_eq)) in
          received-ip handle m frame (udp_size n len) S (udp_size n len - S) v parsed passes
          ∙ (ip_receive-datagram handle m frame S (udp_size n len - S) (ip_udp_hdr_size + len)
                n.net_ip (rw seen header) (omega arith) (omega arith)
                (omega (arith, net_eth_hdr_size-le n))
              ∙ rw listens refl)

  -- What is sent where the Ethernet address is known.
  send_udp_known :
      (n : Net) (ether dest dport sport len now dev : ℕ)
      → n.eth.eth_current ≡ some dev
      → is_null_ethaddr (mac_at n ether) ≡ false
      → ((send_udp ether dest dport sport len now n).1 ≡ 0)
        × ((send_udp ether dest dport sport len now n).0.eth.sent
            ≡ record {
              to = dev;
              packet = udp_frame n ether dest dport sport len;
              length = udp_size n len;
            }
              ∷ n.eth.sent)
  unfolding send_udp build_udp net_send_packet eth_send net_set_udp_header net_set_ether
      net_eth_hdr_size
  send_udp_known n ether dest dport sport len now dev current known =
      rw (known, current)
        (
          refl,
          ap
              (λ (s : ℕ).
                record {
                  to = dev;
                  packet = udp_frame n ether dest dport sport len;
                  length = s + ip_udp_hdr_size + len;
                }
                ∷ n.eth.sent)
              ((net_set_ether-net_eth_hdr_size n n.net_tx_packet (mac_at n ether) prot_ip).0),
        )

  send_udp_plain :
      (n : Net) (ether dest dport sport len now : ℕ)
      → n.initialized ≡ true
      → (dest == 0) ≡ false
      → (dest == 0xffffffff) ≡ false
      → net_send_udp_packet ether dest dport sport len now n
        ≡ send_udp ether dest dport sport len now n
  unfolding net_send_udp_packet
  send_udp_plain n ether dest dport sport len now ready not_any not_all =
      rw (ready, not_any) (rw not_all refl)

  -- A station whose packet buffer is set up and whose current device is `dev` sends to an Ethernet
  -- address that is not zero; ports and addresses are in range, the destination is neither 0.0.0.0 nor
  -- 255.255.255.255, and headers and payload fit into 64 KB. Then the result is 0 and one frame goes to
  -- the device. A station that has the destination as its address, is in the same VLAN, and has set a
  -- UDP handler, passes that frame on to the handler, once, with the ports, the sender's address, and
  -- the length and the bytes of the payload that were sent, and does nothing else.
  pub net_send_udp_packet-net_process_received_packet :
      (n m : Net) (ether dport sport len now k dev : ℕ)
      → n.initialized ≡ true
      → n.eth.eth_current ≡ some dev
      → is_null_ethaddr (mac_at n ether) ≡ false
      → IsBytes n.net_tx_packet
      → IsBytes (mac_at n ether)
      → IsBytes n.net_ethaddr
      → m.net_our_vlan ≡ n.net_our_vlan
      → m.udp_packet_handler ≡ Handler.protocol k
      → n.net_ip < 2 ^ 32
      → m.net_ip < 2 ^ 32 - 1
      → m.net_ip ≢ 0
      → dport < 2 ^ 16
      → sport < 2 ^ 16
      → ip_udp_hdr_size + len < 2 ^ 16
      → (frame : Frame) × ((net_send_udp_packet ether m.net_ip dport sport len now n).1 ≡ 0)
        × ((net_send_udp_packet ether m.net_ip dport sport len now n).0.eth.sent
            ≡ frame ∷ n.eth.sent)
        × (frame.to ≡ dev)
        × ((d : Datagram) × (net_process_received_packet handle frame.packet frame.length m
              ≡ handle k d (record m { delivered = (k, d) ∷ m.delivered }))
            × (d.dport ≡ dport)
            × (d.sport ≡ sport)
            × (d.sip ≡ n.net_ip)
            × (d.len ≡ len)
            × ((i : ℕ) → i < len → d.pkt i ≡ n.net_tx_packet (udp_size n i)))
  net_send_udp_packet-net_process_received_packet n m ether dport sport len now k dev ready current
        known hb hm he same listens hn hd some_ip hp hq hl =
      let plain =
        send_udp_plain n ether m.net_ip dport sport len now ready (ne→== m.net_ip 0 some_ip)
          (ne→== m.net_ip 0xffffffff (λ e. omega (arith, e))) in
      let (received, dp, sp, si, le, pay) =
        udp_delivered n m ether dport sport len k hb hm he same listens hn (omega arith) hp hq hl in
      let (done, sent) = send_udp_known n ether m.net_ip dport sport len now dev current known in
      (
        record {
          to = dev;
          packet = udp_frame n ether m.net_ip dport sport len;
          length = udp_size n len;
        },
        ap (λ (r : Net × ℕ). r.1) plain ∙ done,
        ap (λ (r : Net × ℕ). r.0.eth.sent) plain ∙ sent,
        refl,
        (_, received, dp, sp, si, le, pay),
      )
