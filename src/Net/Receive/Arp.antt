-- ===== src/Net/Receive/Arp.antt =====
-- ARP between two stations of one VLAN: the answer to a request, and what it sets off.
use emac_driver.Common.{ℕ, ◌+◌, ◌-◌, ◌≤◌, ◌<◌, ◌^◌, ◌≡◌, ◌≢◌, ap, sym, subst, ◌∙◌, fun_ext, arith}
use emac_driver.Common.Buffer.{Buffer, window, overlay, window-overlay}
use emac_driver.Net.{Net, Datagram, net_send_packet}
use emac_driver.Net.Ether.{net_eth_hdr_size, net_set_ether, net_update_ether, prot_arp}
use emac_driver.Net.Ether.Laws.{net_eth_hdr_size-le, net_eth_hdr_size-eq}
use emac_driver.Net.Ether.Update.{net_update_ether-net_set_ether}
use emac_driver.Net.Arp.{arp_hdr_size, arpop_request, arpop_reply, arp_answer, arp_receive}
use emac_driver.Net.Arp.Laws.{IsArp, arp_answer-IsArp, arp_accepts-IsArp}
use emac_driver.Net.Receive.{net_process_received_packet}
use emac_driver.Net.Receive.Laws.{parse_ether-net_set_ether, received-arp}

-- A frame of `n` for ARP: its header is one that `net_set_ether` of `n` writes.
pub record IsArpFrame (n : Net) (f : Buffer) (op : ℕ) (dest sha : Buffer) (spa : ℕ) (tha : Buffer)
    (tpa : ℕ) : Type 0 where
  pub base : Buffer
  pub header : (i : ℕ) → i < net_eth_hdr_size n → f i ≡ (net_set_ether n base dest prot_arp).0 i
  pub packet : IsArp (window f (net_eth_hdr_size n)) op sha spa tha tpa

module _ (handle : ℕ → Datagram → Net → Net) where
  -- An ARP frame reaches `arp_receive`.
  pub to_arp_receive :
      (n m : Net) (f dest sha tha : Buffer) (op spa tpa : ℕ)
      → m.net_our_vlan ≡ n.net_our_vlan
      → IsArpFrame n f op dest sha spa tha tpa
      → net_process_received_packet handle f (net_eth_hdr_size m + arp_hdr_size) m
        ≡ arp_receive handle f (net_eth_hdr_size m) arp_hdr_size m
  to_arp_receive n m f dest sha tha op spa tpa same a =
      let eq = net_eth_hdr_size-eq n m same in
      let small = net_eth_hdr_size-le n in
      let (v, parsed, passes) =
        parse_ether-net_set_ether n m a.base dest f prot_arp (net_eth_hdr_size n + arp_hdr_size)
          same (omega arith) (omega arith) (λ e. omega (arith, e)) (omega arith)
          (omega (arith, small)) (a.header) in
      rw eq (
        received-arp handle m f (net_eth_hdr_size n + arp_hdr_size) (net_eth_hdr_size n)
          (net_eth_hdr_size n + arp_hdr_size - net_eth_hdr_size n) v parsed passes
        ∙ ap (λ (l : ℕ). arp_receive handle f (net_eth_hdr_size n) l m)
            {x = net_eth_hdr_size n + arp_hdr_size - net_eth_hdr_size n} (omega arith))

  -- A station with an IP address that gets an ARP request for it from a station in its VLAN sends
  -- one frame, and does nothing else: an ARP reply, from its own Ethernet and IP addresses to those
  -- of the sender.
  pub arp_receive-request :
      (n m : Net) (f dest sha tha : Buffer) (spa : ℕ)
      → m.net_our_vlan ≡ n.net_our_vlan
      → m.net_ip ≢ 0
      → m.net_ip < 2 ^ 32
      → IsArpFrame n f arpop_request dest sha spa tha m.net_ip
      → (g : Buffer) × (net_process_received_packet handle f (net_eth_hdr_size m + arp_hdr_size) m
          ≡ net_send_packet g (net_eth_hdr_size m + arp_hdr_size) m)
        × IsArpFrame m g arpop_reply (window f 6) m.net_ethaddr m.net_ip sha spa
  unfolding arp_receive
  arp_receive-request n m f dest sha tha spa same ne lt a = (
    g,
    received,
    record {
      base = f;
      header = λ i l. ground (arith) ∙ updated.1 i l;
      packet =
          subst (λ b. IsArp b arpop_reply m.net_ethaddr m.net_ip sha spa)
            (sym (window-overlay et.0 _ S)) answer;
    },
  )
    where
      S : ℕ
      S = net_eth_hdr_size m

      et : Buffer × ℕ
      et = net_update_ether m f (window f 6) prot_arp

      g : Buffer
      g = overlay et.0 S (arp_answer m (window et.0 S))

      updated :
          (et.1 ≡ S)
          × ((i : ℕ) → i < S → et.0 i ≡ (net_set_ether m f (window f 6) prot_arp).0 i)
          × ((i : ℕ) → S ≤ i → et.0 i ≡ f i)
      updated =
          net_update_ether-net_set_ether n m a.base dest f (window f 6) prot_arp same (omega arith)
            (omega arith) (λ e. omega (arith, e)) (a.header)

      request : IsArp (window f S) arpop_request sha spa tha m.net_ip
      request = rw (net_eth_hdr_size-eq n m same) (a.packet)

      answer : IsArp (arp_answer m (window et.0 S)) arpop_reply m.net_ethaddr m.net_ip sha spa
      answer =
          subst (λ b. IsArp (arp_answer m b) arpop_reply m.net_ethaddr m.net_ip sha spa)
            (fun_ext (λ i. sym (updated.2 (S + i) (omega arith))))
            (arp_answer-IsArp m (window f S) sha tha arpop_request spa m.net_ip request lt)

      received :
          net_process_received_packet handle f (S + arp_hdr_size) m
          ≡ net_send_packet g (S + arp_hdr_size) m
      received =
          to_arp_receive n m f dest sha tha arpop_request spa m.net_ip same a
          ∙ rw
              (
                arp_accepts-IsArp m (window f S) sha tha arpop_request spa arp_hdr_size request ne
                    (omega arith) (omega arith),
                request.operation,
              )
              (ap (λ (s : ℕ). net_send_packet g (s + arp_hdr_size) m) (updated.0))
