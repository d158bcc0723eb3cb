-- ===== src/Net/Receive/Handshake.antt =====
-- A packet that waits for ARP, from the request on.
use emac_driver.Common.{
  Option, ℕ, ◌+◌, ◌<◌, ◌^◌, ◌≡◌, ◌≢◌, refl, ap, sym, subst, ◌∙◌, arith, ◌∷◌, none, some, ne→==,
  ==_refl,
}
use emac_driver.Common.Buffer.{Buffer, window, overlay, copy, window-overlay}
use emac_driver.Eth.Drive.{eth_send}
use emac_driver.Net.{
  Net, Handler, Datagram, net_null_ethaddr, net_bcast_ethaddr, net_send_packet, call_handler,
}
use emac_driver.Net.Ether.{net_eth_hdr_size, net_set_ether, prot_arp}
use emac_driver.Net.Ether.Laws.{net_set_ether-net_eth_hdr_size, net_eth_hdr_size-eq}
use emac_driver.Net.Arp.{
  arp_hdr_size, arpop_request, arpop_reply, arp_packet, arp_raw_request, arp_request, arp_target,
  arp_resolved, arp_receive,
}
use emac_driver.Net.Arp.Laws.{IsArp, arp_packet-IsArp, arp_accepts-IsArp}
use emac_driver.Net.Receive.{net_process_received_packet}
use emac_driver.Net.Receive.Arp.{IsArpFrame, to_arp_receive, arp_receive-request}

-- `n` while it asks for the address of `ip` with the frame `q`.
abbrev pub asking : Net → ℕ → Buffer → Net
asking n ip q = record n { net_arp_wait_reply_ip = ip; arp_tx_packet = q }

abbrev pub arp_size : Net → ℕ
arp_size n = net_eth_hdr_size n + arp_hdr_size

arp_request-IsArpFrame :
    (n : Net)
    → n.net_ip < 2 ^ 32
    → arp_target n < 2 ^ 32
    → (q : Buffer) × (arp_request n ≡ net_send_packet q (arp_size n) (asking n (arp_target n) q))
      × IsArpFrame n q arpop_request net_bcast_ethaddr n.net_ethaddr n.net_ip net_null_ethaddr
          (arp_target n)
unfolding arp_request arp_raw_request net_set_ether arp_packet
arp_request-IsArpFrame n h k = (
  q,
  ap (λ (s : ℕ). net_send_packet q (s + arp_hdr_size) (asking n (arp_target n) q)) size_eq,
  record {
    base = n.arp_tx_packet;
    header = λ i l. ground (arith, size_eq);
    packet =
        subst (λ b. IsArp b arpop_request n.net_ethaddr n.net_ip net_null_ethaddr (arp_target n))
          (sym seen)
          (arp_packet-IsArp n (window et.0 et.1) net_null_ethaddr n.net_ip (arp_target n) h k);
  },
)
  where
    et : Buffer × ℕ
    et = net_set_ether n n.arp_tx_packet net_bcast_ethaddr prot_arp

    arp : Buffer
    arp = arp_packet n (window et.0 et.1) n.net_ip net_null_ethaddr (arp_target n)

    q : Buffer
    q = overlay et.0 et.1 arp

    size_eq : et.1 ≡ net_eth_hdr_size n
    size_eq = (net_set_ether-net_eth_hdr_size n n.arp_tx_packet net_bcast_ethaddr prot_arp).0

    seen : window q (net_eth_hdr_size n) ≡ arp
    seen = ap (λ (s : ℕ). window q s) (sym size_eq) ∙ window-overlay et.0 arp et.1

module _ (handle : ℕ → Datagram → Net → Net) where
  reply_to_resolved :
      (m n : Net) (g dest sha tha : Buffer) (spa : ℕ)
      → n.net_our_vlan ≡ m.net_our_vlan
      → n.net_ip ≢ 0
      → n.net_arp_wait_packet_ip ≢ 0
      → spa ≡ n.net_arp_wait_reply_ip
      → IsArpFrame m g arpop_reply dest sha spa tha n.net_ip
      → net_process_received_packet handle g (arp_size n) n
        ≡ arp_resolved handle (window g (net_eth_hdr_size n)) arp_hdr_size n
  unfolding arp_receive
  reply_to_resolved m n g dest sha tha spa same ne waits asked a =
      let reply : IsArp (window g (net_eth_hdr_size n)) arpop_reply sha spa tha n.net_ip =
        rw (net_eth_hdr_size-eq m n same) (a.packet) in
      to_arp_receive handle m n g dest sha tha arpop_reply spa n.net_ip same a
      ∙ rw
          (
            arp_accepts-IsArp n (window g (net_eth_hdr_size n)) sha tha arpop_reply spa arp_hdr_size
                reply ne (omega arith) (omega arith),
            reply.operation,
            reply.sender_ip,
            asked,
            ne→== n.net_arp_wait_packet_ip 0 waits,
            ==_refl n.net_arp_wait_reply_ip,
          )
          refl

-- What holds in `r` once the packet that `n` had waiting is sent to the address `mac`.
pub record IsResolved (n r : Net) (dev : ℕ) (p : Option ℕ) (mac : Buffer) : Type 0 where
  pub packet : Buffer
  pub sent :
      r.eth.sent
      ≡ record { to = dev; packet = packet; length = n.arp_wait_tx_packet_size } ∷ n.eth.sent
  pub destination : (i : ℕ) → i < 6 → packet i ≡ mac i
  pub unchanged : (i : ℕ) → packet (6 + i) ≡ n.net_tx_packet (6 + i)
  pub saved : (q i : ℕ) → p ≡ some q → i < 6 → r.macs q i ≡ mac i
  pub idle : (r.net_arp_wait_packet_ip ≡ 0) × (r.arp_wait_packet_ethaddr ≡ none)

module _ (handle : ℕ → Datagram → Net → Net) where
  arp_resolved-IsResolved :
      (n : Net) (arp sha tha : Buffer) (op spa tpa len dev : ℕ) (p : Option ℕ)
      → n.eth.eth_current ≡ some dev
      → n.arp_packet_handler ≡ Handler.dummy
      → n.arp_wait_packet_ethaddr ≡ p
      → IsArp arp op sha spa tha tpa
      → IsResolved n (arp_resolved handle arp len n) dev p sha
  unfolding arp_resolved call_handler net_send_packet eth_send
  arp_resolved-IsResolved n arp sha tha op spa tpa len dev none current quiet kept a = record {
    packet = copy n.net_tx_packet 0 arp 8 6;
    sent = rw (kept, quiet, current) refl;
    destination = λ i l. ground (arith, a.sender_mac i l);
    unchanged = λ i. ground arith;
    saved = λ q i e l. absurd (ground (arith, e));
    idle = (refl, refl);
  }
  arp_resolved-IsResolved n arp sha tha op spa tpa len dev (some p) current quiet kept a = record {
    packet = copy n.net_tx_packet 0 arp 8 6;
    sent = rw (kept, quiet, current) refl;
    destination = λ i l. ground (arith, a.sender_mac i l);
    unchanged = λ i. ground arith;
    saved = λ q i e l. rw (kept, quiet) (ground (arith, e, a.sender_mac i l));
    idle = (refl, refl);
  }

  asking-IsResolved :
      (n m : Net) (dev : ℕ) (p : Option ℕ) (q g dest tha : Buffer)
      → m.net_our_vlan ≡ n.net_our_vlan
      → n.net_ip ≢ 0
      → n.eth.eth_current ≡ some dev
      → n.arp_packet_handler ≡ Handler.dummy
      → n.net_arp_wait_packet_ip ≢ 0
      → n.arp_wait_packet_ethaddr ≡ p
      → IsArpFrame m g arpop_reply dest m.net_ethaddr m.net_ip tha n.net_ip
      → let k = net_send_packet q (arp_size n) (asking n m.net_ip q) in
        IsResolved k (net_process_received_packet handle g (arp_size n) k) dev p m.net_ethaddr
  unfolding net_send_packet eth_send net_eth_hdr_size
  asking-IsResolved n m dev p q g dest tha same ne current quiet waits kept a =
      let k = net_send_packet q (arp_size n) (asking n m.net_ip q) in
      let reply : IsArp (window g (net_eth_hdr_size n)) arpop_reply m.net_ethaddr m.net_ip tha
          n.net_ip =
        rw (net_eth_hdr_size-eq m n (sym same)) (a.packet) in
      subst (λ r. IsResolved k r dev p m.net_ethaddr)
        (sym (
          reply_to_resolved handle m k g dest m.net_ethaddr tha m.net_ip (sym same) ne waits refl
            (record { base = a.base; header = a.header; packet = a.packet })))
        (arp_resolved-IsResolved k (window g (net_eth_hdr_size n)) m.net_ethaddr tha arpop_reply
          m.net_ip n.net_ip arp_hdr_size dev p (rw current refl) quiet kept reply)

  -- `n`, with a current device and the dummy as ARP handler, asks for the Ethernet address of the
  -- next hop of a packet that waits, and `m`, in the same VLAN, has that hop's IP address; no address
  -- is 0. Then `arp_request` sends one frame, `m` answers it with one frame, and `n`, when it gets the
  -- answer, sends the waiting packet, in which only the destination changes, to the address of `m`,
  -- saves that address where it is wanted, and waits no more.
  pub arp_request-IsResolved :
      (n m : Net) (dev : ℕ) (p : Option ℕ)
      → m.net_our_vlan ≡ n.net_our_vlan
      → m.net_ip ≡ arp_target n
      → m.net_ip ≢ 0
      → m.net_ip < 2 ^ 32
      → n.net_ip ≢ 0
      → n.net_ip < 2 ^ 32
      → n.eth.eth_current ≡ some dev
      → n.arp_packet_handler ≡ Handler.dummy
      → n.net_arp_wait_packet_ip ≢ 0
      → n.arp_wait_packet_ethaddr ≡ p
      → (q g : Buffer) × (arp_request n ≡ net_send_packet q (arp_size n) (asking n m.net_ip q))
        × (net_process_received_packet handle q (arp_size n) m ≡ net_send_packet g (arp_size n) m)
        × IsResolved
            (arp_request n)
            (net_process_received_packet handle g (arp_size n) (arp_request n))
            dev
            p
            m.net_ethaddr
  arp_request-IsResolved n m dev p same target ne lt ne' lt' current quiet waits kept =
      let (q, asked, request) = arp_request-IsArpFrame n lt' (rw (sym target) lt) in
      let asked' : arp_request n ≡ net_send_packet q (arp_size n) (asking n m.net_ip q) =
        rw target asked in
      let (g, answered, reply) =
        arp_receive-request handle n m q net_bcast_ethaddr n.net_ethaddr net_null_ethaddr n.net_ip
          same ne lt (rw target request) in
      let eq = net_eth_hdr_size-eq n m same in
      (
        q,
        g,
        asked',
        rw (sym eq) answered,
        subst
            (λ r.
              IsResolved r (net_process_received_packet handle g (arp_size n) r) dev p
                m.net_ethaddr)
            (sym asked')
            (asking-IsResolved n m dev p q g (window q 6) n.net_ethaddr same ne' current quiet waits
              kept reply),
      )
