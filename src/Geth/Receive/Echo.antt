-- ===== src/Geth/Receive/Echo.antt =====
-- A ping that reaches the MAC of net/emac/sunxi_geth.c, through the network stack of net/net.c and
-- net/ping.c, until its answer is handed to the MAC.
use emac_driver.Common.{
  ℕ, suc, ◌+◌, ◌-◌, ◌%◌, ◌^◌, ◌≤◌, ◌<◌, ◌≡◌, inl, inr, refl, ◌∙◌, ap, arith, true, false, [], ◌∷◌,
  Option, none, some, sub32, length,
}
use emac_driver.Common.Buffer.{Buffer, IsBytes, window}
use emac_driver.Io.{
  History, Hardware, load, proceed, pure, clean_lines, line_of, line_count, clear_bits,
  flush_dcache_range, invalidate_dcache_range,
}
use emac_driver.Io.Laws.{Extends}
use emac_driver.Eth.{Eth, Frame}
use emac_driver.Net.{Net, Datagram, net_send_packet}
use emac_driver.Net.Ether.{net_eth_hdr_size}
use emac_driver.Net.Ether.Laws.{net_eth_hdr_size-le}
use emac_driver.Eth.Drive.{eth_send}
use emac_driver.Net.Ping.{icmp_echo_request, icmp_echo_reply, ip_icmp_hdr_size}
use emac_driver.Net.Ping.Laws.{IsEcho}
use emac_driver.Net.Receive.{net_process_received_packet}
use emac_driver.Net.Receive.Echo.{IsIcmpFrame, net_process_received_packet-IsEcho}
use emac_driver.Geth.{Mac, geth_tx_ctl1, geth_tx_desc_list}
use emac_driver.Geth.Descriptor.{IsHandedOver}
use emac_driver.Geth.Rx.{frm_len}
use emac_driver.Geth.Rx.Laws.{IsIntact, rx_status-cases}
use emac_driver.Geth.Transmit.Wait.{IsPatient}
use emac_driver.Geth.Transmit.Laws.{geth_xmit-IsHandedOver}
use emac_driver.Geth.Receive.{
  geth_recv, collect, accept, transmit, new_frames, deliver, sort_received, dma_rx_enable,
}
use emac_driver.Geth.Receive.Armed.{
  IsArmed, refilled, refill-refilled, refilled-IsArmed, refilled-Extends,
}
use emac_driver.Geth.Receive.Reads.{at_word, is_empty, is_told, frame_of, status_of}

-- The frame is with the transmit DMA.
abbrev pub IsSent : (Frame → ℕ) → Mac → ℕ → History → Frame → Type 0
IsSent packet_at mac iobase h f =
    IsHandedOver h mac.dma_desc_tx (0x61000000 + f.length % 2 ^ 11) (packet_at f)
      (iobase + geth_tx_desc_list) (iobase + geth_tx_ctl1)

module _ (hw : Hardware) (handle : ℕ → Datagram → Net → Net) (packet_at : Frame → ℕ) (patience : ℕ)
    (mac : Mac) (iobase : ℕ) where
  -- Where the stack answers a frame with one other, that one is sent.
  deliver-IsSent :
      (frame : Buffer) (len : ℕ) (n : Net) (h : History) (f : Frame)
      → IsPatient hw patience mac.dma_desc_tx iobase
      → packet_at f < 2 ^ 64
      → new_frames hw handle packet_at patience n (net_process_received_packet handle frame len n)
        ≡ f ∷ []
      → (h' : History) × (deliver hw handle packet_at patience mac iobase frame len n h
          ≡ some (net_process_received_packet handle frame len n, h'))
        × IsSent packet_at mac iobase h' f
  unfolding deliver flush_dcache_range transmit
  deliver-IsSent frame len n h f patient placed one =
      let x =
        geth_xmit-IsHandedOver hw patience mac iobase (packet_at f) f.length
          (clean_lines (line_count mac.rx_packet (mac.rx_packet + 2048)) (line_of mac.rx_packet) h)
          patient placed in
      (x.0, rw one (rw (x.1, proceed) refl), x.2)

  -- geth_recv for an intact frame, up to what the stack makes of it.
  geth_recv-deliver :
      (n n' : Net) (h h1 : History)
      → is_empty hw mac iobase h ≡ false
      → is_told hw mac iobase h ≡ true
      → IsIntact (status_of hw mac iobase h)
      → deliver hw handle packet_at patience mac iobase
          (frame_of hw mac iobase h)
          (sub32 (frm_len (status_of hw mac iobase h)) 4)
          n
          (load mac.dma_desc_rx ∷ at_word hw mac iobase h)
        ≡ some (n', h1)
      → geth_recv hw handle packet_at patience mac iobase n h ≡ some (n', refilled hw mac iobase h1)
  unfolding geth_recv collect accept sort_received dma_rx_enable clear_bits invalidate_dcache_range
  geth_recv-deliver n n' h h1 full told intact d =
      elim (rx_status-cases (status_of hw mac iobase h)) [
        | inr (e, broken) ↦ absurd (broken intact)
        | inl (e, _) ↦
            rw (full, told, e, d, proceed)
              (ap (λ (r : Option (Unit {0} × History)). proceed r (λ _. pure n'))
                (refill-refilled hw mac iobase h1))
      ]

  abbrev answer : ℕ → Buffer → ℕ → Frame
  answer dev g len = record { to = dev; packet = g; length = len }

  net_send_packet-sent :
      (m : Net) (dev : ℕ) (g : Buffer) (len : ℕ)
      → m.eth.eth_current ≡ some dev
      → (net_send_packet g len m).eth.sent ≡ answer dev g len ∷ m.eth.sent
  unfolding net_send_packet eth_send
  net_send_packet-sent m dev g len current =
      ap
        (λ (o : Option ℕ).
          (elim o as (λ x. Eth) [
            | none ↦ m.eth
            | some d ↦ record m.eth { sent = answer d g len ∷ m.eth.sent }
          ]).sent)
        current

  one_more : (k : ℕ) → suc k - k ≡ 1
  one_more k = omega arith

  -- An ICMP echo request of `len` bytes, from a station of the same VLAN and for the station's address,
  -- stands in the receive buffer, without an error, with its four bytes of checksum, and the interrupt
  -- status tells of it. Then geth_recv makes the stack send an echo reply to the sender of the request,
  -- with right checksums and with the identifier, the number and the data of the request; it has
  -- handed that frame to the transmit DMA, and after that the receive descriptor to the receive DMA.
  -- Waiting in geth_xmit is over in fewer rounds than the patience, and the addresses have 64 bits.
  pub geth_recv-IsEcho :
      (n m : Net) (h : History) (dest : Buffer) (len src dev : ℕ)
      → IsPatient hw patience mac.dma_desc_tx iobase
      → ((f : Frame) → packet_at f < 2 ^ 64)
      → mac.rx_packet < 2 ^ 64
      → is_empty hw mac iobase h ≡ false
      → is_told hw mac iobase h ≡ true
      → IsIntact (status_of hw mac iobase h)
      → frm_len (status_of hw mac iobase h) ≡ net_eth_hdr_size m + len + 4
      → m.eth.eth_current ≡ some dev
      → m.net_our_vlan ≡ n.net_our_vlan
      → IsIcmpFrame n (frame_of hw mac iobase h) dest len icmp_echo_request src m.net_ip
      → IsBytes (frame_of hw mac iobase h)
      → ip_icmp_hdr_size ≤ len
      → len < 2 ^ 16
      → m.net_ip < 2 ^ 32
      → (m' : Net) × (h' h1 : History) × (g : Buffer) × (geth_recv hw handle packet_at patience mac
            iobase m h
          ≡ some (m', h'))
        × (m'.eth.sent ≡ answer dev g (net_eth_hdr_size m + len) ∷ m.eth.sent)
        × IsEcho (window g (net_eth_hdr_size m)) len icmp_echo_reply m.net_ip src
        × ((i : ℕ)
            → 24 ≤ i
            → g (net_eth_hdr_size m + i) ≡ frame_of hw mac iobase h (net_eth_hdr_size m + i))
        × IsSent packet_at mac iobase h1 (answer dev g (net_eth_hdr_size m + len))
        × Extends h' h1
        × IsArmed hw mac iobase h'
  geth_recv-IsEcho n m h dest len src dev patient placed small full told intact long current same
        icmp bytes l k lt =
      let size = net_eth_hdr_size m + len in
      let frame = frame_of hw mac iobase h in
      let cut : sub32 (frm_len (status_of hw mac iobase h)) 4 ≡ size =
        rw long (omega (arith, net_eth_hdr_size-le m)) in
      let e =
        net_process_received_packet-IsEcho handle n m frame dest len src same icmp bytes l k lt in
      let f = answer dev e.0 size in
      let sent : (net_process_received_packet handle frame size m).eth.sent ≡ f ∷ m.eth.sent =
        ap (λ (r : Net). r.eth.sent) e.1 ∙ net_send_packet-sent m dev e.0 size current in
      let one : new_frames hw handle packet_at patience m
            (net_process_received_packet handle frame size m)
          ≡ f ∷ [] =
        rw sent (rw (one_more (length m.eth.sent)) refl) in
      let d =
        deliver-IsSent frame size m (load mac.dma_desc_rx ∷ at_word hw mac iobase h) f patient
          (placed f) one in
      let r =
        geth_recv-deliver m (net_process_received_packet handle frame size m) h d.0 full told intact
          (rw cut d.1) in
      (
        net_process_received_packet handle frame size m,
        refilled hw mac iobase d.0,
        d.0,
        e.0,
        r,
        sent,
        e.3,
        e.4,
        d.2,
        refilled-Extends hw mac iobase d.0,
        refilled-IsArmed hw mac iobase d.0 small,
      )
