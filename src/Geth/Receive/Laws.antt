-- ===== src/Geth/Receive/Laws.antt =====
-- What geth_recv of net/emac/sunxi_geth.c does with a frame.
use emac_driver.Common.{
  ℕ, ◌+◌, ◌^◌, ◌<◌, ◌≡◌, ◌⊎◌, inl, inr, refl, ap, true, false, List, [], ◌∷◌, Option, some, sub32,
  Bool-cases,
}
use emac_driver.Common.Buffer.{Buffer}
use emac_driver.Io.{
  wipe, pure, History, Hardware, load, proceed, clean_lines, line_of, line_count, clear_bits,
  flush_dcache_range, invalidate_dcache_range,
}
use emac_driver.Io.Laws.{in_memory, in_memory-discard_lines}
use emac_driver.Eth.{Frame}
use emac_driver.Net.{Net, Datagram}
use emac_driver.Net.Receive.{net_process_received_packet}
use emac_driver.Geth.{Mac}
use emac_driver.Geth.Rx.{rx_status, frm_len}
use emac_driver.Geth.Rx.Laws.{IsIntact, rx_status-cases}
use emac_driver.Geth.Transmit.Wait.{IsPatient}
use emac_driver.Geth.Transmit.Laws.{geth_xmit-IsHandedOver}
use emac_driver.Geth.Receive.{
  geth_recv, collect, accept, transmit, new_frames, deliver, sort_received, discard_received,
  dma_rx_enable,
}
use emac_driver.Geth.Receive.Armed.{IsArmed, refilled, refill-refilled, refilled-IsArmed}
use emac_driver.Geth.Receive.Reads.{
  at_start, at_stop, at_word, is_empty, frame_of, is_told, status_of,
}

module _ (hw : Hardware) (handle : ℕ → Datagram → Net → Net) (packet_at : Frame → ℕ) (patience : ℕ)
    (mac : Mac) (iobase : ℕ) where
  -- What the stack makes of the frame.
  abbrev pub processed : History → Net → Net
  processed h n =
      net_process_received_packet handle (frame_of hw mac iobase h)
        (sub32 (frm_len (status_of hw mac iobase h)) 4) n

  -- A frame is handed to the stack where the interrupt status tells of it and it is intact.
  abbrev pub IsSorted : History → Net → Net → Type 0
  IsSorted h n n' =
      ((is_told hw mac iobase h ≡ true)
        × IsIntact (status_of hw mac iobase h)
        × (n' ≡ processed h n))
      ⊎ (((is_told hw mac iobase h ≡ false) ⊎ ¬ IsIntact (status_of hw mac iobase h)) × (n' ≡ n))

  module _ (patient : IsPatient hw patience mac.dma_desc_tx iobase)
      (placed : (f : Frame) → packet_at f < 2 ^ 64) where
    transmit-ends :
        (fs : List Frame) (h : History)
        → (h' : History) × (transmit hw handle packet_at patience mac iobase fs h ≡ some (tt, h'))
    unfolding transmit
    transmit-ends [] h = (h, refl)
    transmit-ends (f ∷ fs) h =
        let r = transmit-ends fs h in
        let x =
          geth_xmit-IsHandedOver hw patience mac iobase (packet_at f) f.length r.0 patient
            (placed f) in
        (x.0, rw (r.1, proceed) (rw (x.1, proceed) refl))

    deliver-ends :
        (frame : Buffer) (len : ℕ) (n : Net) (h : History)
        → (h' : History) × (deliver hw handle packet_at patience mac iobase frame len n h
            ≡ some (net_process_received_packet handle frame len n, h'))
    unfolding deliver flush_dcache_range
    deliver-ends frame len n h =
        let r =
          transmit-ends
            (new_frames hw handle packet_at patience n
              (net_process_received_packet handle frame len n))
            (clean_lines (line_count mac.rx_packet (mac.rx_packet + 2048)) (line_of mac.rx_packet)
              h) in
        (r.0, rw (r.1, proceed) refl)

    sort_received-ends :
        (frame : Buffer) (word : ℕ) (n : Net) (h : History)
        → (n' : Net) × (h' : History) × (sort_received hw handle packet_at patience mac iobase frame
              word n
              (rx_status word)
              h
            ≡ some (n', h'))
          × ((IsIntact word
                × (n' ≡ net_process_received_packet handle frame (sub32 (frm_len word) 4) n))
              ⊎ ((¬ IsIntact word) × (n' ≡ n)))
    unfolding sort_received discard_received flush_dcache_range
    sort_received-ends frame word n h = elim (rx_status-cases word) [
      | inl (e, intact) ↦
          let r = deliver-ends frame (sub32 (frm_len word) 4) n h in
          (
            net_process_received_packet handle frame (sub32 (frm_len word) 4) n,
            r.0,
            rw e (r.1),
            inl (intact, refl),
          )
      | inr (e, broken) ↦ (
        n,
        clean_lines (line_count mac.rx_packet (mac.rx_packet + 64)) (line_of mac.rx_packet)
            (wipe mac.rx_packet 64 ∷ h),
        rw e refl,
        inr (broken, refl),
      )
    ]

    -- The outcome before the descriptor is filled again.
    told :
        (n : Net) (h : History)
        → is_told hw mac iobase h ≡ true
        → (n' : Net) × (h' : History) × (accept hw handle packet_at patience mac iobase
              (frame_of hw mac iobase h)
              n
              (at_stop hw mac iobase h)
            ≡ some (n', h'))
          × IsSorted h n n'
    unfolding accept dma_rx_enable clear_bits
    told n h e =
        let r =
          sort_received-ends (frame_of hw mac iobase h) (status_of hw mac iobase h) n
            (load mac.dma_desc_rx ∷ at_word hw mac iobase h) in
        (
          r.0,
          r.1,
          r.2,
          elim (r.3) [
            | inl (intact, k) ↦ inl (e, intact, k)
            | inr (broken, k) ↦ inr (inr broken, k)
          ],
        )

    collect-IsSorted :
        (n : Net) (h : History)
        → mac.rx_packet < 2 ^ 64
        → (n' : Net) × (h' : History) × (collect hw handle packet_at patience mac iobase n
              (load mac.dma_desc_rx ∷ at_start hw mac iobase h)
            ≡ some (n', h'))
          × IsArmed hw mac iobase h'
          × IsSorted h n n'
    unfolding collect invalidate_dcache_range
    collect-IsSorted n h small = elim (Bool-cases (is_told hw mac iobase h)) [
      | inl e ↦
          let t = told n h e in
          let f = refill-refilled hw mac iobase t.1 in
          (
            t.0,
            refilled hw mac iobase t.1,
            rw (e, t.2, proceed)
                (ap (λ (r : Option (Unit {0} × History)). proceed r (λ _. pure t.0)) f),
            refilled-IsArmed hw mac iobase t.1 small,
            t.3,
          )
      | inr e ↦
          let f = refill-refilled hw mac iobase (at_stop hw mac iobase h) in
          (
            n,
            refilled hw mac iobase (at_stop hw mac iobase h),
            rw e (ap (λ (r : Option (Unit {0} × History)). proceed r (λ _. pure n)) f),
            refilled-IsArmed hw mac iobase (at_stop hw mac iobase h) small,
            inr (inl e, refl),
          )
    ]

    -- Where waiting in geth_xmit is over in fewer rounds than the patience, the stack's packets are at
    -- addresses of 64 bits, and so is the receive buffer, geth_recv ends. If the DMA owns the descriptor, the network
    -- stack and the memory are as before. Otherwise the DMA gets the descriptor back, with the whole
    -- buffer, as the last access; a frame without errors of which the interrupt status tells is handed
    -- to the stack, from the buffer and without its last four bytes, and for any other the stack is as
    -- it was.
    pub geth_recv-IsArmed :
        (n : Net) (h : History)
        → mac.rx_packet < 2 ^ 64
        → (n' : Net) × (h' : History) × (geth_recv hw handle packet_at patience mac iobase n h
            ≡ some (n', h'))
          × (((is_empty hw mac iobase h ≡ true)
                × (n' ≡ n)
                × ((a : ℕ) → in_memory h' a ≡ in_memory h a))
              ⊎ ((is_empty hw mac iobase h ≡ false) × IsArmed hw mac iobase h' × IsSorted h n n'))
    unfolding geth_recv invalidate_dcache_range in_memory
    geth_recv-IsArmed n h small = elim (Bool-cases (is_empty hw mac iobase h)) [
      | inl e ↦ (
        n,
        load mac.dma_desc_rx ∷ at_start hw mac iobase h,
        rw e refl,
        inl (
          e,
          refl,
          in_memory-discard_lines (line_count mac.dma_desc_rx (mac.dma_desc_rx + 64))
              (line_of mac.dma_desc_rx) h,
        ),
      )
      | inr e ↦ let c = collect-IsSorted n h small in (c.0, c.1, rw e c.2, inr (e, c.3, c.4))
    ]
