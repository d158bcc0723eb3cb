-- ===== src/Geth/Transmit/Laws.antt =====
-- What geth_xmit of net/emac/sunxi_geth.c leaves for the transmit DMA.
use emac_driver.Common.{
  ℕ, ◌+◌, ◌%◌, ◌^◌, ◌<◌, ◌≡◌, refl, ◌∙◌, ap, arith, ◌∷◌, some, bit_and, bit_or, u32, u64, ==_refl,
}
use emac_driver.Common.Bits.{bit_or-add, bit_and-ones}
use emac_driver.Io.{
  History, Hardware, load, store, proceed, line_of, line_count, set_bits, clear_bits, get_timer,
  runtime_tick, flush_dcache_range,
}
use emac_driver.Io.Laws.{last_store, in_memory}
use emac_driver.Geth.{Mac, geth_tx_ctl1, geth_tx_desc_list}
use emac_driver.Geth.Descriptor.{
  IsHandedOver, enable_bit, flushed, flushed-owned, flushed-sized, flushed-pointed,
}
use emac_driver.Geth.Transmit.Wait.{IsPatient, status_at, limit_at, begun, wait_sent-polled}
use emac_driver.Geth.Transmit.{geth_xmit, send_descriptor, dma_tx_enable}

size_word :
    (length : ℕ) → u32 (bit_or 0x61000000 (bit_and length 0x7FF)) ≡ 0x61000000 + length % 2 ^ 11
size_word length =
    rw
      (
        bit_and-ones 11 length 0x7FF refl,
        bit_or-add 24 0x61000000 (length % 2 ^ 11) (omega arith) (omega arith),
      )
      (omega arith)

module _ (hw : Hardware) (mac : Mac) (iobase packet length : ℕ) where
  abbrev control : ℕ
  control = iobase + geth_tx_ctl1

  abbrev list : ℕ
  list = iobase + geth_tx_desc_list

  abbrev word1 : ℕ
  word1 = u32 (bit_or 0x61000000 (bit_and length 0x7FF))

  abbrev lines : ℕ
  lines = line_count packet (packet + length)

  abbrev first : ℕ
  first = line_of packet

  abbrev cleaned : History → History
  cleaned = flushed mac.dma_desc_tx word1 (u64 packet) 24 lines first

  abbrev listed : History → History
  listed h =
      store list (u32 mac.dma_desc_tx)
      ∷ store control (u32 (bit_or (u32 (hw.value (cleaned h) control)) 1))
      ∷ load control
      ∷ cleaned h

  -- `send_descriptor` always ends, and the descriptor is handed over.
  send_descriptor-IsHandedOver :
      (h : History)
      → packet < 2 ^ 64
      → (h' : History) × (send_descriptor hw mac iobase packet length h ≡ some (0, h'))
        × IsHandedOver h' mac.dma_desc_tx (0x61000000 + length % 2 ^ 11) packet list control
  unfolding send_descriptor flush_dcache_range set_bits dma_tx_enable in_memory last_store
  send_descriptor-IsHandedOver h small = (
    store control (u32 (bit_or (u32 (hw.value (listed h) control)) 0x40000000))
        ∷ load control
        ∷ listed h,
    refl,
    record {
      before = load control ∷ listed h;
      enable = u32 (bit_or (u32 (hw.value (listed h) control)) 0x40000000);
      latest = refl;
      running = enable_bit (u32 (hw.value (listed h) control));
      owned = flushed-owned mac.dma_desc_tx word1 (u64 packet) 24 lines first h (omega arith);
      sized =
          flushed-sized mac.dma_desc_tx word1 (u64 packet) 24 lines first h (omega arith)
          ∙ ap some (size_word length);
      pointed =
          flushed-pointed mac.dma_desc_tx word1 (u64 packet) 24 lines first h (omega arith)
          ∙ ap some (omega arith);
      listed = rw (==_refl list) refl;
    },
  )

-- If in fewer rounds of the waiting loop than the patience the DMA is ready or the time is over, then
-- geth_xmit returns 0, and its last access starts the DMA on a descriptor that is in memory,
-- owned by the DMA, with the low 11 bits of the length and the address of the packet.
pub geth_xmit-IsHandedOver :
    (hw : Hardware) (patience : ℕ) (mac : Mac) (iobase packet length : ℕ) (h : History)
    → IsPatient hw patience mac.dma_desc_tx iobase
    → packet < 2 ^ 64
    → (h' : History) × (geth_xmit hw patience mac iobase packet length h ≡ some (0, h'))
      × IsHandedOver h' mac.dma_desc_tx
          (0x61000000 + length % 2 ^ 11)
          packet
          (iobase + geth_tx_desc_list)
          (iobase + geth_tx_ctl1)
unfolding geth_xmit get_timer runtime_tick dma_tx_enable set_bits clear_bits
geth_xmit-IsHandedOver hw patience mac iobase packet length h patient small =
    let ready = patient h in
    let w =
      wait_sent-polled hw mac.dma_desc_tx (status_at hw iobase h) (limit_at hw iobase h) ready.0
        patience (begun iobase h) ready.1 ready.2 in
    rw (w.1, proceed) (send_descriptor-IsHandedOver hw mac iobase packet length _ small)
