-- ===== src/Geth/Receive/Reads.antt =====
-- What one call of geth_recv of net/emac/sunxi_geth.c reads, and when.
use emac_driver.Common.{ℕ, ◌+◌, Bool, ◌∷◌, bit_and, not32, u32, has_bits}
use emac_driver.Common.Buffer.{Buffer}
use emac_driver.Io.{History, Hardware, load, store, fetch, discard_lines, line_of, line_count}
use emac_driver.Geth.{Mac, own, geth_int_sta, geth_rx_ctl1}

-- The memory and the registers that one call of geth_recv reads, in this order.
module _ (hw : Hardware) (mac : Mac) (iobase : ℕ) where
  -- After the invalidation of the descriptor's lines, and of the buffer's.
  abbrev pub at_start : History → History
  at_start h =
      discard_lines (line_count mac.dma_desc_rx (mac.dma_desc_rx + 64)) (line_of mac.dma_desc_rx) h

  abbrev pub at_buffer : History → History
  at_buffer h =
      discard_lines (line_count mac.rx_packet (mac.rx_packet + 2048)) (line_of mac.rx_packet)
        (load mac.dma_desc_rx ∷ at_start h)

  abbrev pub at_status : History → History
  at_status h = fetch mac.rx_packet ∷ at_buffer h

  abbrev pub at_stop : History → History
  at_stop h = load (iobase + geth_int_sta) ∷ at_status h

  abbrev pub at_word : History → History
  at_word h =
      store (iobase + geth_int_sta) 0x3F00
      ∷ store (iobase + geth_rx_ctl1)
          (u32 (bit_and (u32 (hw.value (at_stop h) (iobase + geth_rx_ctl1))) (not32 0x40000000)))
      ∷ load (iobase + geth_rx_ctl1)
      ∷ at_stop h

  -- The DMA owns the descriptor.
  abbrev pub is_empty : History → Bool
  is_empty h = own (u32 (hw.value (at_start h) mac.dma_desc_rx))

  abbrev pub frame_of : History → Buffer
  frame_of h = hw.contents (at_buffer h) mac.rx_packet

  abbrev pub is_told : History → Bool
  is_told h = has_bits (u32 (hw.value (at_status h) (iobase + geth_int_sta))) 0x2300

  abbrev pub status_of : History → ℕ
  status_of h = u32 (hw.value (at_word h) mac.dma_desc_rx)
