-- ===== src/Geth/Receive/Armed.antt =====
-- What geth_recv of net/emac/sunxi_geth.c leaves for the receive DMA.
use emac_driver.Common.{
  [], ℕ, ◌+◌, ◌^◌, ◌<◌, ◌≡◌, refl, ◌∙◌, ap, arith, ◌∷◌, some, bit_or, u32, u64, ==_refl,
}
use emac_driver.Io.{History, Hardware, load, store, set_bits, flush_dcache_range}
use emac_driver.Io.{line_of, line_count, clean_lines}
use emac_driver.Io.Laws.{Extends, Extends-cons, clean_lines-Extends, last_store, in_memory}
use emac_driver.Geth.{Mac, geth_rx_ctl1, geth_rx_desc_list}
use emac_driver.Geth.Descriptor.{
  IsHandedOver, enable_bit, filled, flushed, flushed-owned, flushed-sized, flushed-pointed,
}
use emac_driver.Geth.Receive.{refill, dma_rx_enable}

module _ (hw : Hardware) (mac : Mac) (iobase : ℕ) where
  abbrev control : ℕ
  control = iobase + geth_rx_ctl1

  abbrev list : ℕ
  list = iobase + geth_rx_desc_list

  abbrev listed : History → History
  listed h =
      store list (u32 mac.dma_desc_rx)
      ∷ flushed mac.dma_desc_rx 0x810007FF (u64 mac.rx_packet) 64 0 0 h

  -- The receive descriptor is the DMA's, with the whole buffer.
  abbrev pub IsArmed : History → Type 0
  IsArmed h = IsHandedOver h mac.dma_desc_rx 0x810007FF mac.rx_packet list control

  -- The history after the descriptor is filled again.
  abbrev pub refilled : History → History
  refilled h =
      store control (u32 (bit_or (u32 (hw.value (listed h) control)) 0x40000000))
      ∷ load control
      ∷ listed h

  pub refill-refilled : (h : History) → refill hw mac iobase h ≡ some (tt, refilled h)
  unfolding refill flush_dcache_range set_bits dma_rx_enable
  refill-refilled h = refl

  pub refilled-IsArmed : (h : History) → mac.rx_packet < 2 ^ 64 → IsArmed (refilled h)
  unfolding in_memory last_store
  refilled-IsArmed h small = record {
    before = load control ∷ listed h;
    enable = u32 (bit_or (u32 (hw.value (listed h) control)) 0x40000000);
    latest = refl;
    running = enable_bit (u32 (hw.value (listed h) control));
    owned = flushed-owned mac.dma_desc_rx 0x810007FF (u64 mac.rx_packet) 64 0 0 h (omega arith);
    sized = flushed-sized mac.dma_desc_rx 0x810007FF (u64 mac.rx_packet) 64 0 0 h (omega arith);
    pointed =
        flushed-pointed mac.dma_desc_rx 0x810007FF (u64 mac.rx_packet) 64 0 0 h (omega arith)
        ∙ ap some (omega arith);
    listed = rw (==_refl list) refl;
  }

  -- Nothing of what was done before is lost.
  pub refilled-Extends : (h : History) → Extends (refilled h) h
  unfolding clean_lines
  refilled-Extends h = Extends-cons _ _ h (
      Extends-cons _ _ h (
        Extends-cons _ _ h (
          clean_lines-Extends (line_count mac.dma_desc_rx (mac.dma_desc_rx + 64))
            (line_of mac.dma_desc_rx) (filled mac.dma_desc_rx 0x810007FF (u64 mac.rx_packet) h) h
            (Extends-cons _ _ h (Extends-cons _ _ h (Extends-cons _ _ h ([], refl)))))))
