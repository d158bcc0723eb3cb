-- ===== src/Geth/Transmit.antt =====
-- geth_xmit of net/emac/sunxi_geth.c: a frame is handed to the transmit DMA.
pub mod Wait
pub mod Laws
use emac_driver.Common.{
  ℕ, zero, suc, ◌+◌, ◌*◌, ◌%◌, ◌^◌, Bool, true, false, not, ◌&&◌, ◌||◌, ◌∷◌, none, some, ltb, ◌==◌,
  if◌then◌else◌, bit_and, bit_or, u32, u64, sext32,
}
use emac_driver.Io.{
  Hardware, Io, ◌>>=◌, ◌>>◌, pure, writel, write_pointer, readl, set_bits, clear_bits, get_timer,
  flush_cache,
}
use emac_driver.Geth.{
  Mac, geth_tx_ctl1, geth_int_sta, geth_tx_dma_sta, geth_tx_desc_list, own, desc0, desc1, desc2,
  desc_size,
}

module _ (hw : Hardware) where
  unfoldable pub dma_tx_enable : ℕ → Bool → Io (Unit {0})
  unfolding set_bits clear_bits
  dma_tx_enable iobase true = set_bits hw 0x40000000 (iobase + geth_tx_ctl1)
  dma_tx_enable iobase false = clear_bits hw 0x40000000 (iobase + geth_tx_ctl1)

  -- The loop at the start, until the last packet is sent or `tmo` has passed. `xmit_stat` is read
  -- before it only.
  unfoldable pub wait_sent : ℕ → ℕ → ℕ → ℕ → Io (Unit {0})
  unfolding get_timer
  wait_sent zero tx_p xmit_stat tmo h = none
  wait_sent (suc patience) tx_p xmit_stat tmo h =
      let again = wait_sent patience tx_p xmit_stat tmo in
      (do
        word ← readl hw (desc0 tx_p)
        (if own word || (not (xmit_stat == 0) && not (xmit_stat == 6))
            then (get_timer hw 0 >>= λ now. if ltb (sext32 tmo) now then pure tt else again)
            else pure tt))
        h

  -- From the filling of the descriptor on.
  unfoldable pub send_descriptor : Mac → ℕ → ℕ → ℕ → Io ℕ
  unfolding dma_tx_enable set_bits flush_cache
  send_descriptor mac iobase packet length = do
    writel 0x80000000 (desc0 mac.dma_desc_tx)
    writel (bit_or 0x61000000 (bit_and length 0x7FF)) (desc1 mac.dma_desc_tx)
    write_pointer packet (desc2 mac.dma_desc_tx)
    flush_cache mac.dma_desc_tx desc_size
    flush_cache packet length
    set_bits hw 1 (iobase + geth_tx_ctl1)
    writel mac.dma_desc_tx (iobase + geth_tx_desc_list)
    dma_tx_enable iobase true
    pure 0

  unfoldable pub geth_xmit : ℕ → Mac → ℕ → ℕ → ℕ → Io ℕ
  unfolding wait_sent dma_tx_enable set_bits get_timer send_descriptor
  geth_xmit patience mac iobase packet length = do
    status ← readl hw (iobase + geth_tx_dma_sta)
    now ← get_timer hw 0
    wait_sent patience mac.dma_desc_tx (bit_and status 7) (u32 (now + 5000))
    dma_tx_enable iobase false
    set_bits hw 0x3F (iobase + geth_int_sta)
    send_descriptor mac iobase packet length
