-- ===== src/Geth/Receive.antt =====
-- geth_recv of net/emac/sunxi_geth.c: a received frame goes to the network stack, and what the stack
-- sends goes out by geth_xmit.
pub mod Reads
pub mod Armed
pub mod Echo
pub mod Laws
use emac_driver.Common.{
  ℕ, ◌+◌, ◌-◌, ◌*◌, ◌/◌, Bool, true, false, List, [], ◌∷◌, take, length, ◌^◌, if◌then◌else◌,
  has_bits, sub32,
}
use emac_driver.Common.Buffer.{Buffer}
use emac_driver.Io.{
  Hardware, Io, ◌>>=◌, ◌>>◌, pure, writel, write_pointer, readl, fetch_buffer, wipe_buffer,
  set_bits, clear_bits, flush_cache, invalidate_dcache_range,
}
use emac_driver.Eth.{Frame}
use emac_driver.Net.{Net, Datagram}
use emac_driver.Net.Receive.{net_process_received_packet}
use emac_driver.Geth.{
  Mac, geth_rx_ctl1, geth_int_sta, geth_rx_desc_list, own, desc0, desc1, desc2, desc_size,
  align_line,
}
use emac_driver.Geth.Rx.{RxFrameStatus, rx_status, frm_len}
use emac_driver.Geth.Transmit.{geth_xmit}

module _ (hw : Hardware) where
  unfoldable pub dma_rx_enable : ℕ → Bool → Io (Unit {0})
  unfolding set_bits clear_bits
  dma_rx_enable iobase true = set_bits hw 0x40000000 (iobase + geth_rx_ctl1)
  dma_rx_enable iobase false = clear_bits hw 0x40000000 (iobase + geth_rx_ctl1)

  -- From the label `fill` on.
  unfoldable pub refill : Mac → ℕ → Io (Unit {0})
  unfolding dma_rx_enable flush_cache
  refill mac iobase = do
    writel 0x80000000 (desc0 mac.dma_desc_rx)
    writel 0x810007FF (desc1 mac.dma_desc_rx)
    write_pointer mac.rx_packet (desc2 mac.dma_desc_rx)
    flush_cache mac.dma_desc_rx (align_line desc_size)
    writel mac.dma_desc_rx (iobase + geth_rx_desc_list)
    dma_rx_enable iobase true

-- `packet_at` is the address of a frame that the stack sends.
module _ (hw : Hardware) (handle : ℕ → Datagram → Net → Net) (packet_at : Frame → ℕ)
    (patience : ℕ) where
  -- The oldest frame is the last of the list, and goes out first.
  unfoldable pub transmit : Mac → ℕ → List Frame → Io (Unit {0})
  unfolding geth_xmit
  transmit mac iobase [] = pure tt
  transmit mac iobase (f ∷ fs) = transmit mac iobase fs >>= λ _.
      geth_xmit hw patience mac iobase (packet_at f) f.length >>= λ _. pure tt

  -- The frames that `n'` has sent after `n`.
  abbrev pub new_frames : Net → Net → List Frame
  new_frames n n' = take (length n'.eth.sent - length n.eth.sent) n'.eth.sent

  unfoldable pub deliver : Mac → ℕ → Buffer → ℕ → Net → Io Net
  unfolding transmit flush_cache
  deliver mac iobase frame len n = do
    flush_cache mac.rx_packet 2048
    transmit mac iobase (new_frames n (net_process_received_packet handle frame len n))
    pure (net_process_received_packet handle frame len n)

  unfoldable pub discard_received : Mac → Net → Io Net
  unfolding flush_cache
  discard_received mac n = do wipe_buffer mac.rx_packet 64; flush_cache mac.rx_packet 64; pure n

  unfoldable pub sort_received : Mac → ℕ → Buffer → ℕ → Net → RxFrameStatus → Io Net
  unfolding deliver discard_received
  sort_received mac iobase frame word n RxFrameStatus.discard_frame = discard_received mac n
  sort_received mac iobase frame word n RxFrameStatus.llc_snap =
      deliver mac iobase frame (frm_len word) n
  sort_received mac iobase frame word n RxFrameStatus.good_frame =
      deliver mac iobase frame (sub32 (frm_len word) 4) n
  sort_received mac iobase frame word n RxFrameStatus.csum_none =
      deliver mac iobase frame (sub32 (frm_len word) 4) n

  -- After the interrupt status has told of a frame.
  unfoldable pub accept : Mac → ℕ → Buffer → Net → Io Net
  unfolding dma_rx_enable rx_status sort_received
  accept mac iobase frame n = do
    dma_rx_enable hw iobase false
    writel 0x3F00 (iobase + geth_int_sta)
    word ← readl hw (desc0 mac.dma_desc_rx)
    sort_received mac iobase frame word n (rx_status word)

  -- After the descriptor was found to be the program's.
  unfoldable pub collect : Mac → ℕ → Net → Io Net
  unfolding accept refill invalidate_dcache_range
  collect mac iobase n = do
    invalidate_dcache_range mac.rx_packet (mac.rx_packet + align_line 2048)
    frame ← fetch_buffer hw mac.rx_packet
    recv_stat ← readl hw (iobase + geth_int_sta)
    n' ← (if has_bits recv_stat 0x2300 then accept mac iobase frame n else pure n)
    refill hw mac iobase
    pure n'

  unfoldable pub geth_recv : Mac → ℕ → Net → Io Net
  unfolding collect invalidate_dcache_range
  geth_recv mac iobase n = do
    invalidate_dcache_range mac.dma_desc_rx (mac.dma_desc_rx + align_line desc_size)
    word ← readl hw (desc0 mac.dma_desc_rx)
    (if own word then pure n else collect mac iobase n)
