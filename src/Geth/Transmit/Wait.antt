-- ===== src/Geth/Transmit/Wait.antt =====
-- How long geth_xmit of net/emac/sunxi_geth.c waits for the last frame.
use emac_driver.Common.{
  zero, suc, Bool, true, false, not, ◌&&◌, ◌||◌, ◌⊎◌, inl, inr, ltb, Bool-cases, ◌==◌, ℕ, ◌+◌, ◌/◌,
  ◌<◌, ◌≡◌, refl, arith, ◌∷◌, some, bit_and, u32, u64, sub64, sext32,
}
use emac_driver.Io.{History, Hardware, load, get_timer, runtime_tick, tick}
use emac_driver.Geth.{own, geth_tx_dma_sta}
use emac_driver.Geth.Transmit.{wait_sent}

-- What `get_timer(0)` gives.
abbrev pub now_at : Hardware → History → ℕ
now_at hw h = sub64 (sext32 (u32 (u64 (hw.clock h) / 24000))) 0

-- The accesses of `n` rounds of the loop that waits for the last frame.
abbrev pub polled : ℕ → ℕ → History → History
polled tx_p zero h = h
polled tx_p (suc n) h = polled tx_p n (tick ∷ load tx_p ∷ h)

module _ (hw : Hardware) (tx_p xmit_stat tmo : ℕ) where
  -- The DMA still owns the descriptor, or its status was neither 0 nor 6.
  abbrev pub is_busy : History → Bool
  is_busy h = own (u32 (hw.value h tx_p)) || (not (xmit_stat == 0) && not (xmit_stat == 6))

  abbrev pub is_late : History → Bool
  is_late h = ltb (sext32 tmo) (now_at hw (load tx_p ∷ h))

  -- The loop ends in the first round in which the DMA is ready or the time is over.
  pub wait_sent-polled :
      (n patience : ℕ) (h : History)
      → n < patience
      → (is_busy (polled tx_p n h) ≡ false) ⊎ (is_late (polled tx_p n h) ≡ true)
      → (h' : History) × (wait_sent hw patience tx_p xmit_stat tmo h ≡ some (tt, h'))
  unfolding wait_sent get_timer runtime_tick
  wait_sent-polled n zero h l over = absurd (omega arith)
  wait_sent-polled zero (suc patience) h l (inl e) = (load tx_p ∷ h, rw e refl)
  wait_sent-polled zero (suc patience) h l (inr e) = elim (Bool-cases (is_busy h)) [
    | inl b ↦ (tick ∷ load tx_p ∷ h, rw b (rw e refl))
    | inr b ↦ (load tx_p ∷ h, rw b refl)
  ]
  wait_sent-polled (suc n) (suc patience) h l over = elim (Bool-cases (is_busy h)) [
    | inr b ↦ (load tx_p ∷ h, rw b refl)
    | inl b ↦ elim (Bool-cases (is_late h)) [
      | inl t ↦ (tick ∷ load tx_p ∷ h, rw b (rw t refl))
      | inr t ↦
          let r = wait_sent-polled n patience (tick ∷ load tx_p ∷ h) (omega arith) over in
          (r.0, rw b (rw t r.1))
    ]
  ]

-- When a frame is to be sent: the status that is read, and the time at which waiting ends.
abbrev pub status_at : Hardware → ℕ → History → ℕ
status_at hw iobase h = bit_and (u32 (hw.value h (iobase + geth_tx_dma_sta))) 7

abbrev pub limit_at : Hardware → ℕ → History → ℕ
limit_at hw iobase h = u32 (now_at hw (load (iobase + geth_tx_dma_sta) ∷ h) + 5000)

abbrev pub begun : ℕ → History → History
begun iobase h = tick ∷ load (iobase + geth_tx_dma_sta) ∷ h

-- Whenever a frame is to be sent, in one of fewer rounds than the patience the DMA is ready or five
-- seconds are over.
abbrev pub IsPatient : Hardware → ℕ → ℕ → ℕ → Type 0
IsPatient hw patience tx_p iobase =
    (h : History)
    → (n : ℕ) × (n < patience)
      × ((is_busy hw tx_p (status_at hw iobase h) (limit_at hw iobase h)
              (polled tx_p n (begun iobase h))
            ≡ false)
          ⊎ (is_late hw tx_p (status_at hw iobase h) (limit_at hw iobase h)
                (polled tx_p n (begun iobase h))
              ≡ true))
