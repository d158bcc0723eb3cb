-- ===== src/Geth/Rx/Laws.antt =====
-- Which received frames rx_status of net/emac/sunxi_geth.c takes.
use emac_driver.Common.{
  ℕ, ◌/◌, ◌%◌, ◌^◌, ◌≡◌, ◌⊎◌, inl, inr, refl, arith, Bool, false, ◌&&◌, ◌||◌, Bool-cases,
}
use emac_driver.Geth.Rx.{
  RxFrameStatus, rx_status, chsum_err, mii_err, frm_type, ipch_err, last_desc, len_err, err_sum,
}

-- The frame ends in this descriptor, with no error of the MAC, of its length or on the medium, and,
-- if it is an Ethernet frame, with no error in a checksum.
pub record IsIntact (word : ℕ) : Type 0 where
  pub last : word / 2 ^ 8 % 2 ≡ 1
  pub checked : (word / 2 ^ 5 % 2 ≡ 0) ⊎ ((word % 2 ≡ 0) × (word / 2 ^ 7 % 2 ≡ 0))
  pub sound : word / 2 ^ 15 % 2 ≡ 0
  pub whole : word / 2 ^ 12 % 2 ≡ 0
  pub clear : word / 2 ^ 3 % 2 ≡ 0

abbrev bad_checksum : ℕ → Bool
bad_checksum word = frm_type word && (chsum_err word || ipch_err word)

checked_lem :
    (word : ℕ)
    → bad_checksum word ≡ false
    → (word / 2 ^ 5 % 2 ≡ 0) ⊎ ((word % 2 ≡ 0) × (word / 2 ^ 7 % 2 ≡ 0))
checked_lem word e = ground (arith, e)

pub rx_status-cases :
    (word : ℕ)
    → ((rx_status word ≡ RxFrameStatus.good_frame) × IsIntact word)
      ⊎ ((rx_status word ≡ RxFrameStatus.discard_frame) × ¬ IsIntact word)
unfolding rx_status
rx_status-cases word = elim (Bool-cases (mii_err word)) [
  | inl e ↦ inr (rw e refl, λ s. ground (arith, e, s.clear))
  | inr e ↦ elim (Bool-cases (len_err word)) [
    | inl e1 ↦ inr (rw (e, e1) refl, λ s. ground (arith, e1, s.whole))
    | inr e1 ↦ elim (Bool-cases (err_sum word)) [
      | inl e2 ↦ inr (rw (e, e1, e2) refl, λ s. ground (arith, e2, s.sound))
      | inr e2 ↦ elim (Bool-cases (bad_checksum word)) [
        | inl e3 ↦ inr (rw (e, e1, e2, e3) refl, λ s. ground (arith, e3, s.checked))
        | inr e3 ↦ elim (Bool-cases (last_desc word)) [
          | inr e4 ↦ inr (rw (e, e1, e2, e3, e4) refl, λ s. ground (arith, e4, s.last))
          | inl e4 ↦ inl (
            rw (e, e1, e2, e3, e4) refl,
            record {
              last = ground (arith, e4);
              checked = checked_lem word e3;
              sound = ground (arith, e2);
              whole = ground (arith, e1);
              clear = ground (arith, e);
            },
          )
        ]
      ]
    ]
  ]
]
