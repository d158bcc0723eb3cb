-- ===== src/Geth/Rx.antt =====
-- The status word of a received frame in net/emac/sunxi_geth.c: the fields of RDES0, and rx_status.
pub mod Laws
use emac_driver.Common.{
  ℕ, ◌*◌, ◌/◌, ◌%◌, ◌^◌, Bool, not, ◌&&◌, ◌||◌, ◌==◌, if◌then◌else◌, low_bits, ◌>>>◌,
}
use emac_driver.Geth.{flag}

abbrev pub chsum_err : ℕ → Bool
chsum_err word = flag word 0

abbrev pub mii_err : ℕ → Bool
mii_err word = flag word 3

abbrev pub frm_type : ℕ → Bool
frm_type word = flag word 5

abbrev pub ipch_err : ℕ → Bool
ipch_err word = flag word 7

abbrev pub last_desc : ℕ → Bool
last_desc word = flag word 8

abbrev pub len_err : ℕ → Bool
len_err word = flag word 12

abbrev pub err_sum : ℕ → Bool
err_sum word = flag word 15

abbrev pub frm_len : ℕ → ℕ
frm_len word = low_bits (word >>> 16) 14

pub data RxFrameStatus : Type 0 where
  good_frame discard_frame csum_none llc_snap : RxFrameStatus

unfoldable pub rx_status : ℕ → RxFrameStatus
rx_status word =
    let ret = RxFrameStatus.good_frame in
    let ret1 = if not (last_desc word) then RxFrameStatus.discard_frame else ret in
    let ret2 =
      if frm_type word && (chsum_err word || ipch_err word)
      then RxFrameStatus.discard_frame
      else ret1 in
    let ret3 = if err_sum word then RxFrameStatus.discard_frame else ret2 in
    let ret4 = if len_err word then RxFrameStatus.discard_frame else ret3 in
    if mii_err word then RxFrameStatus.discard_frame else ret4
