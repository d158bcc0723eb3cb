-- ===== src/Net/Ether/Update.antt =====
-- `net_update_ether` turns a received frame round: its header becomes one of `net_set_ether`.
use emac_driver.Common.{
  ℕ, ◌/◌, ◌%◌, ◌≤◌, ◌<◌, ◌^◌, ◌≡◌, ◌≢◌, refl, ap, sym, arith, true, false, bit_or, low_bits, ◌<<<◌,
  inl, inr, Bool-cases, ne→==, lt→ltb,
}
use emac_driver.Common.Buffer.{Buffer, load16}
use emac_driver.Byteorder.{htons, ntohs}
use emac_driver.Net.{Net}
use emac_driver.Net.Ether.{vlan_of, net_eth_hdr_size, net_set_ether, net_update_ether, prot_vlan}
use emac_driver.Net.Ether.Laws.{
  untagged, net_set_ether-untagged, net_set_ether_tagged, untagged_ether, tagged_ether,
}

-- A frame whose header a station of the same VLAN has set, for a 16-bit protocol above 1514 that is
-- not PROT_VLAN, keeps the size of its header, gets the header that `net_set_ether` would give it,
-- and keeps what is behind it.
pub net_update_ether-net_set_ether :
    (n m : Net) (xet dest frame addr : Buffer) (prot : ℕ)
    → m.net_our_vlan ≡ n.net_our_vlan
    → 1514 < prot
    → prot < 2 ^ 16
    → prot ≢ prot_vlan
    → ((i : ℕ) → i < net_eth_hdr_size n → frame i ≡ (net_set_ether n xet dest prot).0 i)
    → let (et, size) = net_update_ether m frame addr prot in
      (size ≡ net_eth_hdr_size m)
      × ((i : ℕ) → i < net_eth_hdr_size m → et i ≡ (net_set_ether m frame addr prot).0 i)
      × ((i : ℕ) → net_eth_hdr_size m ≤ i → et i ≡ frame i)
unfolding net_eth_hdr_size net_update_ether
net_update_ether-net_set_ether n m xet dest frame addr prot same lo hi ne agree =
    elim (Bool-cases (untagged n)) [
      | inl u ↦
          let u' : untagged m ≡ true = rw same u in
          let a : (i : ℕ) → i < 14 → frame i ≡ (net_set_ether n xet dest prot).0 i =
            rw u at agree in
          let here : ntohs (load16 frame 12) ≡ prot =
            rw (a 12 (omega arith), a 13 (omega arith))
              ((net_set_ether-untagged n xet dest prot u hi).1) in
          rw (u', here, ne→== prot prot_vlan ne, lt→ltb 1514 prot lo)
            (
              refl,
              λ i l. ap (λ (r : Buffer × ℕ). r.0 i) (sym (untagged_ether m frame addr prot u')),
              λ i l. ground arith,
            )
      | inr t ↦
          let t' : untagged m ≡ false = rw same t in
          let a : (i : ℕ) → i < 18 → frame i ≡ (net_set_ether n xet dest prot).0 i =
            rw t at agree in
          let here : ntohs (load16 frame 12) ≡ prot_vlan =
            rw (a 12 (omega arith), a 13 (omega arith))
              ((net_set_ether_tagged n xet dest prot t hi).1) in
          let set = tagged_ether n xet dest prot t in
          let b : (i : ℕ) → i < 18 → _ = rw set at a in
          let f12 : frame 12 ≡ htons prot_vlan % 256 = b 12 (omega arith) in
          let f13 : frame 13 ≡ htons prot_vlan / 256 % 256 = b 13 (omega arith) in
          let tag = htons (bit_or (0 <<< 5) (low_bits (vlan_of n.net_our_vlan) 12)) in
          let f14 : frame 14 ≡ tag % 256 = b 14 (omega arith) in
          let f15 : frame 15 ≡ tag / 256 % 256 = b 15 (omega arith) in
          rw (t', here)
            (
              refl,
              λ i l.
                  rw (tagged_ether m frame addr prot t', same) (ground (arith, f12, f13, f14, f15)),
              λ i l. ground arith,
            )
    ]
