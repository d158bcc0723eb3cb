-- ===== src/Net/Ether/Laws.antt =====
-- What `net_set_ether` writes, and how much.
use emac_driver.Common.{
  ◌<<<◌, ◌≤◌, ap, ◌∙◌, bit_or, ◌/◌, ℕ, ◌+◌, ◌*◌, ◌%◌, ◌<◌, ◌^◌, ◌≡◌, refl, arith, Bool, true, false,
  ◌==◌, low_bits, inl, inr, Bool-cases,
}
use emac_driver.Common.Buffer.{
  Buffer, IsBytes, load16, store16, copy, copy-IsBytes, store16-IsBytes,
}
use emac_driver.Common.Bits.{bit_or_comm, bit_or-zero}
use emac_driver.Byteorder.{htons, ntohs}
use emac_driver.Byteorder.Laws.{stored_htons}
use emac_driver.Net.{Net}
use emac_driver.Net.Ether.{
  vlan_of, vlan_none, net_eth_hdr_size, net_set_ether, ether_hdr_size, vlan_ether_hdr_size,
  prot_vlan,
}

abbrev pub untagged : Net → Bool
unfolding vlan_of
untagged n = low_bits (vlan_of n.net_our_vlan) 12 == vlan_none

-- A stored number selects no VLAN whether it is read as it is or by way of its default.
pub vlan_of-low_bits : (stored : ℕ) → low_bits (vlan_of stored) 12 ≡ low_bits (ntohs stored) 12
unfolding vlan_of
vlan_of-low_bits stored = ground arith

-- The header that `net_set_ether` writes starts with the destination and the own address, its size
-- is what `net_eth_hdr_size` promises, and nothing behind it changes.
pub net_set_ether-net_eth_hdr_size :
    (n : Net) (xet dest : Buffer) (prot : ℕ)
    → let (et, size) = net_set_ether n xet dest prot in
      (size ≡ net_eth_hdr_size n)
      × ((i : ℕ) → i < 6 → et i ≡ dest i)
      × ((i : ℕ) → i < 6 → et (6 + i) ≡ n.net_ethaddr i)
      × ((i : ℕ) → et (size + i) ≡ xet (size + i))
unfolding net_set_ether net_eth_hdr_size untagged
net_set_ether-net_eth_hdr_size n xet dest prot = elim (Bool-cases (untagged n)) [
  | inl h ↦ rw h (refl, λ i l. ground arith, λ i l. ground arith, λ i. ground arith)
  | inr h ↦ rw h (refl, λ i l. ground arith, λ i l. ground arith, λ i. ground arith)
]

-- The VLAN tag as a receiver reads it.
pub net_set_ether-untagged :
    (n : Net) (xet dest : Buffer) (prot : ℕ)
    → untagged n ≡ true
    → prot < 2 ^ 16
    → let (et, size) = net_set_ether n xet dest prot in
      (size ≡ ether_hdr_size) × (ntohs (load16 et 12) ≡ prot)
unfolding net_set_ether untagged
net_set_ether-untagged n xet dest prot h l = rw h (refl, stored_htons prot l)

pub net_set_ether_tagged :
    (n : Net) (xet dest : Buffer) (prot : ℕ)
    → untagged n ≡ false
    → prot < 2 ^ 16
    → let (et, size) = net_set_ether n xet dest prot in
      (size ≡ vlan_ether_hdr_size)
      × (ntohs (load16 et 12) ≡ prot_vlan)
      × (ntohs (load16 et 14) ≡ low_bits (vlan_of n.net_our_vlan) 12)
      × (ntohs (load16 et 16) ≡ prot)
unfolding net_set_ether untagged
net_set_ether_tagged n xet dest prot h l =
    let v = low_bits (vlan_of n.net_our_vlan) 12 in
    rw h (
      refl,
      stored_htons prot_vlan (omega arith),
      ap (λ t. ntohs (htons t % 256 + 256 * (htons t / 256 % 256))) {y = v}
            (bit_or_comm 0 v ∙ bit_or-zero v)
          ∙ stored_htons v (omega arith),
      stored_htons prot l,
    )

pub net_set_ether-IsBytes :
    (n : Net) (xet dest : Buffer) (prot : ℕ)
    → IsBytes xet
    → IsBytes dest
    → IsBytes n.net_ethaddr
    → IsBytes (net_set_ether n xet dest prot).0
unfolding net_set_ether
net_set_ether-IsBytes n xet dest prot h k l = elim (Bool-cases (untagged n)) [
  | inl u ↦ rw u (store16-IsBytes 12 (htons prot) (addresses-IsBytes))
  | inr t ↦ rw t (
      store16-IsBytes 16 (htons prot) (
        store16-IsBytes 14 (htons (bit_or (0 <<< 5) (low_bits (vlan_of n.net_our_vlan) 12)))
          (store16-IsBytes 12 (htons prot_vlan) addresses-IsBytes)))
]
  where
    addresses-IsBytes : IsBytes (copy (copy xet 0 dest 0 6) 6 n.net_ethaddr 0 6)
    addresses-IsBytes = copy-IsBytes 6 0 6 (copy-IsBytes 0 0 6 h k) l

pub net_eth_hdr_size-le : (n : Net) → net_eth_hdr_size n ≤ 18
unfolding net_eth_hdr_size
net_eth_hdr_size-le n = ground arith

-- The two forms of the header.
pub untagged_ether :
    (n : Net) (xet dest : Buffer) (prot : ℕ)
    → untagged n ≡ true
    → net_set_ether n xet dest prot
      ≡ (store16 (copy (copy xet 0 dest 0 6) 6 n.net_ethaddr 0 6) 12 (htons prot), ether_hdr_size)
unfolding net_set_ether
untagged_ether n xet dest prot u = rw u refl

pub tagged_ether :
    (n : Net) (xet dest : Buffer) (prot : ℕ)
    → untagged n ≡ false
    → net_set_ether n xet dest prot ≡ (
      store16
          (store16
            (store16 (copy (copy xet 0 dest 0 6) 6 n.net_ethaddr 0 6) 12 (htons prot_vlan))
            14
            (htons (bit_or (0 <<< 5) (low_bits (vlan_of n.net_our_vlan) 12))))
          16
          (htons prot),
      vlan_ether_hdr_size,
    )
unfolding net_set_ether
tagged_ether n xet dest prot t = rw t refl

pub net_eth_hdr_size-eq :
    (n m : Net) → m.net_our_vlan ≡ n.net_our_vlan → net_eth_hdr_size m ≡ net_eth_hdr_size n
unfolding net_eth_hdr_size
net_eth_hdr_size-eq n m same = rw same refl
