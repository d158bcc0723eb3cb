-- ===== src/Net/Ether.antt =====
-- The Ethernet header, with or without a VLAN tag: the end of net/net.c. A frame is a buffer from
-- its first byte on; functions return what they wrote and the size of the header.
pub mod Laws
pub mod Update
use emac_driver.Common.{ℕ, Bool, ltb, ◌==◌, if◌then◌else◌, bit_or, ◌<<<◌, low_bits}
use emac_driver.Common.Buffer.{Buffer, load16, store16, copy}
use emac_driver.Byteorder.{htons, ntohs}
use emac_driver.Net.{Net}

abbrev pub vlan_none : ℕ
vlan_none = 4095

abbrev pub prot_ip : ℕ
prot_ip = 0x0800

abbrev pub prot_arp : ℕ
prot_arp = 0x0806

abbrev pub prot_vlan : ℕ
prot_vlan = 0x8100

abbrev pub ether_hdr_size : ℕ
ether_hdr_size = 14

abbrev pub e802_hdr_size : ℕ
e802_hdr_size = 22

abbrev pub vlan_ether_hdr_size : ℕ
vlan_ether_hdr_size = 18

-- A stored VLAN number as it is used: 0xffff, the default, stands for none.
unfoldable pub vlan_of : ℕ → ℕ
vlan_of stored = let id = ntohs stored in if id == 0xffff then vlan_none else id

unfoldable pub net_eth_hdr_size : Net → ℕ
unfolding vlan_of
net_eth_hdr_size n =
    if low_bits (vlan_of n.net_our_vlan) 12 == vlan_none
    then ether_hdr_size
    else vlan_ether_hdr_size

unfoldable pub net_set_ether : Net → Buffer → Buffer → ℕ → Buffer × ℕ
unfolding vlan_of
net_set_ether n xet dest_ethaddr prot =
    let myvlanid = vlan_of n.net_our_vlan in
    let et = copy (copy xet 0 dest_ethaddr 0 6) 6 n.net_ethaddr 0 6 in
    if low_bits myvlanid 12 == vlan_none
    then (store16 et 12 (htons prot), ether_hdr_size)
    else (let tagged = store16 et 12 (htons prot_vlan) in
        let vet = store16 tagged 14 (htons (bit_or (0 <<< 5) (low_bits myvlanid 12))) in
        (store16 vet 16 (htons prot), vlan_ether_hdr_size))

-- `addr` is a buffer of its own or the source address of the same frame.
unfoldable pub net_update_ether : Net → Buffer → Buffer → ℕ → Buffer × ℕ
net_update_ether n et addr prot =
    let et' = copy (copy et 0 addr 0 6) 6 n.net_ethaddr 0 6 in
    let protlen = ntohs (load16 et' 12) in
    if protlen == prot_vlan
    then (store16 et' 16 (htons prot), vlan_ether_hdr_size)
    else (if ltb 1514 protlen
        then (store16 et' 12 (htons prot), ether_hdr_size)
        else (store16 et' 20 (htons prot), e802_hdr_size))
