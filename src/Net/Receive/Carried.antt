-- ===== src/Net/Receive/Carried.antt =====
-- Which frames `net_process_received_packet` of net/net.c takes an IP header from, and where it finds it.
use emac_driver.Common.{
  ℕ, ◌+◌, ◌*◌, ◌%◌, ◌≤◌, ◌<◌, ◌≡◌, ◌≢◌, ◌⊎◌, inl, inr, refl, ap, sym, ◌∙◌, arith, true, false, some,
  Bool-cases, ◌||◌, subst, low_bits, ltb, ◌==◌, sext32, sub32, ==→eq,
}
use emac_driver.Common.Buffer.{Buffer, IsBytes, load16, window}
use emac_driver.Byteorder.{ntohs}
use emac_driver.Byteorder.Laws.{swab16_bytes}
use emac_driver.Net.{Net}
use emac_driver.Net.Ether.{vlan_of, prot_ip, prot_vlan}
use emac_driver.Net.Receive.{Parsed, parse_ether, vlan_matches}

-- Two bytes in network order.
abbrev pub word : Buffer → ℕ → ℕ
word b i = 256 * b i + b (i + 1)

-- The VLAN numbers of a station; 4095 stands for none.
abbrev pub own_vlan : Net → ℕ
own_vlan n = ntohs n.net_our_vlan % 4096

abbrev pub native_vlan : Net → ℕ
native_vlan n = ntohs n.net_native_vlan % 4096

-- The VLAN of a frame without a tag, or with the tag for none, is the native one.
abbrev pub IsUntagged : Net → Type 0
IsUntagged n = (own_vlan n ≡ 4095) ⊎ (native_vlan n ≡ own_vlan n)

abbrev pub IsTagged : Net → ℕ → Type 0
IsTagged n id =
    (own_vlan n ≢ 4095)
    × (((id ≢ 4095) × (id ≡ own_vlan n)) ⊎ ((id ≡ 4095) × (native_vlan n ≡ own_vlan n)))

-- An IP header stands at `hdr` of a frame for the VLAN of the station: behind an Ethernet header, one
-- with a VLAN tag, or one with a length in place of the protocol.
abbrev pub IsCarried : Net → Buffer → ℕ → Type 0
IsCarried n et hdr =
    ((word et 12 ≡ 0x0800) × (hdr ≡ 14) × IsUntagged n)
    ⊎ (((word et 12 ≡ 0x8100) × (word et 16 ≡ 0x0800) × (hdr ≡ 18) × IsTagged n (word et 14 % 4096))
        ⊎ ((word et 12 < 1514) × (word et 20 ≡ 0x0800) × (hdr ≡ 22) × IsUntagged n))

ntohs-load16 : (b : Buffer) (i : ℕ) → IsBytes b → ntohs (load16 b i) ≡ word b i
unfolding ntohs
ntohs-load16 b i h = omega (arith, swab16_bytes (load16 b i), h i, h (i + 1))

pub ntohs-window :
    (et : Buffer) (hdr i : ℕ) → IsBytes et → ntohs (load16 (window et hdr) i) ≡ word et (hdr + i)
ntohs-window et hdr i h =
    ntohs-load16 (window et hdr) i (λ j. h (hdr + j))
    ∙ ap (λ (t : ℕ). 256 * et (hdr + i) + et t) (omega arith)

-- The number that stands for none is what is left of 0xffff too.
low_vlan_of : (x : ℕ) → low_bits (vlan_of x) 12 ≡ ntohs x % 4096
unfolding vlan_of
low_vlan_of x = ground arith

vlan_matches-IsUntagged : (n : Net) → vlan_matches n 4095 ≡ true → IsUntagged n
unfolding vlan_matches
vlan_matches-IsUntagged n h = ground arith

vlan_matches-IsTagged :
    (n : Net) (id : ℕ) → own_vlan n ≢ 4095 → vlan_matches n id ≡ true → IsTagged n id
unfolding vlan_matches
vlan_matches-IsTagged n id ne h = ground arith

-- What a header is worth that was found.
abbrev pub Carries : Net → Buffer → ℕ → Parsed → Type 0
Carries n et len p =
    vlan_matches n p.vlanid ≡ true
    → p.eth_proto ≡ prot_ip
    → IsCarried n et p.header × (p.rest ≡ sub32 len p.header) × (p.header ≤ 22)

found :
    (n : Net) (et : Buffer) (len : ℕ) (a p : Parsed)
    → some a ≡ some p
    → Carries n et len a
    → Carries n et len p
found n et len a p e c = let same : a ≡ p = cc in subst (Carries n et len) same c

sized : (x : ℕ) → ltb x 1514 ≡ true → x < 1514
sized x h = ground arith

own_number : (len own : ℕ) → (ltb (sext32 len) 18 || own == 4095) ≡ false → own ≢ 4095
own_number len own h = ground arith

-- The three kinds of header.
sized_carries :
    (n : Net) (et : Buffer) (len : ℕ)
    → IsBytes et
    → ltb (ntohs (load16 et 12)) 1514 ≡ true
    → Carries n et len (record {
      eth_proto = ntohs (load16 et 20);
      header = 22;
      rest = sub32 len 22;
      vlanid = 4095;
    })
sized_carries n et len h size v ip = (
  inr (
      inr (
        sized (word et 12) (rw (ntohs-load16 et 12 h) at size),
        sym (ntohs-load16 et 20 h) ∙ ip,
        refl,
        vlan_matches-IsUntagged n v,
      )),
  refl,
  omega arith,
)

plain_carries :
    (n : Net) (et : Buffer) (len : ℕ)
    → IsBytes et
    → Carries n et len (record {
      eth_proto = ntohs (load16 et 12);
      header = 14;
      rest = sub32 len 14;
      vlanid = 4095;
    })
plain_carries n et len h v ip =
    (inl (sym (ntohs-load16 et 12 h) ∙ ip, refl, vlan_matches-IsUntagged n v), refl, omega arith)

tagged_carries :
    (n : Net) (et : Buffer) (len : ℕ)
    → IsBytes et
    → (ntohs (load16 et 12) == prot_vlan) ≡ true
    → own_vlan n ≢ 4095
    → Carries n et len (record {
      eth_proto = ntohs (load16 et 16);
      header = 18;
      rest = sub32 len 18;
      vlanid = ntohs (load16 et 14) % 4096;
    })
tagged_carries n et len h tagged own v ip = (
  inr (
      inl (
        sym (ntohs-load16 et 12 h) ∙ ==→eq _ prot_vlan tagged,
        sym (ntohs-load16 et 16 h) ∙ ip,
        refl,
        subst (λ t. IsTagged n (t % 4096)) (ntohs-load16 et 14 h) (vlan_matches-IsTagged n _ own v),
      )),
  refl,
  omega arith,
)

pub parse_ether-IsCarried :
    (n : Net) (et : Buffer) (len : ℕ) (p : Parsed)
    → IsBytes et
    → parse_ether n et len ≡ some p
    → Carries n et len p
unfolding parse_ether
parse_ether-IsCarried n et len p h e = elim (Bool-cases (ltb (sext32 len) 14)) [
  | inl short ↦ let e1 = rw short at e in cc
  | inr whole ↦
      let e1 = rw whole at e in
      elim (Bool-cases (ltb (ntohs (load16 et 12)) 1514)) [
        | inl size ↦ found n et len _ p (rw size at e1) (sized_carries n et len h size)
        | inr named ↦
            let e2 = rw named at e1 in
            elim (Bool-cases (ntohs (load16 et 12) == prot_vlan)) [
              | inr other ↦ found n et len _ p (rw other at e2) (plain_carries n et len h)
              | inl tagged ↦
                  let e3 = rw tagged at e2 in
                  elim (Bool-cases (ltb (sext32 len) 18 || ntohs n.net_our_vlan % 4096 == 4095)) [
                    | inl drop ↦ let e4 = rw drop at e3 in cc
                    | inr keep ↦
                        found n et len _ p (rw keep at e3)
                          (tagged_carries n et len h tagged (own_number len _ keep))
                  ]
            ]
      ]
]
