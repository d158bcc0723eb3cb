-- ===== src/Net/Arp/Laws.antt =====
-- What stands in the packets of net/arp.c, and when they are accepted.
use emac_driver.Common.{
  ℕ, ◌+◌, ◌≤◌, ◌<◌, ◌^◌, ◌≡◌, ◌≢◌, refl, arith, true, false, slt32, ne→==, ==_refl,
}
use emac_driver.Common.Buffer.{Buffer, load16, load32}
use emac_driver.Byteorder.{ntohs}
use emac_driver.Byteorder.Laws.{stored_htons}
use emac_driver.Net.{Net}
use emac_driver.Net.Ether.{prot_ip}
use emac_driver.Net.Arp.{
  arp_ether, arp_hlen, arp_plen, arp_hdr_size, arpop_request, arpop_reply, arp_packet, arp_answer,
  arp_accepts,
}

-- An ARP packet for IPv4 over Ethernet: the operation, the sender's and the target's addresses.
pub record IsArp (b : Buffer) (op : ℕ) (sha : Buffer) (spa : ℕ) (tha : Buffer) (tpa : ℕ)
    : Type 0 where
  pub hardware : ntohs (load16 b 0) ≡ arp_ether
  pub protocol : ntohs (load16 b 2) ≡ prot_ip
  pub hlen : b 4 ≡ arp_hlen
  pub plen : b 5 ≡ arp_plen
  pub operation : ntohs (load16 b 6) ≡ op
  pub sender_mac : (i : ℕ) → i < 6 → b (8 + i) ≡ sha i
  pub sender_ip : load32 b 14 ≡ spa
  pub target_mac : (i : ℕ) → i < 6 → b (18 + i) ≡ tha i
  pub target_ip : load32 b 24 ≡ tpa

pub arp_packet-IsArp :
    (n : Net) (b target_mac : Buffer) (source_ip target_ip : ℕ)
    → source_ip < 2 ^ 32
    → target_ip < 2 ^ 32
    → IsArp
        (arp_packet n b source_ip target_mac target_ip)
        arpop_request
        n.net_ethaddr
        source_ip
        target_mac
        target_ip
unfolding arp_packet
arp_packet-IsArp n b target_mac source_ip target_ip h k = record {
  hardware = stored_htons arp_ether (omega arith);
  protocol = stored_htons prot_ip (omega arith);
  hlen = refl;
  plen = refl;
  operation = stored_htons arpop_request (omega arith);
  sender_mac = λ i l. ground arith;
  sender_ip = omega arith;
  target_mac = λ i l. ground arith;
  target_ip = omega arith;
}

-- The answer to a request comes from the own addresses and goes to the sender of the request.
pub arp_answer-IsArp :
    (n : Net) (b sha tha : Buffer) (op spa tpa : ℕ)
    → IsArp b op sha spa tha tpa
    → n.net_ip < 2 ^ 32
    → IsArp (arp_answer n b) arpop_reply n.net_ethaddr n.net_ip sha spa
unfolding arp_answer
arp_answer-IsArp n b sha tha op spa tpa h k = record {
  hardware = h.hardware;
  protocol = h.protocol;
  hlen = h.hlen;
  plen = h.plen;
  operation = stored_htons arpop_reply (omega arith);
  sender_mac = λ i l. ground arith;
  sender_ip = omega arith;
  target_mac = λ i l. ground (arith, h.sender_mac i l);
  target_ip = h.sender_ip;
}

pub arp_accepts-IsArp :
    (n : Net) (b sha tha : Buffer) (op spa len : ℕ)
    → IsArp b op sha spa tha n.net_ip
    → n.net_ip ≢ 0
    → arp_hdr_size ≤ len
    → len < 2 ^ 31
    → arp_accepts n b len ≡ true
unfolding arp_accepts
arp_accepts-IsArp n b sha tha op spa len h ne l k =
    let enough : slt32 len arp_hdr_size ≡ false = ground arith in
    rw
      (
        h.hardware,
        h.protocol,
        h.hlen,
        h.plen,
        h.target_ip,
        enough,
        ne→== n.net_ip 0 ne,
        ==_refl n.net_ip,
      )
      refl
