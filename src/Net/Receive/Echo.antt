-- ===== src/Net/Receive/Echo.antt =====
-- The answer to a ping, from frame to frame.
use emac_driver.Common.{ℕ, ◌+◌, ◌-◌, ◌≤◌, ◌<◌, ◌^◌, ◌≡◌, refl, ap, sym, subst, ◌∙◌, fun_ext, arith}
use emac_driver.Common.Buffer.{Buffer, IsBytes, window, overlay, window-overlay, window-IsBytes}
use emac_driver.Net.{Net, Datagram, net_send_packet}
use emac_driver.Net.Ether.{net_eth_hdr_size, net_set_ether, net_update_ether, prot_ip}
use emac_driver.Net.Ether.Laws.{net_eth_hdr_size-le, net_eth_hdr_size-eq}
use emac_driver.Net.Ether.Update.{net_update_ether-net_set_ether}
use emac_driver.Net.Ip.{ipproto_icmp}
use emac_driver.Net.Ip.Laws.{IsIpHeader}
use emac_driver.Net.Ping.{
  icmp_echo_request, icmp_echo_reply, ip_icmp_hdr_size, echo_answer, ping_receive,
}
use emac_driver.Net.Ping.Laws.{IsEcho, echo_answer-IsEcho}
use emac_driver.Net.Receive.{net_process_received_packet, net_defragment, receive_icmp, ip_receive}
use emac_driver.Net.Receive.Laws.{parse_ether-net_set_ether, received-ip, ip_accepts-IsIpHeader}

-- A frame of `n` with an IPv4 header for ICMP behind its Ethernet header.
pub record IsIcmpFrame (n : Net) (f dest : Buffer) (len kind src to : ℕ) : Type 0 where
  pub base : Buffer
  pub header : (i : ℕ) → i < net_eth_hdr_size n → f i ≡ (net_set_ether n base dest prot_ip).0 i
  pub ip : IsIpHeader (window f (net_eth_hdr_size n)) len ipproto_icmp src to
  pub type : window f (net_eth_hdr_size n) 20 ≡ kind

module _ (handle : ℕ → Datagram → Net → Net) where
  to_ping_receive :
      (n m : Net) (f dest : Buffer) (len kind src : ℕ)
      → m.net_our_vlan ≡ n.net_our_vlan
      → IsIcmpFrame n f dest len kind src m.net_ip
      → ip_icmp_hdr_size ≤ len
      → len < 2 ^ 16
      → kind ≡ icmp_echo_request
      → net_process_received_packet handle f (net_eth_hdr_size m + len) m
        ≡ ping_receive f (net_eth_hdr_size m) len m
  unfolding ip_receive net_defragment receive_icmp
  to_ping_receive n m f dest len kind src same a l k request =
      let eq = net_eth_hdr_size-eq n m same in
      let small = net_eth_hdr_size-le n in
      let (v, parsed, passes) =
        parse_ether-net_set_ether n m a.base dest f prot_ip (net_eth_hdr_size n + len) same
          (omega arith) (omega arith) (λ e. omega (arith, e)) (omega arith) (omega (arith, small))
          (a.header) in
      let accepted =
        ip_accepts-IsIpHeader m (window f (net_eth_hdr_size n))
          (net_eth_hdr_size n + len - net_eth_hdr_size n) len ipproto_icmp src (a.ip) (omega arith)
          (omega arith) (omega arith) in
      rw eq (
        received-ip handle m f (net_eth_hdr_size n + len) (net_eth_hdr_size n)
          (net_eth_hdr_size n + len - net_eth_hdr_size n) v parsed passes
        ∙ rw (accepted, a.ip.unfragmented)
            (rw (a.ip.protocol, a.type, request, a.ip.total_length) refl))

  -- An ICMP echo request of at least 28 bytes for a station's IP address, from a station of its VLAN,
  -- makes it send one frame and nothing else: an echo reply of the same length to the sender of the
  -- request, with right checksums and with the identifier, the number and the data of the request.
  pub net_process_received_packet-IsEcho :
      (n m : Net) (f dest : Buffer) (len src : ℕ)
      → m.net_our_vlan ≡ n.net_our_vlan
      → IsIcmpFrame n f dest len icmp_echo_request src m.net_ip
      → IsBytes f
      → ip_icmp_hdr_size ≤ len
      → len < 2 ^ 16
      → m.net_ip < 2 ^ 32
      → (g : Buffer) × (net_process_received_packet handle f (net_eth_hdr_size m + len) m
          ≡ net_send_packet g (net_eth_hdr_size m + len) m)
        × ((i : ℕ) → i < net_eth_hdr_size m → g i ≡ (net_set_ether m f (window f 6) prot_ip).0 i)
        × IsEcho (window g (net_eth_hdr_size m)) len icmp_echo_reply m.net_ip src
        × ((i : ℕ) → 24 ≤ i → g (net_eth_hdr_size m + i) ≡ f (net_eth_hdr_size m + i))
  unfolding ping_receive
  net_process_received_packet-IsEcho n m f dest len src same a hb l k lt = (
    g,
    received,
    λ i h. ground arith ∙ updated.1 i h,
    subst (λ b. IsEcho b len icmp_echo_reply m.net_ip src) (sym seen) (answer.0),
    λ i h. ap (λ (b : Buffer). b i) seen ∙ answer.1 i h,
  )
    where
      S : ℕ
      S = net_eth_hdr_size m

      et : Buffer × ℕ
      et = net_update_ether m f (window f 6) prot_ip

      g : Buffer
      g = overlay et.0 S (echo_answer m (window et.0 S) len)

      updated :
          (et.1 ≡ S)
          × ((i : ℕ) → i < S → et.0 i ≡ (net_set_ether m f (window f 6) prot_ip).0 i)
          × ((i : ℕ) → S ≤ i → et.0 i ≡ f i)
      updated =
          net_update_ether-net_set_ether n m a.base dest f (window f 6) prot_ip same (omega arith)
            (omega arith) (λ e. omega (arith, e)) (a.header)

      behind : window et.0 S ≡ window f S
      behind = fun_ext (λ i. updated.2 (S + i) (omega arith))

      seen : window g S ≡ echo_answer m (window f S) len
      seen =
          window-overlay et.0 (echo_answer m (window et.0 S) len) S
          ∙ ap (λ b. echo_answer m b len) behind

      answer :
          IsEcho (echo_answer m (window f S) len) len icmp_echo_reply m.net_ip src
          × ((i : ℕ) → 24 ≤ i → echo_answer m (window f S) len i ≡ window f S i)
      answer =
          echo_answer-IsEcho m (window f S) len src (window-IsBytes S hb)
            (rw (net_eth_hdr_size-eq n m same) (a.ip)) l k lt

      type_here : f (S + 20) ≡ icmp_echo_request
      type_here = rw (net_eth_hdr_size-eq n m same) (a.type)

      received : net_process_received_packet handle f (S + len) m ≡ net_send_packet g (S + len) m
      received =
          to_ping_receive n m f dest len icmp_echo_request src same a l k refl
          ∙ rw type_here (ap (λ (s : ℕ). net_send_packet g (s + len) m) (updated.0))
