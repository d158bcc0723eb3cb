-- ===== src/Net/Ping/Send.antt =====
-- What `ping_send` leaves waiting for ARP.
use emac_driver.Common.{ℕ, ◌+◌, ◌≡◌}
use emac_driver.Common.Buffer.{Buffer, window}
use emac_driver.Net.{Net}
use emac_driver.Net.Ether.{net_eth_hdr_size}
use emac_driver.Net.Ping.{icmp_echo_request, ip_icmp_hdr_size}
use emac_driver.Net.Ping.Laws.{IsEcho}

-- What holds in `k` when a ping from `n` at the time `now` has its request in the transmit buffer.
pub record IsPinging (n k : Net) (now : ℕ) : Type 0 where
  pub request :
      IsEcho
        (window k.net_tx_packet (net_eth_hdr_size n))
        ip_icmp_hdr_size
        icmp_echo_request
        n.net_ip
        n.net_ping_ip
  pub size : k.arp_wait_tx_packet_size ≡ net_eth_hdr_size n + ip_icmp_hdr_size
  pub waits_for : k.net_arp_wait_packet_ip ≡ n.net_ping_ip
  pub tries : (k.arp_wait_try ≡ 1) × (k.arp_wait_timer_start ≡ now)
  pub same :
      (k.net_ip ≡ n.net_ip)
      × (k.net_ethaddr ≡ n.net_ethaddr)
      × (k.eth ≡ n.eth)
      × (k.net_state ≡ n.net_state)
