-- ===== src/Net.antt =====
-- The state of net/net.c, net/arp.c and net/ping.c: their global and `static` variables. An address
-- of type `struct in_addr` is the 32-bit number that the little-endian target reads, in network
-- byte order. `get_timer(0)` reads a clock: each reading is an argument.
pub mod Ether
pub mod Ip
pub mod Arp
pub mod Ping
pub mod Receive
pub mod Start
pub mod Loop
use emac_driver.Common.{
  ℕ, List, ◌∷◌, Option, none, some, Bool, true, false, ◌&&◌, ◌==◌, if◌then◌else◌,
}
use emac_driver.Common.Buffer.{Buffer}
use emac_driver.Eth.{Eth}
use emac_driver.Eth.Drive.{eth_send}

pub data LoopState : Type 0 where
  continue restart success fail : LoopState

-- A packet handler: NULL, `dummy_handler`, or one that a protocol outside of this code has set.
pub data Handler : Type 0 where
  null dummy : Handler
  protocol : ℕ → Handler

-- A timeout handler of net/ping.c or net/net.c.
pub data Timeout : Type 0 where
  ping_timeout_handler start_again_timeout_handler : Timeout

-- The arguments of a packet handler.
pub record Datagram : Type 0 where
  pub pkt : Buffer
  pub dport : ℕ
  pub sip : ℕ
  pub sport : ℕ
  pub len : ℕ

pub record Net : Type 0 where
  pub eth : Eth
  pub net_ip : ℕ
  pub net_netmask : ℕ
  pub net_gateway : ℕ
  pub net_server_ip : ℕ
  pub net_ping_ip : ℕ
  pub net_ethaddr : Buffer
  pub net_our_vlan : ℕ
  pub net_native_vlan : ℕ
  pub net_ip_id : ℕ
  -- whether `net_init` has set `net_tx_packet`, which is NULL before
  pub initialized : Bool
  pub net_tx_packet : Buffer
  pub net_state : LoopState
  pub net_restarted : Bool
  pub net_dev_exists : Bool
  pub net_try_count : ℕ
  pub net_boot_file_size : ℕ
  pub udp_packet_handler : Handler
  pub arp_packet_handler : Handler
  pub time_handler : Option Timeout
  pub time_start : ℕ
  pub time_delta : ℕ
  -- net/arp.c
  pub net_arp_wait_packet_ip : ℕ
  pub net_arp_wait_reply_ip : ℕ
  pub arp_wait_packet_ethaddr : Option ℕ
  pub arp_wait_tx_packet_size : ℕ
  pub arp_wait_timer_start : ℕ
  pub arp_wait_try : ℕ
  pub arp_tx_packet : Buffer
  -- the Ethernet addresses that callers keep, by where they are kept
  pub macs : ℕ → Buffer
  -- net/ping.c
  pub ping_seq_number : ℕ
  -- what was delivered to handlers of protocols, the latest first
  pub delivered : List (ℕ × Datagram)

abbrev pub net_bcast_ethaddr : Buffer
net_bcast_ethaddr i = 0xff

abbrev pub net_null_ethaddr : Buffer
net_null_ethaddr i = 0

-- `memcmp(addr, net_null_ethaddr, 6) == 0`
abbrev pub is_null_ethaddr : Buffer → Bool
is_null_ethaddr a = a 0 == 0 && a 1 == 0 && a 2 == 0 && a 3 == 0 && a 4 == 0 && a 5 == 0

unfoldable pub net_set_state : LoopState → Net → Net
net_set_state s n = record n { net_state = s }

unfoldable pub net_send_packet : Buffer → ℕ → Net → Net
unfolding eth_send
net_send_packet pkt len n = record n { eth = eth_send pkt len n.eth }

unfoldable pub net_set_udp_handler : Handler → Net → Net
net_set_udp_handler null n = record n { udp_packet_handler = dummy }
net_set_udp_handler f n = record n { udp_packet_handler = f }

unfoldable pub net_set_arp_handler : Handler → Net → Net
net_set_arp_handler null n = record n { arp_packet_handler = dummy }
net_set_arp_handler f n = record n { arp_packet_handler = f }

-- `now` is what `get_timer(0)` reads.
unfoldable pub net_set_timeout_handler : ℕ → Option Timeout → ℕ → Net → Net
net_set_timeout_handler iv f now n =
    if iv == 0
    then record n { time_handler = none }
    else record n { time_handler = f; time_start = now; time_delta = iv }

-- A call of a packet handler. What a protocol's handler does to the state is not in this code:
-- it is the argument `handle`.
unfoldable pub call_handler : (ℕ → Datagram → Net → Net) → Handler → Datagram → Net → Net
call_handler handle (protocol k) d n = handle k d (record n { delivered = (k, d) ∷ n.delivered })
call_handler handle null d n = n
call_handler handle dummy d n = n
