-- ===== src/Tests/Stations.antt =====
-- Two stations on one network without VLANs, alice with 10.0.0.1 and bob with 10.0.0.2.
use emac_driver.Common.{ℕ, zero, suc, ◌<◌, List, arith, ◌+◌, ◌*◌, [], ◌∷◌, none, some, true, false}
use emac_driver.Common.Buffer.{Buffer, IsBytes, of_list}
use emac_driver.Env.{initial}
use emac_driver.Eth.{Eth, Device, EthState}
use emac_driver.Net.{Net, Datagram, Handler, LoopState}

abbrev pub filled : ℕ → Buffer
filled v i = v

abbrev pub only_device : Device
only_device = record {
  name = b'e' ∷ b't' ∷ b'h' ∷ b'0' ∷ [];
  enetaddr = filled 2;
  state = EthState.active;
  next = 1;
  index = 0;
}

abbrev pub one_device : Eth
one_device = record {
  eth_devices = some 1;
  eth_current = some 1;
  device = λ d. only_device;
  registered = 1;
  first_failed = none;
  net_restart_wrap = false;
  act = none;
  env_changed_id = 0;
  env = initial;
  sent = [];
  hwaddrs = [];
  halted = λ d. 0;
}

abbrev pub alice_ip : ℕ
alice_ip = 10 + 16777216

abbrev pub bob_ip : ℕ
bob_ip = 10 + 2 * 16777216

-- A station with an IP address and an Ethernet address of six equal bytes.
abbrev pub station : ℕ → ℕ → Net
station ip byte = record {
  eth = one_device;
  net_ip = ip;
  net_netmask = 255;
  net_gateway = 0;
  net_server_ip = 0;
  net_ping_ip = bob_ip;
  net_ethaddr = filled byte;
  net_our_vlan = 0xffff;
  net_native_vlan = 0xffff;
  net_ip_id = 0;
  initialized = true;
  net_tx_packet = filled 7;
  net_state = LoopState.continue;
  net_restarted = false;
  net_dev_exists = true;
  net_try_count = 1;
  net_boot_file_size = 0;
  udp_packet_handler = Handler.dummy;
  arp_packet_handler = Handler.dummy;
  time_handler = none;
  time_start = 0;
  time_delta = 10000;
  net_arp_wait_packet_ip = bob_ip;
  net_arp_wait_reply_ip = 0;
  arp_wait_packet_ethaddr = some 1;
  arp_wait_tx_packet_size = 42;
  arp_wait_timer_start = 0;
  arp_wait_try = 1;
  arp_tx_packet = filled 0;
  macs = λ p. filled 9;
  ping_seq_number = 0;
  delivered = [];
}

abbrev pub alice : Net
alice = station alice_ip 1

abbrev pub bob : Net
bob = station bob_ip 2

-- Handlers that change nothing more.
abbrev pub ignore : ℕ → Datagram → Net → Net
ignore k d n = n

abbrev pub AllBelow256 : List ℕ → Type 0
AllBelow256 [] = Unit {0}
AllBelow256 (x ∷ xs) = (x < 256) × AllBelow256 xs

pub of_list-IsBytes : (xs : List ℕ) → AllBelow256 xs → IsBytes (of_list xs)
of_list-IsBytes [] h i = omega arith
of_list-IsBytes (x ∷ xs) h zero = h.0
of_list-IsBytes (x ∷ xs) h (suc i) = of_list-IsBytes xs h.1 i
