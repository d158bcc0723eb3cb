-- ===== src/Net/Start.antt =====
-- Setting up and starting over: `net_init`, `net_check_prereq` and `net_start_again` of net/net.c,
-- and `arp_init` of net/arp.c. `none` is a fault of an Ethernet function.
pub mod Retry
use emac_driver.Common.{
  ℕ, ◌+◌, ◌-◌, ◌^◌, [], ◌∷◌, Option, none, some, Bool, true, false, not, ◌&&◌, ltb, ◌==◌,
  if◌then◌else◌, u32, sext32,
}
use emac_driver.Common.Buffer.{copy}
use emac_driver.Text.{Text, strcmp, simple_strtoul}
use emac_driver.Env.{env_get}
use emac_driver.Eth.{◌>>=◌, eth_get_dev_index, eth_try_another}
use emac_driver.Eth.Drive.{eth_halt, eth_init}
use emac_driver.Net.{
  Net, Handler, LoopState, Timeout, is_null_ethaddr, net_set_state, net_set_udp_handler,
  net_set_arp_handler, net_set_timeout_handler,
}

-- `enum proto_t`
pub data Proto : Type 0 where
  bootp rarp arp tftpget dhcp ping dns nfs cdp netcons sntp tftpsrv tftpput linklocal : Proto

unfoldable pub arp_init : Net → Net
arp_init n = record n {
  arp_wait_packet_ethaddr = none;
  net_arp_wait_packet_ip = 0;
  net_arp_wait_reply_ip = 0;
  arp_wait_tx_packet_size = 0;
}

unfoldable pub net_clear_handlers : Net → Net
unfolding net_set_udp_handler net_set_arp_handler net_set_timeout_handler
net_clear_handlers n =
    net_set_timeout_handler 0 none 0
      (net_set_arp_handler Handler.null (net_set_udp_handler Handler.null n))

unfoldable pub net_init_loop : Net → Net
net_init_loop n = elim n.eth.eth_current [
  | none ↦ n
  | some dev ↦ record n { net_ethaddr = copy n.net_ethaddr 0 (n.eth.device dev).enetaddr 0 6 }
]

-- `initialized` is set where the source clears `first_call`.
unfoldable pub net_init : Net → Net
unfolding arp_init net_clear_handlers net_init_loop
net_init n =
    net_init_loop
      (if n.initialized then n else record (net_clear_handlers (arp_init n)) { initialized = true })

abbrev pub netretry : Text
netretry = b'n' ∷ b'e' ∷ b't' ∷ b'r' ∷ b'e' ∷ b't' ∷ b'r' ∷ b'y' ∷ []

-- `retry_forever` and `retrycnt`.
unfoldable pub retries : Option Text → Bool × ℕ
retries none = (false, 0)
retries (some nretry) =
    if strcmp nretry (b'y' ∷ b'e' ∷ b's' ∷ []) == 0
    then (true, 0)
    else (if strcmp nretry (b'n' ∷ b'o' ∷ []) == 0
        then (false, 0)
        else (if strcmp nretry (b'o' ∷ b'n' ∷ b'c' ∷ b'e' ∷ []) == 0
            then (false, 1)
            else (false, (simple_strtoul nretry 0).0)))

-- The part of `net_start_again` after `eth_init`.
after_restart : ℕ → Net → Net
unfolding net_set_timeout_handler net_set_udp_handler net_set_state
after_restart now n =
    if n.eth.net_restart_wrap
    then (let n1 = record n { eth = record n.eth { net_restart_wrap = false } } in
        if n1.net_dev_exists
        then net_set_udp_handler Handler.null
            (net_set_timeout_handler 10000 (some Timeout.start_again_timeout_handler) now n1)
        else net_set_state LoopState.fail n1)
    else net_set_state LoopState.restart n

module _ (driver_init : ℕ → ℕ → Bool) where
  -- `now` is what `get_timer(0)` reads.
  unfoldable pub net_start_again : ℕ → Net → Option (Net × ℕ)
  unfolding after_restart
  net_start_again now n =
      let (retry_forever, retrycnt) = retries (env_get netretry n.eth.env) in
      if not retry_forever && ltb retrycnt (sext32 n.net_try_count)
      then some (net_set_state LoopState.fail (record n { eth = eth_halt n.eth }), 2 ^ 32 - 110)
      else (let n1 = record n { net_try_count = u32 (n.net_try_count + 1) } in
          eth_try_another (not n1.net_restarted) (eth_halt n1.eth) >>= λ e1.
          eth_init driver_init e1 >>= λ r. some (after_restart now (record n1 { eth = r.0 }), r.1))

  -- From `case BOOTP` on: an Ethernet address must be known.
  check_ethaddr : ℕ → Net → Option (Net × ℕ)
  unfolding net_start_again eth_get_dev_index
  check_ethaddr now n =
      if is_null_ethaddr n.net_ethaddr
      then (if eth_get_dev_index n.eth == 2 ^ 32 - 1
          then some (n, 1)
          else (net_start_again now n >>= λ r. some (r.0, 2)))
      else some (n, 0)

  -- From `case NETCONS` on: an IP address must be known.
  check_ip : ℕ → Net → Option (Net × ℕ)
  unfolding check_ethaddr
  check_ip now n = if n.net_ip == 0 then some (n, 1) else check_ethaddr now n

  unfoldable pub net_check_prereq : Proto → ℕ → Net → Option (Net × ℕ)
  unfolding check_ip
  net_check_prereq ping now n = if n.net_ping_ip == 0 then some (n, 1) else check_ip now n
  net_check_prereq tftpget now n = if n.net_server_ip == 0 then some (n, 1) else check_ip now n
  net_check_prereq tftpput now n = if n.net_server_ip == 0 then some (n, 1) else check_ip now n
  net_check_prereq netcons now n = check_ip now n
  net_check_prereq tftpsrv now n = check_ip now n
  net_check_prereq bootp now n = check_ethaddr now n
  net_check_prereq cdp now n = check_ethaddr now n
  net_check_prereq dhcp now n = check_ethaddr now n
  net_check_prereq linklocal now n = check_ethaddr now n
  net_check_prereq rarp now n = some (n, 0)
  net_check_prereq arp now n = some (n, 0)
  net_check_prereq dns now n = some (n, 0)
  net_check_prereq nfs now n = some (n, 0)
  net_check_prereq sntp now n = some (n, 0)
