-- ===== src/Net/Loop.antt =====
-- `net_loop` of net/net.c, the state machine that received frames and clock readings drive. One
-- `Round` holds what one turn of `for (;;)` sees from outside, in the order of the code.
pub mod Laws
pub mod Unanswered
use emac_driver.Common.{
  ℕ, ◌+◌, ◌-◌, ◌^◌, List, [], ◌∷◌, Option, none, some, Bool, true, false, not, ◌&&◌, ltb, ◌==◌,
  if◌then◌else◌, sub64, slt32,
}
use emac_driver.Common.Buffer.{Buffer}
use emac_driver.Eth.{Eth, EthState, ◌>>=◌, update, is_null}
use emac_driver.Eth.Drive.{eth_halt, eth_init}
use emac_driver.Eth.Select.{eth_set_current}
use emac_driver.Net.{Net, Datagram, LoopState, Timeout, net_set_state}
use emac_driver.Net.Arp.{arp_timeout_check}
use emac_driver.Net.Ping.{ping_start, ping_timeout_handler}
use emac_driver.Net.Receive.{net_process_received_packet}
use emac_driver.Net.Start.{
  Proto, net_init, net_init_loop, net_clear_handlers, net_start_again, net_check_prereq,
}

pub record Round : Type 0 where
  -- what `get_timer(0)` reads: in `arp_timeout_check`, after it, in the test for a timeout, in
  -- `net_start_again`, and when the code from `restart:` on calls it, in its order
  pub arp_time : ℕ
  pub start_time : ℕ
  pub test_time : ℕ
  pub again_time : ℕ
  pub prereq_time : ℕ
  pub set_time : ℕ
  pub ping_time : ℕ
  -- the frames that the driver passes to `net_process_received_packet`
  pub frames : List (Buffer × ℕ)
  -- the driver's `init` in `net_start_again`, there and after `restart:`
  pub driver_init : ℕ → ℕ → Bool
  pub restart_init : ℕ → ℕ → Bool

-- Whether `net_loop` goes on or has returned.
pub data Step : Type 0 where
  running : Net → Step
  returned : Net → ℕ → Step

unfoldable pub run_timeout : Timeout → Net → Net
unfolding ping_timeout_handler net_set_state
run_timeout Timeout.ping_timeout_handler n = ping_timeout_handler n
run_timeout Timeout.start_again_timeout_handler n = net_set_state LoopState.restart n

-- `if (time_handler && get_timer(0) - time_start > time_delta) ...`
unfoldable pub check_timeout : ℕ → Net → Net
check_timeout now n = elim n.time_handler [
  | none ↦ n
  | some x ↦
      if ltb n.time_delta (sub64 now n.time_start)
      then run_timeout x (record n { time_handler = none })
      else n
]

-- The `switch (protocol)`; `tftp_start`, `bootp_reset` and `bootp_request` do nothing here.
start_protocol : Proto → ℕ → ℕ → Net → Net
unfolding ping_start
start_protocol Proto.ping set_at now n = ping_start set_at now n
start_protocol Proto.bootp set_at now n = record n { net_ip = 0 }
start_protocol other set_at now n = n

-- From `restart:` to the loop.
unfoldable pub enter : Proto → Round → (ℕ → ℕ → Bool) → Net → Option Step
unfolding start_protocol
enter protocol r init n =
    net_check_prereq init protocol r.prereq_time
      (net_init_loop (net_set_state LoopState.continue n))
    >>= λ c. some (
        if c.1 == 1
        then returned (record c.0 { eth = eth_halt c.0.eth }) (2 ^ 32 - 19)
        else (if c.1 == 2
            then running c.0
            else running (
                start_protocol protocol r.set_time r.ping_time
                  (record c.0 { net_dev_exists = true; net_boot_file_size = 0 }))))

-- `eth_halt_state_only`, of net/net.h; without a device, where the source reads through NULL, nothing.
halt_state_only : Eth → Eth
halt_state_only e = elim e.eth_current [
  | none ↦ e
  | some dev ↦ record e {
    device = update e.device dev (record (e.device dev) { state = EthState.passive });
  }
]

halt_after : Proto → Eth → Eth
unfolding eth_halt halt_state_only
halt_after Proto.netcons e = halt_state_only e
halt_after other e = eth_halt e

unfoldable pub finish_success : Proto → Net → Step
unfolding net_clear_handlers halt_after
finish_success protocol n =
    let n1 = net_clear_handlers n in
    returned (record n1 { eth = halt_after protocol n1.eth }) n1.net_boot_file_size

-- The `switch (net_state)`; `ret` is what `net_loop` returns on a failure.
unfoldable pub dispatch : Proto → Round → ℕ → LoopState → Net → Option Step
dispatch protocol r ret LoopState.restart n =
    enter protocol r r.restart_init (record n { net_restarted = true })
dispatch protocol r ret LoopState.success n = some (finish_success protocol n)
dispatch protocol r ret LoopState.fail n = some (returned (net_clear_handlers n) ret)
dispatch protocol r ret LoopState.continue n = some (running n)

-- From `if (net_state == NETLOOP_FAIL)` on, in the state given. The `ret` of a round that does not
-- fail is not returned.
unfoldable pub conclude : Proto → Round → LoopState → Net → Option Step
conclude protocol r LoopState.fail n =
    net_start_again r.driver_init r.again_time n >>= λ a. dispatch protocol r a.1 a.0.net_state a.0
conclude protocol r s n = dispatch protocol r 0 s n

module _ (handle : ℕ → Datagram → Net → Net) where
  receive_all : List (Buffer × ℕ) → Net → Net
  unfolding net_process_received_packet
  receive_all [] n = n
  receive_all ((et, len) ∷ frames) n =
      receive_all frames (net_process_received_packet handle et len n)

  -- `eth_rx()`
  unfoldable pub eth_rx : List (Buffer × ℕ) → Net → Net
  unfolding receive_all
  eth_rx frames n = if is_null n.eth.eth_current then n else receive_all frames n

  -- A round up to `if (net_state == NETLOOP_FAIL)`; `ctrlc()` is always 0.
  unfoldable pub poll : Round → Net → Net
  poll r n =
      let (n1, waiting) = arp_timeout_check r.arp_time n in
      let n2 = if waiting == 0 then n1 else record n1 { time_start = r.start_time } in
      check_timeout r.test_time (eth_rx r.frames n2)

  unfoldable pub round : Proto → Round → Net → Option Step
  round protocol r n = conclude protocol r (poll r n).net_state (poll r n)

  -- The loop over as many rounds as are given.
  unfoldable pub rounds : Proto → List Round → Step → Option Step
  rounds protocol [] s = some s
  rounds protocol (r ∷ rs) (returned n v) = some (returned n v)
  rounds protocol (r ∷ rs) (running n) = round protocol r n >>= rounds protocol rs

  -- `first` holds the readings of the code before the loop, which runs `eth_init` too.
  unfoldable pub net_loop : Proto → Round → List Round → Net → Option Step
  net_loop protocol first rs n =
      let n1 =
        net_init (record n { net_restarted = false; net_dev_exists = false; net_try_count = 1 }) in
      eth_set_current (eth_halt n1.eth) >>= λ e1. eth_init first.driver_init e1 >>= λ i.
      if slt32 i.1 0
      then some (returned (record n1 { eth = eth_halt i.0 }) i.1)
      else (enter protocol first first.restart_init (record n1 { eth = i.0 })
          >>= rounds protocol rs)
