-- ===== src/Net/Arp/Timeout.antt =====
-- `arp_timeout_check` over time: the requests that it repeats, and when it gives up.
use emac_driver.Common.{
  ℕ, ◌+◌, ◌≤◌, ◌<◌, ◌≡◌, ◌≢◌, refl, arith, List, [], ◌∷◌, true, sub64, u32, slt32, length, ne→==,
  lt→ltb, le→ltb,
}
use emac_driver.Net.{Net, LoopState, net_set_state, net_send_packet}
use emac_driver.Net.Arp.{
  arp_timeout, arp_timeout_count, arp_raw_request, arp_request, arp_timeout_check,
}

-- The turns of the loop in which `arp_timeout_check` reads the clock as given.
abbrev pub timeouts : List ℕ → Net → Net
timeouts [] n = n
timeouts (t ∷ ts) n = timeouts ts (arp_timeout_check t n).0

-- Every reading is more than ARP_TIMEOUT after the one before, the first one after `start`.
abbrev pub AllLate : ℕ → List ℕ → Type 0
AllLate start [] = Unit {0}
AllLate start (t ∷ ts) = (arp_timeout < sub64 t start) × AllLate t ts

-- Before the timeout nothing happens.
pub arp_timeout_check_early :
    (t : ℕ) (n : Net)
    → n.net_arp_wait_packet_ip ≢ 0
    → sub64 t n.arp_wait_timer_start ≤ arp_timeout
    → arp_timeout_check t n ≡ (n, 1)
unfolding arp_timeout_check
arp_timeout_check_early t n waits early =
    rw
      (
        ne→== n.net_arp_wait_packet_ip 0 waits,
        le→ltb arp_timeout (sub64 t n.arp_wait_timer_start) early,
      )
      refl

-- After it the request is repeated, while there are tries left.
abbrev pub again : ℕ → Net → Net
again t n = record n { arp_wait_try = n.arp_wait_try + 1; arp_wait_timer_start = t }

pub arp_timeout_check-again :
    (t : ℕ) (n : Net)
    → n.net_arp_wait_packet_ip ≢ 0
    → arp_timeout < sub64 t n.arp_wait_timer_start
    → n.arp_wait_try + 1 < arp_timeout_count
    → arp_timeout_check t n ≡ (arp_request (again t n), 1)
unfolding arp_timeout_check
arp_timeout_check-again t n waits late left =
    let try : u32 (n.arp_wait_try + 1) ≡ n.arp_wait_try + 1 = omega arith in
    let more : slt32 (n.arp_wait_try + 1) arp_timeout_count ≡ true = ground arith in
    rw
      (
        ne→== n.net_arp_wait_packet_ip 0 waits,
        lt→ltb arp_timeout (sub64 t n.arp_wait_timer_start) late,
        try,
        more,
      )
      refl

pub arp_timeout_check_last :
    (t : ℕ) (n : Net)
    → n.net_arp_wait_packet_ip ≢ 0
    → arp_timeout < sub64 t n.arp_wait_timer_start
    → n.arp_wait_try + 1 ≡ arp_timeout_count
    → arp_timeout_check t n ≡ (net_set_state LoopState.fail (record n { arp_wait_try = 0 }), 1)
unfolding arp_timeout_check
arp_timeout_check_last t n waits late last =
    rw
      (
        ne→== n.net_arp_wait_packet_ip 0 waits,
        lt→ltb arp_timeout (sub64 t n.arp_wait_timer_start) late,
        last,
      )
      refl

-- While a packet waits, calls of `arp_timeout_check` that each come after the timeout, as many as
-- there are tries left before ARP_TIMEOUT_COUNT, put the loop into the state NETLOOP_FAIL and count
-- from 0 again.
pub timeouts-fail :
    (ts : List ℕ) (n : Net)
    → n.net_arp_wait_packet_ip ≢ 0
    → n.arp_wait_try < arp_timeout_count
    → n.arp_wait_try + length ts ≡ arp_timeout_count
    → AllLate n.arp_wait_timer_start ts
    → ((timeouts ts n).net_state ≡ LoopState.fail) × ((timeouts ts n).arp_wait_try ≡ 0)
unfolding arp_request arp_raw_request net_send_packet net_set_state
timeouts-fail [] n waits below total late = absurd (omega arith)
timeouts-fail (t ∷ []) n waits below total late =
    rw (timeouts, arp_timeout_check_last t n waits (late.0) (omega arith)) (refl, refl)
timeouts-fail (t ∷ u ∷ ts) n waits below total late =
    rw (timeouts, arp_timeout_check-again t n waits (late.0) (omega arith))
      (timeouts-fail (u ∷ ts) (arp_request (again t n)) waits (omega arith) (omega arith) (late.1))
