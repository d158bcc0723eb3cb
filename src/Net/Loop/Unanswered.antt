-- ===== src/Net/Loop/Unanswered.antt =====
-- A ping that nobody answers.
use emac_driver.Common.{
  ℕ, ◌+◌, ◌-◌, ◌≤◌, ◌<◌, ◌^◌, ◌≡◌, ◌≢◌, refl, ap, ◌∙◌, arith, List, [], ◌∷◌, none, some, sub64,
  length, le→ltb, inl, inr, Bool-cases, Option-cases,
}
use emac_driver.Common.Buffer.{Buffer}
use emac_driver.Env.{Env, env_get}
use emac_driver.Eth.{Eth, ◌>>=◌, is_null}
use emac_driver.Eth.Drive.{eth_send}
use emac_driver.Net.{Net, LoopState, Datagram, net_set_state, net_send_packet}
use emac_driver.Net.Arp.{
  arp_timeout, arp_timeout_count, arp_raw_request, arp_request, arp_timeout_check,
}
use emac_driver.Net.Arp.Timeout.{again, arp_timeout_check-again, arp_timeout_check_last}
use emac_driver.Net.Start.{Proto, netretry, net_clear_handlers}
use emac_driver.Net.Loop.{
  Round, running, returned, check_timeout, dispatch, conclude, eth_rx, poll, round, rounds,
}
use emac_driver.Net.Loop.Laws.{round-fail}

-- Rounds without a frame, in each of which the ARP timeout has passed and the timeout of the ping,
-- `delta`, has not.
abbrev pub AllSilent : ℕ → ℕ → List Round → Type 0
AllSilent start delta [] = Unit {0}
AllSilent start delta (r ∷ rs) =
    (r.frames ≡ [])
    × (arp_timeout < sub64 r.arp_time start)
    × (sub64 r.test_time r.start_time ≤ delta)
    × AllSilent r.arp_time delta rs

check_timeout_early :
    (now : ℕ) (n : Net) → sub64 now n.time_start ≤ n.time_delta → check_timeout now n ≡ n
unfolding check_timeout
check_timeout_early now n h = elim (Option-cases n.time_handler) [
  | inl e ↦ rw e refl
  | inr (x, e) ↦ rw (e, le→ltb n.time_delta (sub64 now n.time_start) h) refl
]

eth_send-env : (p : Buffer) (l : ℕ) (e : Eth) → (eth_send p l e).env ≡ e.env
unfolding eth_send
eth_send-env p l e = elim (Option-cases e.eth_current) [
  | inl none_current ↦ rw none_current refl
  | inr (d, current) ↦ rw current refl
]

arp_request-env : (n : Net) → (arp_request n).eth.env ≡ n.eth.env
unfolding arp_request arp_raw_request net_send_packet
arp_request-env n = eth_send-env _ _ n.eth

module _ (handle : ℕ → Datagram → Net → Net) where
  eth_rx_nothing : (n : Net) → eth_rx handle [] n ≡ n
  unfolding eth_rx
  eth_rx_nothing n = elim (Bool-cases (is_null n.eth.eth_current)) [
    | inl h ↦ rw h refl
    | inr h ↦ rw h refl
  ]

  -- A silent round whose `arp_timeout_check` ends in `n'`.
  poll_silent :
      (r : Round) (n n' : Net)
      → r.frames ≡ []
      → arp_timeout_check r.arp_time n ≡ (n', 1)
      → sub64 r.test_time r.start_time ≤ n'.time_delta
      → poll handle r n ≡ record n' { time_start = r.start_time }
  unfolding poll
  poll_silent r n n' silent checked early =
      rw (silent, checked, eth_rx_nothing (record n' { time_start = r.start_time }))
        (check_timeout_early r.test_time (record n' { time_start = r.start_time }) early)

  round_running :
      (protocol : Proto) (r : Round) (n : Net)
      → (poll handle r n).net_state ≡ LoopState.continue
      → round handle protocol r n ≡ some (running (poll handle r n))
  unfolding round conclude dispatch
  round_running protocol r n going = ap (λ s. conclude protocol r s (poll handle r n)) going

  -- The loop goes on, a packet waits for ARP with tries left, at least one try is counted for the
  -- loop, and `netretry` is not set. Rounds follow, as many as there are tries left, in which nothing
  -- is received, the ARP timeout passes each time, and the timeout of the protocol does not. Then the
  -- loop returns -110, with its timeout handler cleared.
  pub rounds-unanswered :
      (protocol : Proto) (rs : List Round) (n : Net)
      → n.net_state ≡ LoopState.continue
      → n.net_arp_wait_packet_ip ≢ 0
      → n.arp_wait_try < arp_timeout_count
      → n.arp_wait_try + length rs ≡ arp_timeout_count
      → AllSilent n.arp_wait_timer_start n.time_delta rs
      → env_get netretry n.eth.env ≡ none
      → 0 < n.net_try_count
      → (n' : Net) × (rounds handle protocol rs (running n) ≡ some (returned n' (2 ^ 32 - 110)))
        × (n'.time_handler ≡ none)
  unfolding rounds round conclude dispatch arp_request arp_raw_request net_send_packet net_set_state
      net_clear_handlers
  rounds-unanswered protocol [] n going waits below total silent unset tried = absurd (omega arith)
  rounds-unanswered protocol (r ∷ []) n going waits below total silent unset tried =
      let checked = arp_timeout_check_last r.arp_time n waits (silent.1) (omega arith) in
      let polled =
        poll_silent r n (net_set_state LoopState.fail (record n { arp_wait_try = 0 })) (silent.0)
          checked (silent.2) in
      let ended =
        round-fail handle protocol r n (ap (λ (s : Net). s.net_state) polled)
          (ap (λ (s : Net). env_get netretry s.eth.env) polled ∙ unset) (rw polled tried) in
      (_, ap (λ o. o >>= rounds handle protocol []) ended, refl)
  rounds-unanswered protocol (r ∷ s ∷ rs) n going waits below total silent unset tried =
      let checked = arp_timeout_check-again r.arp_time n waits (silent.1) (omega arith) in
      let k = record (arp_request (again r.arp_time n)) { time_start = r.start_time } in
      let polled : poll handle r n ≡ k =
        poll_silent r n (arp_request (again r.arp_time n)) (silent.0) checked (silent.2) in
      let next : round handle protocol r n ≡ some (running k) =
        round_running protocol r n (ap (λ (t : Net). t.net_state) polled ∙ going)
        ∙ ap (λ t. some (running t)) polled in
      let (n', ended, idle) =
        rounds-unanswered protocol (s ∷ rs) k going waits (omega arith) (omega arith) (silent.3)
          (ap (λ (t : Env). env_get netretry t) (arp_request-env (again r.arp_time n)) ∙ unset)
          tried in
      (n', ap (λ o. o >>= rounds handle protocol (s ∷ rs)) next ∙ ended, idle)
