-- ===== src/Net/Loop/Laws.antt =====
-- How the loop ends.
use emac_driver.Common.{
  ℕ, ◌-◌, ◌<◌, ◌^◌, ◌≡◌, refl, ap, ◌∙◌, arith, List, [], ◌∷◌, ◌++◌, Option, none, some, Bool, true,
  ltb, sext32,
}
use emac_driver.Env.{env_get}
use emac_driver.Eth.{◌>>=◌}
use emac_driver.Eth.Drive.{eth_halt}
use emac_driver.Net.{Net, LoopState, Datagram, net_set_state}
use emac_driver.Net.Start.{Proto, netretry, retries, net_clear_handlers, net_start_again}
use emac_driver.Net.Loop.{Round, Step, running, returned, dispatch, conclude, poll, round, rounds}

-- Without `netretry`, and with a try counted, `net_start_again` gives up at once: it halts the device, leaves the loop in
-- the state NETLOOP_FAIL, and returns -110.
pub net_start_again-fail :
    (driver_init : ℕ → ℕ → Bool) (now : ℕ) (n : Net)
    → env_get netretry n.eth.env ≡ none
    → 0 < n.net_try_count
    → net_start_again driver_init now n
      ≡ some (record n { eth = eth_halt n.eth; net_state = LoopState.fail }, 2 ^ 32 - 110)
unfolding net_start_again retries net_set_state
net_start_again-fail driver_init now n unset tried =
    let more : ltb 0 (sext32 n.net_try_count) ≡ true = ground arith in rw (unset, more) refl

and_then :
    (f g h : Step → Option Step) (o : Option Step)
    → ((s : Step) → h s ≡ (f s >>= g))
    → (o >>= h) ≡ (o >>= f >>= g)
and_then f g h none e = refl
and_then f g h (some s) e = e s

module _ (handle : ℕ → Datagram → Net → Net) where
  -- Running rounds in two parts is running them in one.
  pub rounds-append :
      (protocol : Proto) (rs ss : List Round) (s : Step)
      → rounds handle protocol (rs ++ ss) s
        ≡ (rounds handle protocol rs s >>= rounds handle protocol ss)
  unfolding rounds
  rounds-append protocol [] ss s = refl
  rounds-append protocol (r ∷ rs) [] (returned n v) = refl
  rounds-append protocol (r ∷ rs) (t ∷ ss) (returned n v) = refl
  rounds-append protocol (r ∷ rs) ss (running n) =
      and_then (rounds handle protocol rs) (rounds handle protocol ss)
        (rounds handle protocol (rs ++ ss)) (round handle protocol r n)
        (rounds-append protocol rs ss)

  -- A round in which the state NETLOOP_FAIL is reached and no retry is configured is the last one.
  pub round-fail :
      (protocol : Proto) (r : Round) (n : Net)
      → (poll handle r n).net_state ≡ LoopState.fail
      → env_get netretry (poll handle r n).eth.env ≡ none
      → 0 < (poll handle r n).net_try_count
      → round handle protocol r n
        ≡ some (
            returned
              (net_clear_handlers (record (poll handle r n) {
                eth = eth_halt (poll handle r n).eth;
                net_state = LoopState.fail;
              }))
              (2 ^ 32 - 110))
  unfolding round dispatch conclude
  round-fail protocol r n failed unset tried =
      ap (λ s. conclude protocol r s (poll handle r n)) failed
      ∙ rw (net_start_again-fail r.driver_init r.again_time (poll handle r n) unset tried) refl
