-- ===== src/Net/Start/Retry.antt =====
-- When `net_start_again` of net/net.c gives up, and what it does else.
use emac_driver.Common.{
  ℕ, ◌+◌, ◌-◌, ◌^◌, ◌≤◌, ◌<◌, ◌≡◌, ◌≢◌, refl, ◌∙◌, arith, [], ◌∷◌, Option, none, some, Bool, true,
  false, not, ltb, ◌==◌, ne→==, sext32, u32,
}
use emac_driver.Text.{Text, IsText, strcmp, simple_strtoul}
use emac_driver.Text.Laws.{strcmp_iff}
use emac_driver.Env.{env_get}
use emac_driver.Eth.{Eth, ◌>>=◌, eth_try_another}
use emac_driver.Eth.Drive.{eth_halt, eth_init}
use emac_driver.Net.{
  Net, Handler, LoopState, Timeout, net_set_udp_handler, net_set_timeout_handler, net_set_state,
}
use emac_driver.Net.Start.{netretry, retries, after_restart, net_start_again}

abbrev yes_text : Text
yes_text = b'y' ∷ b'e' ∷ b's' ∷ []

abbrev no_text : Text
no_text = b'n' ∷ b'o' ∷ []

abbrev once_text : Text
once_text = b'o' ∷ b'n' ∷ b'c' ∷ b'e' ∷ []

-- How often the variable `netretry` lets the loop start again; `none` is without end.
pub data IsLimit (v : Option Text) (limit : Option ℕ) : Type 0 where
  unset : v ≡ none → limit ≡ some 0 → IsLimit v limit
  forever : v ≡ some yes_text → limit ≡ none → IsLimit v limit
  never : v ≡ some no_text → limit ≡ some 0 → IsLimit v limit
  once : v ≡ some once_text → limit ≡ some 1 → IsLimit v limit
  number :
      (t : Text)
      → v ≡ some t
      → IsText t
      → t ≢ yes_text
      → t ≢ no_text
      → t ≢ once_text
      → limit ≡ some (simple_strtoul t 0).0
      → IsLimit v limit

-- As many starts were counted as there may be.
abbrev pub IsSpent : Option ℕ → ℕ → Type 0
IsSpent none tries = ⊥
IsSpent (some limit) tries = limit < tries

abbrev pub IsLeft : Option ℕ → ℕ → Type 0
IsLeft none tries = Unit {0}
IsLeft (some limit) tries = tries ≤ limit

-- The state behind another start, for which `e` is what `eth_init` has left.
pub record IsRestarted (now : ℕ) (n : Net) (e : Eth) (n' : Net) : Type 0 where
  pub counted : n'.net_try_count ≡ n.net_try_count + 1
  pub at_once : e.net_restart_wrap ≡ false → (n'.net_state ≡ LoopState.restart) × (n'.eth ≡ e)
  -- every device has failed: the loop waits for ten seconds
  pub later :
      e.net_restart_wrap ≡ true
      → n.net_dev_exists ≡ true
      → (n'.net_state ≡ n.net_state)
        × (n'.time_handler ≡ some Timeout.start_again_timeout_handler)
        × (n'.time_start ≡ now)
        × (n'.time_delta ≡ 10000)
        × (n'.udp_packet_handler ≡ Handler.dummy)
        × (n'.eth ≡ record e { net_restart_wrap = false })
  pub without_device :
      e.net_restart_wrap ≡ true
      → n.net_dev_exists ≡ false
      → (n'.net_state ≡ LoopState.fail) × (n'.eth ≡ record e { net_restart_wrap = false })

-- `retries` in terms of the limit.
abbrev limit_of : Option ℕ → Bool × ℕ
limit_of none = (true, 0)
limit_of (some limit) = (false, limit)

other_text : (s t : Text) → IsText s → IsText t → s ≢ t → (strcmp s t == 0) ≡ false
other_text s t h k ne = ne→== (strcmp s t) 0 (λ e. ne ((strcmp_iff s t h k).0 e))

retries-number :
    (t : Text)
    → IsText t
    → t ≢ yes_text
    → t ≢ no_text
    → t ≢ once_text
    → retries (some t) ≡ (false, (simple_strtoul t 0).0)
unfolding retries
retries-number t h ne ne' ne'' =
    rw
      (
        other_text t yes_text h (omega arith) ne,
        other_text t no_text h (omega arith) ne',
        other_text t once_text h (omega arith) ne'',
      )
      refl

retries-IsLimit :
    (v : Option Text) (limit : Option ℕ) → IsLimit v limit → retries v ≡ limit_of limit
unfolding retries strcmp
retries-IsLimit v limit (unset e l) = rw (e, l) refl
retries-IsLimit v limit (forever e l) = rw (e, l) refl
retries-IsLimit v limit (never e l) = rw (e, l) refl
retries-IsLimit v limit (once e l) = rw (e, l) refl
retries-IsLimit v limit (number t e text ne ne' ne'' l) =
    rw (e, l) (retries-number t text ne ne' ne'')

after_restart_count :
    (now : ℕ) (n : Net) (e : Eth) (wrap here : Bool)
    → e.net_restart_wrap ≡ wrap
    → n.net_dev_exists ≡ here
    → (after_restart now (record n { eth = e })).net_try_count ≡ n.net_try_count
unfolding after_restart net_set_timeout_handler net_set_state
after_restart_count now n e false here w h = rw w refl
after_restart_count now n e true false w h = rw (w, h) refl
after_restart_count now n e true true w h = rw (w, h) refl

after_restart-IsRestarted :
    (now : ℕ) (n : Net) (e : Eth) (count : ℕ)
    → count ≡ n.net_try_count + 1
    → IsRestarted now n e (after_restart now (record n { net_try_count = count; eth = e }))
unfolding after_restart net_set_timeout_handler net_set_udp_handler net_set_state
after_restart-IsRestarted now n e count h = record {
  counted =
      after_restart_count now (record n { net_try_count = count }) e e.net_restart_wrap
        n.net_dev_exists refl refl
      ∙ h;
  at_once = λ w. rw w (refl, refl);
  later = λ w d. rw (w, d) (refl, refl, refl, refl, refl, refl);
  without_device = λ w d. rw (w, d) (refl, refl);
}

spent : (limit tries : ℕ) → tries < 2 ^ 31 → limit < tries → ltb limit (sext32 tries) ≡ true
spent limit tries small h = ground arith

left : (limit tries : ℕ) → tries < 2 ^ 31 → tries ≤ limit → ltb limit (sext32 tries) ≡ false
left limit tries small h = ground arith

module _ (driver_init : ℕ → ℕ → Bool) (now : ℕ) (n : Net)
    (small : n.net_try_count < 2 ^ 31 - 1) where
  gives_up :
      (limit : Option ℕ)
      → retries (env_get netretry n.eth.env) ≡ limit_of limit
      → IsSpent limit n.net_try_count
      → net_start_again driver_init now n
        ≡ some (record n { eth = eth_halt n.eth; net_state = LoopState.fail }, 2 ^ 32 - 110)
  unfolding net_start_again net_set_state
  gives_up none e h = absurd h
  gives_up (some limit) e h = rw (e, spent limit n.net_try_count (omega arith) h) refl

  tries_again :
      (limit : Option ℕ)
      → retries (env_get netretry n.eth.env) ≡ limit_of limit
      → IsLeft limit n.net_try_count
      → net_start_again driver_init now n ≡ (
          eth_try_another (not n.net_restarted) (eth_halt n.eth) >>= λ e1.
          eth_init driver_init e1 >>= λ r. some (
            after_restart now (record n { net_try_count = u32 (n.net_try_count + 1); eth = r.0 }),
            r.1,
          ))
  unfolding net_start_again
  tries_again none e h = rw e refl
  tries_again (some limit) e h = rw (e, left limit n.net_try_count (omega arith) h) refl

  -- Where the variable `netretry` is not set or "no", net_start_again may start again 0 times, where it
  -- is "once", once, where it is "yes", without end, and where it is another text, as often as
  -- simple_strtoul reads from it with base 0. With more starts counted than that, below 2^31 - 1, it
  -- halts the device, leaves the loop in the state NETLOOP_FAIL, and returns -110. Else, where neither
  -- eth_try_another nor eth_init faults, it halts the device, takes another one and initialises it,
  -- returns what eth_init does, and counts the start; the loop is restarted at once, or, where every
  -- device has failed, is to be in ten seconds, or fails, where there was no device either.
  pub net_start_again-IsRestarted :
      (limit : Option ℕ)
      → IsLimit (env_get netretry n.eth.env) limit
      → (IsSpent limit n.net_try_count
          → net_start_again driver_init now n
            ≡ some (record n { eth = eth_halt n.eth; net_state = LoopState.fail }, 2 ^ 32 - 110))
        × ((e1 e2 : Eth) (result : ℕ)
            → IsLeft limit n.net_try_count
            → eth_try_another (not n.net_restarted) (eth_halt n.eth) ≡ some e1
            → eth_init driver_init e1 ≡ some (e2, result)
            → (n' : Net) × (net_start_again driver_init now n ≡ some (n', result))
              × IsRestarted now n e2 n')
  net_start_again-IsRestarted limit is =
      let e = retries-IsLimit (env_get netretry n.eth.env) limit is in
      (
        gives_up limit e,
        λ e1 e2 result l another begun. (
          after_restart now (record n { net_try_count = u32 (n.net_try_count + 1); eth = e2 }),
          tries_again limit e l ∙ rw (another, begun) refl,
          after_restart-IsRestarted now n e2 (u32 (n.net_try_count + 1)) (omega arith),
        ),
      )
