-- ===== src/Tests/Exchanges.antt =====
-- The theorems on what two stations exchange, for alice and bob.
use emac_driver.Common.{◌<◌, ℕ, ◌-◌, ◌^◌, ◌≡◌, refl, arith, List, [], ◌∷◌, none, some, true, not}
use emac_driver.Common.Buffer.{Buffer, IsBytes, of_list}
use emac_driver.Eth.{Frame}
use emac_driver.Eth.Drive.{eth_halt, eth_init}
use emac_driver.Net.{Net, Datagram, Handler, LoopState, net_send_packet, net_set_state}
use emac_driver.Byteorder.{ntohs}
use emac_driver.Checksum.{ip_checksum_ok}
use emac_driver.Net.Ping.{ping_receive}
use emac_driver.Net.Ether.{vlan_of}
use emac_driver.Net.Arp.{arp_request, arp_target, net_send_udp_packet}
use emac_driver.Net.Arp.Timeout.{timeouts, timeouts-fail}
use emac_driver.Net.Receive.{
  parse_ether, vlan_matches, ip_accepts, ip_receive, net_defragment, receive_icmp, route,
  net_process_received_packet,
}
use emac_driver.Net.Receive.Udp.{net_send_udp_packet-net_process_received_packet}
use emac_driver.Net.Receive.Handshake.{asking, arp_size, IsResolved, arp_request-IsResolved}
use emac_driver.Net.Receive.Carried.{IsCarried}
use emac_driver.Net.Receive.Accepted.{IsAccepted}
use emac_driver.Net.Receive.Success.{IsReply, net_process_received_packet-IsReply}
use emac_driver.Env.{initial, env_get}
use emac_driver.Net.Start.{Proto, netretry, net_start_again}
use emac_driver.Net.Loop.{Round, running, returned, rounds}
use emac_driver.Net.Start.Retry.{IsLimit, IsSpent, IsLeft, IsRestarted, net_start_again-IsRestarted}
use emac_driver.Eth.{Eth, eth_try_another}
use emac_driver.Net.Loop.Unanswered.{rounds-unanswered}
use emac_driver.Tests.Stations.{
  of_list-IsBytes, one_device, filled, alice, bob, alice_ip, bob_ip, ignore,
}

abbrev listening_bob : Net
listening_bob = record bob { udp_packet_handler = Handler.protocol 5 }

net_send_udp_packet-net_process_received_packet_example :
    (frame : Frame) × ((net_send_udp_packet 1 bob_ip 69 1024 4 0 alice).1 ≡ 0)
    × ((net_send_udp_packet 1 bob_ip 69 1024 4 0 alice).0.eth.sent ≡ frame ∷ [])
    × (frame.to ≡ 1)
    × ((d : Datagram) × (net_process_received_packet ignore frame.packet frame.length listening_bob
          ≡ ignore 5 d (record listening_bob { delivered = (5, d) ∷ [] }))
        × (d.dport ≡ 69)
        × (d.sport ≡ 1024)
        × (d.sip ≡ alice_ip)
        × (d.len ≡ 4)
        × ((i : ℕ) → i < 4 → d.pkt i ≡ 7))
net_send_udp_packet-net_process_received_packet_example =
    net_send_udp_packet-net_process_received_packet ignore alice listening_bob 1 69 1024 4 0 5 1
      refl refl refl (λ i. omega arith) (λ i. omega arith) (λ i. omega arith) refl refl
      (omega arith) (omega arith) (λ e. omega (arith, e)) (omega arith) (omega arith) (omega arith)

arp_request-IsResolved_example :
    (q g : Buffer) × (arp_request alice
      ≡ net_send_packet q (arp_size alice) (asking alice bob_ip q))
    × (net_process_received_packet ignore q (arp_size alice) bob
        ≡ net_send_packet g (arp_size alice) bob)
    × IsResolved
        (arp_request alice)
        (net_process_received_packet ignore g (arp_size alice) (arp_request alice))
        1
        (some 1)
        (filled 2)
unfolding arp_target
arp_request-IsResolved_example =
    arp_request-IsResolved ignore alice bob 1 (some 1) refl refl (λ e. omega (arith, e))
      (omega arith) (λ e. omega (arith, e)) (omega arith) refl refl (λ e. omega (arith, e)) refl

-- An echo reply of 28 bytes from bob to alice, in an Ethernet frame.
abbrev reply_bytes : List ℕ
reply_bytes =
    1 ∷ 1 ∷ 1 ∷ 1 ∷ 1 ∷ 1 ∷ 2 ∷ 2 ∷ 2 ∷ 2 ∷ 2 ∷ 2 ∷ 8 ∷ 0 ∷ 0x45 ∷ 0 ∷ 0 ∷ 28 ∷ 0 ∷ 1 ∷ 0 ∷ 0 ∷ 64
    ∷ 1 ∷ 0x66 ∷ 0xde ∷ 10 ∷ 0 ∷ 0 ∷ 2 ∷ 10 ∷ 0 ∷ 0 ∷ 1 ∷ 0 ∷ 0 ∷ 255 ∷ 255 ∷ 0 ∷ 0 ∷ 0 ∷ 0 ∷ []

abbrev reply_frame : Buffer
reply_frame = of_list reply_bytes

reply_succeeds :
    (net_process_received_packet ignore reply_frame 42 alice).net_state ≡ LoopState.success
unfolding net_process_received_packet route parse_ether vlan_matches ip_receive ip_accepts
    ip_checksum_ok net_defragment receive_icmp ping_receive net_set_state ntohs vlan_of
reply_succeeds = refl

reply_frame-IsBytes : IsBytes reply_frame
reply_frame-IsBytes = of_list-IsBytes reply_bytes (omega arith)

net_process_received_packet-IsReply_example :
    (hdr : ℕ) × IsCarried alice reply_frame hdr
    × IsAccepted reply_frame hdr 42 alice
    × IsReply reply_frame hdr alice
net_process_received_packet-IsReply_example =
    net_process_received_packet-IsReply ignore reply_frame 42 alice reply_frame-IsBytes
      (omega arith) refl refl (λ e. ground (arith, e)) reply_succeeds

timeouts-fail_example :
    ((timeouts (6000 ∷ 12000 ∷ 18000 ∷ 24000 ∷ []) alice).net_state ≡ LoopState.fail)
    × ((timeouts (6000 ∷ 12000 ∷ 18000 ∷ 24000 ∷ []) alice).arp_wait_try ≡ 0)
timeouts-fail_example =
    timeouts-fail (6000 ∷ 12000 ∷ 18000 ∷ 24000 ∷ []) alice (λ e. omega (arith, e)) (omega arith)
      refl (omega arith, (omega arith, (omega arith, (omega arith, tt))))

-- A turn of the loop at the time given, in which nothing arrives.
abbrev silent_round : ℕ → Round
silent_round t = record {
  arp_time = t;
  start_time = t;
  test_time = t;
  again_time = t;
  prereq_time = t;
  set_time = t;
  ping_time = t;
  frames = [];
  driver_init = λ i d. true;
  restart_init = λ i d. true;
}

abbrev silence : List Round
silence = silent_round 6000 ∷ silent_round 12000 ∷ silent_round 18000 ∷ silent_round 24000 ∷ []

unset : env_get netretry initial ≡ none
unfolding env_get
unset = refl

rounds-unanswered_example :
    (n' : Net) × (rounds ignore Proto.ping silence (running alice)
      ≡ some (returned n' (2 ^ 32 - 110)))
    × (n'.time_handler ≡ none)
rounds-unanswered_example =
    rounds-unanswered ignore Proto.ping silence alice refl (λ e. omega (arith, e)) (omega arith)
      refl
      (
        refl,
        omega arith,
        omega arith,
        (
          refl,
          omega arith,
          omega arith,
          (refl, omega arith, omega arith, (refl, omega arith, omega arith, tt)),
        ),
      )
      unset (omega arith)

-- alice, whose loop may start again once.
abbrev patient_alice : Net
patient_alice = record alice {
  eth = record one_device {
    env = record { keys = netretry ∷ []; vals = (b'o' ∷ b'n' ∷ b'c' ∷ b'e' ∷ []) ∷ [] };
  };
}

patient : env_get netretry patient_alice.eth.env ≡ some (b'o' ∷ b'n' ∷ b'c' ∷ b'e' ∷ [])
unfolding env_get
patient = refl

net_start_again-IsRestarted_example :
    (IsSpent (some 1) patient_alice.net_try_count
      → net_start_again (λ i d. true) 0 patient_alice
        ≡ some (
          record patient_alice { eth = eth_halt patient_alice.eth; net_state = LoopState.fail },
          2 ^ 32 - 110,
        ))
    × ((e1 e2 : Eth) (result : ℕ)
        → IsLeft (some 1) patient_alice.net_try_count
        → eth_try_another (not patient_alice.net_restarted) (eth_halt patient_alice.eth) ≡ some e1
        → eth_init (λ i d. true) e1 ≡ some (e2, result)
        → (n' : Net) × (net_start_again (λ i d. true) 0 patient_alice ≡ some (n', result))
          × IsRestarted 0 patient_alice e2 n')
net_start_again-IsRestarted_example =
    net_start_again-IsRestarted (λ i d. true) 0 patient_alice (omega arith) (some 1)
      (IsLimit.once patient refl)
