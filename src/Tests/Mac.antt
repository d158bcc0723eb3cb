-- ===== src/Tests/Mac.antt =====
-- The theorems on the Ethernet MAC, for hardware that answers at once.
use emac_driver.Byteorder.{ntohs}
use emac_driver.Common.{
  ℕ, ◌+◌, ◌*◌, ◌/◌, ◌%◌, ◌^◌, ◌≤◌, ◌<◌, ◌≡◌, ◌⊎◌, refl, arith, [], ◌∷◌, some, Bool-cases, inl, inr,
  true, false, ltb, ◌==◌, if◌then◌else◌, u32, has_bits,
}
use emac_driver.Io.{Hardware, History, Access, load, store, ◌>>◌}
use emac_driver.Io.Laws.{last_store, in_memory, Extends}
use emac_driver.Geth.{Mac}
use emac_driver.Geth.Transmit.{geth_xmit}
use emac_driver.Geth.Transmit.Wait.{IsPatient}
use emac_driver.Geth.Transmit.Laws.{geth_xmit-IsHandedOver}
use emac_driver.Geth.Receive.{geth_recv}
use emac_driver.Geth.Receive.Armed.{IsArmed}
use emac_driver.Geth.Receive.Reads.{is_empty}
use emac_driver.Geth.Receive.Laws.{IsSorted, geth_recv-IsArmed}
use emac_driver.Geth.Setup.{geth_sys_init, geth_write_hwaddr}
use emac_driver.Geth.Setup.Laws.{
  clock_bit, address_byte, geth_sys_init-clock, geth_write_hwaddr-address_byte,
}
use emac_driver.Net.{Net, Datagram}
use emac_driver.Mii.Access.{split_id}
use emac_driver.Mii.Access.Info.{split_id-bounds}
use emac_driver.Tests.Stations.{station, alice_ip, bob_ip, alice, bob, filled, ignore}
use emac_driver.Tests.Packets.{ping_frame, ping_frame-IsBytes, ping_frame-IsIcmpFrame}
use emac_driver.Common.Buffer.{Buffer, window}
use emac_driver.Net.Ether.{net_eth_hdr_size}
use emac_driver.Net.Ping.{icmp_echo_reply}
use emac_driver.Net.Ping.Laws.{IsEcho}
use emac_driver.Geth.Receive.Echo.{IsSent, geth_recv-IsEcho}
use emac_driver.Geth.Descriptor.{IsHandedOver}
use emac_driver.Geth.Mdio.{geth_phy_read, geth_phy_write}
use emac_driver.Geth.Mdio.Controller.{
  Controller, controller, respond, IsController, written, phy_of, register_of,
}
use emac_driver.Geth.Mdio.Laws.{geth_phy_read-geth_phy_write}

abbrev idle : Controller
idle = record { held = 0; register = λ p r. 0x1234; left = 0 }

abbrev mdio_hardware : Hardware
mdio_hardware = record {
  value = λ h a.
      if a == 0x48
      then (if ltb 0 (controller 0 2 idle h).left then 1 else 0)
      else (controller 0 2 idle h).held;
  clock = λ h. 0;
  contents = λ h b i. 0;
}

abbrev IsSmall : Controller → Type 0
IsSmall c = (c.held < 2 ^ 16) × ((p r : ℕ) → c.register p r < 2 ^ 16)

respond-IsSmall : (a : Access) (c : Controller) → IsSmall c → IsSmall (respond 0 2 a c)
unfolding respond
respond-IsSmall (store a v) c (s, t) =
    (ground (arith, s, t (phy_of v) (register_of v)), (λ p r. ground (arith, s, t p r)))
respond-IsSmall (load a) c (s, t) = (ground (arith, s), (λ p r. ground (arith, t p r)))
respond-IsSmall (Access.clean a) c s = s
respond-IsSmall (Access.discard a) c s = s
respond-IsSmall (Access.wipe a n) c s = s
respond-IsSmall (Access.fetch a) c s = s
respond-IsSmall Access.tick c s = s

controller-IsSmall : (h : History) → IsSmall (controller 0 2 idle h)
unfolding controller
controller-IsSmall [] = (omega arith, (λ p r. omega arith))
controller-IsSmall (a ∷ h) = respond-IsSmall a (controller 0 2 idle h) (controller-IsSmall h)

mdio_hardware-IsController : IsController mdio_hardware 0 2 idle
mdio_hardware-IsController = record {
  busy = λ h. bit_busy (controller 0 2 idle h).left;
  shown = λ h. omega (arith, (controller-IsSmall h).0);
}
  where
    bit_busy : (n : ℕ) → has_bits (u32 (if ltb 0 n then 1 else 0)) 1 ≡ ltb 0 n
    bit_busy n = elim (Bool-cases (ltb 0 n)) [ inl e ↦ rw e refl | inr e ↦ rw e refl ]

-- PHY 3 gets 0x1000 in register 0, and the read is of the same register.
geth_phy_read-geth_phy_write_example :
    (h' : History) × ((geth_phy_write mdio_hardware 3 0 3 0 0x1000
          >> geth_phy_read mdio_hardware 3 0 3 0)
        []
      ≡ some (written (controller 0 2 idle []).register 3 0 0x1000 3 0, h'))
    × ((controller 0 2 idle h').register ≡ written (controller 0 2 idle []).register 3 0 0x1000)
geth_phy_read-geth_phy_write_example =
    geth_phy_read-geth_phy_write mdio_hardware 0 2 idle mdio_hardware-IsController 3 3 0 0x1000 3 0
      [] (omega arith) (omega arith) (omega arith) (omega arith) (omega arith) (omega arith)

-- Hardware whose DMA is always idle, and that reports one frame of 64 bytes.
abbrev frame_hardware : Hardware
frame_hardware = record {
  value = λ h a. if a == 0x8000 then 64 * 2 ^ 16 + 2 ^ 8 else (if a == 0x08 then 0x100 else 0);
  clock = λ h. 0;
  contents = λ h b i. 0;
}

abbrev mac : Mac
mac = record {
  dma_desc_tx = 0x4000;
  dma_desc_rx = 0x8000;
  rx_packet = 0x9000;
  rx_handle_buf = 0xA000;
  used_type = 0;
  phy_interface = 7;
  phy_addr = 3;
}

frame_hardware-IsPatient : IsPatient frame_hardware 1 0x4000 0
frame_hardware-IsPatient h = (0, omega arith, inl refl)

geth_xmit-IsHandedOver_example :
    (h' : History) × (geth_xmit frame_hardware 1 mac 0 0x5000 98 [] ≡ some (0, h'))
    × IsHandedOver h' 0x4000 (0x61000000 + 98) 0x5000 0x20 0x14
geth_xmit-IsHandedOver_example =
    geth_xmit-IsHandedOver frame_hardware 1 mac 0 0x5000 98 [] frame_hardware-IsPatient
      (omega arith)

abbrev keep : ℕ → Datagram → Net → Net
keep k d n = n

geth_recv-IsArmed_example :
    (n' : Net) × (h' : History) × (geth_recv frame_hardware keep
        (λ f. 0x5000)
        1
        mac
        0
        (station alice_ip 2)
        []
      ≡ some (n', h'))
    × (((is_empty frame_hardware mac 0 [] ≡ true)
          × (n' ≡ station alice_ip 2)
          × ((a : ℕ) → in_memory h' a ≡ in_memory [] a))
        ⊎ ((is_empty frame_hardware mac 0 [] ≡ false)
            × IsArmed frame_hardware mac 0 h'
            × IsSorted frame_hardware keep (λ f. 0x5000) 1 mac 0 [] (station alice_ip 2) n'))
geth_recv-IsArmed_example =
    geth_recv-IsArmed frame_hardware keep (λ f. 0x5000) 1 mac 0 frame_hardware-IsPatient
      (λ f. omega arith) (station alice_ip 2) [] (omega arith)

-- The registers are where the processor has them.
geth_sys_init-clock_example :
    (mac' : Mac) × (h' : History) × (value : ℕ) × (geth_sys_init frame_hardware 0x3000030 0x2001000
        mac []
      ≡ some ((mac', 0), h'))
    × (last_store h' 0x3000030 ≡ some value)
    × ((k : ℕ)
        → k < 32
        → value / 2 ^ k % 2 ≡ clock_bit k (u32 (frame_hardware.value [] 0x3000030) / 2 ^ k % 2))
geth_sys_init-clock_example =
    geth_sys_init-clock frame_hardware 0x3000030 0x2001000 mac [] (λ e. omega (arith, e))
      (λ e. omega (arith, e))

geth_write_hwaddr-address_byte_example :
    (lo hi : ℕ) × (geth_write_hwaddr 0 (λ i. (i + 0x50) % 256) []
      ≡ some (0, store 0x54 lo ∷ store 0x50 hi ∷ []))
    × (hi < 2 ^ 16)
    × ((i : ℕ) → i < 6 → address_byte lo hi i ≡ (i + 0x50) % 256)
geth_write_hwaddr-address_byte_example =
    geth_write_hwaddr-address_byte 0 (λ i. (i + 0x50) % 256) [] (λ i. omega arith)

-- An RTL8211F.
split_id-bounds_example :
    ((split_id 0x1c 0xc916).oui < 2 ^ 22)
    × ((split_id 0x1c 0xc916).model < 2 ^ 6)
    × ((split_id 0x1c 0xc916).rev < 2 ^ 4)
    × ((split_id 0x1c 0xc916).oui * 1024
          + (split_id 0x1c 0xc916).model * 16
          + (split_id 0x1c 0xc916).rev
        ≡ 0x1c * 2 ^ 16 + 0xc916)
split_id-bounds_example = split_id-bounds 0x1c 0xc916 (omega arith) (omega arith)

-- alice's ping, received by bob: 14 bytes of Ethernet header, 28 of the packet and 4 of checksum.
abbrev ping_hardware : Hardware
ping_hardware = record {
  value = λ h a. if a == 0x8000 then 46 * 2 ^ 16 + 2 ^ 8 else (if a == 0x08 then 0x100 else 0);
  clock = λ h. 0;
  contents = λ h b. ping_frame;
}

ping_hardware-IsPatient : IsPatient ping_hardware 1 0x4000 0
ping_hardware-IsPatient h = (0, omega arith, inl refl)

geth_recv-IsEcho_example :
    (m' : Net) × (h' h1 : History) × (g : Buffer) × (geth_recv ping_hardware ignore
        (λ f. 0x5000)
        1
        mac
        0
        bob
        []
      ≡ some (m', h'))
    × (m'.eth.sent
        ≡ record { to = 1; packet = g; length = net_eth_hdr_size bob + 28 } ∷ bob.eth.sent)
    × IsEcho (window g (net_eth_hdr_size bob)) 28 icmp_echo_reply bob_ip alice_ip
    × ((i : ℕ) → 24 ≤ i → g (net_eth_hdr_size bob + i) ≡ ping_frame (net_eth_hdr_size bob + i))
    × IsSent
        (λ f. 0x5000)
        mac
        0
        h1
        (record { to = 1; packet = g; length = net_eth_hdr_size bob + 28 })
    × Extends h' h1
    × IsArmed ping_hardware mac 0 h'
unfolding net_eth_hdr_size ntohs
geth_recv-IsEcho_example =
    geth_recv-IsEcho ping_hardware ignore (λ f. 0x5000) 1 mac 0 alice bob [] (filled 2) 28 alice_ip
      1 ping_hardware-IsPatient (λ f. omega arith) (omega arith) refl refl
      (record { last = refl; checked = inl refl; sound = refl; whole = refl; clear = refl }) refl
      refl refl ping_frame-IsIcmpFrame ping_frame-IsBytes (omega arith) (omega arith) (omega arith)
