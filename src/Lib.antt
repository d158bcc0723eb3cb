-- ===== src/Lib.antt =====
-- The network stack of emac-driver, a bare-metal Ethernet driver taken from U-Boot: it brings up an
-- Ethernet device, and sends and answers ping and ARP on it.
--
-- The parts and their files:
--   Common      shared names; machine words (Common/Words), bit operations (Common/Bits), and memory
--               as a function from offsets to bytes (Common/Buffer)
--   Byteorder   include/byteorder.h: the swaps and htons, ntohs, htonl, ntohl
--   Checksum    net/checksum.c: compute_ip_checksum, add_ip_checksums, ip_checksum_ok
--   Printf      misc/vsnprintf.c: put_dec (Printf/Decimal), ADDCH (Printf/Output), number and string
--               (Printf/Number), the addresses of %p (Printf/Pointer), the parts of a directive
--               (Printf/Format), and the loop of vsnprintf_internal (Printf/Convert)
--   Text        common.c and misc/string.c: strcmp, strlen, strchr, simple_strtoul; memcpy and the like
--               are in Text/Memory
--   Env         misc/nvedit.c: env_set, env_get
--   Eth         net/eth_legacy.c and net/eth_common.c: the ring of devices and what is done to it;
--               Eth/Select is eth_set_current, Eth/Drive holds eth_init, eth_halt and eth_send,
--               Eth/Enetaddr reads and writes Ethernet addresses in the environment, Eth/Hwaddr is
--               eth_write_hwaddr and on_ethaddr, and Eth/Ring sees the ring as a list
--   Net         the variables of net/net.c, net/arp.c and net/ping.c as one record. Net/Ether and
--               Net/Ip write headers, Net/Arp is net/arp.c with net_send_udp_packet, Net/Ping is
--               net/ping.c, Net/Receive goes from a frame to the protocols, Net/Start holds net_init,
--               net_check_prereq and net_start_again, and Net/Loop is net_loop
--   Address     string_to_ip of common.c; string_to_vlan, ip_to_string, vlan_to_string and the callbacks
--               on addresses of net/net.c
--   Io          include/asm/io.h, the cache loops of common.c, and misc/timer.c: what the program does to
--               the hardware as a history of accesses. Io/Laws tells what of it is in memory
--   Mii         net/miiphyutil.c: the MII buses (Mii/Access: registers by the name of a bus), and the
--               registers of include/mii.h (Mii/Registers)
--   Phy         net/phy/phy.c: Phy/Negotiate starts a negotiation or forces a mode, Phy/Link reads the
--               state of the link and resets a PHY, Phy/Devices finds and sets up devices
--   Geth        net/emac/sunxi_geth.c: registers, descriptors and static variables. Geth/Mdio reads and
--               writes PHY registers, Geth/Transmit is geth_xmit, Geth/Receive is geth_recv, which calls
--               the stack of Net (Geth/Receive/Echo follows a ping through both), Geth/Phy is mii_phy_init and Geth/Setup the rest
--   Tests       concrete stations and packets
--
-- A C function keeps its name. One that changes the state takes it as its last argument and returns
-- the new one, with its `int` result behind it where the code uses it. Eth is a field of Net: sending
-- a packet adds it to the list `sent`. The configuration is that of include/autoconf.h: ping without
-- defragmentation, UDP checksums, TFTP put, CDP, or API.
--
-- Numbers are native naturals that stay below the size of their C type; a negative `int` is its bit
-- pattern. An IPv4 address is the number that a little-endian machine reads. The result `none` of a
-- function on devices or variables is a fault: a read through NULL, a write past a row, or a walk
-- that has not come back after as many steps as devices were registered. put_dec has fuel for four
-- divisions by 100000, after which a 64-bit number is below 100000. net_loop runs for as many rounds
-- as are given; a round holds the clock readings and the frames that it gets from outside. The loop of
-- vsnprintf_internal has one round more than the format has characters.
--
-- A format with its arguments is a function on the output, which is the buffer and the offset `str`;
-- `none` is a missing argument or one of another kind, which C leaves undefined. IS_ERR is taken to be
-- false, since the one function that returns an error pointer is not compiled. A local array that
-- is printed into has an address `place` and an old content `old`, and a text that does not fit into
-- it is a fault.
--
-- A function that touches the hardware takes the history of accesses so far, the latest first, and
-- returns its result with the new one. What a load gives, what the clock shows and what the DMA has
-- put in a buffer are any functions of the history. A loop that polls without a bound has a patience;
-- `none` is a loop that is still polling. The frames that the stack sends while a frame is received
-- go out by geth_xmit when the stack has returned: it does not look at what the driver answers.
--
-- What is outside of the code is a parameter: the drivers' `init` (whether it succeeds, by call and
-- device), the handlers that other protocols set, the clock, and the frames that a device receives.
-- The constants of linux/ethtool.h and linux/mdio.h, which the repository does not have, are parameters
-- too. Console output has no effect here. geth_initialize, the timer interrupts and the entry point are
-- not modelled: they allocate memory or set up the platform.
mod Common
pub mod Byteorder
pub mod Checksum
pub mod Printf
pub mod Io
pub mod Text
pub mod Mii
pub mod Phy
pub mod Geth
pub mod Env
pub mod Eth
pub mod Net
pub mod Address
mod Tests
