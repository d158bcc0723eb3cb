-- ===== src/Eth/Ethaddr.antt =====
-- net/net.h: which Ethernet addresses are zero, multicast or valid.
use emac_driver.Common.{Bool, not, ◌&&◌, ◌==◌, has_bits}
use emac_driver.Common.Buffer.{Buffer}

abbrev pub is_zero_ethaddr : Buffer → Bool
is_zero_ethaddr a = a 0 == 0 && a 1 == 0 && a 2 == 0 && a 3 == 0 && a 4 == 0 && a 5 == 0

-- `0x01 & addr[0]`
abbrev pub is_multicast_ethaddr : Buffer → Bool
is_multicast_ethaddr a = has_bits (a 0) 0x01

unfoldable pub is_valid_ethaddr : Buffer → Bool
is_valid_ethaddr a = not (is_multicast_ethaddr a) && not (is_zero_ethaddr a)
