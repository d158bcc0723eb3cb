-- ===== src/Byteorder.antt =====
-- include/byteorder.h: the byte swaps behind `htons`, `ntohs`, `htonl` and `ntohl` on the
-- little-endian target.
pub mod Laws
use emac_driver.Common.{ℕ, bit_and, bit_or, ◌<<<◌, ◌>>>◌, u16, u32}

pub swab16 : ℕ → ℕ
swab16 x = u16 (bit_or (bit_and (u16 x) 0x00ff <<< 8) (bit_and (u16 x) 0xff00 >>> 8))

pub swab32 : ℕ → ℕ
swab32 x = u32 (
    bit_or
      (bit_or (bit_or (bit_and (u32 x) 0x000000ff <<< 24) (bit_and (u32 x) 0x0000ff00 <<< 8))
        (bit_and (u32 x) 0x00ff0000 >>> 8))
      (bit_and (u32 x) 0xff000000 >>> 24))

-- The macros; host and network order differ by a swap, whichever way.
unfoldable pub htons : ℕ → ℕ
unfolding swab16
htons x = swab16 x

unfoldable pub ntohs : ℕ → ℕ
unfolding swab16
ntohs x = swab16 x

unfoldable pub htonl : ℕ → ℕ
unfolding swab32
htonl x = swab32 x

unfoldable pub ntohl : ℕ → ℕ
unfolding swab32
ntohl x = swab32 x
