-- ===== src/Byteorder/Laws.antt =====
-- What the swaps do to the bytes of a number, and that they undo each other.
use emac_driver.Common.{
  ℕ, ◌+◌, ◌*◌, ◌/◌, ◌%◌, ◌^◌, ◌<◌, ◌≡◌, refl, ap, ◌∙◌, arith, bit_and, bit_or, u16, u32,
}
use emac_driver.Common.Bits.{bit_or-add, bit_and-shifted, bit_and-ones}
use emac_driver.Byteorder.{swab16, swab32, htons, ntohs, htonl, ntohl}

-- One byte of a number under its mask.
byte_mask : (k x : ℕ) → bit_and x (255 * 2 ^ k) ≡ x / 2 ^ k % 256 * 2 ^ k
byte_mask k x = rw (bit_and-shifted k x 255, bit_and-ones 8 (x / 2 ^ k) 255 refl)

pub swab16_bytes : (x : ℕ) → swab16 x ≡ x % 256 * 256 + x / 256 % 256
unfolding swab16
swab16_bytes x = omega (
  arith,
  bit_and-ones 8 (u16 x) 0xff refl,
  byte_mask 8 (u16 x),
  bit_or-add 8 (bit_and (u16 x) 0xff * 2 ^ 8) (bit_and (u16 x) 0xff00 / 2 ^ 8) (omega arith)
      (omega (arith, byte_mask 8 (u16 x))),
)

or_bytes :
    (a b c d : ℕ)
    → b < 2 ^ 24
    → b % 2 ^ 16 ≡ 0
    → c < 2 ^ 16
    → c % 2 ^ 8 ≡ 0
    → d < 2 ^ 8
    → bit_or (bit_or (bit_or (a * 2 ^ 24) b) c) d ≡ a * 2 ^ 24 + b + c + d
or_bytes a b c d b_high b_low c_high c_low d_high =
    rw (bit_or-add 24 (a * 2 ^ 24) b (omega arith) b_high) (
      rw (bit_or-add 16 (a * 2 ^ 24 + b) c (omega arith) c_high)
        (bit_or-add 8 (a * 2 ^ 24 + b + c) d (omega arith) d_high))

pub swab32_bytes :
    (x : ℕ)
    → swab32 x
      ≡ x % 256 * 16777216 + x / 256 % 256 * 65536 + x / 65536 % 256 * 256 + x / 16777216 % 256
unfolding swab32
swab32_bytes x =
    let b0 : bit_and (u32 x) 0xff ≡ x % 256 = omega (arith, bit_and-ones 8 (u32 x) 0xff refl) in
    let b1 : bit_and (u32 x) 0xff00 ≡ x / 256 % 256 * 256 = omega (arith, byte_mask 8 (u32 x)) in
    let b2 : bit_and (u32 x) 0xff0000 ≡ x / 65536 % 256 * 65536 =
      omega (arith, byte_mask 16 (u32 x)) in
    let b3 : bit_and (u32 x) 0xff000000 ≡ x / 16777216 % 256 * 16777216 =
      omega (arith, byte_mask 24 (u32 x)) in
    omega (
      arith,
      b0,
      b1,
      b2,
      b3,
      or_bytes (bit_and (u32 x) 0xff) (bit_and (u32 x) 0xff00 * 2 ^ 8)
          (bit_and (u32 x) 0xff0000 / 2 ^ 8) (bit_and (u32 x) 0xff000000 / 2 ^ 24) (omega arith)
          (omega arith) (omega arith) (omega arith) (omega arith),
    )

-- Swapping the bytes of a 16-bit number twice gives it back.
pub ntohs-htons : (x : ℕ) → x < 2 ^ 16 → ntohs (htons x) ≡ x
unfolding ntohs htons
ntohs-htons x h = omega (arith, swab16_bytes x, swab16_bytes (swab16 x))

-- Swapping the bytes of a 32-bit number twice gives it back.
pub ntohl-htonl : (x : ℕ) → x < 2 ^ 32 → ntohl (htonl x) ≡ x
unfolding ntohl htonl
ntohl-htonl x h = omega (arith, swab32_bytes x, swab32_bytes (swab32 x))

pub htons-lt : (x : ℕ) → htons x < 2 ^ 16
unfolding htons
htons-lt x = omega (arith, swab16_bytes x)

load16-store16 : (v : ℕ) → v < 2 ^ 16 → v % 256 + 256 * (v / 256 % 256) ≡ v
load16-store16 v h = omega arith

-- A field in network byte order, written by `store16` and read by `load16`.
pub stored_htons : (x : ℕ) → x < 2 ^ 16 → ntohs (htons x % 256 + 256 * (htons x / 256 % 256)) ≡ x
stored_htons x h = ap ntohs (load16-store16 (htons x) (htons-lt x)) ∙ ntohs-htons x h
