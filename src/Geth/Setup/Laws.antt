-- ===== src/Geth/Setup/Laws.antt =====
-- What the start of the MAC in net/emac/sunxi_geth.c leaves in the registers of clocks and address.
use Prim.Native.Nat.{max, min}
use emac_driver.Common.{
  ℕ, zero, suc, ◌+◌, ◌-◌, ◌*◌, ◌/◌, ◌%◌, ◌^◌, ◌<◌, ◌≡◌, refl, sym, ◌∙◌, arith, Bool, true, ◌&&◌,
  ◌||◌, ◌∷◌, some, bit_and, bit_or, u32, not32, ◌<<<◌, ◌≢◌, ◌==◌, ==→eq, ==_refl, ne→==, ltb, leb,
  if◌then◌else◌,
}
use emac_driver.Common.Bits.{bit_or-add}
use emac_driver.Common.Digits.{bit_or_at, bit_and_at, low_bit_at}
use emac_driver.Common.Buffer.{Buffer, IsBytes}
use emac_driver.Io.{Hardware, History, store, set_bits}
use emac_driver.Io.Laws.{last_store}
use emac_driver.Geth.{Mac, geth_addr_hi, geth_addr_lo}
use emac_driver.Geth.Setup.{geth_sys_init, geth_write_hwaddr, phy_clock, select_phy}

-- Bit `k` of the clock register for an external RGMII PHY: the external PHY is selected and the
-- internal one shut down, the clock is that of RGMII, and the delays are 3 for sending and 0 for
-- receiving. The other bits stay.
pub clock_bit : ℕ → ℕ → ℕ
clock_bit k b =
    if k == 1 || k == 2 || k == 10 || k == 11 || k == 16
    then 1
    else (if k == 0 || (leb 5 k && ltb k 10) || k == 12 || k == 15 then 0 else b)

-- The same bit, by the operations of the code.
computed_bit : ℕ → ℕ → ℕ
computed_bit k b =
    let m = λ (n : ℕ). n / 2 ^ k % 2 in
    let s = max (min b (m (not32 (1 <<< 15)))) (m (1 <<< 16)) in
    let v = max (min (max s (m 4)) (m (not32 3))) (m 2) in
    let w = max (min v (m (not32 (7 <<< 10)))) (m (bit_and 3 7 <<< 10)) in
    min (max (min w (m (not32 (0x1f <<< 5)))) (m (bit_and 0 0x1f <<< 5))) (m 0xFFFFFFFF)

all_below : ℕ → (ℕ → Bool) → Bool
all_below zero p = true
all_below (suc n) p = p n && all_below n p

all_below-lt : (n : ℕ) (p : ℕ → Bool) (k : ℕ) → all_below n p ≡ true → k < n → p k ≡ true
unfolding all_below
all_below-lt zero p k h l = absurd (omega arith)
all_below-lt (suc n) p k h l = ground (arith, all_below-lt n p k)

clock_table : all_below 32 (λ k. all_below 2 (λ b. computed_bit k b == clock_bit k b)) ≡ true
unfolding all_below computed_bit clock_bit
clock_table = refl

computed_bit-clock_bit : (k b : ℕ) → k < 32 → b < 2 → computed_bit k b ≡ clock_bit k b
computed_bit-clock_bit k b l h = ==→eq _ _ (
    all_below-lt 2 (λ c. computed_bit k c == clock_bit k c) b
      (all_below-lt 32 (λ j. all_below 2 (λ c. computed_bit j c == clock_bit j c)) k clock_table l)
      h)

phy_clock-bits :
    (k value : ℕ)
    → u32 (phy_clock 7 3 0 (select_phy 0 value)) / 2 ^ k % 2 ≡ computed_bit k (value / 2 ^ k % 2)
unfolding phy_clock select_phy computed_bit
phy_clock-bits k value = simp (low_bit_at, bit_or_at, bit_and_at)

-- geth_sys_init returns 0, and where the clock register is not one of the two registers of the clock
-- unit, the value last stored in it has each of its 32 bits as `clock_bit` says, for the value that
-- was read from it.
pub geth_sys_init-clock :
    (hw : Hardware) (phy_clk_reg ccmu_base : ℕ) (mac : Mac) (h : History)
    → phy_clk_reg ≢ ccmu_base + 0x97c
    → phy_clk_reg ≢ ccmu_base + 0x970
    → (mac' : Mac) × (h' : History) × (value : ℕ) × (geth_sys_init hw phy_clk_reg ccmu_base mac h
        ≡ some ((mac', 0), h'))
      × (last_store h' phy_clk_reg ≡ some value)
      × ((k : ℕ)
          → k < 32
          → value / 2 ^ k % 2 ≡ clock_bit k (u32 (hw.value h phy_clk_reg) / 2 ^ k % 2))
unfolding geth_sys_init set_bits last_store
geth_sys_init-clock hw phy_clk_reg ccmu_base mac h ne ne' = (
  _,
  _,
  u32 (phy_clock 7 3 0 (select_phy 0 (u32 (hw.value h phy_clk_reg)))),
  refl,
  rw
      (
        ne→== (ccmu_base + 0x970) phy_clk_reg (λ e. ne' (sym e)),
        ne→== (ccmu_base + 0x97c) phy_clk_reg (λ e. ne (sym e)),
        ==_refl phy_clk_reg,
      )
      refl,
  (λ k l.
      phy_clock-bits k (u32 (hw.value h phy_clk_reg))
      ∙ computed_bit-clock_bit k (u32 (hw.value h phy_clk_reg) / 2 ^ k % 2) l (omega arith)),
)

-- Byte `i` of the Ethernet address in the two address registers of the MAC.
abbrev pub address_byte : ℕ → ℕ → ℕ → ℕ
address_byte lo hi i = if ltb i 4 then lo / 256 ^ i % 256 else hi / 256 ^ (i - 4) % 256

low_word :
    (a b c d : ℕ)
    → a < 256
    → b < 256
    → c < 256
    → d < 256
    → u32 (bit_or (bit_or (bit_or (d <<< 24) (c <<< 16)) (b <<< 8)) a)
      ≡ a + 256 * b + 65536 * c + 16777216 * d
low_word a b c d ha hb hc hd =
    rw
      (
        bit_or-add 24 (d <<< 24) (c <<< 16) (omega arith) (omega arith),
        bit_or-add 16 (d * 2 ^ 24 + c * 2 ^ 16) (b <<< 8) (omega arith) (omega arith),
        bit_or-add 8 (d * 2 ^ 24 + c * 2 ^ 16 + b * 2 ^ 8) a (omega arith) (omega arith),
      )
      (omega arith)

high_word : (a b : ℕ) → a < 256 → b < 256 → u32 (bit_or (b <<< 8) a) ≡ a + 256 * b
high_word a b ha hb = rw (bit_or-add 8 (b <<< 8) a (omega arith) (omega arith)) (omega arith)

-- geth_write_hwaddr returns 0 and ends with one store to each address register of the MAC, from which
-- each byte of the Ethernet address reads back; the high register gets a value below 2 ^ 16.
pub geth_write_hwaddr-address_byte :
    (iobase : ℕ) (addr : Buffer) (h : History)
    → IsBytes addr
    → (lo hi : ℕ) × (geth_write_hwaddr iobase addr h
        ≡ some (0, store (iobase + geth_addr_lo 0) lo ∷ store (iobase + geth_addr_hi 0) hi ∷ h))
      × (hi < 2 ^ 16)
      × ((i : ℕ) → i < 6 → address_byte lo hi i ≡ addr i)
unfolding geth_write_hwaddr
geth_write_hwaddr-address_byte iobase addr h bytes =
    let l = low_word (addr 0) (addr 1) (addr 2) (addr 3) (bytes 0) (bytes 1) (bytes 2) (bytes 3) in
    let g = high_word (addr 4) (addr 5) (bytes 4) (bytes 5) in
    (
      addr 0 + 256 * addr 1 + 65536 * addr 2 + 16777216 * addr 3,
      addr 4 + 256 * addr 5,
      rw (l, g) refl,
      omega (arith, bytes 4, bytes 5),
      reads,
    )
  where
    reads :
        (i : ℕ)
        → i < 6
        → address_byte
            (addr 0 + 256 * addr 1 + 65536 * addr 2 + 16777216 * addr 3)
            (addr 4 + 256 * addr 5)
            i
          ≡ addr i
    reads zero h' = omega (arith, bytes 0)
    reads (suc zero) h' = omega (arith, bytes 0, bytes 1)
    reads (suc (suc zero)) h' = omega (arith, bytes 0, bytes 1, bytes 2)
    reads (suc (suc (suc zero))) h' = omega (arith, bytes 0, bytes 1, bytes 2, bytes 3)
    reads (suc (suc (suc (suc zero)))) h' = omega (arith, bytes 4)
    reads (suc (suc (suc (suc (suc zero))))) h' = omega (arith, bytes 4, bytes 5)
    reads (suc (suc (suc (suc (suc (suc i)))))) h' = absurd (omega arith)
