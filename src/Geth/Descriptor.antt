-- ===== src/Geth/Descriptor.antt =====
-- A DMA descriptor of net/emac/sunxi_geth.c that is handed to the MAC.
use Prim.Native.Nat.{max, min}
use emac_driver.Common.{
  ℕ, ◌+◌, ◌/◌, ◌%◌, ◌^◌, ◌≤◌, ◌<◌, ◌≡◌, sym, subst, ◌∙◌, arith, ◌∷◌, some, bit_or, u32,
}
use emac_driver.Common.Digits.{bit_or_at, low_bit_at}
use emac_driver.Io.{History, store, clean_lines, line_of, line_count}
use emac_driver.Io.Laws.{
  last_store, in_memory, flush_reaches, clean_lines_keep, last_store-clean_lines,
}

-- The latest access of the program starts the DMA by bit 30 of its control register. Before that, the
-- descriptor is in memory, owned by the DMA, with its word 1 and its buffer, and the address of
-- the descriptor, as far as it fits in 32 bits, was the last store to the list register.
pub record IsHandedOver (h : History) (desc word1 buffer list control : ℕ) : Type 0 where
  pub before : History
  pub enable : ℕ
  pub latest : h ≡ store control enable ∷ before
  pub running : enable / 2 ^ 30 % 2 ≡ 1
  pub owned : in_memory before desc ≡ some 0x80000000
  pub sized : in_memory before (desc + 4) ≡ some word1
  pub pointed : in_memory before (desc + 8) ≡ some buffer
  pub listed : last_store before list ≡ some (u32 desc)

pub enable_bit : (v : ℕ) → u32 (bit_or v 0x40000000) / 2 ^ 30 % 2 ≡ 1
enable_bit v =
    low_bit_at 30 (bit_or v 0x40000000) ∙ rw (bit_or_at 30 v 0x40000000) (top (v / 2 ^ 30))
  where
    top : (x : ℕ) → min (max (x % 2) 1) 1 ≡ 1
    top x = ground arith

-- The three stores of a descriptor.
abbrev pub filled : ℕ → ℕ → ℕ → History → History
filled desc word1 buffer h =
    store (desc + 8) buffer ∷ store (desc + 4) word1 ∷ store desc 0x80000000 ∷ h

-- After the lines of a filled descriptor are written back, and then `n` lines from `i` on.
module _ (desc word1 buffer size n i : ℕ) (h : History) where
  abbrev stores : History
  stores = filled desc word1 buffer h

  abbrev lines : History
  lines = clean_lines (line_count desc (desc + size)) (line_of desc) stores

  abbrev pub flushed : History
  flushed = clean_lines n i lines

  pub last_store-flushed : (a : ℕ) → last_store flushed a ≡ last_store stores a
  last_store-flushed a =
      last_store-clean_lines n i lines a
      ∙ last_store-clean_lines (line_count desc (desc + size)) (line_of desc) stores a

  flushed_field :
      (k : ℕ) → 24 ≤ size → k < 24 → in_memory flushed (desc + k) ≡ last_store stores (desc + k)
  flushed_field k long l =
      let reached =
        flush_reaches desc (desc + size) stores (desc + k) (omega arith) (omega arith) in
      let unchanged =
        last_store-clean_lines (line_count desc (desc + size)) (line_of desc) stores (desc + k) in
      clean_lines_keep n i lines (desc + k) (reached ∙ sym unchanged) ∙ unchanged

  pub flushed-owned : 24 ≤ size → in_memory flushed desc ≡ some 0x80000000
  unfolding last_store
  flushed-owned long =
      subst (λ a. in_memory flushed a ≡ last_store stores a) (omega arith)
        (flushed_field 0 long (omega arith))
      ∙ ground arith

  pub flushed-sized : 24 ≤ size → in_memory flushed (desc + 4) ≡ some word1
  unfolding last_store
  flushed-sized long = flushed_field 4 long (omega arith) ∙ ground arith

  pub flushed-pointed : 24 ≤ size → in_memory flushed (desc + 8) ≡ some buffer
  unfolding last_store
  flushed-pointed long = flushed_field 8 long (omega arith) ∙ ground arith
