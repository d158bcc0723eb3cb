-- ===== src/Io.antt =====
-- Access to the hardware: readl and writel of include/asm/io.h, the cache maintenance of common.c
-- and include/common.h, and the clock of misc/timer.c and misc/time.c. What a program does to the
-- hardware is a history of accesses, the latest first; what it reads is any function of the history.
pub mod Laws
use emac_driver.Common.{
  ℕ, zero, suc, ◌+◌, ◌-◌, ◌*◌, ◌/◌, ◌%◌, ◌^◌, Bool, true, false, List, [], ◌∷◌, Option, none, some,
  ltb, if◌then◌else◌, u32, u64, sub64, sext32, has_bits, not32, bit_and, bit_or,
}
use emac_driver.Common.Buffer.{Buffer}

-- A load from an address, a store of a value, the write-back and the invalidation of the cache line
-- at an address, the clearing of a buffer with `memset`, a copy out of one, and `rdtime`.
pub data Access : Type 0 where
  load : ℕ → Access
  store : ℕ → ℕ → Access
  clean : ℕ → Access
  discard : ℕ → Access
  wipe : ℕ → ℕ → Access
  fetch : ℕ → Access
  tick : Access

abbrev pub History : Type 0
History = List Access

-- What a load gives, what the clock shows, and what stands in a buffer, after what was done so far.
pub record Hardware : Type 0 where
  pub value : History → ℕ → ℕ
  pub clock : History → ℕ
  pub contents : History → ℕ → Buffer

-- `none` where a loop has used up its patience.
abbrev pub Io : Type 0 → Type 0
Io A = History → Option (A × History)

abbrev pub proceed : {A B : Type 0} → Option (A × History) → (A → Io B) → Option (B × History)
proceed none f = none
proceed (some (a, h)) f = f a h

infixl 5 ◌>>=◌ ◌>>◌
abbrev pub ◌>>=◌ : {A B : Type 0} → Io A → (A → Io B) → Io B
◌>>=◌ m f h = proceed (m h) f

abbrev pub ◌>>◌ : {A B : Type 0} → Io A → Io B → Io B
m >> k = m >>= λ _. k

abbrev pub pure : {A : Type 0} → A → Io A
pure a h = some (a, h)

-- A fault of code that does not touch the hardware.
abbrev pub lift : {A : Type 0} → Option A → Io A
lift none h = none
lift (some a) h = some (a, h)

abbrev pub when : Bool → Io (Unit {0}) → Io (Unit {0})
when true m = m
when false m = pure tt

abbrev pub writel : ℕ → ℕ → Io (Unit {0})
writel val addr h = some (tt, store addr (u32 val) ∷ h)

-- A store of a pointer.
abbrev pub write_pointer : ℕ → ℕ → Io (Unit {0})
write_pointer p addr h = some (tt, store addr (u64 p) ∷ h)

-- `memset(buf, 0, n)`
abbrev pub wipe_buffer : ℕ → ℕ → Io (Unit {0})
wipe_buffer buf n h = some (tt, wipe buf n ∷ h)

abbrev pub cacheline_size : ℕ
cacheline_size = 64

unfoldable pub clean_lines : ℕ → ℕ → History → History
clean_lines zero i h = h
clean_lines (suc n) i h = clean_lines n (i + cacheline_size) (clean i ∷ h)

unfoldable pub discard_lines : ℕ → ℕ → History → History
discard_lines zero i h = h
discard_lines (suc n) i h = discard_lines n (i + cacheline_size) (discard i ∷ h)

-- `start & ~(L1_CACHE_BYTES - 1)`, and how often the loop runs from there.
abbrev pub line_of : ℕ → ℕ
line_of start = start / cacheline_size * cacheline_size

abbrev pub line_count : ℕ → ℕ → ℕ
line_count start end = (end - line_of start + 63) / cacheline_size

unfoldable pub flush_dcache_range : ℕ → ℕ → Io (Unit {0})
unfolding clean_lines
flush_dcache_range start end h = some (tt, clean_lines (line_count start end) (line_of start) h)

unfoldable pub invalidate_dcache_range : ℕ → ℕ → Io (Unit {0})
unfolding discard_lines
invalidate_dcache_range start end h =
    some (tt, discard_lines (line_count start end) (line_of start) h)

unfoldable pub flush_cache : ℕ → ℕ → Io (Unit {0})
unfolding flush_dcache_range
flush_cache addr size = flush_dcache_range addr (addr + size)

module _ (hw : Hardware) where
  abbrev pub readl : ℕ → Io ℕ
  readl addr h = some (u32 (hw.value h addr), load addr ∷ h)

  -- `memcpy` out of a buffer that the hardware fills; behind what is copied the bytes are any.
  abbrev pub fetch_buffer : ℕ → Io Buffer
  fetch_buffer buf h = some (hw.contents h buf, fetch buf ∷ h)

  -- `reg_val = readl(addr); reg_val |= bits; writel(reg_val, addr);` and the like.
  unfoldable pub set_bits : ℕ → ℕ → Io (Unit {0})
  set_bits bits addr = do reg_val ← readl addr; writel (bit_or reg_val bits) addr

  unfoldable pub clear_bits : ℕ → ℕ → Io (Unit {0})
  clear_bits bits addr = do reg_val ← readl addr; writel (bit_and reg_val (not32 bits)) addr

  -- `while (readl(addr) & mask);`
  unfoldable pub wait_clear : ℕ → ℕ → ℕ → Io (Unit {0})
  wait_clear zero mask addr h = none
  wait_clear (suc patience) mask addr h =
      let rest = wait_clear patience mask addr (load addr ∷ h) in
      if has_bits (u32 (hw.value h addr)) mask then rest else some (tt, load addr ∷ h)

  abbrev pub read_timer : Io ℕ
  read_timer h = some (u64 (hw.clock h), tick ∷ h)

  -- Milliseconds, as an `int`.
  unfoldable pub runtime_tick : Io ℕ
  runtime_tick = do cnt ← read_timer; pure (u32 (cnt / 24000))

  unfoldable pub get_timer : ℕ → Io ℕ
  unfolding runtime_tick
  get_timer base = do now ← runtime_tick; pure (sub64 (sext32 now) base)

  -- The loop of `__udelay`.
  unfoldable pub wait_until : ℕ → ℕ → Io (Unit {0})
  wait_until zero t2 h = none
  wait_until (suc patience) t2 h =
      let rest = wait_until patience t2 (tick ∷ h) in
      if ltb t2 (u64 (hw.clock h)) then some (tt, tick ∷ h) else rest

  unfoldable pub __udelay : ℕ → ℕ → Io (Unit {0})
  unfolding wait_until
  __udelay patience us = do t1 ← read_timer; wait_until patience (u64 (t1 + u64 (us * 24)))

abbrev pub wd_period : ℕ
wd_period = 10000000

-- The chunks of `udelay`: none is longer than the period of the watchdog.
module _ (hw : Hardware) (patience : ℕ) where
  unfoldable pub udelay : ℕ → ℕ → Io (Unit {0})
  unfolding __udelay
  udelay zero usec h = none
  udelay (suc chunks) usec h =
      let kv = if ltb wd_period usec then wd_period else usec in
      let rest = λ (h' : History). udelay chunks (usec - kv) h' in
      (__udelay hw patience kv >>= λ _ h'. if ltb 0 (usec - kv) then rest h' else some (tt, h')) h
