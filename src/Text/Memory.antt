-- ===== src/Text/Memory.antt =====
-- The functions of common.c on memory. Memory is one array of bytes, and a pointer an offset in it;
-- for the functions on strings it is the array that the pointer points into.
pub mod Laws
use emac_driver.Common.{
  ℕ, zero, suc, ◌+◌, ◌-◌, ◌*◌, ◌/◌, ◌%◌, ◌^◌, List, [], ◌∷◌, Bool, not, ◌&&◌, ◌==◌, ltb,
  if◌then◌else◌, sub32,
}
use emac_driver.Common.Buffer.{Buffer, store8}
use emac_driver.Text.{Text}

-- The loop of `strncpy`, `dest` bytes behind its start.
unfoldable pub strncpy_from : ℕ → Buffer → Text → ℕ → Buffer
strncpy_from dest b [] count = if count == 0 then b else store8 b dest 0
strncpy_from dest b (c ∷ src) count =
    let more = strncpy_from (dest + 1) (store8 b dest c) src (count - 1) in
    if count == 0 then b else more

unfoldable pub strncpy : Buffer → Text → ℕ → Buffer
unfolding strncpy_from
strncpy dest src count = strncpy_from 0 dest src count

-- The macro of include/common.h.
unfoldable pub strcpy : Buffer → Text → Buffer
unfolding strncpy
strcpy dest src = strncpy dest src 2147483647

-- The difference of the first bytes that differ, as an `int`.
unfoldable pub memcmp : Buffer → ℕ → ℕ → ℕ → ℕ
memcmp m cs ct zero = 0
memcmp m cs ct (suc count) =
    let more = memcmp m (cs + 1) (ct + 1) count in
    if m cs == m ct then more else sub32 (m cs) (m ct)

-- `*dl = *sl` for words of eight bytes: all of them are read before any is written.
unfoldable pub copy_word : Buffer → ℕ → ℕ → Buffer
copy_word m dest src i =
    if (not (ltb i dest)) && ltb i (dest + 8) then m (src + (i - dest)) else m i

-- `while (count >= sizeof(*dl))`, in as many rounds as there are words.
unfoldable pub copy_words : ℕ → ℕ → ℕ → Buffer → Buffer
unfolding copy_word
copy_words zero dest src m = m
copy_words (suc words) dest src m = copy_words words (dest + 8) (src + 8) (copy_word m dest src)

-- `while (count--)`
unfoldable pub copy_bytes : ℕ → ℕ → ℕ → Buffer → Buffer
copy_bytes zero dest src m = m
copy_bytes (suc count) dest src m = copy_bytes count (dest + 1) (src + 1) (store8 m dest (m src))

-- `((ulong)dest | (ulong)src) & (sizeof(*dl) - 1)` is 0 where both are multiples of eight.
unfoldable pub memcpy : ℕ → ℕ → ℕ → Buffer → Buffer
unfolding copy_words copy_bytes
memcpy dest src count m =
    let words = if dest % 8 == 0 && src % 8 == 0 then count / 8 else 0 in
    if src == dest
    then m
    else copy_bytes (count - 8 * words) (dest + 8 * words) (src + 8 * words)
        (copy_words words dest src m)

-- A word of `cl`, which holds `c` in every byte.
unfoldable pub set_word : ℕ → ℕ → Buffer → Buffer
set_word s c m i = if (not (ltb i s)) && ltb i (s + 8) then c % 256 else m i

unfoldable pub set_words : ℕ → ℕ → ℕ → Buffer → Buffer
unfolding set_word
set_words zero s c m = m
set_words (suc words) s c m = set_words words (s + 8) c (set_word s c m)

unfoldable pub set_bytes : ℕ → ℕ → ℕ → Buffer → Buffer
set_bytes zero s c m = m
set_bytes (suc count) s c m = set_bytes count (s + 1) c (store8 m s c)

unfoldable pub memset : ℕ → ℕ → ℕ → Buffer → Buffer
unfolding set_words set_bytes
memset s c count m =
    let words = if s % 8 == 0 then count / 8 else 0 in
    set_bytes (count - 8 * words) (s + 8 * words) c (set_words words s c m)
