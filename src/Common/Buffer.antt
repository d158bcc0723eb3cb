-- ===== src/Common/Buffer.antt =====
-- Memory that a pointer points to: the byte at each offset. Reads and writes of the program's
-- packed structures are at numeral offsets; `p + n` as a pointer is `window`, and what is written
-- through it is put back by `overlay`.
use Prim.Native.Nat.{ℕ, zero, suc, ◌+◌, ◌-◌, ◌*◌, ◌/◌, ◌%◌, ◌<◌}
use mathlib.Core.Path.{◌≡◌, fun_ext}
use mathlib.Core.Bool.{◌&&◌}
use mathlib.Core.List.{List, [], ◌∷◌}
use native.Mathlib.Omega.{arith}
use emac_driver.Common.Tests.{ltb, leb, ◌==◌, if◌then◌else◌}

abbrev pub Buffer : Type 0
Buffer = ℕ → ℕ

abbrev pub IsBytes : Buffer → Type 0
IsBytes b = (i : ℕ) → b i < 256

-- `*(u8 *)(b + p) = v`
abbrev pub store8 : Buffer → ℕ → ℕ → Buffer
store8 b p v i = if i == p then v % 256 else b i

-- `*(u16 *)(b + p)` on the little-endian target.
abbrev pub load16 : Buffer → ℕ → ℕ
load16 b p = b p + 256 * b (p + 1)

abbrev pub store16 : Buffer → ℕ → ℕ → Buffer
store16 b p v = store8 (store8 b p v) (p + 1) (v / 256)

abbrev pub load32 : Buffer → ℕ → ℕ
load32 b p = load16 b p + 65536 * load16 b (p + 2)

abbrev pub store32 : Buffer → ℕ → ℕ → Buffer
store32 b p v = store16 (store16 b p v) (p + 2) (v / 65536)

-- `memcpy(dst + p, src + q, n)` between buffers, or inside one where the ranges are disjoint.
abbrev pub copy : Buffer → ℕ → Buffer → ℕ → ℕ → Buffer
copy dst p src q n i = if leb p i && ltb i (p + n) then src (q + (i - p)) else dst i

abbrev pub window : Buffer → ℕ → Buffer
window b p i = b (p + i)

abbrev pub overlay : Buffer → ℕ → Buffer → Buffer
overlay b p w i = if ltb i p then b i else w (i - p)

-- The bytes from 0 up to `n`.
abbrev pub bytes : Buffer → ℕ → List ℕ
bytes b zero = []
bytes b (suc n) = b 0 ∷ bytes (window b 1) n

abbrev pub of_list : List ℕ → Buffer
of_list [] i = 0
of_list (x ∷ xs) zero = x
of_list (x ∷ xs) (suc i) = of_list xs i

pub store8-IsBytes : {b : Buffer} (p v : ℕ) → IsBytes b → IsBytes (store8 b p v)
store8-IsBytes p v h i = ground (arith, h i)

pub store16-IsBytes : {b : Buffer} (p v : ℕ) → IsBytes b → IsBytes (store16 b p v)
store16-IsBytes p v h = store8-IsBytes (p + 1) (v / 256) (store8-IsBytes p v h)

pub store32-IsBytes : {b : Buffer} (p v : ℕ) → IsBytes b → IsBytes (store32 b p v)
store32-IsBytes p v h = store16-IsBytes (p + 2) (v / 65536) (store16-IsBytes p v h)

pub copy-IsBytes :
    {dst src : Buffer} (p q n : ℕ) → IsBytes dst → IsBytes src → IsBytes (copy dst p src q n)
copy-IsBytes p q n h k i = ground (arith, h i, k (q + (i - p)))

pub window-IsBytes : {b : Buffer} (p : ℕ) → IsBytes b → IsBytes (window b p)
window-IsBytes p h i = h (p + i)

pub overlay-IsBytes : {b w : Buffer} (p : ℕ) → IsBytes b → IsBytes w → IsBytes (overlay b p w)
overlay-IsBytes p h k i = ground (arith, h i, k (i - p))

-- What is put back through a pointer is what is read through it.
pub window-overlay : (b w : Buffer) (p : ℕ) → window (overlay b p w) p ≡ w
window-overlay b w p = fun_ext (λ i. ground arith)
