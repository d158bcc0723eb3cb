-- ===== src/Printf/Output.antt =====
-- misc/vsnprintf.c: the output of the formatting functions. `str` and `end` are offsets from the
-- start of the buffer; `end` is called `limit`.
use emac_driver.Common.{ℕ, zero, suc, ◌+◌, ◌^◌, List, [], ◌∷◌, ltb, if◌then◌else◌, replicate, sub32}
use emac_driver.Common.Buffer.{Buffer, store8}
use emac_driver.Text.{Text}

-- `stored` is what `%n` has written through its pointers, the latest first.
pub record Out : Type 0 where
  pub memory : Buffer
  pub str : ℕ
  pub stored : List ℕ

-- What is done to the output, by the place where it ends.
abbrev pub Writer : Type 0
Writer = ℕ → Out → Out

-- ADDCH
unfoldable pub add_char : ℕ → Writer
add_char c limit o = record o {
  memory = if ltb o.str limit then store8 o.memory o.str c else o.memory;
  str = o.str + 1;
}

-- ADDCH of one character after the other.
unfoldable pub put : Text → Writer
put [] limit o = o
put (c ∷ s) limit o = put s limit (add_char c limit o)

infixl 5 ◌>>◌
abbrev pub ◌>>◌ : Writer → Writer → Writer
(v >> w) limit o = w limit (v limit o)

-- `while (--size >= 0) ADDCH(buf, c)`: what it adds, and `size` behind it.
abbrev pub padding : ℕ → ℕ → Text
padding c size = replicate (if ltb size (2 ^ 31) then size else 0) c

abbrev pub padded : ℕ → ℕ
padded size = sub32 (if ltb size (2 ^ 31) then 0 else size) 1

-- The flags.
abbrev pub zeropad : ℕ
zeropad = 1

abbrev pub signed : ℕ
signed = 2

abbrev pub plus : ℕ
plus = 4

abbrev pub space : ℕ
space = 8

abbrev pub left : ℕ
left = 16

abbrev pub small : ℕ
small = 32

abbrev pub special : ℕ
special = 64

-- `strnlen`
unfoldable pub strnlen : Text → ℕ → ℕ
strnlen [] count = 0
strnlen (c ∷ s) zero = 0
strnlen (c ∷ s) (suc count) = suc (strnlen s count)
