-- ===== src/Text/Memory/Laws.antt =====
-- The functions of common.c on memory, byte by byte.
use emac_driver.Common.{
  ℕ, zero, suc, ◌+◌, ◌-◌, ◌*◌, ◌/◌, ◌%◌, ◌≤◌, ◌≡◌, ◌⊎◌, ap, fun_ext, ◌∙◌, arith, ◌&&◌, ◌==◌, ltb,
  leb, if◌then◌else◌, ==→eq, Bool-cases, inl, inr,
}
use emac_driver.Common.Buffer.{Buffer, IsBytes, store8, store8-IsBytes}
use emac_driver.Text.Memory.{
  copy_word, copy_words, copy_bytes, memcpy, set_word, set_words, set_bytes, memset,
}

-- `count` bytes from `src` on at `dest`, as the memory was before.
abbrev pub moved : ℕ → ℕ → ℕ → Buffer → Buffer
moved dest src count m i = if leb dest i && ltb i (dest + count) then m (src + (i - dest)) else m i

-- The ranges have no byte in common.
abbrev pub AreApart : ℕ → ℕ → ℕ → Type 0
AreApart dest src count = (dest + count ≤ src) ⊎ (src + count ≤ dest)

set_bytes-filled :
    (count s c : ℕ) (m : Buffer) (i : ℕ)
    → set_bytes count s c m i ≡ (if leb s i && ltb i (s + count) then c % 256 else m i)
unfolding set_bytes
set_bytes-filled zero s c m i = ground arith
set_bytes-filled (suc count) s c m i =
    ground (arith, set_bytes-filled count (s + 1) c (store8 m s c) i)

set_words-filled :
    (words s c : ℕ) (m : Buffer) (i : ℕ)
    → set_words words s c m i ≡ (if leb s i && ltb i (s + 8 * words) then c % 256 else m i)
unfolding set_words set_word
set_words-filled zero s c m i = ground arith
set_words-filled (suc words) s c m i =
    ground (arith, set_words-filled words (s + 8) c (set_word s c m) i)

-- memset writes the byte to the whole range and to nothing else, whatever the alignment.
pub memset-filled :
    (s c count : ℕ) (m : Buffer) (i : ℕ)
    → memset s c count m i ≡ (if leb s i && ltb i (s + count) then c % 256 else m i)
unfolding memset
memset-filled s c count m i =
    let words = if s % 8 == 0 then count / 8 else 0 in
    set_bytes-filled (count - 8 * words) (s + 8 * words) c (set_words words s c m) i
    ∙ ground (arith, set_words-filled words s c m i)

-- What was copied is apart from what is still to be copied.
moved-store8 :
    (dest src count : ℕ) (m : Buffer) (i : ℕ)
    → IsBytes m
    → AreApart dest src (suc count)
    → moved (dest + 1) (src + 1) count (store8 m dest (m src)) i ≡ moved dest src (suc count) m i
moved-store8 dest src count m i h apart =
    elim (Bool-cases (leb (dest + 1) i && ltb i (dest + 1 + count))) [
      | inl e ↦
          let l : dest + 1 ≤ i = ground arith in
          ground
            (arith, ap m {x = src + 1 + (i - (dest + 1))} {y = src + (i - dest)} (omega (arith, l)))
      | inr e ↦ elim (Bool-cases (i == dest)) [
        | inl f ↦
            rw (==→eq i dest f)
              (ground (arith, h src, ap m {x = src + (dest - dest)} {y = src} (omega arith)))
        | inr f ↦ ground arith
      ]
    ]

copy_bytes-moved :
    (count dest src : ℕ) (m : Buffer) (i : ℕ)
    → IsBytes m
    → AreApart dest src count
    → copy_bytes count dest src m i ≡ moved dest src count m i
unfolding copy_bytes
copy_bytes-moved zero dest src m i h apart = ground arith
copy_bytes-moved (suc count) dest src m i h apart =
    copy_bytes-moved count (dest + 1) (src + 1) (store8 m dest (m src)) i
      (store8-IsBytes dest (m src) h) (omega (arith, apart))
    ∙ moved-store8 dest src count m i h apart

-- The same for words, which are written whole.
moved-copy_word :
    (dest src words : ℕ) (m : Buffer) (i : ℕ)
    → AreApart dest src (8 * suc words)
    → moved (dest + 8) (src + 8) (8 * words) (copy_word m dest src) i
      ≡ moved dest src (8 * suc words) m i
unfolding copy_word
moved-copy_word dest src words m i apart =
    elim (Bool-cases (leb (dest + 8) i && ltb i (dest + 8 + 8 * words))) [
      | inl e ↦
          let l : dest + 8 ≤ i = ground arith in
          ground
            (arith, ap m {x = src + 8 + (i - (dest + 8))} {y = src + (i - dest)} (omega (arith, l)))
      | inr e ↦ ground arith
    ]

copy_words-moved :
    (words dest src : ℕ) (m : Buffer) (i : ℕ)
    → AreApart dest src (8 * words)
    → copy_words words dest src m i ≡ moved dest src (8 * words) m i
unfolding copy_words
copy_words-moved zero dest src m i apart = ground arith
copy_words-moved (suc words) dest src m i apart =
    copy_words-moved words (dest + 8) (src + 8) (copy_word m dest src) i (omega (arith, apart))
    ∙ moved-copy_word dest src words m i apart

copy_words-IsBytes :
    (words dest src : ℕ) (m : Buffer) → IsBytes m → IsBytes (copy_words words dest src m)
unfolding copy_words copy_word
copy_words-IsBytes zero dest src m h = h
copy_words-IsBytes (suc words) dest src m h =
    copy_words-IsBytes words (dest + 8) (src + 8) (copy_word m dest src)
      (λ i. ground (arith, h i, h (src + (i - dest))))

-- Copying the words and then the other bytes.
moved-moved :
    (dest src done left : ℕ) (m : Buffer) (i : ℕ)
    → AreApart dest src (done + left)
    → moved (dest + done) (src + done) left (moved dest src done m) i
      ≡ moved dest src (done + left) m i
moved-moved dest src done left m i apart =
    elim (Bool-cases (leb (dest + done) i && ltb i (dest + done + left))) [
      | inl e ↦
          let l : dest + done ≤ i = ground arith in
          ground (
            arith,
            ap m {x = src + done + (i - (dest + done))} {y = src + (i - dest)} (omega (arith, l)),
          )
      | inr e ↦ ground arith
    ]

words_then_bytes :
    (words dest src count : ℕ) (m : Buffer) (i : ℕ)
    → IsBytes m
    → AreApart dest src count
    → 8 * words ≤ count
    → copy_bytes
        (count - 8 * words)
        (dest + 8 * words)
        (src + 8 * words)
        (copy_words words dest src m)
        i
      ≡ moved dest src count m i
words_then_bytes words dest src count m i h apart fits =
    let first : copy_words words dest src m ≡ moved dest src (8 * words) m =
      fun_ext (λ j. copy_words-moved words dest src m j (omega (arith, apart))) in
    copy_bytes-moved (count - 8 * words) (dest + 8 * words) (src + 8 * words)
      (copy_words words dest src m) i (copy_words-IsBytes words dest src m h) (omega (arith, apart))
    ∙ ap (λ (b : Buffer). moved (dest + 8 * words) (src + 8 * words) (count - 8 * words) b i) first
    ∙ moved-moved dest src (8 * words) (count - 8 * words) m i (omega (arith, apart))
    ∙ ap (λ (n : ℕ). moved dest src n m i) {x = 8 * words + (count - 8 * words)} {y = count}
        (omega arith)

-- memcpy between ranges that have no byte in common copies every byte as it was, and changes nothing
-- else, whether it goes by words or by bytes.
pub memcpy-moved :
    (dest src count : ℕ) (m : Buffer) (i : ℕ)
    → IsBytes m
    → AreApart dest src count
    → memcpy dest src count m i ≡ moved dest src count m i
unfolding memcpy
memcpy-moved dest src count m i h apart = elim (Bool-cases (src == dest)) [
  | inl e ↦ rw e (rw (==→eq src dest e) (ground (arith, ap m {x = dest + (i - dest)} {y = i})))
  | inr e ↦ rw e (
      words_then_bytes (if dest % 8 == 0 && src % 8 == 0 then count / 8 else 0) dest src count m i h
        apart (ground arith))
]
