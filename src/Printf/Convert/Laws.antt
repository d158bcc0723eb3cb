-- ===== src/Printf/Convert/Laws.antt =====
-- What is in the buffer after `vsnprintf_internal` of misc/vsnprintf.c.
use emac_driver.Common.{
  ℕ, suc, ◌+◌, ◌-◌, ◌^◌, ◌%◌, ◌<◌, ◌≡◌, refl, ◌∙◌, ap, ap₂, arith, List, [], ◌∷◌, map, Option, none,
  some, ◌&&◌, Bool-cases, inl, inr, subst, Option-cases, ltb, leb, ◌==◌, ==→eq, if◌then◌else◌,
  length, get_or, u32,
}
use emac_driver.Common.Buffer.{Buffer, store8}
use emac_driver.Text.{Text, IsText}
use emac_driver.Printf.Output.{Writer, Out, put, add_char}
use emac_driver.Printf.Format.{Arg, ◌>>=◌}
use emac_driver.Printf.Convert.{print, end_of, terminate, vsnprintf_internal}
use emac_driver.Printf.Convert.Emission.{
  Item, byte, count, emit, put-emit, IsEmission, print-IsEmission,
}

-- The characters, as bytes.
abbrev characters : List Item → Text
characters [] = []
characters (byte c ∷ t) = c % 256 ∷ characters t
characters (count long ∷ t) = characters t

characters-text : (t : Text) → IsText t → characters (map byte t) ≡ t
characters-text [] h = refl
characters-text (c ∷ t) h = ap₂ ◌∷◌ (omega arith) (characters-text t h.2)

emit-str :
    (t : List Item) (limit : ℕ) (o : Out) → (emit t limit o).str ≡ o.str + length (characters t)
unfolding emit add_char
emit-str [] limit o = omega arith
emit-str (byte c ∷ t) limit o = omega (arith, emit-str t limit (add_char c limit o))
emit-str (count long ∷ t) limit o = emit-str t limit _

-- A byte of the buffer after `t` was added from `str` on.
abbrev printed : Text → ℕ → ℕ → Buffer → ℕ → ℕ
printed t str limit b i =
    if leb str i && (ltb i limit && ltb i (str + length t)) then get_or t (i - str) 0 else b i

get_or-next :
    (x : ℕ) (t : Text) (str i : ℕ)
    → str < i
    → get_or (x ∷ t) (i - str) 0 ≡ get_or t (i - (str + 1)) 0
get_or-next x t str i h =
    let e : i - str ≡ suc (i - (str + 1)) = omega arith in ap (λ (k : ℕ). get_or (x ∷ t) k 0) e

get_or-first : (x : ℕ) (t : Text) (i : ℕ) → get_or (x ∷ t) (i - i) 0 ≡ x
get_or-first x t i = ap (λ (k : ℕ). get_or (x ∷ t) k 0) {x = i - i} {y = 0} (omega arith)

printed_next :
    (c : ℕ) (t : Text) (str limit : ℕ) (b : Buffer) (i : ℕ)
    → printed t (str + 1) limit (if ltb str limit then store8 b str c else b) i
      ≡ printed ((c % 256) ∷ t) str limit b i
printed_next c t str limit b i = elim (Bool-cases (i == str)) [
  | inl e ↦ rw (==→eq i str e) (ground (arith, get_or-first (c % 256) t str))
  | inr e ↦ ground (arith, get_or-next (c % 256) t str i)
]

emit-memory :
    (t : List Item) (limit : ℕ) (o : Out) (i : ℕ)
    → (emit t limit o).memory i ≡ printed (characters t) o.str limit o.memory i
unfolding emit add_char
emit-memory [] limit o i = ground arith
emit-memory (byte c ∷ t) limit o i =
    emit-memory t limit (add_char c limit o) i
    ∙ printed_next c (characters t) o.str limit o.memory i
emit-memory (count long ∷ t) limit o i = emit-memory t limit _ i

-- A buffer of `size` bytes that held `b`, after `t` was printed to it: as much of `t` as fits before
-- a NUL, and what is behind the NUL as it was.
abbrev pub formatted : Text → ℕ → Buffer → Buffer
formatted t size b i =
    let n = if ltb (length t) size then length t else size - 1 in
    if size == 0 then b i else (if ltb i n then get_or t i 0 else (if i == n then 0 else b i))

terminate-formatted :
    (t : Text) (size : ℕ) (b : Buffer) (o : Out)
    → o.str ≡ 0 + length t
    → ((i : ℕ) → o.memory i ≡ printed t 0 size b i)
    → ((terminate size o).0 ≡ u32 (length t))
      × ((i : ℕ) → (terminate size o).1.memory i ≡ formatted t size b i)
unfolding terminate add_char
terminate-formatted t size b o len mem = (ground arith, λ i. ground (arith, mem i))

end_of-size : (buf size : ℕ) → buf + size < 2 ^ 64 → end_of buf size ≡ size
unfolding end_of
end_of-size buf size h = ground arith

module _ (fmt : Text) (args : List Arg) (w : Writer)
    (e : print (suc (length fmt)) fmt args ≡ some w) where
  emission-formatted :
      (emission : IsEmission w) (buf size : ℕ) (b : Buffer)
      → buf + size < 2 ^ 64
      → (o : Out) × (vsnprintf_internal buf size fmt args b
          ≡ some (u32 (length (characters emission.0)), o))
        × ((i : ℕ) → o.memory i ≡ formatted (characters emission.0) size b i)
  unfolding vsnprintf_internal
  emission-formatted emission buf size b fits =
      let start : Out = record { memory = b; str = 0; stored = [] } in
      let done =
        terminate-formatted (characters emission.0) size b (w size start)
          (ap (λ (o : Out). o.str) (emission.1 size start) ∙ emit-str emission.0 size start)
          (λ i.
            ap (λ (o : Out). o.memory i) (emission.1 size start)
            ∙ emit-memory emission.0 size start i) in
      (
        (terminate size (w size start)).1,
        rw (e, end_of-size buf size fits)
            (ap (λ (n : ℕ). some (n, (terminate size (w size start)).1)) done.0),
        done.1,
      )

  -- Where the characters are known.
  pub put-formatted :
      (t : Text)
      → IsText t
      → w ≡ put t
      → (buf size : ℕ) (b : Buffer) → buf + size < 2 ^ 64
      → (o : Out) × (vsnprintf_internal buf size fmt args b ≡ some (u32 (length t), o))
        × ((i : ℕ) → o.memory i ≡ formatted t size b i)
  put-formatted t text same buf size b fits =
      subst
        (λ (s : Text).
          (o : Out) × (vsnprintf_internal buf size fmt args b ≡ some (u32 (length s), o))
          × ((i : ℕ) → o.memory i ≡ formatted s size b i))
        (characters-text t text)
        (emission-formatted
          (map byte t, λ limit o. ap (λ (v : Writer). v limit o) same ∙ put-emit t limit o) buf size
          b fits)

prints :
    (fmt : Text) (args : List Arg) (buf size : ℕ) (b : Buffer) (r : ℕ × Out)
    → vsnprintf_internal buf size fmt args b ≡ some r
    → (w : Writer) × (print (suc (length fmt)) fmt args ≡ some w)
unfolding vsnprintf_internal
prints fmt args buf size b r e = elim (Option-cases (print (suc (length fmt)) fmt args)) [
  | inr found ↦ found
  | inl missing ↦ absurd (none-ne-some (subst (λ m. bind m ≡ some r) missing e))
]
  where
    bind : Option Writer → Option (ℕ × Out)
    bind m = m >>= λ w. some (
        terminate (end_of buf size)
          (w (end_of buf size) (record { memory = b; str = 0; stored = [] })))

    none-ne-some : ◌≡◌ {A = Option (ℕ × Out)} none (some r) → ⊥
    none-ne-some h = cc

-- Where one call with a format and its arguments is defined, they determine a text, and every call with
-- them returns its length, as an `int`, whatever the size of the buffer; the buffer, which lies inside
-- the address space, then holds as much of the text as fits before a NUL, the NUL, and behind it
-- what it held before. Nothing is written where the size is 0.
pub vsnprintf_internal-formatted :
    (fmt : Text) (args : List Arg) (buf size : ℕ) (b : Buffer) (r : ℕ × Out)
    → vsnprintf_internal buf size fmt args b ≡ some r
    → (t : Text) × ((buf' size' : ℕ) (b' : Buffer)
        → buf' + size' < 2 ^ 64
        → (o : Out) × (vsnprintf_internal buf' size' fmt args b' ≡ some (u32 (length t), o))
          × ((i : ℕ) → o.memory i ≡ formatted t size' b' i))
vsnprintf_internal-formatted fmt args buf size b r e =
    let found = prints fmt args buf size b r e in
    let emission = print-IsEmission (suc (length fmt)) fmt args found.0 found.1 in
    (characters emission.0, emission-formatted fmt args found.0 found.1 emission)
