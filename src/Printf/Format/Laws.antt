-- ===== src/Printf/Format/Laws.antt =====
-- Reading a directive of the format takes it forward.
use emac_driver.Common.{
  ℕ, ◌+◌, ◌*◌, ◌^◌, ◌≤◌, arith, List, [], ◌∷◌, Option, none, some, Bool-cases, Option-cases, inl,
  inr, leb, ◌==◌, length, u32, bit_or, sub32,
}
use emac_driver.Text.{Text, first, is_digit}
use emac_driver.Printf.Format.{
  Arg, int, text, address, Directive, Input, ◌>>=◌, next_int, flag_of, parse_flags, skip_atoi, rest,
  parse_width, parse_precision, parse_qualifier, parse_directive,
}

pub rest-le : (s : Text) → length (rest s) ≤ length s
rest-le [] = omega arith
rest-le (c ∷ s) = omega arith

-- No more than `n` characters of the format are left.
abbrev pub Left {ℓ} : {A : Type ℓ} → (A → Text) → ℕ → Option A → Type 0
Left left_of n none = Unit {0}
Left left_of n (some a) = length (left_of a) ≤ n

pub >>=-Left :
    {A B : Type 0} (f : A → Text) (g : B → Text) (k n : ℕ) (m : Option A) (h : A → Option B)
    → Left f k m
    → ((a : A) → length (f a) ≤ k → Left g n (h a))
    → Left g n (m >>= h)
>>=-Left f g k n none h l step = tt
>>=-Left f g k n (some a) h l step = step a l

pub next_int-Left :
    (s : Text) (n : ℕ) (args : List Arg)
    → length s ≤ n
    → Left (λ (r : ℕ × Input). r.1.fmt) n (next_int s args)
unfolding next_int
next_int-Left s n [] h = tt
next_int-Left s n (int v ∷ args) h = h
next_int-Left s n (text v ∷ args) h = tt
next_int-Left s n (address p b ∷ args) h = tt

parse_flags-le : (flags : ℕ) (s : Text) → length (parse_flags flags s).1 ≤ length s
unfolding parse_flags
parse_flags-le flags [] = omega arith
parse_flags-le flags (c ∷ s) = elim (Option-cases (flag_of c)) [
  | inl e ↦ rw (e, length) (omega arith)
  | inr f ↦ rw (f.1, length) (omega (arith, parse_flags-le (bit_or flags f.0) s))
]

skip_atoi-le : (i : ℕ) (s : Text) → length (skip_atoi i s).1 ≤ length s
unfolding skip_atoi
skip_atoi-le i [] = omega arith
skip_atoi-le i (c ∷ s) = elim (Bool-cases (is_digit c)) [
  | inl e ↦ rw e (omega (arith, skip_atoi-le (sub32 (u32 (i * 10 + c)) b'0') s))
  | inr e ↦ rw e (omega arith)
]

parse_width-Left :
    (flags : ℕ) (i : Input)
    → Left (λ (r : ℕ × ℕ × Input). r.2.fmt) (length i.fmt) (parse_width flags i)
unfolding parse_width
parse_width-Left flags i = elim (Bool-cases (is_digit (first i.fmt))) [
  | inl e ↦ rw e (skip_atoi-le 0 i.fmt)
  | inr e ↦ rw e (elim (Bool-cases (first i.fmt == b'*')) [
    | inr f ↦ rw f (omega arith)
    | inl f ↦ rw f (
        >>=-Left (λ (r : ℕ × Input). r.1.fmt) (λ (r : ℕ × ℕ × Input). r.2.fmt) (length i.fmt)
          (length i.fmt) (next_int (rest i.fmt) i.args) _
          (next_int-Left (rest i.fmt) (length i.fmt) i.args (rest-le i.fmt))
          (λ r l. elim (Bool-cases (leb (2 ^ 31) (u32 r.0))) [ inl g ↦ rw g l | inr g ↦ rw g l ]))
  ])
]

parse_precision-Left :
    (i : Input) → Left (λ (r : ℕ × Input). r.1.fmt) (length i.fmt) (parse_precision i)
unfolding parse_precision
parse_precision-Left i = elim (Bool-cases (first i.fmt == b'.')) [
  | inr e ↦ rw e (omega arith)
  | inl e ↦ rw e (elim (Bool-cases (is_digit (first (rest i.fmt)))) [
    | inl f ↦ rw f (omega (arith, skip_atoi-le 0 (rest i.fmt), rest-le i.fmt))
    | inr f ↦ rw f (elim (Bool-cases (first (rest i.fmt) == b'*')) [
      | inr g ↦ rw g (rest-le i.fmt)
      | inl g ↦ rw g (
          >>=-Left (λ (r : ℕ × Input). r.1.fmt) (λ (r : ℕ × Input). r.1.fmt) (length i.fmt)
            (length i.fmt) (next_int (rest (rest i.fmt)) i.args) _
            (next_int-Left (rest (rest i.fmt)) (length i.fmt) i.args
              (omega (arith, rest-le i.fmt, rest-le (rest i.fmt))))
            (λ r l. l))
    ])
  ])
]

parse_qualifier-le : (s : Text) → length (parse_qualifier s).1 ≤ length s
unfolding parse_qualifier
parse_qualifier-le s = ground (arith, rest-le s, rest-le (rest s))

pub parse_directive-Left :
    (i : Input) → Left (λ (r : Directive × Input). r.1.fmt) (length i.fmt) (parse_directive i)
unfolding parse_directive
parse_directive-Left i =
    let s = (parse_flags 0 i.fmt).1 in
    >>=-Left (λ (r : ℕ × ℕ × Input). r.2.fmt) (λ (r : Directive × Input). r.1.fmt) (length s)
      (length i.fmt) (parse_width (parse_flags 0 i.fmt).0 (record i { fmt = s })) _
      (parse_width-Left (parse_flags 0 i.fmt).0 (record i { fmt = s }))
      (λ r l.
        >>=-Left (λ (r : ℕ × Input). r.1.fmt) (λ (r : Directive × Input). r.1.fmt) (length r.2.fmt)
          (length i.fmt) (parse_precision r.2) _ (parse_precision-Left r.2)
          (λ q k. omega (arith, parse_qualifier-le q.1.fmt, parse_flags-le 0 i.fmt)))
