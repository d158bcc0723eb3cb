-- ===== src/Printf/Convert/Rounds.antt =====
-- The loop of `vsnprintf_internal` ends: a round takes a character of the format at least.
use emac_driver.Common.{
  ℕ, zero, suc, ◌≤◌, ◌<◌, ◌≡◌, refl, arith, List, [], ◌∷◌, Option, none, some, Bool-cases,
  Option-cases, subst, inl, inr, ◌==◌, length,
}
use emac_driver.Text.{Text, first}
use emac_driver.Printf.Output.{Writer, ◌>>◌}
use emac_driver.Printf.Format.{
  Arg, int, text, address, Directive, Input, ◌>>=◌, next_int, rest, parse_directive,
}
use emac_driver.Printf.Format.Laws.{Left, >>=-Left, next_int-Left, parse_directive-Left, rest-le}
use emac_driver.Printf.Convert.{
  Step, Conversion, conversion, skip_alnum, print_string, print_pointer, print_count, convert, step,
  print,
}

abbrev rest_of : Step → Text
rest_of s = s.input.fmt

skip_alnum-le : (s : Text) → length (skip_alnum s) ≤ length s
unfolding skip_alnum
skip_alnum-le [] = omega arith
skip_alnum-le (c ∷ s) = ground (arith, skip_alnum-le s)

print_string-Left :
    (d : Directive) (fmt : Text) (args : List Arg)
    → Left rest_of (length fmt) (print_string d fmt args)
unfolding print_string
print_string-Left d fmt [] = tt
print_string-Left d fmt (int n ∷ args) = tt
print_string-Left d fmt (text s ∷ args) = omega arith
print_string-Left d fmt (address ptr target ∷ args) = tt

print_pointer-Left :
    (d : Directive) (fmt : Text) (args : List Arg)
    → Left rest_of (length fmt) (print_pointer d fmt args)
unfolding print_pointer
print_pointer-Left d fmt [] = tt
print_pointer-Left d fmt (int n ∷ args) = tt
print_pointer-Left d fmt (text s ∷ args) = tt
print_pointer-Left d fmt (address ptr target ∷ args) = skip_alnum-le fmt

print_count-Left :
    (d : Directive) (fmt : Text) (args : List Arg)
    → Left rest_of (length fmt) (print_count d fmt args)
unfolding print_count
print_count-Left d fmt [] = tt
print_count-Left d fmt (int n ∷ args) = tt
print_count-Left d fmt (text s ∷ args) = tt
print_count-Left d fmt (address ptr target ∷ args) = omega arith

convert-Left :
    (k : Conversion) (c : ℕ) (d : Directive) (i : Input)
    → Left rest_of (length i.fmt) (convert k c d i)
unfolding convert
convert-Left Conversion.chars c d i =
    >>=-Left (λ (r : ℕ × Input). r.1.fmt) rest_of (length i.fmt) (length i.fmt)
      (next_int i.fmt i.args) _ (next_int-Left i.fmt (length i.fmt) i.args (omega arith)) (λ r l. l)
convert-Left Conversion.texts c d i = print_string-Left d i.fmt i.args
convert-Left Conversion.pointers c d i = print_pointer-Left d i.fmt i.args
convert-Left Conversion.counts c d i = print_count-Left d i.fmt i.args
convert-Left Conversion.percents c d i = omega arith
convert-Left Conversion.unknown c d i = omega arith
convert-Left (Conversion.integers base flag) c d i =
    >>=-Left (λ (r : ℕ × Input). r.1.fmt) rest_of (length i.fmt) (length i.fmt)
      (next_int i.fmt i.args) _ (next_int-Left i.fmt (length i.fmt) i.args (omega arith)) (λ r l. l)

Left-weaken : (k n : ℕ) (m : Option Step) → k ≤ n → Left rest_of k m → Left rest_of n m
Left-weaken k n none h l = tt
Left-weaken k n (some s) h l = omega arith

step-Left : (c : ℕ) (i : Input) → Left rest_of (length i.fmt) (step c i)
unfolding step
step-Left c i = elim (Bool-cases (c == b'%')) [
  | inr e ↦ rw e (omega arith)
  | inl e ↦ rw e (
      >>=-Left (λ (r : Directive × Input). r.1.fmt) rest_of (length i.fmt) (length i.fmt)
        (parse_directive i) _ (parse_directive-Left i)
        (λ r l.
          Left-weaken (length (rest r.1.fmt)) (length i.fmt)
            (convert (conversion (first r.1.fmt)) (first r.1.fmt) r.0
              (record { fmt = rest r.1.fmt; args = r.1.args }))
            (omega (arith, rest-le r.1.fmt))
            (convert-Left (conversion (first r.1.fmt)) (first r.1.fmt) r.0
              (record { fmt = rest r.1.fmt; args = r.1.args }))))
]

-- The run of the loop with its rounds counted: it ends at the end of the format, or in a round whose
-- argument is not there, and goes on behind a round else.
pub data Runs : ℕ → Text → List Arg → Option Writer → Type 0 where
  finished : (args : List Arg) → Runs 0 [] args (some (λ limit o. o))
  stopped :
      (c : ℕ) (fmt : Text) (args : List Arg)
      → step c (record { fmt = fmt; args = args }) ≡ none
      → Runs 0 (c ∷ fmt) args none
  continued :
      (m c : ℕ) (fmt : Text) (args : List Arg) (s : Step) (r : Option Writer)
      → step c (record { fmt = fmt; args = args }) ≡ some s
      → Runs m s.input.fmt s.input.args r
      → Runs (suc m) (c ∷ fmt) args (r >>= λ w. some (s.writer >> w))

-- What `print` gives with more rounds than `bound`.
abbrev pub IsPrinted : Text → List Arg → ℕ → Option Writer → Type 0
IsPrinted fmt args bound r = (k : ℕ) → bound < k → print k fmt args ≡ r

print_stopped :
    (c : ℕ) (fmt : Text) (args : List Arg) (bound : ℕ)
    → step c (record { fmt = fmt; args = args }) ≡ none
    → IsPrinted (c ∷ fmt) args bound none
unfolding print
print_stopped c fmt args bound e zero h = absurd (omega arith)
print_stopped c fmt args bound e (suc k) h = rw e refl

print_continued :
    (c : ℕ) (fmt : Text) (args : List Arg) (s : Step) (r : Option Writer) (bound : ℕ)
    → step c (record { fmt = fmt; args = args }) ≡ some s
    → IsPrinted s.input.fmt s.input.args bound r
    → IsPrinted (c ∷ fmt) args (suc bound) (r >>= λ w. some (s.writer >> w))
unfolding print
print_continued c fmt args s r bound e ih zero h = absurd (omega arith)
print_continued c fmt args s r bound e ih (suc k) h = rw (e, ih k (omega arith)) refl

abbrev Ends : ℕ → Text → List Arg → Type 0
Ends bound fmt args =
    (m : ℕ) × (r : Option Writer) × (m ≤ bound) × Runs m fmt args r × IsPrinted fmt args bound r

IsPrinted-empty : (args : List Arg) (bound : ℕ) → IsPrinted [] args bound (some (λ limit o. o))
unfolding print
IsPrinted-empty args bound zero h = absurd (omega arith)
IsPrinted-empty args bound (suc k) h = refl

runs : (bound : ℕ) (fmt : Text) (args : List Arg) → length fmt ≤ bound → Ends bound fmt args
runs bound [] args h =
    (0, some (λ limit o. o), omega arith, Runs.finished args, IsPrinted-empty args bound)
runs zero (c ∷ fmt) args h = absurd (omega arith)
runs (suc bound) (c ∷ fmt) args h =
    elim (Option-cases (step c (record { fmt = fmt; args = args }))) [
      | inl e ↦
          (0, none, omega arith, Runs.stopped c fmt args e, print_stopped c fmt args (suc bound) e)
      | inr (s, e) ↦
          let left : length s.input.fmt ≤ length fmt =
            subst (Left rest_of (length fmt)) e (step-Left c (record { fmt = fmt; args = args })) in
          let (m, r, le, ran, printed) = runs bound s.input.fmt s.input.args (omega arith) in
          (
            suc m,
            r >>= λ w. some (s.writer >> w),
            omega arith,
            Runs.continued m c fmt args s r e ran,
            print_continued c fmt args s r bound e printed,
          )
    ]

-- The loop of vsnprintf_internal ends for every format and all arguments, after at most as many rounds
-- as the format has characters: at the end of the format, or at an argument that is not there. Any
-- number of rounds that exceeds the length of the format is enough for what it gives.
pub print-Runs :
    (fmt : Text) (args : List Arg)
    → (m : ℕ) × (r : Option Writer) × (m ≤ length fmt)
      × Runs m fmt args r
      × IsPrinted fmt args (length fmt) r
print-Runs fmt args = runs (length fmt) fmt args (omega arith)
