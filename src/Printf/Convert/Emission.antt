-- ===== src/Printf/Convert/Emission.antt =====
-- What the functions of misc/vsnprintf.c add to the output does not depend on where the buffer ends.
use emac_driver.Common.{
  ℕ, zero, suc, ◌≡◌, refl, sym, ◌∙◌, ap, List, [], ◌∷◌, ◌++◌, map, Option, none, some, Bool,
  Bool-cases, inl, inr, subst, ◌==◌, if◌then◌else◌, u32, u64,
}
use emac_driver.Common.Buffer.{Buffer}
use emac_driver.Text.{Text, first}
use emac_driver.Printf.Output.{Writer, Out, put, ◌>>◌, add_char}
use emac_driver.Printf.Number.{number, string}
use emac_driver.Printf.Pointer.{
  Shown, shown, print_shown, pointer, pointer_number, mac_address_string, ip6_addr_string,
  ip4_addr_string,
}
use emac_driver.Printf.Format.{
  Arg, int, text, address, Directive, Input, next_int, rest, parse_directive, ◌>>=◌,
}
use emac_driver.Printf.Convert.{
  Step, Conversion, conversion, put_char, store_count, print_string, print_pointer, print_count,
  convert, step, print,
}

-- A character, or the number of characters so far as an `int` or a `long` for `%n`.
pub data Item : Type 0 where
  byte : ℕ → Item
  count : Bool → Item

unfoldable pub emit : List Item → Writer
emit [] limit o = o
emit (byte c ∷ t) limit o = emit t limit (add_char c limit o)
emit (count long ∷ t) limit o =
    emit t limit (record o { stored = (if long then u64 o.str else u32 o.str) ∷ o.stored })

-- The same items whatever the limit and the output so far.
abbrev pub IsEmission : Writer → Type 0
IsEmission w = (t : List Item) × ((limit : ℕ) (o : Out) → w limit o ≡ emit t limit o)

emit-append :
    (s t : List Item) (limit : ℕ) (o : Out) → emit (s ++ t) limit o ≡ emit t limit (emit s limit o)
unfolding emit
emit-append [] t limit o = refl
emit-append (byte c ∷ s) t limit o = emit-append s t limit (add_char c limit o)
emit-append (count long ∷ s) t limit o = emit-append s t limit _

pub put-emit : (s : Text) (limit : ℕ) (o : Out) → put s limit o ≡ emit (map byte s) limit o
unfolding put emit
put-emit [] limit o = refl
put-emit (c ∷ s) limit o = put-emit s limit (add_char c limit o)

put-IsEmission : (s : Text) → IsEmission (put s)
put-IsEmission s = (map byte s, put-emit s)

seq-IsEmission : {v w : Writer} → IsEmission v → IsEmission w → IsEmission (v >> w)
seq-IsEmission {v} {w} e f = (
  e.0 ++ f.0,
  λ limit o.
      f.1 limit (v limit o) ∙ ap (emit f.0 limit) (e.1 limit o) ∙ sym (emit-append e.0 f.0 limit o),
)

infixl 5 ◌then_put◌
◌then_put◌ : {w : Writer} → IsEmission w → (s : Text) → IsEmission (w >> put s)
e then_put s = seq-IsEmission e (put-IsEmission s)

number-IsEmission :
    (num base size precision type : ℕ) → IsEmission (number num base size precision type)
unfolding number
number-IsEmission num base size precision type =
    put-IsEmission _ then_put _ then_put _ then_put _ then_put _ then_put _ then_put _

string-IsEmission :
    (s : Option Text) (width precision flags : ℕ) → IsEmission (string s width precision flags)
unfolding string
string-IsEmission s width precision flags = put-IsEmission _ then_put _ then_put _

print_shown-IsEmission :
    (k : Shown) (ptr : ℕ) (target : Buffer) (width precision flags : ℕ)
    → IsEmission (print_shown k ptr target width precision flags)
unfolding print_shown pointer_number mac_address_string ip6_addr_string ip4_addr_string
print_shown-IsEmission Shown.physical ptr target width precision flags =
    number-IsEmission _ 16 _ precision _
print_shown-IsEmission Shown.other ptr target width precision flags =
    number-IsEmission ptr 16 _ precision _
print_shown-IsEmission Shown.plain_other ptr target width precision flags =
    number-IsEmission ptr 16 _ precision _
print_shown-IsEmission (Shown.mac b) ptr target width precision flags =
    string-IsEmission _ width precision _
print_shown-IsEmission (Shown.ip6 b) ptr target width precision flags =
    string-IsEmission _ width precision _
print_shown-IsEmission (Shown.ip4 b) ptr target width precision flags =
    string-IsEmission _ width precision _

add_char-IsEmission : (c : ℕ) → IsEmission (add_char c)
unfolding emit
add_char-IsEmission c = (byte c ∷ [], λ limit o. refl)

put_char-IsEmission : (d : Directive) (n : ℕ) → IsEmission (put_char d n)
unfolding put_char
put_char-IsEmission d n = seq-IsEmission (put-IsEmission _) (add_char-IsEmission _) then_put _

store_count-IsEmission : (d : Directive) → IsEmission (store_count d)
unfolding store_count emit
store_count-IsEmission d = (count (d.qualifier == b'l') ∷ [], λ limit o. refl)

-- For a result that may be missing.
abbrev Emits : Option Step → Type 0
Emits none = Unit {0}
Emits (some s) = IsEmission s.writer

>>=-Emits :
    {A : Type 0} (m : Option A) (f : A → Option Step) → ((a : A) → Emits (f a)) → Emits (m >>= f)
>>=-Emits none f h = tt
>>=-Emits (some a) f h = h a

print_string-Emits :
    (d : Directive) (fmt : Text) (args : List Arg) → Emits (print_string d fmt args)
unfolding print_string
print_string-Emits d fmt [] = tt
print_string-Emits d fmt (int n ∷ args) = tt
print_string-Emits d fmt (text s ∷ args) = string-IsEmission s d.field_width d.precision d.flags
print_string-Emits d fmt (address ptr target ∷ args) = tt

print_pointer-Emits :
    (d : Directive) (fmt : Text) (args : List Arg) → Emits (print_pointer d fmt args)
unfolding print_pointer pointer
print_pointer-Emits d fmt [] = tt
print_pointer-Emits d fmt (int n ∷ args) = tt
print_pointer-Emits d fmt (text s ∷ args) = tt
print_pointer-Emits d fmt (address ptr target ∷ args) =
    print_shown-IsEmission (shown fmt) ptr target d.field_width d.precision d.flags

print_count-Emits : (d : Directive) (fmt : Text) (args : List Arg) → Emits (print_count d fmt args)
unfolding print_count
print_count-Emits d fmt [] = tt
print_count-Emits d fmt (int n ∷ args) = tt
print_count-Emits d fmt (text s ∷ args) = tt
print_count-Emits d fmt (address ptr target ∷ args) = store_count-IsEmission d

convert-Emits : (k : Conversion) (c : ℕ) (d : Directive) (i : Input) → Emits (convert k c d i)
unfolding convert
convert-Emits Conversion.chars c d i =
    >>=-Emits (next_int i.fmt i.args) _ (λ r. put_char-IsEmission d r.0)
convert-Emits Conversion.texts c d i = print_string-Emits d i.fmt i.args
convert-Emits Conversion.pointers c d i = print_pointer-Emits d i.fmt i.args
convert-Emits Conversion.counts c d i = print_count-Emits d i.fmt i.args
convert-Emits Conversion.percents c d i = put-IsEmission _
convert-Emits Conversion.unknown c d i = put-IsEmission _
convert-Emits (Conversion.integers base flag) c d i =
    >>=-Emits (next_int i.fmt i.args) _ (λ r. number-IsEmission _ base d.field_width d.precision _)

step-Emits : (c : ℕ) (i : Input) → Emits (step c i)
unfolding step
step-Emits c i = elim (Bool-cases (c == b'%')) [
  | inl e ↦ rw e (
      >>=-Emits (parse_directive i) _ (λ r.
        convert-Emits (conversion (first r.1.fmt)) (first r.1.fmt) r.0
          (record { fmt = rest r.1.fmt; args = r.1.args })))
  | inr e ↦ rw e (add_char-IsEmission c)
]

-- The format and its arguments fix what is printed.
abbrev Prints : Option Writer → Type 0
Prints none = Unit {0}
Prints (some w) = IsEmission w

after-Prints :
    (v : Writer) (m : Option Writer) → IsEmission v → Prints m → Prints (m >>= λ w. some (v >> w))
after-Prints v none e p = tt
after-Prints v (some w) e p = seq-IsEmission e p

rounds-Prints :
    (m : Option Step) (f : Text → List Arg → Option Writer)
    → Emits m
    → ((fmt : Text) (args : List Arg) → Prints (f fmt args))
    → Prints (m >>= λ s. f s.input.fmt s.input.args >>= λ w. some (s.writer >> w))
rounds-Prints none f e p = tt
rounds-Prints (some s) f e p = after-Prints s.writer _ e (p s.input.fmt s.input.args)

print-Prints : (fuel : ℕ) (fmt : Text) (args : List Arg) → Prints (print fuel fmt args)
unfolding print emit
print-Prints zero fmt args = tt
print-Prints (suc fuel) [] args = ([], λ limit o. refl)
print-Prints (suc fuel) (c ∷ fmt) args =
    rounds-Prints (step c (record { fmt = fmt; args = args })) (print fuel)
      (step-Emits c (record { fmt = fmt; args = args })) (print-Prints fuel)

pub print-IsEmission :
    (fuel : ℕ) (fmt : Text) (args : List Arg) (w : Writer)
    → print fuel fmt args ≡ some w
    → IsEmission w
print-IsEmission fuel fmt args w e = subst Prints e (print-Prints fuel fmt args)
