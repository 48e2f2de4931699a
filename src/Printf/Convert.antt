-- ===== src/Printf/Convert.antt =====
-- The loop of `vsprintf` over the format.
use linux_0_12_study.Base.{
  List, Option, [], false, if◌then◌else◌, is_some, length, none, some, suc, zero, ℕ, ◌!=◌, ◌++◌,
  ◌+◌, ◌==◌, ◌∷◌,
}
use mathlib.Core.Option
use linux_0_12_study.Printf.{
  String, Flags, Arg, Out, Spec, number, flags_of, next_int, next_text, width_of, precision_of,
  skip_qualifier, put_char, put_text, number_spec,
}

abbrev no_flags : Flags
no_flags = record {
  zeropad = false;
  sign = false;
  plus = false;
  space = false;
  left = false;
  special = false;
  small = false;
}

infixl 5 ◌>>=◌
abbrev ◌>>=◌ : {A B : Type 0} → Option A → (A → Option B) → Option B
m >>= f = Option.bind m f

abbrev emit : Out → String → Out
emit o s = record o { str = o.str ++ s }

-- A letter that is no conversion of a number: `n`, or itself after a percent sign.
abbrev put_other : ℕ → Out → List Arg → Option (Out × List Arg)
put_other c o args =
    if c == 110
    then Option.map (λ r. (record o { counts = length o.str ∷ o.counts }, r.1)) (next_int args)
    else if c == 37
    then some (emit o (37 ∷ []), args)
    else some (emit o (37 ∷ c ∷ []), args)

abbrev put_number :
    Spec → Out → Option (Flags × ℕ × ℕ) → Option (ℕ × List Arg) → Option (Out × List Arg)
put_number p o none a = none
put_number p o (some s) none = none
put_number p o (some (f, size, base)) (some (n, args)) =
    Option.map (λ s. (emit o s, args)) (number n base size p.precision f)

unfoldable pub convert : Spec → ℕ → Out → List Arg → Option (Out × List Arg)
convert p c o args =
    if c == 99
    then Option.map (λ r. (emit o (put_char p r.0), r.1)) (next_int args)
    else if c == 115
    then Option.map (λ r. (emit o (put_text p r.0), r.1)) (next_text args)
    else if is_some (number_spec c p)
    then put_number p o (number_spec c p) (next_int args)
    else put_other c o args

-- One conversion, from behind its percent sign: the output, the rest of the format and of the
-- arguments. At the end of the format the percent sign stands for itself.
unfoldable pub conversion : String → Out → List Arg → Option (Out × String × List Arg)
conversion fmt o args = do
  let (f, fmt₁) = flags_of no_flags fmt
  (f₁, w, fmt₂, args₁) ← width_of f fmt₁ args
  (prec, fmt₃, args₂) ← precision_of fmt₂ args₁
  elim (skip_qualifier fmt₃) [
    | [] ↦ some (emit o (37 ∷ []), [], args₂)
    | c ∷ cs ↦ do
      r ← convert (record { flags = f₁; field_width = w; precision = prec }) c o args₂
      some (r.0, cs, r.1)
  ]

-- The loop, on fuel. `none`: an argument is missing, or fuel.
unfoldable pub format : ℕ → String → Out → List Arg → Option Out
format zero fmt o args = none
format (suc fuel) [] o args = some o
format (suc fuel) (c ∷ fmt) o args =
    let plain = format fuel fmt (emit o (c ∷ [])) args in
    if c != 37
    then plain
    else do (o₁, fmt₁, args₁) ← conversion fmt o args; format fuel fmt₁ o₁ args₁

-- The string and its length; each round takes a character of the format.
unfoldable pub vsprintf : String → List Arg → Option (String × ℕ)
vsprintf fmt args =
    Option.map (λ o. (o.str, length o.str))
      (format (length fmt + 1) fmt (record { str = []; counts = [] }) args)
