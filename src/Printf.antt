-- ===== src/Printf.antt =====
-- Formatted output: `skip_atoi`, `number` and `vsprintf` of ver05/kernel/vsprintf.c. A character is its
-- code; a string is the list of the characters before its end. The flags are one Boolean each. Field
-- widths and precisions are `int`s, -1 for none, and a width is not -2 ^ 31.
pub mod Digits
pub mod Convert
pub mod Width
mod Tests
use linux_0_12_study.Base.{
  Bool, List, Option, [], if◌then◌else◌, is_negative, leb, length, ltb, map, neg, none, replicate,
  some, suc, take, true, word, word_sub, zero, ℕ, ◌%◌, ◌&&◌, ◌*◌, ◌++◌, ◌+◌, ◌-◌, ◌/◌, ◌==◌, ◌||◌,
  ◌∷◌,
}
use mathlib.Core.Option
use mathlib.Core.List.{reverse_aux}

abbrev pub String : Type 0
String = List ℕ

abbrev pub is_digit : ℕ → Bool
is_digit c = leb 48 c && leb c 57

pub skip_digits : ℕ → String → ℕ × String
skip_digits i [] = (i, [])
skip_digits i (c ∷ cs) =
    let rest = skip_digits (word (i * 10 + c - 48)) cs in if is_digit c then rest else (i, c ∷ cs)

abbrev pub skip_atoi : String → ℕ × String
skip_atoi s = skip_digits 0 s

pub record Flags : Type 0 where
  pub zeropad : Bool
  pub sign : Bool
  pub plus : Bool
  pub space : Bool
  pub left : Bool
  pub special : Bool
  pub small : Bool

-- `digits[d]`
abbrev pub digit : Bool → ℕ → ℕ
digit small d = if ltb d 10 then 48 + d else if small then 87 + d else 55 + d

-- `while (num!=0) tmp[i++]=digits[do_div(num,base)];`, the last digit first. The division is
-- unsigned, and 32 rounds are enough for a base of 2 or more.
pub digits : ℕ → Bool → ℕ → ℕ → String
digits zero small base num = []
digits (suc fuel) small base num =
    let rest = digits fuel small base (num / base) in
    if num == 0 then [] else digit small (num % base) ∷ rest

abbrev pub tmp : Bool → ℕ → ℕ → String
tmp small base num = if num == 0 then 48 ∷ [] else digits 32 small base num

-- an `int` as far as a loop `while (n-- > 0)` counts it
abbrev pub rounds : ℕ → ℕ
rounds n = if is_negative n then 0 else n

-- the sign, an empty string for none
abbrev pub sign_of : ℕ → Flags → String
sign_of num f =
    if f.sign && is_negative num
    then 45 ∷ []
    else if f.plus
    then 43 ∷ []
    else if f.space
    then 32 ∷ []
    else []

abbrev pub prefix : ℕ → Flags → String
prefix base f =
    if f.special && (base == 8)
    then 48 ∷ []
    else if f.special && (base == 16)
    then 48 ∷ digit f.small 33 ∷ []
    else []

-- The output for the digits ds, last one first. The three loops for the rest of the field never
-- share it: the first one leaves nothing, and `LEFT` takes `ZEROPAD` away.
abbrev pub layout : String → String → String → ℕ → ℕ → Flags → String
layout sign pre ds size precision f =
    let width = if leb (rounds precision) (length ds) then length ds else rounds precision in
    let pad = rounds size - length sign - length pre - width in
    let number = replicate (width - length ds) 48 ++ reverse_aux ds [] in
    if f.left
    then sign ++ (pre ++ (number ++ replicate pad 32))
    else if f.zeropad
    then sign ++ (pre ++ (replicate pad 48 ++ number))
    else replicate pad 32 ++ (sign ++ (pre ++ number))

-- `none` is the result 0 for a base out of range.
pub number : ℕ → ℕ → ℕ → ℕ → Flags → Option String
number num base size precision f =
    let n = if f.sign && is_negative num then word_sub 0 num else num in
    if ltb base 2 || ltb 36 base
    then none
    else some (layout (sign_of num f) (prefix base f) (tmp f.small base n) size precision f)

pub data Arg : Type 0 where
  int : ℕ → Arg
  text : String → Arg

-- The output so far and what the conversions `n` have stored.
pub record Out : Type 0 where
  pub str : String
  pub counts : List ℕ

-- The flags in front of a conversion.
pub flags_of : Flags → String → Flags × String
flags_of f [] = (f, [])
flags_of f (c ∷ cs) =
    if c == 45
    then flags_of (record f { left = true }) cs
    else if c == 43
    then flags_of (record f { plus = true }) cs
    else if c == 32
    then flags_of (record f { space = true }) cs
    else if c == 35
    then flags_of (record f { special = true }) cs
    else if c == 48
    then flags_of (record f { zeropad = true }) cs
    else (f, c ∷ cs)

-- The next argument, as an `int`; `none` if there is none of this kind.
abbrev pub next_int : List Arg → Option (ℕ × List Arg)
next_int (int n ∷ args) = some (n, args)
next_int _ = none

abbrev pub next_text : List Arg → Option (String × List Arg)
next_text (text s ∷ args) = some (s, args)
next_text _ = none

-- What is known of a conversion when its letter is read.
pub record Spec : Type 0 where
  pub flags : Flags
  pub field_width : ℕ
  pub precision : ℕ

abbrev pub star_width : Flags → Option (ℕ × List Arg) → Option (Flags × ℕ × List Arg)
star_width f none = none
star_width f (some (n, args)) =
    some (if is_negative n then (record f { left = true }, word_sub 0 n, args) else (f, n, args))

pub width_of : Flags → String → List Arg → Option (Flags × ℕ × String × List Arg)
width_of f [] args = some (f, neg 1, [], args)
width_of f (c ∷ cs) args =
    let n = skip_atoi (c ∷ cs) in
    if is_digit c
    then some (f, n.0, n.1, args)
    else if c == 42
    then Option.map (λ r. (r.0, r.1, cs, r.2)) (star_width f (next_int args))
    else some (f, neg 1, c ∷ cs, args)

abbrev pub at_least_zero : ℕ → ℕ
at_least_zero n = if is_negative n then 0 else n

-- Behind the point.
abbrev pub precision_after : String → List Arg → Option (ℕ × String × List Arg)
precision_after [] args = some (0, [], args)
precision_after (c ∷ cs) args =
    let n = skip_atoi (c ∷ cs) in
    if is_digit c
    then some (at_least_zero n.0, n.1, args)
    else if c == 42
    then Option.map (λ r. (at_least_zero r.0, cs, r.1)) (next_int args)
    else some (0, c ∷ cs, args)

pub precision_of : String → List Arg → Option (ℕ × String × List Arg)
precision_of [] args = some (neg 1, [], args)
precision_of (c ∷ cs) args = if c == 46 then precision_after cs args else some (neg 1, c ∷ cs, args)

-- A qualifier h, l or L is skipped.
abbrev pub skip_qualifier : String → String
skip_qualifier [] = []
skip_qualifier (c ∷ cs) = if (c == 104) || (c == 108) || (c == 76) then cs else c ∷ cs

abbrev pub field : Bool → ℕ → String → String
field left pad s = if left then s ++ replicate pad 32 else replicate pad 32 ++ s

-- `%c` and `%s`
abbrev pub put_char : Spec → ℕ → String
put_char p n = field p.flags.left (rounds p.field_width - 1) (n % 256 ∷ [])

abbrev pub put_text : Spec → String → String
put_text p s =
    let shown = if is_negative p.precision then s else take p.precision s in
    field p.flags.left (rounds p.field_width - length shown) shown

-- the flags, the width and the base of a conversion of a number
abbrev pub number_spec : ℕ → Spec → Option (Flags × ℕ × ℕ)
number_spec c p =
    let f = p.flags in
    if c == 111
    then some (f, p.field_width, 8)
    else if c == 112
    then some (
        if p.field_width == neg 1
        then (record f { zeropad = true }, 8, 16)
        else (f, p.field_width, 16))
    else if c == 120
    then some (record f { small = true }, p.field_width, 16)
    else if c == 88
    then some (f, p.field_width, 16)
    else if (c == 100) || (c == 105)
    then some (record f { sign = true }, p.field_width, 10)
    else if c == 117
    then some (f, p.field_width, 10)
    else none
