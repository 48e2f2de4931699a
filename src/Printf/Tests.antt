-- ===== src/Printf/Tests.antt =====
-- Formatted output of small numbers.
use linux_0_12_study.Base.{[], arith, false, neg, refl, some, ◌∷◌, ◌≡◌}
use linux_0_12_study.Printf.{
  String, Flags, int, skip_digits, skip_atoi, digits, number, flags_of, width_of, precision_of,
}
use mathlib.Core.Option.{bind}
use linux_0_12_study.Printf.Convert.{convert, conversion, format, vsprintf}
use linux_0_12_study.Printf.Digits.{number-skip_atoi}

abbrev none_set : Flags
none_set = record {
  zeropad = false;
  sign = false;
  plus = false;
  space = false;
  left = false;
  special = false;
  small = false;
}

number-skip_atoi_example :
    (s : String) × (number 420 10 (neg 1) (neg 1) none_set ≡ some s) × (skip_atoi s ≡ (420, []))
number-skip_atoi_example = number-skip_atoi 420 none_set (omega arith) refl refl refl

-- "%05d|" of -7 is "-0007|".
vsprintf_run :
    vsprintf (37 ∷ 48 ∷ 53 ∷ 100 ∷ 124 ∷ []) (int (neg 7) ∷ [])
    ≡ some (45 ∷ 48 ∷ 48 ∷ 48 ∷ 55 ∷ 124 ∷ [], 6)
unfolding vsprintf format conversion convert number flags_of width_of precision_of skip_digits
    digits bind
vsprintf_run = refl
