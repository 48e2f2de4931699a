-- ===== src/Printf/Digits.antt =====
-- Numbers are printed so that they can be read back.
use linux_0_12_study.Base.{
  ==_iff, Bool, Bool-cases, [], ap, append-nil, arith, false, if◌then◌else◌, inl, inr, is_negative,
  leb, length, ltb, neg, refl, some, suc, sym, true, word, word_sub, zero, ℕ, ◌%◌, ◌&&◌, ◌*◌, ◌+◌,
  ◌-◌, ◌/◌, ◌<◌, ◌==◌, ◌^◌, ◌∙◌, ◌∷◌, ◌≡◌,
}
use native.Mathlib.Nat.{pow-suc}
use mathlib.Core.List.{reverse_aux}
use linux_0_12_study.Printf.{
  String, Flags, is_digit, skip_digits, skip_atoi, digits, number, tmp, layout, sign_of, prefix,
}

skip_digits-cons :
    (i d : ℕ) (cs : String)
    → d < 10
    → skip_digits i ((48 + d) ∷ cs) ≡ skip_digits (word (i * 10 + d)) cs
unfolding skip_digits
skip_digits-cons i d cs h =
    let yes_digit : is_digit (48 + d) ≡ true = ground arith in
    let same : i * 10 + (48 + d) - 48 ≡ i * 10 + d = omega arith in rw (yes_digit, same) refl

-- Reading the digits of n and what follows them is reading on with n.
skip_digits-digits :
    (fuel n : ℕ) (small : Bool) (cs : String)
    → n < 2 ^ fuel
    → n < 2 ^ 32
    → skip_digits 0 (reverse_aux (digits fuel small 10 n) cs) ≡ skip_digits n cs
unfolding digits
skip_digits-digits zero n small cs h b = ap (λ k. skip_digits k cs) {x = 0} {y = n} (omega arith)
skip_digits-digits (suc fuel) n small cs h b = elim (Bool-cases (n == 0)) [
  | inl z ↦ rw z (ap (λ k. skip_digits k cs) (sym ((==_iff n 0).0 z)))
  | inr ne ↦
      let d : ltb (n % 10) 10 ≡ true = ground arith in
      let back : word (n / 10 * 10 + n % 10) ≡ n = omega arith in
      rw (ne, d)
        (skip_digits-digits fuel (n / 10) small ((48 + n % 10) ∷ cs) (omega (arith, pow-suc 2 fuel))
            (omega arith)
          ∙ skip_digits-cons (n / 10) (n % 10) cs (omega arith)
          ∙ ap (λ k. skip_digits k cs) back)
]

tmp-read :
    (n : ℕ) (small : Bool) → n < 2 ^ 32 → skip_atoi (reverse_aux (tmp small 10 n) []) ≡ (n, [])
unfolding skip_digits
tmp-read n small b = elim (Bool-cases (n == 0)) [
  | inl z ↦ rw z (ap (λ k. (k, [])) {x = 0} {y = n} (sym ((==_iff n 0).0 z)))
  | inr ne ↦ rw ne (skip_digits-digits 32 n small [] b b)
]

-- Without a width, a precision and signs the digits are all there is.
layout-plain : (ds : String) (f : Flags) → layout [] [] ds (neg 1) (neg 1) f ≡ reverse_aux ds []
layout-plain ds f =
    let w : leb 0 (length ds) ≡ true = ground arith in
    let pad : 0 - 0 - 0 - length ds ≡ 0 = omega arith in
    let zeros : length ds - length ds ≡ 0 = omega arith in
    rw w (rw (pad, zeros) (ground (arith, append-nil (reverse_aux ds []))))

no_sign : (n : ℕ) (f : Flags) → f.sign ≡ false → f.plus ≡ false → f.space ≡ false → sign_of n f ≡ []
no_sign n f s p q = ground (arith, s, p, q)

unsigned :
    (n : ℕ) (f : Flags) → f.sign ≡ false → (if f.sign && is_negative n then word_sub 0 n else n) ≡ n
unsigned n f s = ground (arith, s)

prefix-ten : (f : Flags) → prefix 10 f ≡ []
prefix-ten f = ground arith

-- A number of 32 bits that is printed in decimal, unsigned and without a width, a precision, a plus or
-- a space, is read back by `skip_atoi`.
pub number-skip_atoi :
    (n : ℕ) (f : Flags)
    → n < 2 ^ 32
    → f.sign ≡ false
    → f.plus ≡ false
    → f.space ≡ false
    → (s : String) × (number n 10 (neg 1) (neg 1) f ≡ some s) × (skip_atoi s ≡ (n, []))
unfolding number
number-skip_atoi n f b s p q = (
  reverse_aux (tmp f.small 10 n) [],
  ap some (
      ap
        (λ l.
          layout (sign_of n f) l
            (tmp f.small 10 (if f.sign && is_negative n then word_sub 0 n else n)) (neg 1) (neg 1)
            f)
        (prefix-ten f)
      ∙ ap (λ m. layout (sign_of n f) [] (tmp f.small 10 m) (neg 1) (neg 1) f) (unsigned n f s)
      ∙ ap (λ l. layout l [] (tmp f.small 10 n) (neg 1) (neg 1) f) (no_sign n f s p q)
      ∙ layout-plain (tmp f.small 10 n) f),
  tmp-read n f.small b,
)
