-- ===== src/Printf/Width.antt =====
-- The output for a number fills its field.
use linux_0_12_study.Base.{
  Bool, Bool-cases, [], ap, arith, false, if◌then◌else◌, inl, inr, is_negative, leb, length,
  length-append, length-replicate, ltb, refl, replicate, some, word_sub, ℕ, ◌&&◌, ◌++◌, ◌+◌, ◌-◌,
  ◌||◌, ◌∙◌, ◌∷◌, ◌≡◌, ◌≤◌,
}
use mathlib.Core.List.{reverse_aux}
use linux_0_12_study.Printf.{String, Flags, rounds, tmp, sign_of, prefix, layout, number}

length-reverse_aux : (xs ys : String) → length (reverse_aux xs ys) ≡ length xs + length ys
length-reverse_aux [] ys = omega arith
length-reverse_aux (x ∷ xs) ys = omega (arith, length-reverse_aux xs (x ∷ ys))

-- The parts of the output in its three orders.
length-parts :
    (a b c d : String) → (length (a ++ (b ++ (c ++ d))) ≡ length a + length b + length c + length d)
length-parts a b c d =
    omega (arith, length-append a (b ++ (c ++ d)), length-append b (c ++ d), length-append c d)

fills :
    (size s p w n : ℕ)
    → n ≡ s + p + w + (size - s - p - w)
    → n ≡ (if leb size (s + p + w) then s + p + w else size)
fills size s p w n e = ground (arith, e)

module _ (sign pre ds : String) (size precision : ℕ) (f : Flags) where
  abbrev width : ℕ
  width = if leb (rounds precision) (length ds) then length ds else rounds precision

  abbrev shown : String
  shown = replicate (width - length ds) 48 ++ reverse_aux ds []

  width-ge : (length ds ≤ width) × (rounds precision ≤ width)
  width-ge = (ground arith, ground arith)

  length-shown : length shown ≡ width
  length-shown = omega (
    arith,
    length-append (replicate (width - length ds) 48) (reverse_aux ds []),
    length-replicate {A = ℕ} (width - length ds) 48,
    length-reverse_aux ds [],
    width-ge,
  )

  -- What the output's length comes to: the field, or what the parts need.
  abbrev pub needed : ℕ
  needed = length sign + length pre + width

  abbrev pad : ℕ
  pad = rounds size - length sign - length pre - width

  abbrev arranged : Bool → Bool → String
  arranged left zeropad =
      if left
      then sign ++ (pre ++ (shown ++ replicate pad 32))
      else if zeropad
      then sign ++ (pre ++ (replicate pad 48 ++ shown))
      else replicate pad 32 ++ (sign ++ (pre ++ shown))

  length-layout :
      length (layout sign pre ds size precision f)
      ≡ (if leb (rounds size) needed then needed else rounds size)
  length-layout =
      let left = length-parts sign pre shown (replicate pad 32) in
      let zeros = length-parts sign pre (replicate pad 48) shown in
      let spaces = length-parts (replicate pad 32) sign pre shown in
      let a = length-replicate {A = ℕ} pad 32 in
      let b = length-replicate {A = ℕ} pad 48 in
      let n = length-shown in
      fills (rounds size) (length sign) (length pre) width _ (elim (Bool-cases f.left) [
        | inl e ↦ ap (λ t. length (arranged t f.zeropad)) e ∙ omega (arith, left, a, n)
        | inr e ↦ ap (λ t. length (arranged t f.zeropad)) e ∙ elim (Bool-cases f.zeropad) [
          | inl z ↦ ap (λ t. length (arranged false t)) z ∙ omega (arith, zeros, b, n)
          | inr z ↦ ap (λ t. length (arranged false t)) z ∙ omega (arith, spaces, a, n)
        ]
      ])

-- For a base from 2 to 36 the output of `number` is as long as its field, or, where sign, prefix and
-- digits need more, as long as these.
pub number-width :
    (num base size precision : ℕ) (f : Flags)
    → 2 ≤ base
    → base ≤ 36
    → let n = if f.sign && is_negative num then word_sub 0 num else num in
      let least = needed (sign_of num f) (prefix base f) (tmp f.small base n) size precision f in
      (s : String) × (number num base size precision f ≡ some s)
      × (length s ≡ (if leb (rounds size) least then least else rounds size))
unfolding number
number-width num base size precision f lo hi =
    let n = if f.sign && is_negative num then word_sub 0 num else num in
    let ok : (ltb base 2 || ltb 36 base) ≡ false = ground arith in
    (
      layout (sign_of num f) (prefix base f) (tmp f.small base n) size precision f,
      rw ok refl,
      length-layout (sign_of num f) (prefix base f) (tmp f.small base n) size precision f,
    )
