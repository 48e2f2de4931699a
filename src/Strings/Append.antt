-- ===== src/Strings/Append.antt =====
-- `strncat` writes one byte too many.
use linux_0_12_study.Base.{
  List, [], arith, eq→==, leb, length, le→leb, ne→==_false, refl, some, suc, true, zero, ℕ, ◌+◌,
  ◌<◌, ◌^◌, ◌∷◌, ◌≡◌,
}
use linux_0_12_study.Strings.{Memory, put_byte, append_at_most, strncat}
use linux_0_12_study.Strings.Text.{Text, Clear, find_zero-Text, Text-frame}

append_at_most-past_end :
    (count : ℕ) (mem : Memory) (dest src : ℕ) (ys : List ℕ)
    → Text mem src ys
    → Clear (length ys) dest src
    → length ys < count
    → append_at_most count mem dest src (dest + length ys + 1) ≡ 0
unfolding append_at_most
append_at_most-past_end zero mem dest src ys u c h = absurd (omega arith)
append_at_most-past_end (suc count) mem dest src [] u c h = rw (eq→== (mem src) 0 u) (ground arith)
append_at_most-past_end (suc count) mem dest src (y ∷ ys) (e, p, b, u) c h =
    let mem₁ = put_byte mem dest (mem src) in
    let place : dest + suc (length ys) + 1 ≡ dest + 1 + length ys + 1 = omega arith in
    rw (ne→==_false (mem src) 0 (omega arith), place)
      (append_at_most-past_end count mem₁ (dest + 1) (src + 1) ys
        (Text-frame mem mem₁ (src + 1) ys (λ x l r. ground arith) u) (omega arith) (omega arith))

-- If `count` is below 2 ^ 31, the second string ends within `count` bytes and the room behind the
-- first does not meet it, `strncat` sets the byte behind the end of the joined string to 0, given
-- more rounds than the first is long.
pub strncat-past_end :
    (fuel count : ℕ) (mem : Memory) (dest src : ℕ) (xs ys : List ℕ)
    → Text mem dest xs
    → Text mem src ys
    → Clear (length ys) (dest + length xs) src
    → length xs < fuel
    → length ys < count
    → count < 2 ^ 31
    → (mem' : Memory) × (strncat fuel mem dest src count ≡ some mem')
      × (mem' (dest + length xs + length ys + 1) ≡ 0)
unfolding strncat
strncat-past_end fuel count mem dest src xs ys t u c h k small =
    let all : leb count (2 ^ 31) ≡ true = le→leb count (2 ^ 31) (omega arith) in
    (
      append_at_most count mem (dest + length xs) src,
      rw (find_zero-Text fuel mem dest xs t h, all) refl,
      append_at_most-past_end count mem (dest + length xs) src ys u c k,
    )
