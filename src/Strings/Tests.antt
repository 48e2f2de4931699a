-- ===== src/Strings/Tests.antt =====
-- The string routines on a small memory.
use linux_0_12_study.Base.{
  List, [], arith, if◌then◌else◌, inl, inr, ltb, refl, some, ℕ, ◌<◌, ◌==◌, ◌∷◌, ◌≡◌, ◌⊎◌,
}
use linux_0_12_study.Strings.{Memory, strcat, strncat, memmove}
use linux_0_12_study.Strings.Text.{Text, strcat-IsCopy}
use linux_0_12_study.Strings.Append.{strncat-past_end}
use linux_0_12_study.Strings.Blocks.{moved, memmove-moved}

-- "ab" stands at 100, "c" at 200, and the bytes from 300 on are 9.
abbrev words : Memory
words a =
    if a == 100
    then 97
    else if a == 101
    then 98
    else if a == 200
    then 99
    else if ltb 299 a
    then 9
    else 0

abbrev ab : List ℕ
ab = 97 ∷ 98 ∷ []

ab_at : Text words 100 ab
ab_at = (refl, omega arith, omega arith, (refl, omega arith, omega arith, refl))

c_at : Text words 200 (99 ∷ [])
c_at = (refl, omega arith, omega arith, refl)

-- The ranges overlap.
memmove_example : memmove words 101 100 2 102 ≡ moved words 101 100 2 102
memmove_example = memmove-moved words 101 100 2 102

abbrev empty_at_304 : Memory
empty_at_304 a = if a == 304 then 0 else words a

-- "c" is appended to an empty string: byte 306, which is no part of the result, was 9.
strncat_example : (mem' : Memory) × (strncat 9 empty_at_304 304 200 5 ≡ some mem') × (mem' 306 ≡ 0)
strncat_example =
    strncat-past_end 9 5 empty_at_304 304 200 [] (99 ∷ []) refl
      (refl, omega arith, omega arith, refl) (inr (omega arith)) (omega arith) (omega arith)
      (omega arith)

-- "c" is appended to "ab".
strcat_example :
    (mem' : Memory) × (strcat 9 words 100 200 ≡ some mem')
    × Text mem' 100 (97 ∷ 98 ∷ 99 ∷ [])
    × ((x : ℕ) → (x < 102) ⊎ (103 < x) → mem' x ≡ words x)
strcat_example =
    strcat-IsCopy 9 words 100 200 ab (99 ∷ []) ab_at c_at (inl (omega arith)) (omega arith)
      (omega arith)
