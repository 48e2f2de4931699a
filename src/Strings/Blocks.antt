-- ===== src/Strings/Blocks.antt =====
-- `memmove`, also between ranges that overlap.
use linux_0_12_study.Base.{
  Bool-cases, arith, if◌then◌else◌, inl, inr, leb, ltb, ltb→lt, suc, zero, ℕ, ◌&&◌, ◌+◌, ◌-◌, ◌<◌,
  ◌∙◌, ◌≡◌, ◌≤◌,
}
use linux_0_12_study.Strings.{Memory, put_byte, memcpy, copy_down, memmove}

-- The n bytes at src, moved to dest.
abbrev pub moved : Memory → ℕ → ℕ → ℕ → Memory
moved mem dest src n x = if leb dest x && ltb x (dest + n) then mem (src + (x - dest)) else mem x

memcpy-moved :
    (n : ℕ) (mem : Memory) (dest src x : ℕ)
    → dest < src
    → memcpy mem dest src n x ≡ moved mem dest src n x
unfolding memcpy
memcpy-moved zero mem dest src x h = ground arith
memcpy-moved (suc n) mem dest src x h =
    memcpy-moved n (put_byte mem dest (mem src)) (dest + 1) (src + 1) x (omega arith) ∙ grind arith

copy_down-moved :
    (n : ℕ) (mem : Memory) (dest src x : ℕ)
    → src ≤ dest
    → copy_down mem dest src n x ≡ moved mem dest src n x
unfolding copy_down
copy_down-moved zero mem dest src x h = ground arith
copy_down-moved (suc n) mem dest src x h =
    copy_down-moved n (put_byte mem (dest + n) (mem (src + n))) dest src x h ∙ grind arith

-- `memmove` copies the n bytes at src, as they were before, to dest, whether the ranges overlap or
-- not, and changes nothing else.
pub memmove-moved :
    (mem : Memory) (dest src n x : ℕ) → memmove mem dest src n x ≡ moved mem dest src n x
unfolding memmove
memmove-moved mem dest src n x = elim (Bool-cases (ltb dest src)) [
  | inl up ↦ rw up (memcpy-moved n mem dest src x (ltb→lt dest src up))
  | inr down ↦ rw down (copy_down-moved n mem dest src x (ground (arith, down)))
]
