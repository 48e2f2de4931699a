-- ===== src/Strings.antt =====
-- The string routines of ver05/lib/string.c. Memory is a map from addresses to bytes; an address is a
-- number, and no range wraps around. A loop runs on fuel: `none` means that it met no end within
-- these rounds.
pub mod Text
pub mod Append
pub mod Blocks
mod Tests
use linux_0_12_study.Base.{
  Bool, Option, false, if◌then◌else◌, leb, ltb, map, neg, none, not, some, suc, true, zero, ℕ, ◌!=◌,
  ◌%◌, ◌&&◌, ◌+◌, ◌-◌, ◌==◌, ◌^◌, ◌||◌,
}
use mathlib.Core.Option

abbrev pub Memory : Type 0
Memory = ℕ → ℕ

-- `stosb`
abbrev pub put_byte : Memory → ℕ → ℕ → Memory
put_byte mem a v x = if a == x then v else mem x

-- `repne scasb` for a zero byte, from the address s on: the address of that byte
pub find_zero : ℕ → Memory → ℕ → Option ℕ
find_zero zero mem s = none
find_zero (suc fuel) mem s =
    let rest = find_zero fuel mem (s + 1) in if mem s == 0 then some s else rest

pub strlen : ℕ → Memory → ℕ → Option ℕ
strlen fuel mem s = Option.map (λ e. e - s) (find_zero fuel mem s)

-- `1: lodsb; stosb; testb %al,%al; jne 1b`
pub strcpy : ℕ → Memory → ℕ → ℕ → Option Memory
strcpy zero mem dest src = none
strcpy (suc fuel) mem dest src =
    let mem₁ = put_byte mem dest (mem src) in
    let rest = strcpy fuel mem₁ (dest + 1) (src + 1) in if mem src == 0 then some mem₁ else rest

-- `rep stosb`
unfoldable pub memset : Memory → ℕ → ℕ → ℕ → Memory
memset mem s c zero = mem
memset mem s c (suc count) = memset (put_byte mem s c) (s + 1) c count

-- For a count below 2 ^ 31; after the end of the source the rest of the `count` bytes is 0.
unfoldable pub strncpy : ℕ → Memory → ℕ → ℕ → Memory
strncpy zero mem dest src = mem
strncpy (suc count) mem dest src =
    let mem₁ = put_byte mem dest (mem src) in
    let rest = strncpy count mem₁ (dest + 1) (src + 1) in
    if mem src == 0 then memset mem₁ (dest + 1) 0 count else rest

pub strcat : ℕ → Memory → ℕ → ℕ → Option Memory
strcat fuel mem dest src = elim (find_zero fuel mem dest) [
  | none ↦ none
  | some e ↦ strcpy fuel mem e src
]

-- The rounds of a loop that ends when `decl` makes the word negative: a negative count has none, but
-- the least of all, 2 ^ 31, becomes positive.
abbrev pub count_rounds : ℕ → ℕ
count_rounds count = if leb count (2 ^ 31) then count else 0

-- The loop of `strncat` from the end of the destination on: at most `count` bytes, then a zero byte,
-- also after the zero byte of the source.
pub append_at_most : ℕ → Memory → ℕ → ℕ → Memory
append_at_most zero mem dest src = put_byte mem dest 0
append_at_most (suc count) mem dest src =
    let mem₁ = put_byte mem dest (mem src) in
    let rest = append_at_most count mem₁ (dest + 1) (src + 1) in
    if mem src == 0 then put_byte mem₁ (dest + 1) 0 else rest

pub strncat : ℕ → Memory → ℕ → ℕ → ℕ → Option Memory
strncat fuel mem dest src count =
    Option.map (λ e. append_at_most (count_rounds count) mem e src) (find_zero fuel mem dest)

-- `movl $1,%eax; jl; negl %eax`: the comparison of a byte of ct with one of cs, as signed bytes
pub sign : ℕ → ℕ → ℕ
sign ct cs = if ltb ((ct + 128) % 256) ((cs + 128) % 256) then 1 else neg 1

pub strcmp : ℕ → Memory → ℕ → ℕ → Option ℕ
strcmp zero mem cs ct = none
strcmp (suc fuel) mem cs ct =
    let rest = strcmp fuel mem (cs + 1) (ct + 1) in
    if mem ct != mem cs then some (sign (mem ct) (mem cs)) else if mem ct == 0 then some 0 else rest

-- For a count below 2 ^ 31.
unfoldable pub strncmp : ℕ → Memory → ℕ → ℕ → ℕ
strncmp zero mem cs ct = 0
strncmp (suc count) mem cs ct =
    let rest = strncmp count mem (cs + 1) (ct + 1) in
    if mem ct != mem cs then sign (mem ct) (mem cs) else if mem ct == 0 then 0 else rest

-- The result 0 is the null pointer.
unfoldable pub strchr : ℕ → Memory → ℕ → ℕ → Option ℕ
strchr zero mem s c = none
strchr (suc fuel) mem s c =
    let rest = strchr fuel mem (s + 1) c in
    if mem s == c then some s else if mem s == 0 then some 0 else rest

-- The last match so far is kept in `res`.
unfoldable pub last_match : ℕ → Memory → ℕ → ℕ → ℕ → Option ℕ
last_match zero mem s c res = none
last_match (suc fuel) mem s c res =
    let res₁ = if mem s == c then s else res in
    let rest = last_match fuel mem (s + 1) c res₁ in if mem s == 0 then some res₁ else rest

unfoldable pub strrchr : ℕ → Memory → ℕ → ℕ → Option ℕ
strrchr fuel mem s c = last_match fuel mem s c 0

-- `repne scasb` over n bytes: is one of them c?
unfoldable pub scan : Memory → ℕ → ℕ → ℕ → Bool
scan mem c zero s = false
scan mem c (suc n) s = let rest = scan mem c n (s + 1) in if mem s == c then true else rest

-- The loop of `strspn` (stop = false) and `strcspn` (stop = true): from the address s to the first
-- byte that ends the string, or that is among the n bytes at ct just if `stop` says so.
unfoldable pub span : ℕ → Memory → ℕ → ℕ → Bool → ℕ → Option ℕ
span zero mem ct n stop s = none
span (suc fuel) mem ct n stop s =
    let rest = span fuel mem ct n stop (s + 1) in
    let found = scan mem (mem s) n ct in
    if mem s == 0
    then some s
    else if (found && stop) || (not found && not stop)
    then some s
    else rest

unfoldable pub strspn : ℕ → Memory → ℕ → ℕ → Option ℕ
strspn fuel mem cs ct = elim (strlen fuel mem ct) [
  | none ↦ none
  | some n ↦ Option.map (λ s. s - cs) (span fuel mem ct n false cs)
]

unfoldable pub strcspn : ℕ → Memory → ℕ → ℕ → Option ℕ
strcspn fuel mem cs ct = elim (strlen fuel mem ct) [
  | none ↦ none
  | some n ↦ Option.map (λ s. s - cs) (span fuel mem ct n true cs)
]

unfoldable pub strpbrk : ℕ → Memory → ℕ → ℕ → Option ℕ
strpbrk fuel mem cs ct = elim (strlen fuel mem ct) [
  | none ↦ none
  | some n ↦ Option.map (λ s. if mem s == 0 then 0 else s) (span fuel mem ct n true cs)
]

-- `repe cmpsb` over n bytes: where b first differs from a
unfoldable pub mismatch : Memory → ℕ → ℕ → ℕ → Option ℕ
mismatch mem zero a b = none
mismatch mem (suc n) a b =
    let rest = mismatch mem n (a + 1) (b + 1) in if mem a == mem b then rest else some b

-- The loop over the places of cs: the byte that differs ends the search if it is 0.
unfoldable pub find_text : ℕ → Memory → ℕ → ℕ → ℕ → Option ℕ
find_text zero mem ct n s = none
find_text (suc fuel) mem ct n s =
    let rest = find_text fuel mem ct n (s + 1) in
    elim (mismatch mem n ct s) [ none ↦ some s | some p ↦ if mem p == 0 then some 0 else rest ]

unfoldable pub strstr : ℕ → Memory → ℕ → ℕ → Option ℕ
strstr fuel mem cs ct = elim (strlen fuel mem ct) [
  | none ↦ none
  | some n ↦ find_text fuel mem ct n cs
]

-- `rep movsb` upwards
pub memcpy : Memory → ℕ → ℕ → ℕ → Memory
memcpy mem dest src zero = mem
memcpy mem dest src (suc n) = memcpy (put_byte mem dest (mem src)) (dest + 1) (src + 1) n

-- `rep movsb` downwards, from the last of n bytes
pub copy_down : Memory → ℕ → ℕ → ℕ → Memory
copy_down mem dest src zero = mem
copy_down mem dest src (suc n) = copy_down (put_byte mem (dest + n) (mem (src + n))) dest src n

pub memmove : Memory → ℕ → ℕ → ℕ → Memory
memmove mem dest src n = if ltb dest src then memcpy mem dest src n else copy_down mem dest src n

-- A count of 0 leaves the flags of some earlier instruction: here the result is 0.
unfoldable pub memcmp : Memory → ℕ → ℕ → ℕ → ℕ
memcmp mem cs ct zero = 0
memcmp mem cs ct (suc count) =
    let rest = memcmp mem (cs + 1) (ct + 1) count in
    if mem ct == mem cs then rest else sign (mem ct) (mem cs)

unfoldable pub memchr : Memory → ℕ → ℕ → ℕ → ℕ
memchr mem cs c zero = 0
memchr mem cs c (suc count) =
    let rest = memchr mem (cs + 1) c count in if mem cs == c then cs else rest
