-- ===== src/Strings/Text.antt =====
-- What the routines on strings do for the strings they are given.
use linux_0_12_study.Base.{
  List, [], ap, arith, eq→==, false, get_or, if◌then◌else◌, length, ne→==_false, refl, some, subst,
  suc, true, zero, ℕ, ℕ_discrete, ◌!=◌, ◌++◌, ◌+◌, ◌<◌, ◌==◌, ◌↔◌, ◌∙◌, ◌∷◌, ◌≡◌, ◌≢◌, ◌≤◌, ◌⊎◌,
}
use linux_0_12_study.Strings.{Memory, put_byte, find_zero, strlen, strcpy, strcat, strcmp, sign}

-- At s stands the string xs: nonzero bytes, and a zero byte after them.
abbrev pub Text : Memory → ℕ → List ℕ → Type 0
Text mem s [] = mem s ≡ 0
Text mem s (x ∷ xs) = (mem s ≡ x) × (0 < x) × (x < 256) × Text mem (s + 1) xs

pub find_zero-Text :
    (fuel : ℕ) (mem : Memory) (s : ℕ) (xs : List ℕ)
    → Text mem s xs
    → length xs < fuel
    → find_zero fuel mem s ≡ some (s + length xs)
unfolding find_zero
find_zero-Text zero mem s xs t h = absurd (omega arith)
find_zero-Text (suc fuel) mem s [] t h = rw (eq→== (mem s) 0 t) (ap some (omega arith))
find_zero-Text (suc fuel) mem s (x ∷ xs) (e, p, b, t) h =
    rw (ne→==_false (mem s) 0 (omega arith))
      (find_zero-Text fuel mem (s + 1) xs t (omega arith) ∙ ap some (omega arith))

-- `strlen` of a string is its length, given more rounds than that.
pub strlen-Text :
    (fuel : ℕ) (mem : Memory) (s : ℕ) (xs : List ℕ)
    → Text mem s xs
    → length xs < fuel
    → strlen fuel mem s ≡ some (length xs)
unfolding strlen
strlen-Text fuel mem s xs t h = rw (find_zero-Text fuel mem s xs t h) (ap some (omega arith))

pub Text-frame :
    (mem mem' : Memory) (s : ℕ) (xs : List ℕ)
    → ((x : ℕ) → s ≤ x → x ≤ s + length xs → mem' x ≡ mem x)
    → Text mem s xs
    → Text mem' s xs
Text-frame mem mem' s [] h t = h s (omega arith) (omega arith) ∙ t
Text-frame mem mem' s (x ∷ xs) h (e, p, b, t) = (
  h s (omega arith) (omega arith) ∙ e,
  p,
  b,
  Text-frame mem mem' (s + 1) xs (λ y l u. h y (omega arith) (omega arith)) t,
)

-- The room of n bytes at a and the string of n bytes and its end at b do not meet.
abbrev pub Clear : ℕ → ℕ → ℕ → Type 0
Clear n a b = (a + n < b) ⊎ (b + n < a)

-- What `strcpy` has done.
pub record IsCopy (mem : Memory) (dest : ℕ) (xs : List ℕ) (mem' : Memory) : Type 0 where
  pub text : Text mem' dest xs
  pub elsewhere : (x : ℕ) → (x < dest) ⊎ (dest + length xs < x) → mem' x ≡ mem x

-- Given room that the string does not meet and more rounds than its length, `strcpy` copies the string
-- and changes nothing else.
pub strcpy-IsCopy :
    (fuel : ℕ) (mem : Memory) (dest src : ℕ) (xs : List ℕ)
    → Text mem src xs
    → Clear (length xs) dest src
    → length xs < fuel
    → (mem' : Memory) × (strcpy fuel mem dest src ≡ some mem') × IsCopy mem dest xs mem'
unfolding strcpy
strcpy-IsCopy zero mem dest src xs t c h = absurd (omega arith)
strcpy-IsCopy (suc fuel) mem dest src [] t c h = (
  put_byte mem dest (mem src),
  rw (eq→== (mem src) 0 t) refl,
  record { text = ground (arith, t); elsewhere = λ x o. ground arith },
)
strcpy-IsCopy (suc fuel) mem dest src (x ∷ xs) (e, p, b, t) c h =
    let mem₁ = put_byte mem dest (mem src) in
    let t₁ : Text mem₁ (src + 1) xs = Text-frame mem mem₁ (src + 1) xs (λ y l u. ground arith) t in
    let (mem', run, i) =
      strcpy-IsCopy fuel mem₁ (dest + 1) (src + 1) xs t₁ (omega arith) (omega arith) in
    (
      mem',
      rw (ne→==_false (mem src) 0 (omega arith)) run,
      record {
        text = (i.elsewhere dest (omega arith) ∙ ground (arith, e), p, b, i.text);
        elsewhere = λ y o. i.elsewhere y (omega arith) ∙ ground arith;
      },
    )

Text-append :
    (mem : Memory) (s : ℕ) (xs ys : List ℕ)
    → Text mem (s + length xs) ys
    → ((i : ℕ)
        → i < length xs
        → (mem (s + i) ≡ get_or xs i 0) × (0 < get_or xs i 0) × (get_or xs i 0 < 256))
    → Text mem s (xs ++ ys)
Text-append mem s [] ys t h = subst (λ a. Text mem a ys) (omega arith) t
Text-append mem s (x ∷ xs) ys t h =
    let z = h 0 (omega arith) in
    (
      ap mem (omega arith) ∙ z.0,
      z.1,
      z.2,
      Text-append mem (s + 1) xs ys (subst (λ a. Text mem a ys) (omega arith) t)
          (λ i l. let r = h (suc i) (omega arith) in (ap mem (omega arith) ∙ r.0, r.1, r.2)),
    )

Text-at :
    (mem : Memory) (s : ℕ) (xs : List ℕ)
    → Text mem s xs
    → (i : ℕ) → i < length xs
    → (mem (s + i) ≡ get_or xs i 0) × (0 < get_or xs i 0) × (get_or xs i 0 < 256)
Text-at mem s [] t i h = absurd (omega arith)
Text-at mem s (x ∷ xs) (e, p, b, t) zero h = (ap mem (omega arith) ∙ e, p, b)
Text-at mem s (x ∷ xs) (e, p, b, t) (suc i) h =
    let r = Text-at mem (s + 1) xs t i (omega arith) in (ap mem (omega arith) ∙ r.0, r.1, r.2)

-- If the room behind the first string does not meet the second one, `strcat` appends the second
-- string to the first and changes nothing else, given more rounds than either length.
pub strcat-IsCopy :
    (fuel : ℕ) (mem : Memory) (dest src : ℕ) (xs ys : List ℕ)
    → Text mem dest xs
    → Text mem src ys
    → Clear (length ys) (dest + length xs) src
    → length xs < fuel
    → length ys < fuel
    → (mem' : Memory) × (strcat fuel mem dest src ≡ some mem')
      × Text mem' dest (xs ++ ys)
      × ((x : ℕ) → (x < dest + length xs) ⊎ (dest + length xs + length ys < x) → mem' x ≡ mem x)
unfolding strcat
strcat-IsCopy fuel mem dest src xs ys t u c h k =
    let (mem', run, i) = strcpy-IsCopy fuel mem (dest + length xs) src ys u c k in
    (
      mem',
      rw (find_zero-Text fuel mem dest xs t h, strcat) run,
      Text-append mem' dest xs ys i.text (λ j l.
          let r = Text-at mem dest xs t j l in
          (i.elsewhere (dest + j) (omega arith) ∙ r.0, r.1, r.2)),
      i.elsewhere,
    )

sign-ne : (a b : ℕ) → sign a b ≢ 0
unfolding sign
sign-ne a b e = ground arith

strcmp-differ :
    (fuel : ℕ) (mem : Memory) (cs ct : ℕ)
    → mem ct ≢ mem cs
    → strcmp (suc fuel) mem cs ct ≡ some (sign (mem ct) (mem cs))
unfolding strcmp
strcmp-differ fuel mem cs ct ne = let d : (mem ct != mem cs) ≡ true = ground arith in rw d refl

strcmp-same :
    (fuel : ℕ) (mem : Memory) (cs ct : ℕ)
    → mem ct ≡ mem cs
    → strcmp (suc fuel) mem cs ct
      ≡ (if mem ct == 0 then some 0 else strcmp fuel mem (cs + 1) (ct + 1))
unfolding strcmp
strcmp-same fuel mem cs ct e = let d : (mem ct != mem cs) ≡ false = ground arith in rw d refl

-- `strcmp` of two strings is 0 exactly if they are the same, given more rounds than the first is long.
pub strcmp-eq :
    (fuel : ℕ) (mem : Memory) (cs ct : ℕ) (xs ys : List ℕ)
    → Text mem cs xs
    → Text mem ct ys
    → length xs < fuel
    → (r : ℕ) × (strcmp fuel mem cs ct ≡ some r) × ((r ≡ 0) ↔ (xs ≡ ys))
strcmp-eq zero mem cs ct xs ys t u h = absurd (omega arith)
strcmp-eq (suc fuel) mem cs ct [] [] t u h = (
  0,
  strcmp-same fuel mem cs ct (omega arith) ∙ rw (eq→== (mem ct) 0 u) refl,
  ((λ e. refl), (λ e. refl)),
)
strcmp-eq (suc fuel) mem cs ct [] (y ∷ ys) t u h = (
  sign (mem ct) (mem cs),
  strcmp-differ fuel mem cs ct (omega arith),
  ((λ e. absurd (sign-ne _ _ e)), (λ e. absurd (cc))),
)
strcmp-eq (suc fuel) mem cs ct (x ∷ xs) [] t u h = (
  sign (mem ct) (mem cs),
  strcmp-differ fuel mem cs ct (omega arith),
  ((λ e. absurd (sign-ne _ _ e)), (λ e. absurd (cc))),
)
strcmp-eq (suc fuel) mem cs ct (x ∷ xs) (y ∷ ys) (e, p, b, t) (f, q, d, u) h =
    elim (ℕ_discrete x y) [
      | no ne ↦ (
        sign (mem ct) (mem cs),
        strcmp-differ fuel mem cs ct (omega arith),
        ((λ z. absurd (sign-ne _ _ z)), (λ z. absurd (ne (ap (λ l. get_or l 0 0) z)))),
      )
      | yes same ↦
          let (r, run, i) = strcmp-eq fuel mem (cs + 1) (ct + 1) xs ys t u (omega arith) in
          (
            r,
            strcmp-same fuel mem cs ct (omega arith)
                ∙ rw (ne→==_false (mem ct) 0 (omega arith)) run,
            ((λ z. cc (i.0 z)), (λ z. i.1 (cc))),
          )
    ]
