-- ===== src/Zones/First.antt =====
-- The bit that the search of ver05/fs/bitmap.c finds is the first one that is clear.
use linux_0_12_study.Base.{
  Bool-cases, Option, ap, arith, if◌then◌else◌, inl, inr, ltb, map, none, refl, some, subst, suc,
  sym, true, zero, ℕ, ℕ_discrete, ◌*◌, ◌+◌, ◌-◌, ◌<◌, ◌≡◌, ◌≤◌,
}
use linux_0_12_study.Zones.{Map, zero_from, find_first_zero, zero_in, zero_block}
use linux_0_12_study.Zones.Search.{bit_in}

zero_from-first :
    (n : ℕ) (m : Map) (j : ℕ)
    → n ≤ 8192
    → 8192 ≤ j + n
    → j < 8192
    → j < zero_from n m
    → m.bit_of j ≡ true
unfolding zero_from
zero_from-first zero m j l a b c = absurd (omega arith)
zero_from-first (suc n) m j l a b c = elim (Bool-cases (m.bit_of (8192 - suc n))) [
  | inl s ↦ elim (ℕ_discrete (8192 - suc n) j) [
    | yes e ↦ subst (λ x. m.bit_of x ≡ true) e s
    | no e ↦
        zero_from-first n m j (omega arith) (omega arith) b
          (subst (λ k. j < k) (let q : zero_from (suc n) m ≡ zero_from n m = rw s refl in q) c)
  ]
  | inr s ↦
      let q : zero_from (suc n) m ≡ 8192 - suc n = rw s refl in
      absurd (omega (arith, subst (λ k. j < k) q c))
]

zero_in-first : (o : Option Map) (j : ℕ) → j < 8192 → j < zero_in o → bit_in o j ≡ true
unfolding find_first_zero
zero_in-first none j a b = refl
zero_in-first (some m) j a b = zero_from-first 8192 m j (omega arith) (omega arith) a b

-- Each bit in front of the one that is found is set.
abbrev IsFirst : (ℕ → Option Map) → Option (ℕ × ℕ) → ℕ → Type 0
IsFirst map none n = Unit {0}
IsFirst map (some (i, j)) n =
    (x y : ℕ) → 8 ≤ x + n → y < 8192 → x * 8192 + y < i * 8192 + j → bit_in (map x) y ≡ true

IsFirst-suc :
    (n : ℕ) (map : ℕ → Option Map) (r : Option (ℕ × ℕ))
    → n < 8
    → ((y : ℕ) → y < 8192 → bit_in (map (8 - suc n)) y ≡ true)
    → IsFirst map r n
    → IsFirst map r (suc n)
IsFirst-suc n map none l all h = tt
IsFirst-suc n map (some (i, j)) l all h = λ x y a b c. elim (ℕ_discrete (8 - suc n) x) [
  | yes e ↦ subst (λ z. bit_in (map z) y ≡ true) e (all y b)
  | no e ↦ h x y (omega arith) b c
]

found-IsFirst :
    (n : ℕ) (map : ℕ → Option Map)
    → n < 8
    → zero_in (map (8 - suc n)) < 8192
    → IsFirst map (some (8 - suc n, zero_in (map (8 - suc n)))) (suc n)
found-IsFirst n map l less x y a b c =
    let same : 8 - suc n ≡ x = omega arith in
    subst (λ z. bit_in (map z) y ≡ true) same (zero_in-first (map (8 - suc n)) y b (omega arith))

zero_block-IsFirst : (n : ℕ) (map : ℕ → Option Map) → n ≤ 8 → IsFirst map (zero_block n map) n
unfolding zero_block
zero_block-IsFirst zero map l = tt
zero_block-IsFirst (suc n) map l =
    let i = 8 - suc n in
    let j = zero_in (map i) in
    let rest = zero_block n map in
    elim (Bool-cases (ltb j 8192)) [
      | inl e ↦
          subst (λ r. IsFirst map r (suc n)) (sym (ap (λ t. if t then some (i, j) else rest) e))
            (found-IsFirst n map (omega arith) (ground (arith, e)))
      | inr e ↦
          subst (λ r. IsFirst map r (suc n)) (sym (ap (λ t. if t then some (i, j) else rest) e))
            (IsFirst-suc n map rest (omega arith)
              (λ y b. zero_in-first (map i) y b (ground (arith, e)))
              (zero_block-IsFirst n map (omega arith)))
    ]

-- All bits in front of the one that the search finds are set.
pub zero_block-first :
    (map : ℕ → Option Map) (i j x y : ℕ)
    → zero_block 8 map ≡ some (i, j)
    → y < 8192
    → x * 8192 + y < i * 8192 + j
    → bit_in (map x) y ≡ true
zero_block-first map i j x y e b c =
    subst (λ r. IsFirst map r 8) e (zero_block-IsFirst 8 map (omega arith)) x y (omega arith) b c
