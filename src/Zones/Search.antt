-- ===== src/Zones/Search.antt =====
-- The search for a bit that is clear, of ver05/fs/bitmap.c.
use linux_0_12_study.Base.{
  Bool, Bool-cases, Option, ap, arith, false, if◌then◌else◌, inl, inr, le→ltb_false, lt→ltb, map,
  none, refl, some, subst, suc, sym, true, zero, ℕ, ℕ_discrete, ◌+◌, ◌-◌, ◌<◌, ◌≡◌, ◌≤◌, ◌⊎◌,
}
use linux_0_12_study.Zones.{Map, zero_from, find_first_zero, zero_in, zero_block}

-- Bit j of block i; a block that is not there has no bit to give.
abbrev pub bit_in : Option Map → ℕ → Bool
bit_in none j = true
bit_in (some m) j = m.bit_of j

abbrev FirstZero : ℕ → Map → ℕ → Type 0
FirstZero n m k =
    ((k ≡ 8192) × ((j : ℕ) → 8192 ≤ j + n → j < 8192 → m.bit_of j ≡ true))
    ⊎ ((k < 8192) × (m.bit_of k ≡ false))

FirstZero-suc :
    (n k : ℕ) (m : Map)
    → n < 8192
    → m.bit_of (8192 - suc n) ≡ true
    → FirstZero n m k
    → FirstZero (suc n) m k
FirstZero-suc n k m l b (inl (e, h)) = inl (
  e,
  λ j p q. elim (ℕ_discrete (8192 - suc n) j) [
    | yes s ↦ subst (λ i. m.bit_of i ≡ true) s b
    | no s ↦ h j (omega arith) q
  ],
)
FirstZero-suc n k m l b (inr h) = inr h

zero_from-FirstZero : (n : ℕ) (m : Map) → n ≤ 8192 → FirstZero n m (zero_from n m)
unfolding zero_from
zero_from-FirstZero zero m l = inl (refl, λ j p q. absurd (omega arith))
zero_from-FirstZero (suc n) m l =
    let k = 8192 - suc n in
    let rest = zero_from n m in
    elim (Bool-cases (m.bit_of k)) [
      | inl b ↦
          subst (λ x. FirstZero (suc n) m x) (sym (ap (λ t. if t then rest else k) b))
            (FirstZero-suc n rest m (omega arith) b (zero_from-FirstZero n m (omega arith)))
      | inr b ↦
          subst (λ x. FirstZero (suc n) m x) (sym (ap (λ t. if t then rest else k) b))
            (inr (omega arith, b))
    ]

-- Block i has a clear bit j, or no block has any among the last n.
abbrev FreeBit : ℕ → (ℕ → Option Map) → Option (ℕ × ℕ) → Type 0
FreeBit n map none = (i j : ℕ) → 8 ≤ i + n → i < 8 → j < 8192 → bit_in (map i) j ≡ true
FreeBit n map (some (i, j)) = (i < 8) × (j < 8192) × (bit_in (map i) j ≡ false)

zero_in-bit :
    (o : Option Map)
    → ((zero_in o ≡ 8192) × ((j : ℕ) → j < 8192 → bit_in o j ≡ true))
      ⊎ ((zero_in o < 8192) × (bit_in o (zero_in o) ≡ false))
unfolding find_first_zero
zero_in-bit none = inl (refl, λ j h. refl)
zero_in-bit (some m) = elim (zero_from-FirstZero 8192 m (omega arith)) [
  | inl (e, h) ↦ inl (e, λ j l. h j (omega arith) l)
  | inr h ↦ inr h
]

FreeBit-suc :
    (n : ℕ) (map : ℕ → Option Map) (r : Option (ℕ × ℕ))
    → n < 8
    → ((j : ℕ) → j < 8192 → bit_in (map (8 - suc n)) j ≡ true)
    → FreeBit n map r
    → FreeBit (suc n) map r
FreeBit-suc n map none l b h = λ i j p q s. elim (ℕ_discrete (8 - suc n) i) [
  | yes e ↦ subst (λ x. bit_in (map x) j ≡ true) e (b j s)
  | no e ↦ h i j (omega arith) q s
]
FreeBit-suc n map (some (i, j)) l b h = h

zero_block-FreeBit : (n : ℕ) (map : ℕ → Option Map) → n ≤ 8 → FreeBit n map (zero_block n map)
unfolding zero_block
zero_block-FreeBit zero map l = λ i j p q s. absurd (omega arith)
zero_block-FreeBit (suc n) map l =
    let i = 8 - suc n in
    let rest = zero_block n map in
    let j = zero_in (map i) in
    elim (zero_in-bit (map i)) [
      | inl (e, h) ↦
          subst (λ x. FreeBit (suc n) map x)
            (sym (ap (λ t. if t then some (i, j) else rest) (le→ltb_false 8192 j (omega arith))))
            (FreeBit-suc n map rest (omega arith) h (zero_block-FreeBit n map (omega arith)))
      | inr (e, h) ↦
          subst (λ x. FreeBit (suc n) map x)
            (sym (ap (λ t. if t then some (i, j) else rest) (lt→ltb j 8192 e))) (omega arith, e, h)
    ]

zero_block-cases :
    (map : ℕ → Option Map) (r : Option (ℕ × ℕ))
    → FreeBit 8 map r
    → ((r ≡ none) × ((i j : ℕ) → i < 8 → j < 8192 → bit_in (map i) j ≡ true))
      ⊎ ((i : ℕ) × (j : ℕ) × (r ≡ some (i, j)) × (i < 8) × (j < 8192) × (bit_in (map i) j ≡ false))
zero_block-cases map none h = inl (refl, λ i j p q. h i j (omega arith) p q)
zero_block-cases map (some (i, j)) (a, b, c) = inr (i, j, refl, a, b, c)

-- What the loop over the eight blocks of a map finds is a bit that is clear, in a block that is there;
-- when it finds none, all bits of all blocks are set.
pub zero_block-lem :
    (map : ℕ → Option Map)
    → ((zero_block 8 map ≡ none) × ((i j : ℕ) → i < 8 → j < 8192 → bit_in (map i) j ≡ true))
      ⊎ ((i : ℕ) × (j : ℕ) × (zero_block 8 map ≡ some (i, j))
          × (i < 8)
          × (j < 8192)
          × (bit_in (map i) j ≡ false))
zero_block-lem map =
    zero_block-cases map (zero_block 8 map) (zero_block-FreeBit 8 map (omega arith))

pub zero_block-at :
    (map : ℕ → Option Map) (i j : ℕ)
    → zero_block 8 map ≡ some (i, j)
    → (i < 8) × (j < 8192) × (bit_in (map i) j ≡ false)
zero_block-at map i j e = subst (λ r. FreeBit 8 map r) e (zero_block-FreeBit 8 map (omega arith))
