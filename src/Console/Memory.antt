-- ===== src/Console/Memory.antt =====
-- What the string instructions of ver05/kernel/chr_drv/console.c write.
use linux_0_12_study.Base.{
  ap, arith, dec_lt, inl, refl, suc, zero, ℕ, ◌*◌, ◌+◌, ◌-◌, ◌<◌, ◌∙◌, ◌≡◌, ◌≤◌, ◌⊎◌,
}
use linux_0_12_study.Console.{put_cell, stosw, movsl}

pub stosw-outside :
    (n a v : ℕ) (ram : ℕ → ℕ) (i : ℕ) → (i < a) ⊎ (a + 2 * n ≤ i) → stosw n a v ram i ≡ ram i
unfolding stosw
stosw-outside zero a v ram i h = refl
stosw-outside (suc n) a v ram i h =
    stosw-outside n (a + 2) v (put_cell ram a v) i (ground arith) ∙ ground arith

pub stosw-inside : (n a v : ℕ) (ram : ℕ → ℕ) (k : ℕ) → k < n → stosw n a v ram (a + 2 * k) ≡ v
unfolding stosw
stosw-inside zero a v ram k h = absurd (omega arith)
stosw-inside (suc n) a v ram zero h =
    stosw-outside n (a + 2) v (put_cell ram a v) (a + 2 * 0) (ground arith) ∙ ground arith
stosw-inside (suc n) a v ram (suc k) h =
    ap (stosw n (a + 2) v (put_cell ram a v)) {x = a + 2 * suc k} {y = a + 2 + 2 * k} (omega arith)
    ∙ stosw-inside n (a + 2) v (put_cell ram a v) k (omega arith)

pub movsl-outside :
    (n to from : ℕ) (ram : ℕ → ℕ) (i : ℕ)
    → (i < to) ⊎ (to + 4 * n ≤ i)
    → movsl n to from ram i ≡ ram i
unfolding movsl
movsl-outside zero to from ram i h = refl
movsl-outside (suc n) to from ram i h =
    movsl-outside n (to + 4) (from + 4)
      (put_cell (put_cell ram to (ram from)) (to + 2) (ram (from + 2))) i (ground arith)
    ∙ ground arith

-- Upwards from a later address, so that nothing is read after it is written.
pub movsl-inside :
    (n to from : ℕ) (ram : ℕ → ℕ) (k : ℕ)
    → to + 4 ≤ from
    → k < 2 * n
    → movsl n to from ram (to + 2 * k) ≡ ram (from + 2 * k)
unfolding movsl
movsl-inside zero to from ram k u h = absurd (omega arith)
movsl-inside (suc n) to from ram k u h = elim (dec_lt k 2) [
  | yes small ↦
      movsl-outside n (to + 4) (from + 4)
        (put_cell (put_cell ram to (ram from)) (to + 2) (ram (from + 2))) (to + 2 * k)
        (inl (omega arith))
      ∙ grind arith
  | no large ↦
      let ram' = put_cell (put_cell ram to (ram from)) (to + 2) (ram (from + 2)) in
      ap (movsl n (to + 4) (from + 4) ram') {x = to + 2 * k} {y = to + 4 + 2 * (k - 2)}
        (omega arith)
      ∙ movsl-inside n (to + 4) (from + 4) ram' (k - 2) (omega arith) (omega arith)
      ∙ grind arith
]
