-- ===== src/Base/Pigeonhole.antt =====
-- Numbers below n, all different, are at most n many.
use linux_0_12_study.Base.Tests.{◌==◌, if◌then◌else◌}
use linux_0_12_study.Base.Lists.{length, has}
use Prim.Native.Nat.{ℕ, zero, suc, ◌≤◌, ◌<◌}
use mathlib.Core.Path.{◌≡◌, refl}
use mathlib.Core.Bool.{false}
use mathlib.Core.List.{List, [], ◌∷◌}
use native.Mathlib.Omega.{arith}

abbrev pub Distinct : List ℕ → Type 0
Distinct [] = Unit
Distinct (x ∷ xs) = (has x xs ≡ false) × Distinct xs

abbrev pub AllBelow : ℕ → List ℕ → Type 0
AllBelow n [] = Unit
AllBelow n (x ∷ xs) = (x < n) × AllBelow n xs

without : ℕ → List ℕ → List ℕ
without a [] = []
without a (x ∷ xs) = if a == x then xs else x ∷ without a xs

has-without : (a b : ℕ) (xs : List ℕ) → has b xs ≡ false → has b (without a xs) ≡ false
unfolding without
has-without a b [] h = refl
has-without a b (x ∷ xs) h = ground (arith, has-without a b xs)

Distinct-without : (a : ℕ) (xs : List ℕ) → Distinct xs → Distinct (without a xs)
unfolding without
Distinct-without a [] d = tt
Distinct-without a (x ∷ xs) d = ground (arith, Distinct-without a xs d.1, has-without a x xs)

not-has-without : (a : ℕ) (xs : List ℕ) → Distinct xs → has a (without a xs) ≡ false
unfolding without
not-has-without a [] d = refl
not-has-without a (x ∷ xs) d = ground (arith, not-has-without a xs d.1)

length-without : (a : ℕ) (xs : List ℕ) → length xs ≤ suc (length (without a xs))
unfolding without
length-without a [] = omega arith
length-without a (x ∷ xs) = ground (arith, length-without a xs)

AllBelow-without : (a n : ℕ) (xs : List ℕ) → AllBelow n xs → AllBelow n (without a xs)
unfolding without
AllBelow-without a n [] h = tt
AllBelow-without a n (x ∷ xs) h = ground (arith, AllBelow-without a n xs h.1)

AllBelow-pred : (n : ℕ) (xs : List ℕ) → AllBelow (suc n) xs → has n xs ≡ false → AllBelow n xs
AllBelow-pred n [] h o = tt
AllBelow-pred n (x ∷ xs) h o = ground (arith, AllBelow-pred n xs h.1)

pub pigeonhole : (n : ℕ) (xs : List ℕ) → Distinct xs → AllBelow n xs → length xs ≤ n
pigeonhole zero [] d b = omega arith
pigeonhole zero (x ∷ xs) d b = absurd (omega arith)
pigeonhole (suc n) xs d b =
    let ih =
      pigeonhole n (without n xs) (Distinct-without n xs d) (
        AllBelow-pred n (without n xs) (AllBelow-without n (suc n) xs b)
          (not-has-without n xs d)) in
    omega (arith, ih, length-without n xs)
