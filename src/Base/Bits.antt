-- ===== src/Base/Bits.antt =====
-- Bits of a machine word by the digit recursion: `1 << k` as a mask of one bit, and `&`, `|`, `& ~`
-- of words of `w` bits.
use Prim.Native.Nat.{ℕ, zero, suc, ◌+◌, ◌-◌, ◌*◌, ◌/◌, ◌%◌, ◌^◌, ◌≤◌, ◌<◌, min, max}
use mathlib.Core.Path.{◌≡◌, refl, ap, ◌∙◌}
use mathlib.Core.Logic.{◌≢◌}
use native.Mathlib.Nat.{pow-suc}
use native.Mathlib.Omega.{arith}

-- (x >> k) & 1
unfoldable pub bit : ℕ → ℕ → ℕ
bit x zero = x % 2
bit x (suc k) = bit (x / 2) k

-- x | (1 << k)
unfoldable pub set_bit : ℕ → ℕ → ℕ
set_bit x zero = x / 2 * 2 + 1
set_bit x (suc k) = set_bit (x / 2) k * 2 + x % 2

-- x & ~(1 << k)
unfoldable pub clear_bit : ℕ → ℕ → ℕ
clear_bit x zero = x / 2 * 2
clear_bit x (suc k) = clear_bit (x / 2) k * 2 + x % 2

-- a & b, a | b and a & ~b of words of `w` bits
unfoldable pub bit_and : ℕ → ℕ → ℕ → ℕ
bit_and zero a b = 0
bit_and (suc w) a b = bit_and w (a / 2) (b / 2) * 2 + min (a % 2) (b % 2)

pub bit_or : ℕ → ℕ → ℕ → ℕ
bit_or zero a b = 0
bit_or (suc w) a b = bit_or w (a / 2) (b / 2) * 2 + max (a % 2) (b % 2)

unfoldable pub bit_and_not : ℕ → ℕ → ℕ → ℕ
bit_and_not zero a b = 0
bit_and_not (suc w) a b = bit_and_not w (a / 2) (b / 2) * 2 + (a % 2 - b % 2)

pub bit-le_one : (x k : ℕ) → bit x k ≤ 1
unfolding bit
bit-le_one x zero = omega arith
bit-le_one x (suc k) = bit-le_one (x / 2) k

-- Read a bit through a digit appended below.
bit-double : (q d k : ℕ) → d < 2 → bit (q * 2 + d) (suc k) ≡ bit q k
unfolding bit
bit-double q d k h = ap (λ n. bit n k) (omega arith)

bit-digit : (q d : ℕ) → d < 2 → bit (q * 2 + d) 0 ≡ d
unfolding bit
bit-digit q d h = omega arith

pub bit-set_bit_self : (x k : ℕ) → bit (set_bit x k) k ≡ 1
unfolding bit set_bit
bit-set_bit_self x zero = omega arith
bit-set_bit_self x (suc k) =
    bit-double (set_bit (x / 2) k) (x % 2) k (omega arith) ∙ bit-set_bit_self (x / 2) k

pub bit-set_bit_ne : (x k j : ℕ) → k ≢ j → bit (set_bit x k) j ≡ bit x j
unfolding bit set_bit
bit-set_bit_ne x zero zero h = absurd (h refl)
bit-set_bit_ne x zero (suc j) h = ap (λ n. bit n j) (omega arith)
bit-set_bit_ne x (suc k) zero h = omega arith
bit-set_bit_ne x (suc k) (suc j) h =
    bit-double (set_bit (x / 2) k) (x % 2) j (omega arith)
    ∙ bit-set_bit_ne (x / 2) k j (λ e. h (ap suc e))

pub bit-clear_bit_self : (x k : ℕ) → bit (clear_bit x k) k ≡ 0
unfolding bit clear_bit
bit-clear_bit_self x zero = omega arith
bit-clear_bit_self x (suc k) =
    bit-double (clear_bit (x / 2) k) (x % 2) k (omega arith) ∙ bit-clear_bit_self (x / 2) k

pub bit-clear_bit_ne : (x k j : ℕ) → k ≢ j → bit (clear_bit x k) j ≡ bit x j
unfolding bit clear_bit
bit-clear_bit_ne x zero zero h = absurd (h refl)
bit-clear_bit_ne x zero (suc j) h = ap (λ n. bit n j) (omega arith)
bit-clear_bit_ne x (suc k) zero h = omega arith
bit-clear_bit_ne x (suc k) (suc j) h =
    bit-double (clear_bit (x / 2) k) (x % 2) j (omega arith)
    ∙ bit-clear_bit_ne (x / 2) k j (λ e. h (ap suc e))

pub set_bit-lt : (w x k : ℕ) → x < 2 ^ w → k < w → set_bit x k < 2 ^ w
unfolding set_bit
set_bit-lt zero x k h l = absurd (omega arith)
set_bit-lt (suc w) x zero h l = omega (arith, pow-suc 2 w)
set_bit-lt (suc w) x (suc k) h l =
    omega (arith, pow-suc 2 w, set_bit-lt w (x / 2) k (omega (arith, pow-suc 2 w)) (omega arith))

pub clear_bit-le : (x k : ℕ) → clear_bit x k ≤ x
unfolding clear_bit
clear_bit-le x zero = omega arith
clear_bit-le x (suc k) = omega (arith, clear_bit-le (x / 2) k)

pub bit-bit_and : (w a b k : ℕ) → k < w → bit (bit_and w a b) k ≡ min (bit a k) (bit b k)
unfolding bit bit_and
bit-bit_and zero a b k h = absurd (omega arith)
bit-bit_and (suc w) a b zero h = omega arith
bit-bit_and (suc w) a b (suc k) h =
    bit-double (bit_and w (a / 2) (b / 2)) (min (a % 2) (b % 2)) k (omega arith)
    ∙ bit-bit_and w (a / 2) (b / 2) k (omega arith)

pub bit-bit_or : (w a b k : ℕ) → k < w → bit (bit_or w a b) k ≡ max (bit a k) (bit b k)
unfolding bit bit_or
bit-bit_or zero a b k h = absurd (omega arith)
bit-bit_or (suc w) a b zero h = omega arith
bit-bit_or (suc w) a b (suc k) h =
    bit-double (bit_or w (a / 2) (b / 2)) (max (a % 2) (b % 2)) k (omega arith)
    ∙ bit-bit_or w (a / 2) (b / 2) k (omega arith)

pub bit-bit_and_not : (w a b k : ℕ) → k < w → bit (bit_and_not w a b) k ≡ bit a k - bit b k
unfolding bit bit_and_not
bit-bit_and_not zero a b k h = absurd (omega arith)
bit-bit_and_not (suc w) a b zero h = omega arith
bit-bit_and_not (suc w) a b (suc k) h =
    bit-double (bit_and_not w (a / 2) (b / 2)) (a % 2 - b % 2) k (omega arith)
    ∙ bit-bit_and_not w (a / 2) (b / 2) k (omega arith)

-- Words with the same `w` bits are the same number.
pub eq_of_bits : (w a b : ℕ) → a < 2 ^ w → b < 2 ^ w → ((k : ℕ) → k < w → bit a k ≡ bit b k) → a ≡ b
unfolding bit
eq_of_bits zero a b p q h = omega arith
eq_of_bits (suc w) a b p q h = omega (
  arith,
  h 0 (omega arith),
  eq_of_bits w (a / 2) (b / 2) (omega (arith, pow-suc 2 w)) (omega (arith, pow-suc 2 w))
      (λ k l. h (suc k) (omega arith)),
)
