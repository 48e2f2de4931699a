-- ===== src/Sched/Wake.antt =====
-- The first loop of `schedule`: when a task that waits is made ready.
use linux_0_12_study.Base.{
  Bool-cases, ap, arith, false, if◌then◌else◌, inl, inr, ltb, min, refl, suc, true, zero, ℕ,
  ℕ_discrete, ◌!=◌, ◌%◌, ◌&&◌, ◌-◌, ◌/◌, ◌<◌, ◌==◌, ◌^◌, ◌||◌, ◌↔◌, ◌∙◌, ◌≡◌, ◌≢◌, ◌⊎◌,
}
use native.Mathlib.Nat.{pow-suc}
use linux_0_12_study.Base.Bits.{
  bit, bit_and, bit_and_not, clear_bit, bit-le_one, bit-bit_and, bit-bit_and_not,
  bit-clear_bit_self, bit-clear_bit_ne,
}
use linux_0_12_study.Task.{Task, task_running, task_interruptible}
use linux_0_12_study.Sched.{
  blockable, has_signal, check_timeout, check_alarm, check_signal, check_task,
}

two_pow-pos : (w : ℕ) → 0 < 2 ^ w
two_pow-pos zero = omega arith
two_pow-pos (suc w) = omega (arith, two_pow-pos w, pow-suc 2 w)

bit-ones : (w k : ℕ) → k < w → bit (2 ^ w - 1) k ≡ 1
unfolding bit
bit-ones zero k h = absurd (omega arith)
bit-ones (suc w) zero h = omega (arith, pow-suc 2 w, two_pow-pos w)
bit-ones (suc w) (suc k) h =
    ap (λ n. bit n k) (omega (arith, pow-suc 2 w, two_pow-pos w)) ∙ bit-ones w k (omega arith)

-- SIGKILL and SIGSTOP, and no other signal, pass any mask.
bit-blockable : (k : ℕ) → k < 32 → bit blockable k ≡ (if (k == 8) || (k == 18) then 0 else 1)
bit-blockable k h = ground (
  arith,
  bit-clear_bit_self 0xffffffff 8,
  bit-clear_bit_self (clear_bit 0xffffffff 8) 18,
  bit-clear_bit_ne 0xffffffff 8 k,
  bit-clear_bit_ne (clear_bit 0xffffffff 8) 18 k,
  bit-ones 32 k h,
)

-- The signal k + 1 waits, and the task does not block it or cannot.
abbrev pub Pending : Task → ℕ → Type 0
Pending t k = (k < 32) × (bit t.signal k ≡ 1) × ((k ≡ 8) ⊎ (k ≡ 18) ⊎ (bit t.blocked k ≡ 0))

bit-pending :
    (t : Task) (k : ℕ)
    → k < 32
    → bit (bit_and_not 32 t.signal (bit_and 32 blockable t.blocked)) k
      ≡ bit t.signal k - min (if (k == 8) || (k == 18) then 0 else 1) (bit t.blocked k)
bit-pending t k h = omega (
  arith,
  bit-bit_and_not 32 t.signal (bit_and 32 blockable t.blocked) k h,
  bit-bit_and 32 blockable t.blocked k h,
  bit-blockable k h,
)

bit-zero : (k : ℕ) → bit 0 k ≡ 0
unfolding bit
bit-zero zero = refl
bit-zero (suc k) = bit-zero k

has_signal-of_Pending : (t : Task) (k : ℕ) → Pending t k → has_signal t ≡ true
unfolding has_signal
has_signal-of_Pending t k p =
    let m = bit_and_not 32 t.signal (bit_and 32 blockable t.blocked) in
    let one : bit m k ≡ 1 = ground (arith, p, bit-pending t k p.0, bit-le_one t.blocked k) in
    let ne : m ≢ 0 = λ z. absurd (omega (arith, one, ap (λ n. bit n k) z, bit-zero k)) in
    ground (arith, ne)

some_bit : (w m : ℕ) → m < 2 ^ w → m ≢ 0 → (k : ℕ) × (k < w) × (bit m k ≡ 1)
unfolding bit
some_bit zero m h ne = absurd (omega arith)
some_bit (suc w) m h ne = elim (ℕ_discrete (m % 2) 1) [
  | yes odd ↦ (0, omega arith, odd)
  | no even ↦
      let (k, l, e) = some_bit w (m / 2) (omega (arith, pow-suc 2 w)) (λ z. absurd (omega arith)) in
      (suc k, omega arith, e)
]

bit_and_not-lt : (w a b : ℕ) → bit_and_not w a b < 2 ^ w
unfolding bit_and_not
bit_and_not-lt zero a b = omega arith
bit_and_not-lt (suc w) a b = omega (arith, bit_and_not-lt w (a / 2) (b / 2), pow-suc 2 w)

Pending-of_has_signal : (t : Task) → has_signal t ≡ true → (k : ℕ) × Pending t k
unfolding has_signal
Pending-of_has_signal t h =
    let m = bit_and_not 32 t.signal (bit_and 32 blockable t.blocked) in
    let (k, l, e) =
      some_bit 32 m (bit_and_not-lt 32 t.signal (bit_and 32 blockable t.blocked))
        (λ z. ground (arith, h, z)) in
    let p = bit-pending t k l in
    let s = bit-le_one t.signal k in
    let b = bit-le_one t.blocked k in
    (
      k,
      (
        l,
        ground (arith, e, p, s),
        elim (ℕ_discrete k 8) [
          | yes e8 ↦ inl e8
          | no n8 ↦ elim (ℕ_discrete k 18) [
            | yes e18 ↦ inr (inl e18)
            | no n18 ↦ inr (inr (ground (arith, e, p, s, b)))
          ]
        ],
      ),
    )

check_alarm-state : (jiffies : ℕ) (t : Task) → (check_alarm jiffies t).state ≡ t.state
unfolding check_alarm
check_alarm-state jiffies t = ground arith

signalled :
    (t : Task)
    → has_signal t ≡ true
    → t.state ≡ task_interruptible
    → (check_signal t).state ≡ task_running
unfolding check_signal
signalled t h w = ground (arith, h, w)

unsignalled : (t : Task) → has_signal t ≡ false → (check_signal t).state ≡ t.state
unfolding check_signal
unsignalled t h = ground (arith, h)

running-kept : (t : Task) → t.state ≡ task_running → (check_signal t).state ≡ task_running
unfolding check_signal
running-kept t h = ground (arith, h)

in_time :
    (jiffies : ℕ) (t : Task)
    → ((t.timeout != 0) && ltb t.timeout jiffies) ≡ false
    → check_task jiffies t ≡ check_signal (check_alarm jiffies t)
unfolding check_task check_timeout
in_time jiffies t h = rw h refl

late_runs :
    (jiffies : ℕ) (t : Task)
    → ((t.timeout != 0) && ltb t.timeout jiffies) ≡ true
    → t.state ≡ task_interruptible
    → (check_task jiffies t).state ≡ task_running
unfolding check_task check_timeout
late_runs jiffies t h w = running-kept _ (check_alarm-state jiffies _ ∙ ground (arith, h, w))

-- A task that waits and can be interrupted is ready after the first loop exactly if its time limit
-- has passed, or if a signal waits for it, the alarm of this moment included, that it does not block
-- or that cannot be blocked.
pub check_task-running :
    (jiffies : ℕ) (t : Task)
    → t.state ≡ task_interruptible
    → ((check_task jiffies t).state ≡ task_running)
      ↔ (((0 < t.timeout) × (t.timeout < jiffies)) ⊎ ((k : ℕ) × Pending (check_alarm jiffies t) k))
check_task-running jiffies t w = elim (Bool-cases ((t.timeout != 0) && ltb t.timeout jiffies)) [
  | inl late ↦ ((λ e. inl (ground (arith, late))), (λ h. late_runs jiffies t late w))
  | inr early ↦
      let run = in_time jiffies t early in
      elim (Bool-cases (has_signal (check_alarm jiffies t))) [
        | inl some_signal ↦ (
          (λ e. inr (Pending-of_has_signal (check_alarm jiffies t) some_signal)),
          (λ h.
              rw run
                (signalled (check_alarm jiffies t) some_signal (check_alarm-state jiffies t ∙ w))),
        )
        | inr no_signal ↦ (
          (λ e.
              let same : (check_task jiffies t).state ≡ task_interruptible =
                ap Task.state run
                ∙ unsignalled (check_alarm jiffies t) no_signal
                ∙ check_alarm-state jiffies t
                ∙ w in
              absurd (omega (arith, e, same))),
          (λ h. elim h [
            | inl l ↦ absurd (ground (arith, l, early))
            | inr (k, p) ↦
                absurd (cc (has_signal-of_Pending (check_alarm jiffies t) k p, no_signal))
          ]),
        )
      ]
]
