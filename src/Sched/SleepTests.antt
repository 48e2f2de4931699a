-- ===== src/Sched/SleepTests.antt =====
-- Two tasks on a wait queue of ver05/kernel/sched.c.
use linux_0_12_study.Base.{
  List, Option, ap, arith, if◌then◌else◌, inl, is_some, length, ne→==_false, none, refl, some,
  subst, sym, true, ℕ, ℕ_discrete, ◌*◌, ◌<◌, ◌==◌, ◌^◌, ◌∙◌, ◌≡◌, ◌≢◌, ◌≤◌,
}
use linux_0_12_study.Base.Bits.{bit_and, bit_and_not, clear_bit}
use linux_0_12_study.Task.Samples.{sample}
use linux_0_12_study.Task.{Task, Kernel}
use linux_0_12_study.Sched.{
  schedule, choose, pick, better, each_task, recharge, check_task, check_timeout, check_alarm,
  check_signal, has_signal, bit_and, bit_and_not,
}
use linux_0_12_study.Sched.Choice.{Priorities}
use linux_0_12_study.Sched.Sleep.{
  Waiting, begin_sleep, queued, go_on, go_on_from, woken, with_kernel, sleeps, other, Reach, here,
  next,
}
use linux_0_12_study.Sched.Queue.{IsQueue, Reach-linked}
use linux_0_12_study.Sched.Calm.{Calm}
use linux_0_12_study.Sched.Drain.{Drain, done, turn, besides}
use linux_0_12_study.Sched.Ends.{GoesOn, wake_up-GoesOn}

abbrev both : Kernel
both = record {
  task = λ i. if i == 1 then some sample else if i == 2 then some sample else none;
  current = 1;
  jiffies = 5;
  startup_time = 0;
  jiffies_offset = 0;
}

abbrev nobody : Waiting
nobody = record { queue = none; kernel = both; tmp = λ _. none }

-- Task 1 sleeps, and then task 2.
abbrev one : Waiting
one = queued 2 nobody

abbrev switched : Waiting
switched = with_kernel (record one.kernel { current = 2 }) one

abbrev two : Waiting
two = queued 1 switched

both_sleep : Reach nobody two
unfolding begin_sleep
both_sleep =
    next
      (next (next here (sleeps 2 {w = nobody} {w' = one} refl (omega arith) refl))
        (other (record one.kernel { current = 2 })))
      (sleeps 1 {w = switched} {w' = two} refl (omega arith) refl)

Reach-linked_example :
    (l : List ℕ) × IsQueue two l × ((j : ℕ) (t : Option ℕ) → two.tmp j ≡ some t → two.queue ≢ none)
Reach-linked_example = Reach-linked {s = nobody} {w = two} (refl, λ j. refl) both_sleep

abbrev chosen : Option Kernel → Kernel
chosen none = both
chosen (some k) = k

abbrev picked : Kernel
picked = chosen (schedule 2 (woken two).kernel)

-- Task 2 is woken, leaves and makes task 1 ready; its time is then as at the start.
abbrev left_one : Waiting
left_one = go_on (some 1) (with_kernel picked (woken two))

abbrev later : Waiting
later = with_kernel both left_one

task_two : (picked.current ≡ 2) × (left_one.queue ≡ some 1)
unfolding schedule choose pick better each_task recharge check_task check_timeout check_alarm
    check_signal has_signal go_on_from bit_and bit_and_not clear_bit
task_two = (refl, refl)

-- Only task 1 is still inside.
left_tmp : left_one.tmp ≡ (λ j. if j == 2 then none else two.tmp j)
unfolding schedule choose pick better each_task recharge check_task check_timeout check_alarm
    check_signal has_signal go_on_from bit_and bit_and_not clear_bit
left_tmp = refl

inside_one : (j : ℕ) (t : Option ℕ) → (if j == 2 then none else two.tmp j) ≡ some t → j ≡ 1
inside_one j t e = elim (ℕ_discrete j 2) [
  | yes s ↦ absurd (cc (rw s at e))
  | no s ↦ elim (ℕ_discrete j 1) [
    | yes r ↦ r
    | no r ↦ absurd (cc (rw (ne→==_false j 2 s, ne→==_false j 1 r) at e))
  ]
]

same_one : Calm (left_one.kernel.task 1) (both.task 1)
unfolding schedule choose pick better each_task recharge check_task check_timeout check_alarm
    check_signal has_signal go_on_from bit_and bit_and_not clear_bit
same_one = (refl, inl refl)

inside_one-Calm :
    (j : ℕ) (t : Option ℕ) → left_one.tmp j ≡ some t → Calm (left_one.kernel.task j) (both.task j)
inside_one-Calm j t e =
    subst (λ x. Calm (left_one.kernel.task x) (both.task x))
      (sym (inside_one j t (sym (ap (λ f. f j) left_tmp) ∙ e))) same_one

leaves : Drain later 1 (woken two)
unfolding schedule choose pick better each_task recharge check_task check_timeout check_alarm
    check_signal has_signal go_on_from bit_and bit_and_not clear_bit
leaves =
    turn 0 2 (some 1) (woken two) picked refl refl (besides 0 left_one both inside_one-Calm done)

both_live : (j : ℕ) (t : Option ℕ) → two.tmp j ≡ some t → is_some (two.kernel.task j) ≡ true
both_live j t e = elim (ℕ_discrete j 2) [
  | yes s ↦ subst (λ x. is_some (two.kernel.task x) ≡ true) (sym s) refl
  | no s ↦ elim (ℕ_discrete j 1) [
    | yes r ↦ subst (λ x. is_some (two.kernel.task x) ≡ true) (sym r) refl
    | no r ↦ absurd (cc (rw (ne→==_false j 2 s, ne→==_false j 1 r) at e))
  ]
]

priority : (t : Task) → sample ≡ t → (t.counter < 2 ^ 30) × (0 < t.priority) × (t.priority < 2 ^ 30)
priority t q = omega (arith, ap Task.counter q, ap Task.priority q)

both-bounds : Priorities both.task
both-bounds i t e lo hi = elim (ℕ_discrete i 1) [
  | yes s ↦ priority t (cc (rw s at e))
  | no s ↦ elim (ℕ_discrete i 2) [
    | yes r ↦ priority t (cc (rw r at e))
    | no r ↦ absurd (cc (rw (ne→==_false i 1 s, ne→==_false i 2 r) at e))
  ]
]

wake_up-GoesOn_example : (l : List ℕ) × IsQueue two l × (1 ≤ 3 * length l) × GoesOn later
wake_up-GoesOn_example =
    wake_up-GoesOn {s = nobody} {w = two} {w' = later} {n = 1} (refl, λ j. refl) both_sleep
      both_live leaves both-bounds
