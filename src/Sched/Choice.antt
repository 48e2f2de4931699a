-- ===== src/Sched/Choice.antt =====
-- What `schedule` decides.
use linux_0_12_study.Base.{
  Option-cases, ap, arith, if◌then◌else◌, inl, inr, leb, ltb, neg, refl, some, suc, sym, true, word,
  zero, ℕ, ℕ_discrete, ◌&&◌, ◌+◌, ◌/◌, ◌<◌, ◌==◌, ◌^◌, ◌∙◌, ◌≡◌, ◌≢◌, ◌≤◌, ◌⊎◌,
}
use mathlib.Core.Option
use linux_0_12_study.Task.{Task, Tasks, Kernel, task_running}
use linux_0_12_study.Sched.{
  half, each_task, pick, recharge, check_task, choose, schedule, check_timeout, check_alarm,
  check_signal,
}
use linux_0_12_study.Sched.Pick.{Counters, IsBest, pick-IsBest}

pub each_task-at :
    (f : Task → Task) (n : ℕ) (task : Tasks) (i : ℕ)
    → each_task f n task i ≡ (if ltb 0 i && leb i n then Option.map f (task i) else task i)
unfolding each_task
each_task-at f zero task i = ground arith
each_task-at f (suc n) task i =
    each_task-at f n (λ j. if suc n == j then Option.map f (task j) else task j) i ∙ ground arith

-- A task of the tasks after such a loop comes from one before it.
pub each_task-some :
    (f : Task → Task) (n : ℕ) (task : Tasks) (i : ℕ) {t : Task}
    → each_task f n task i ≡ some t
    → 0 < i
    → i ≤ n
    → (u : Task) × (task i ≡ some u) × (t ≡ f u)
each_task-some f n task i {t} e lo hi =
    let inside : (ltb 0 i && leb i n) ≡ true = ground arith in
    let e' : Option.map f (task i) ≡ some t =
      sym (each_task-at f n task i ∙ (rw inside refl)) ∙ e in
    elim (Option-cases (task i)) [
      | inl z ↦ absurd (cc (rw z at e'))
      | inr (u, z) ↦ let q : some (f u) ≡ some t = rw z at e' in (u, z, cc)
    ]

-- What the scheduler relies on: no counter or priority is so large that a sum overflows, and none is
-- negative; the priority of a task is positive.
abbrev pub Priorities : Tasks → Type 0
Priorities task =
    (i : ℕ) (t : Task)
    → task i ≡ some t
    → 0 < i
    → i ≤ 63
    → (t.counter < 2 ^ 30) × (0 < t.priority) × (t.priority < 2 ^ 30)

-- The task that can run, in a slot from 1 to 63, has nothing left of its time.
abbrev pub AllSpent : Tasks → Type 0
AllSpent task =
    (i : ℕ) (t : Task) → task i ≡ some t → t.state ≡ task_running → 0 < i → i ≤ 63 → t.counter ≡ 0

-- Task 0 runs if no other can; otherwise the one that runs has time left, and at least as much as
-- each other task that can run.
abbrev pub IsNext : Tasks → ℕ → Type 0
IsNext task next =
    ((next ≡ 0) × ((i : ℕ) (t : Task) → task i ≡ some t → 0 < i → i ≤ 63 → t.state ≢ task_running))
    ⊎ ((t : Task) × (task next ≡ some t)
        × (t.state ≡ task_running)
        × (0 < next)
        × (next ≤ 63)
        × (0 < t.counter)
        × ((i : ℕ) (u : Task)
            → task i ≡ some u
            → u.state ≡ task_running
            → 0 < i
            → i ≤ 63
            → u.counter ≤ t.counter))

module _ (task : Tasks) (small : Counters 63 task) where
  abbrev best : ℕ × ℕ
  best = pick 63 task (neg 1, 0)

  b : IsBest 0 63 task best.0 best.1
  b = pick-IsBest 63 task small

  best-IsNext : best.0 ≢ 0 → IsNext task best.1
  best-IsNext ne = elim b.chosen [
    | inl (c, n) ↦ inl (n, λ i t e lo hi run. absurd (omega (arith, c, b.largest i t e run lo hi)))
    | inr (t, e, run, c, s, lo, hi) ↦ inr (
      t,
      e,
      run,
      lo,
      hi,
      omega (arith, c, ne),
      λ i u e' run' l h. omega (arith, c, b.largest i u e' run' l h),
    )
  ]

  best-AllSpent : best.0 ≡ 0 → AllSpent task
  best-AllSpent z i t e run lo hi = omega (arith, z, b.largest i t e run lo hi)

-- Not all is spent once a task can run with time left.
IsNext-found :
    (task : Tasks)
    → (small : Counters 63 task)
    → ((i : ℕ) (t : Task) → task i ≡ some t → 0 < i → i ≤ 63 → 0 < t.counter)
    → (pick 63 task (neg 1, 0)).0 ≢ 0
IsNext-found task small pos z = elim (b task small).chosen [
  | inl (c, n) ↦ absurd (omega (arith, c, z))
  | inr (t, e, run, c, s, lo, hi) ↦ absurd (omega (arith, c, z, pos _ t e lo hi))
]

Priorities-Counters : (task : Tasks) → Priorities task → Counters 63 task
Priorities-Counters task p i t e lo le = omega (arith, p i t e lo le)

half-small : (x : ℕ) → x < 2 ^ 30 → half x ≡ x / 2
half-small x h = ground arith

-- Recharging keeps the bounds and leaves every task some time.
recharged :
    (task : Tasks)
    → Priorities task
    → (i : ℕ) (t : Task) → each_task recharge 63 task i ≡ some t
    → 0 < i
    → i ≤ 63
    → (0 < t.counter) × (t.counter < 2 ^ 31)
unfolding recharge
recharged task p i t e lo hi =
    let (u, e', q) = each_task-some recharge 63 task i e lo hi in
    let b = p i u e' lo hi in
    let c : t.counter ≡ word (half u.counter + u.priority) = ap Task.counter q in
    let h = half-small u.counter b.0 in (ground (arith, b, c, h), ground (arith, b, c, h))

module _ (fuel : ℕ) (task : Tasks) where
  pub choose-found :
      (pick 63 task (neg 1, 0)).0 ≢ 0
      → choose (suc fuel) task ≡ some (task, (pick 63 task (neg 1, 0)).1)
  unfolding choose
  choose-found ne = ground arith

  pub choose-again :
      (pick 63 task (neg 1, 0)).0 ≡ 0
      → choose (suc fuel) task ≡ choose fuel (each_task recharge 63 task)
  unfolding choose
  choose-again z = ground arith

-- With time spent the tasks are recharged; with time left they are as they were.
pub choose-IsNext :
    (fuel : ℕ) (task : Tasks)
    → Priorities task
    → (task' : Tasks) × (next : ℕ) × (choose (suc (suc fuel)) task ≡ some (task', next))
      × ((task' ≡ task) ⊎ (AllSpent task × (task' ≡ each_task recharge 63 task)))
      × IsNext task' next
choose-IsNext fuel task p =
    let small = Priorities-Counters task p in
    let next = λ (task : Tasks). (pick 63 task (neg 1, 0)).1 in
    elim (ℕ_discrete (pick 63 task (neg 1, 0)).0 0) [
      | no ne ↦
          (task, next task, choose-found (suc fuel) task ne, inl refl, best-IsNext task small ne)
      | yes z ↦
          let task' = each_task recharge 63 task in
          let small' : Counters 63 task' = λ i t e lo hi. (recharged task p i t e lo hi).1 in
          let ne = IsNext-found task' small' (λ i t e lo hi. (recharged task p i t e lo hi).0) in
          (
            task',
            next task',
            choose-again (suc fuel) task z ∙ choose-found fuel task' ne,
            inr (best-AllSpent task small z, refl),
            best-IsNext task' small' ne,
          )
    ]

-- The bounds survive the first loop, which does not touch counters and priorities.
checked :
    (jiffies : ℕ) (task : Tasks)
    → Priorities task
    → Priorities (each_task (check_task jiffies) 63 task)
unfolding check_task check_timeout check_alarm check_signal
checked jiffies task p i t e lo hi =
    let (u, e', q) = each_task-some (check_task jiffies) 63 task i e lo hi in
    let b = p i u e' lo hi in
    let c : t.counter ≡ u.counter = ap Task.counter q ∙ ground arith in
    let d : t.priority ≡ u.priority = ap Task.priority q ∙ ground arith in omega (arith, b, c, d)

-- If the counters and priorities of the tasks in the slots from 1 to 63 are below 2 ^ 30 and each
-- priority is positive, `schedule` comes to a choice within two rounds: task 0 if no other can run,
-- or else one that can, with time left and no less than each other. The tasks are those after the
-- first loop, or, if all that can run had spent their time, these recharged.
pub schedule-IsNext :
    (fuel : ℕ) (k : Kernel)
    → Priorities k.task
    → let checks = each_task (check_task k.jiffies) 63 k.task in
      (task' : Tasks) × (next : ℕ) × (schedule (suc (suc fuel)) k
        ≡ some (record k { task = task'; current = next }))
      × ((task' ≡ checks) ⊎ (AllSpent checks × (task' ≡ each_task recharge 63 checks)))
      × IsNext task' next
unfolding schedule
schedule-IsNext fuel k p =
    let checks = each_task (check_task k.jiffies) 63 k.task in
    let (task', next, run, how, best) = choose-IsNext fuel checks (checked k.jiffies k.task p) in
    (task', next, rw run refl, how, best)
