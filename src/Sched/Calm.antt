-- ===== src/Sched/Calm.antt =====
-- What `schedule` (ver05/kernel/sched.c) does to the states of the tasks.
use linux_0_12_study.Base.{
  Bool-cases, Option, Option-cases, ap, arith, inl, inr, int_lt, is_some, leb, ltb, neg, none, refl,
  some, subst, suc, sym, zero, ℕ, ℕ_discrete, ◌&&◌, ◌==◌, ◌∙◌, ◌≡◌, ◌⊎◌,
}
use mathlib.Core.Option
use mathlib.Core.Option.{some_inj}
use linux_0_12_study.Task.{Task, Tasks, Kernel, task_running}
use linux_0_12_study.Sched.{
  schedule, choose, pick, better, each_task, recharge, check_task, check_timeout, check_alarm,
  check_signal,
}
use linux_0_12_study.Sched.Choice.{each_task-at, choose-found, choose-again}

-- The state of the task of a slot; 5 is that of no task.
abbrev pub state_of : Option Task → ℕ
state_of none = 5
state_of (some t) = t.state

-- A slot keeps its task, and the state is the same or an interruptible task has been made ready.
abbrev pub Calm : Option Task → Option Task → Type 0
Calm o o' =
    (is_some o' ≡ is_some o) × ((state_of o' ≡ state_of o) ⊎ ((state_of o ≡ 1) × (state_of o' ≡ 0)))

Calm-trans : (a b c : Option Task) → Calm a b → Calm b c → Calm a c
Calm-trans a b c (p, inl q) (r, inl s) = (r ∙ p, inl (s ∙ q))
Calm-trans a b c (p, inl q) (r, inr (s, t)) = (r ∙ p, inr (sym q ∙ s, t))
Calm-trans a b c (p, inr (q, u)) (r, inl s) = (r ∙ p, inr (q, s ∙ u))
Calm-trans a b c (p, inr (q, u)) (r, inr (s, t)) = (r ∙ p, inr (q, t))

check_task-Calm : (jiffies : ℕ) (o : Option Task) → Calm o (Option.map (check_task jiffies) o)
unfolding check_task check_timeout check_alarm check_signal
check_task-Calm jiffies none = (refl, inl refl)
check_task-Calm jiffies (some t) = (refl, ground arith)

recharge-Calm : (o : Option Task) → Calm o (Option.map recharge o)
unfolding recharge
recharge-Calm none = (refl, inl refl)
recharge-Calm (some t) = (refl, inl refl)

each_task-Calm :
    (f : Task → Task) (n : ℕ) (task : Tasks) (i : ℕ)
    → ((o : Option Task) → Calm o (Option.map f o))
    → Calm (task i) (each_task f n task i)
each_task-Calm f n task i h = elim (Bool-cases (ltb 0 i && leb i n)) [
  | inl e ↦ subst (λ o. Calm (task i) o) (sym (each_task-at f n task i ∙ (rw e refl))) (h (task i))
  | inr e ↦
      subst (λ o. Calm (task i) o) (sym (each_task-at f n task i ∙ (rw e refl))) (refl, inl refl)
]

-- The search gives slot 0 or a task that can run.
better-from :
    (i : ℕ) (task : Tasks) (o : Option Task) (c n : ℕ)
    → task i ≡ o
    → (n ≡ 0) ⊎ (state_of (task n) ≡ 0)
    → ((better i o (c, n)).1 ≡ 0) ⊎ (state_of (task (better i o (c, n)).1) ≡ 0)
unfolding better
better-from i task none c n e h = h
better-from i task (some t) c n e h =
    elim (Bool-cases ((t.state == task_running) && int_lt c t.counter)) [
      | inl s ↦ rw s (inr (ap state_of e ∙ ground (arith, s)))
      | inr s ↦ rw s h
    ]

better-running :
    (i : ℕ) (task : Tasks) (c n : ℕ)
    → (n ≡ 0) ⊎ (state_of (task n) ≡ 0)
    → ((better i (task i) (c, n)).1 ≡ 0) ⊎ (state_of (task (better i (task i) (c, n)).1) ≡ 0)
better-running i task c n h = better-from i task (task i) c n refl h

pick-running :
    (i : ℕ) (task : Tasks) (c n : ℕ)
    → (n ≡ 0) ⊎ (state_of (task n) ≡ 0)
    → ((pick i task (c, n)).1 ≡ 0) ⊎ (state_of (task (pick i task (c, n)).1) ≡ 0)
unfolding pick
pick-running zero task c n h = h
pick-running (suc i) task c n h =
    let b = better (suc i) (task (suc i)) (c, n) in
    pick-running i task b.0 b.1 (better-running (suc i) task c n h)

choose-zero : (task : Tasks) (r : Tasks × ℕ) → choose zero task ≡ some r → ⊥
unfolding choose
choose-zero task r e = cc e

choose-Calm :
    (fuel : ℕ) (task : Tasks) (r : Tasks × ℕ)
    → choose fuel task ≡ some r
    → ((j : ℕ) → Calm (task j) (r.0 j)) × ((r.1 ≡ 0) ⊎ (state_of (r.0 r.1) ≡ 0))
choose-Calm zero task r e = absurd (choose-zero task r e)
choose-Calm (suc fuel) task r e = elim (ℕ_discrete (pick 63 task (neg 1, 0)).0 0) [
  | no ne ↦
      subst
        (λ (q : Tasks × ℕ).
          ((j : ℕ) → Calm (task j) (q.0 j)) × ((q.1 ≡ 0) ⊎ (state_of (q.0 q.1) ≡ 0)))
        (some_inj.0 (sym (choose-found fuel task ne) ∙ e))
        ((λ j. (refl, inl refl)), pick-running 63 task (neg 1) 0 (inl refl))
  | yes z ↦
      let task' = each_task recharge 63 task in
      let (calm, runs) = choose-Calm fuel task' r (sym (choose-again fuel task z) ∙ e) in
      (
        (λ j.
            Calm-trans (task j) (task' j) (r.0 j) (each_task-Calm recharge 63 task j recharge-Calm)
              (calm j)),
        runs,
      )
]

schedule-choice :
    (fuel : ℕ) (k k' : Kernel)
    → schedule fuel k ≡ some k'
    → (r : Tasks × ℕ) × (choose fuel (each_task (check_task k.jiffies) 63 k.task) ≡ some r)
      × (record k { task = r.0; current = r.1 } ≡ k')
unfolding schedule
schedule-choice fuel k k' e =
    elim (Option-cases (choose fuel (each_task (check_task k.jiffies) 63 k.task))) [
      | inl z ↦ absurd (cc (rw z at e))
      | inr (r, z) ↦ (r, z, cc (rw z at e))
    ]

pub schedule-Calm :
    (fuel : ℕ) (k k' : Kernel)
    → schedule fuel k ≡ some k'
    → ((j : ℕ) → Calm (k.task j) (k'.task j))
      × ((k'.current ≡ 0) ⊎ (state_of (k'.task k'.current) ≡ 0))
schedule-Calm fuel k k' e =
    let checked = each_task (check_task k.jiffies) 63 k.task in
    let (r, f, same) = schedule-choice fuel k k' e in
    let (calm, runs) = choose-Calm fuel checked r f in
    subst
      (λ (q : Kernel).
        ((j : ℕ) → Calm (k.task j) (q.task j))
        × ((q.current ≡ 0) ⊎ (state_of (q.task q.current) ≡ 0)))
      same
      (
        (λ j.
            Calm-trans (k.task j) (checked j) (r.0 j)
              (each_task-Calm (check_task k.jiffies) 63 k.task j (check_task-Calm k.jiffies))
              (calm j)),
        runs,
      )
