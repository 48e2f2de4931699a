-- ===== src/Sched/Tests.antt =====
-- The scheduler at a kernel with two tasks.
use linux_0_12_study.Base.{
  Bool-cases, ap, arith, if◌then◌else◌, inl, inr, none, refl, some, ℕ, ◌<◌, ◌==◌, ◌^◌, ◌↔◌, ◌≡◌,
  ◌⊎◌,
}
use linux_0_12_study.Task.Samples.{sample}
use linux_0_12_study.Task.{Task, Tasks, Kernel, task_running}
use linux_0_12_study.Sched.{each_task, recharge, check_alarm, check_task, schedule}
use linux_0_12_study.Sched.Choice.{AllSpent, IsNext, schedule-IsNext}
use linux_0_12_study.Sched.Wake.{Pending, check_task-running}

-- SIGKILL waits, and all signals are blocked.
abbrev killed : Task
killed = record sample { state = 1; signal = 256; blocked = 0xffffffff }

abbrev two_tasks : Kernel
two_tasks = record {
  task = λ i. if i == 1 then some sample else if i == 2 then some killed else none;
  current = 0;
  jiffies = 5;
  startup_time = 0;
  jiffies_offset = 0;
}

two_tasks-bounds :
    (i : ℕ) (t : Task)
    → two_tasks.task i ≡ some t
    → (t.counter < 2 ^ 30) × (0 < t.priority) × (t.priority < 2 ^ 30)
two_tasks-bounds i t e = elim (Bool-cases (i == 1)) [
  | inl one ↦
      let e' : some sample ≡ some t = rw one at e in
      let q : sample ≡ t = cc in omega (arith, ap Task.counter q, ap Task.priority q)
  | inr not_one ↦ elim (Bool-cases (i == 2)) [
    | inl two ↦
        let e' : some killed ≡ some t = rw (not_one, two) at e in
        let q : killed ≡ t = cc in omega (arith, ap Task.counter q, ap Task.priority q)
    | inr other ↦ absurd (cc (rw (not_one, other) at e))
  ]
]

schedule_example :
    let checks = each_task (check_task 5) 63 two_tasks.task in
    (task' : Tasks) × (next : ℕ) × (schedule 2 two_tasks
      ≡ some (record two_tasks { task = task'; current = next }))
    × ((task' ≡ checks) ⊎ (AllSpent checks × (task' ≡ each_task recharge 63 checks)))
    × IsNext task' next
schedule_example = schedule-IsNext 0 two_tasks (λ i t e lo hi. two_tasks-bounds i t e)

check_task_example :
    ((check_task 5 killed).state ≡ task_running)
    ↔ (((0 < 0) × (0 < 5)) ⊎ ((k : ℕ) × Pending (check_alarm 5 killed) k))
check_task_example = check_task-running 5 killed refl
