-- ===== src/Sched.antt =====
-- `schedule` of ver05/kernel/sched.c. The task that runs next is the result: `switch_to` itself is
-- machine code.
pub mod Pick
pub mod Choice
pub mod Wake
pub mod Sleep
pub mod Queue
pub mod Calm
pub mod Weight
pub mod Drain
pub mod Ends
pub mod Kept
pub mod Ticks
pub mod Slice
pub mod Preempt
mod Tests
mod SleepTests
mod SliceTests
use linux_0_12_study.Base.{
  Bool, Option, if◌then◌else◌, int_lt, is_negative, ltb, map, neg, none, some, suc, word, zero, ℕ,
  ◌!=◌, ◌&&◌, ◌+◌, ◌-◌, ◌/◌, ◌==◌, ◌^◌,
}
use mathlib.Core.Option
use linux_0_12_study.Base.Bits.{set_bit, clear_bit, bit_and, bit_and_not}
use linux_0_12_study.Task.{Task, Tasks, Kernel, nr_tasks, task_running, task_interruptible}

abbrev pub sigalrm : ℕ
sigalrm = 14

-- `_BLOCKABLE`: all signals but SIGKILL (9) and SIGSTOP (19)
abbrev pub blockable : ℕ
blockable = clear_bit (clear_bit 0xffffffff 8) 18

-- Does a signal wait that is not blocked?
pub has_signal : Task → Bool
has_signal t = bit_and_not 32 t.signal (bit_and 32 blockable t.blocked) != 0

-- The three checks of the first loop, in their order.
pub check_timeout : ℕ → Task → Task
check_timeout jiffies t =
    if (t.timeout != 0) && ltb t.timeout jiffies
    then record t {
      timeout = 0;
      state = if t.state == task_interruptible then task_running else t.state;
    }
    else t

pub check_alarm : ℕ → Task → Task
check_alarm jiffies t =
    if (t.alarm != 0) && ltb t.alarm jiffies
    then record t { signal = set_bit t.signal (sigalrm - 1); alarm = 0 }
    else t

pub check_signal : Task → Task
check_signal t =
    if has_signal t && (t.state == task_interruptible) then record t { state = task_running } else t

pub check_task : ℕ → Task → Task
check_task jiffies t = check_signal (check_alarm jiffies (check_timeout jiffies t))

-- `for (p = &task[NR_TASKS-1]; p > &task[0]; --p) if (*p)`, for the slots from i down to 1
pub each_task : (Task → Task) → ℕ → Tasks → Tasks
each_task f zero task = task
each_task f (suc i) task = each_task f i (λ j. if suc i == j then Option.map f (task j) else task j)

-- One slot of the search: c and next so far
pub better : ℕ → Option Task → ℕ × ℕ → ℕ × ℕ
better i none (c, next) = (c, next)
better i (some t) (c, next) =
    if (t.state == task_running) && int_lt c t.counter then (t.counter, i) else (c, next)

-- The search, from slot i down to 1.
pub pick : ℕ → Tasks → ℕ × ℕ → ℕ × ℕ
pick zero task best = best
pick (suc i) task best = pick i task (better (suc i) (task (suc i)) best)

-- `x >> 1` of an `int`
abbrev pub half : ℕ → ℕ
half x = if is_negative x then 2 ^ 31 + x / 2 else x / 2

pub recharge : Task → Task
recharge t = record t { counter = word (half t.counter + t.priority) }

-- `while (1)`, on fuel: the tasks and the number of the one that runs next.
pub choose : ℕ → Tasks → Option (Tasks × ℕ)
choose zero task = none
choose (suc fuel) task =
    let again = choose fuel (each_task recharge (nr_tasks - 1) task) in
    let best = pick (nr_tasks - 1) task (neg 1, 0) in
    if best.0 != 0 then some (task, best.1) else again

-- `none`: no choice within the rounds of the loop.
pub schedule : ℕ → Kernel → Option Kernel
schedule fuel k =
    Option.map (λ r. record k { task = r.0; current = r.1 })
      (choose fuel (each_task (check_task k.jiffies) (nr_tasks - 1) k.task))

-- A null pointer is ignored; the warnings that are printed are left out.
unfoldable pub wake_up : Option ℕ → Kernel → Kernel
wake_up none k = k
wake_up (some i) k = record k {
  task = λ j.
      if i == j
      then Option.map {A = Task} (λ t. record t { state = task_running }) (k.task j)
      else k.task j;
}
