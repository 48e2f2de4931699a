-- ===== src/Sched/Ticks.antt =====
-- The clock: `timer_interrupt` of ver05/kernel/sys_call.s, and `do_timer` of ver05/kernel/sched.c with the
-- timers of Timer and the scheduler of Sched. What `do_timer` calls outside of sched.c is a parameter:
-- `hd_times_out` of ver05/kernel/blk_drv/hd.c, which gives up a request, wakes the tasks that wait for
-- it and may set `hd_timeout` anew, and the functions of the timers, which act on the tasks.
use linux_0_12_study.Base.{
  Bool, List, Option, [], false, if◌then◌else◌, int_lt, none, some, word, word_sub, ℕ, ◌!=◌, ◌++◌,
  ◌+◌, ◌-◌, ◌==◌, ◌∷◌,
}
use mathlib.Core.Option
use linux_0_12_study.Timer.{Timers, tick}
use linux_0_12_study.Task.{Task, Kernel}
use linux_0_12_study.Sched.{schedule}

pub record Clock : Type 0 where
  pub hd_timeout : ℕ
  pub timers : Timers
  pub kernel : Kernel

pub record Calls : Type 0 where
  -- the new `hd_timeout`, and the tasks
  pub hd_times_out : Kernel → ℕ × Kernel
  pub call : ℕ → Kernel → Kernel

-- if (hd_timeout) if (!--hd_timeout) hd_times_out()
abbrev pub count_hd : Calls → Clock → Clock
count_hd f c =
    if c.hd_timeout == 0
    then c
    else if c.hd_timeout == 1
    then (let (left, k) = f.hd_times_out c.kernel in record c { hd_timeout = left; kernel = k })
    else record c { hd_timeout = c.hd_timeout - 1 }

-- utime++ or stime++, `long` values of 32 bits
abbrev pub charge : ℕ → Task → Task
charge cpl t =
    if cpl != 0
    then record t { utime = word (t.utime + 1) }
    else record t { stime = word (t.stime + 1) }

abbrev pub at_current : (Task → Task) → Kernel → Kernel
at_current f k = record k {
  task = λ j. if j == k.current then Option.map f (k.task j) else k.task j;
}

-- The functions of a log, the newest of which comes first.
unfoldable pub run_calls : Calls → List ℕ → Kernel → Kernel
run_calls f [] k = k
run_calls f (fn ∷ older) k = f.call fn (run_calls f older k)

-- The timers of one tick, with a log of their own.
abbrev pub ticked : Timers → Timers
ticked t = tick (record t { ran = [] })

-- --current->counter
abbrev pub spend : Task → Task
spend t = record t { counter = word_sub t.counter 1 }

abbrev pub spent : Task → Task
spent t = record t { counter = 0 }

-- (current->counter) > 0 ?
abbrev pub has_time : Option Task → Bool
has_time none = false
has_time (some t) = int_lt 0 t.counter

-- After the counter: `none` is a `schedule` that finds no choice within the rounds given.
unfoldable pub end_slice : ℕ → ℕ → Kernel → Option Kernel
end_slice fuel cpl k =
    if has_time (k.task k.current)
    then some k
    else if cpl == 0
    then some (at_current spent k)
    else schedule fuel (at_current spent k)

-- The tasks when the counter is looked at.
abbrev pub charged : Calls → ℕ → Clock → Kernel
charged f cpl c =
    at_current spend
      (run_calls f (ticked c.timers).ran (at_current (charge cpl) (count_hd f c).kernel))

abbrev pub after_tick : Calls → Clock → Kernel → Clock
after_tick f c k = record (count_hd f c) {
  timers = record (ticked c.timers) { ran = (ticked c.timers).ran ++ c.timers.ran };
  kernel = k;
}

unfoldable pub do_timer : Calls → ℕ → ℕ → Clock → Option Clock
do_timer f fuel cpl c = Option.map (after_tick f c) (end_slice fuel cpl (charged f cpl c))

-- incl jiffies
abbrev pub advance : Clock → Clock
advance c = record c { kernel = record (c.kernel) { jiffies = word (c.kernel.jiffies + 1) } }

unfoldable pub timer_interrupt : Calls → ℕ → ℕ → Clock → Option Clock
timer_interrupt f fuel cpl c = do_timer f fuel cpl (advance c)
