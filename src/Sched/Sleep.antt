-- ===== src/Sched/Sleep.antt =====
-- `sleep_on` and `interruptible_sleep_on` of ver05/kernel/sched.c. Tasks run one after another: a task
-- runs from its entry to `schedule` (`begin_sleep`) and, when `schedule` has chosen it again, from there
-- to the next `schedule` or to the return (`go_on`). `tmp` is the local variable of each task that is
-- inside of the call; `none` is a task that is not.
use linux_0_12_study.Base.{Option, if◌then◌else◌, none, some, ℕ, ◌<◌, ◌==◌, ◌≡◌}
use mathlib.Core.Option
use linux_0_12_study.Task.{Task, Kernel, task_running, task_uninterruptible}
use linux_0_12_study.Sched.{schedule, task_interruptible}

-- *p of the queue, the tasks and the running one, and the local variables.
pub record Waiting : Type 0 where
  pub queue : Option ℕ
  pub kernel : Kernel
  pub tmp : ℕ → Option (Option ℕ)

abbrev pub set_state : ℕ → ℕ → Kernel → Kernel
set_state state i k = record k {
  task = λ j.
      if j == i
      then Option.map {A = Task} (λ t. record t { state = state }) (k.task j)
      else k.task j;
}

-- if (p) p->state = 0
abbrev pub make_ready : Option ℕ → Kernel → Kernel
make_ready none k = k
make_ready (some i) k = set_state task_running i k

abbrev pub put_tmp : ℕ → Option (Option ℕ) → Waiting → ℕ → Option (Option ℕ)
put_tmp i t w j = if j == i then t else w.tmp j

-- tmp = *p; *p = current; current->state = state
abbrev pub queued : ℕ → Waiting → Waiting
queued state w = record {
  queue = some w.kernel.current;
  kernel = set_state state w.kernel.current w.kernel;
  tmp = put_tmp w.kernel.current (some w.queue) w;
}

-- Up to the first `schedule`; `none` is the panic of task 0.
unfoldable pub begin_sleep : ℕ → Waiting → Option Waiting
begin_sleep state w = if w.kernel.current == 0 then none else some (queued state w)

unfoldable pub sleep_on : Waiting → Option Waiting
unfolding begin_sleep
sleep_on w = begin_sleep task_uninterruptible w

unfoldable pub interruptible_sleep_on : Waiting → Option Waiting
unfolding begin_sleep
interruptible_sleep_on w = begin_sleep task_interruptible w

unfoldable pub sys_pause : ℕ → Kernel → Option Kernel
sys_pause fuel k = schedule fuel (set_state task_interruptible k.current k)

-- if (*p = tmp) tmp->state=0, and the return
abbrev pub leave : Option ℕ → Waiting → Waiting
leave t w = record {
  queue = t;
  kernel = make_ready t w.kernel;
  tmp = put_tmp w.kernel.current none w;
}

-- (**p).state = 0; current->state = TASK_UNINTERRUPTIBLE
abbrev pub wait_again : ℕ → Waiting → Waiting
wait_again head w = record w {
  kernel = set_state task_uninterruptible w.kernel.current (set_state task_running head w.kernel);
}

unfoldable pub go_on_from : Option ℕ → Option ℕ → Waiting → Waiting
go_on_from none t w = leave t w
go_on_from (some head) t w = if head == w.kernel.current then leave t w else wait_again head w

-- From `schedule` on, for the local variable t.
abbrev pub go_on : Option ℕ → Waiting → Waiting
go_on t w = go_on_from w.queue t w

-- `wake_up` of the queue
abbrev pub woken : Waiting → Waiting
woken w = record w { kernel = make_ready w.queue w.kernel }

abbrev pub with_kernel : Kernel → Waiting → Waiting
with_kernel k w = record w { kernel = k }

-- Tasks, one after another. `other` is whatever is done besides, by tasks or interrupts.
pub data Step : Waiting → Waiting → Type 0 where
  sleeps :
      (state : ℕ) {w w' : Waiting}
      → w.tmp w.kernel.current ≡ none
      → w.kernel.current < 64
      → begin_sleep state w ≡ some w'
      → Step w w'
  resumes :
      (fuel : ℕ) (t : Option ℕ) {w : Waiting} {k : Kernel}
      → schedule fuel w.kernel ≡ some k
      → w.tmp k.current ≡ some t
      → Step w (go_on t (with_kernel k w))
  wakes : {w : Waiting} → Step w (woken w)
  other : {w : Waiting} (k : Kernel) → Step w (with_kernel k w)

pub data Reach (s : Waiting) : Waiting → Type 0 where
  here : Reach s s
  next : {w w' : Waiting} → Reach s w → Step w w' → Reach s w'
