-- ===== src/Signals/Tests.antt =====
-- Signals sent by the task in slot 1.
use linux_0_12_study.Base.{arith, if◌then◌else◌, none, refl, some, ◌==◌, ◌^◌, ◌≡◌}
use linux_0_12_study.Base.Bits.{set_bit, clear_bit}
use linux_0_12_study.Task.Samples.{sample}
use linux_0_12_study.Task.{Task, Kernel}
use linux_0_12_study.Signals.{resume, post, send_task, kill_pg}
use linux_0_12_study.Signals.Group.{signalled, kill_pg-task}

-- SIGTSTP waits, and the task has stopped.
abbrev suspended : Task
suspended = record sample { state = 4; signal = 2 ^ 19 }

abbrev k : Kernel
k = record {
  task = λ i. if i == 1 then some sample else if i == 2 then some suspended else none;
  current = 1;
  jiffies = 0;
  startup_time = 0;
  jiffies_offset = 0;
}

send_task_run : (send_task 18 suspended).signal ≡ 2 ^ 17
unfolding resume post set_bit clear_bit
send_task_run = refl

kill_pg-task_example : (kill_pg sample 7 15 0 k).1.task 2 ≡ signalled 6 15 0 7 (some suspended)
kill_pg-task_example =
    kill_pg-task sample 7 15 0 k (omega arith) (omega arith) (omega arith) (omega arith) 2
