-- ===== src/Sched/SliceTests.antt =====
-- Two tasks that compute, under the clock of ver05/kernel/sched.c.
use linux_0_12_study.Base.{[], if◌then◌else◌, none, some, ◌==◌, ◌∷◌}
use linux_0_12_study.Task.Samples.{sample}
use linux_0_12_study.Task.{Task, Kernel}
use linux_0_12_study.Sched.Ticks.{Clock, Calls}
use linux_0_12_study.Sched.Kept.{Kept}
use linux_0_12_study.Sched.{wake_up}

abbrev first_task : Task
first_task = record sample { counter = 3 }

abbrev second_task : Task
second_task = record sample { counter = 5 }

abbrev running_first : Clock
running_first = record {
  hd_timeout = 2;
  timers = record {
    timer_list = record { jiffies = 2; fn = 70; next = none } ∷ [];
    next_timer = some 0;
    ran = [];
  };
  kernel = record {
    task = λ i. if i == 1 then some first_task else if i == 2 then some second_task else none;
    current = 1;
    jiffies = 5;
    startup_time = 0;
    jiffies_offset = 0;
  };
}

-- A time out and every timer wake the task in slot 2, unless it is the running one.
abbrev wake_second : Kernel → Kernel
wake_second k = if 2 == k.current then k else wake_up (some 2) k

abbrev wakes : Calls
wakes = record { hd_times_out = λ k. (200, wake_second k); call = λ fn k. wake_second k }
