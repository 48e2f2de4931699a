-- ===== src/Sched/Preempt.antt =====
-- The end of a time slice: `do_timer` and `schedule` of ver05/kernel/sched.c.
use linux_0_12_study.Base.{Option}
use linux_0_12_study.Task.{Task}
