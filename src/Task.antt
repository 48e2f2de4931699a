-- ===== src/Task.antt =====
-- `struct task_struct` of ver05/include/linux/sched.h, the array `task` and the clock. A pointer to a
-- task is its slot in `task`, and NULL is `none`. An `int` field holds its 32-bit pattern. The saved
-- machine state (`ldt`, `tss`) and the pointers to inodes and open files are not part of it.
pub mod Samples
use linux_0_12_study.Base.{List, Option, if◌then◌else◌, some, ℕ, ◌==◌}

abbrev pub nr_tasks : ℕ
nr_tasks = 64

-- the values of `state`
abbrev pub task_running : ℕ
task_running = 0

abbrev pub task_interruptible : ℕ
task_interruptible = 1

abbrev pub task_uninterruptible : ℕ
task_uninterruptible = 2

abbrev pub task_zombie : ℕ
task_zombie = 3

abbrev pub task_stopped : ℕ
task_stopped = 4

-- `struct rlimit`
pub record Rlimit : Type 0 where
  pub rlim_cur : ℕ
  pub rlim_max : ℕ

-- `struct sigaction`
pub record Sigaction : Type 0 where
  pub sa_handler : ℕ
  pub sa_mask : ℕ
  pub sa_flags : ℕ
  pub sa_restorer : ℕ

pub record Task : Type 0 where
  pub state : ℕ
  pub counter : ℕ
  pub priority : ℕ
  pub signal : ℕ
  pub sigaction : ℕ → Sigaction
  pub blocked : ℕ
  pub exit_code : ℕ
  pub end_code : ℕ
  pub brk : ℕ
  pub start_stack : ℕ
  pub pid : ℕ
  pub pgrp : ℕ
  pub session : ℕ
  pub leader : ℕ
  pub groups : List ℕ
  pub p_pptr : Option ℕ
  pub p_cptr : Option ℕ
  pub p_ysptr : Option ℕ
  pub p_osptr : Option ℕ
  pub uid : ℕ
  pub euid : ℕ
  pub suid : ℕ
  pub gid : ℕ
  pub egid : ℕ
  pub sgid : ℕ
  pub timeout : ℕ
  pub alarm : ℕ
  pub utime : ℕ
  pub stime : ℕ
  pub cutime : ℕ
  pub cstime : ℕ
  pub start_time : ℕ
  pub rlim : ℕ → Rlimit
  pub tty : ℕ
  pub umask : ℕ

abbrev pub Tasks : Type 0
Tasks = ℕ → Option Task

abbrev pub put : Tasks → ℕ → Task → Tasks
put task i t j = if i == j then some t else task j

-- The tasks, the number of the one that runs, and the clock.
pub record Kernel : Type 0 where
  pub task : Tasks
  pub current : ℕ
  pub jiffies : ℕ
  pub startup_time : ℕ
  pub jiffies_offset : ℕ
