-- ===== src/Task/Samples.antt =====
-- A task that the examples start from.
use linux_0_12_study.Base.{neg, none, replicate, some}
use linux_0_12_study.Task.{Task}

-- It is ready, its time is spent, and its groups are empty (-1 is `NOGROUP`).
abbrev pub sample : Task
sample = record {
  state = 0;
  counter = 0;
  priority = 15;
  signal = 0;
  sigaction = λ i. record { sa_handler = 0; sa_mask = 0; sa_flags = 0; sa_restorer = 0 };
  blocked = 0;
  exit_code = 0;
  end_code = 0;
  brk = 0;
  start_stack = 0;
  pid = 7;
  pgrp = 7;
  session = 7;
  leader = 0;
  groups = replicate 32 (neg 1);
  p_pptr = some 1;
  p_cptr = none;
  p_ysptr = none;
  p_osptr = none;
  uid = 5;
  euid = 6;
  suid = 6;
  gid = 5;
  egid = 5;
  sgid = 5;
  timeout = 0;
  alarm = 0;
  utime = 0;
  stime = 0;
  cutime = 0;
  cstime = 0;
  start_time = 0;
  rlim = λ i. record { rlim_cur = 10; rlim_max = 20 };
  tty = 0;
  umask = 0;
}
