-- ===== src/Signals.antt =====
-- Sending signals: `send_sig`, `session_of_pgrp`, `kill_pg`, `kill_proc`, `sys_kill`,
-- `is_orphaned_pgrp` and `has_stopped_jobs` of ver05/kernel/exit.c. Several of these read fields through a null pointer for a slot that is free;
-- `at_null` is what then stands at these addresses.
pub mod Post
pub mod Group
pub mod Orphans
mod Tests
use linux_0_12_study.Base.{
  Bool, Option, if◌then◌else◌, int_le, int_lt, is_negative, neg, none, some, suc, word_sub, zero, ℕ,
  ◌!=◌, ◌%◌, ◌&&◌, ◌+◌, ◌-◌, ◌==◌, ◌||◌,
}
use linux_0_12_study.Base.Bits.{set_bit, clear_bit}
use linux_0_12_study.Task.{
  Task, Tasks, Kernel, put, nr_tasks, task_running, task_zombie, task_stopped,
}
use linux_0_12_study.Ids.{eperm, einval, suser}

abbrev pub esrch : ℕ
esrch = 3

abbrev pub sigkill : ℕ
sigkill = 9

abbrev pub sigcont : ℕ
sigcont = 18

abbrev pub sigstop : ℕ
sigstop = 19

abbrev pub sigttou : ℕ
sigttou = 22

-- the bits of SIGSTOP, SIGTSTP, SIGTTIN and SIGTTOU
abbrev pub clear_stops : ℕ → ℕ
clear_stops signal = clear_bit (clear_bit (clear_bit (clear_bit signal 18) 19) 20) 21

-- SIGKILL and SIGCONT start a task that was stopped.
pub resume : ℕ → Task → Task
resume sig t =
    if (sig == sigkill) || (sig == sigcont)
    then record t {
      state = if t.state == task_stopped then task_running else t.state;
      exit_code = 0;
      signal = clear_stops t.signal;
    }
    else t

-- A handler with the value 1 ignores the signal. The shift by `sig-1` is modulo 32.
pub post : ℕ → Task → Task
post sig t =
    let t₁ =
      if int_le sigstop sig && int_le sig sigttou
      then record t { signal = clear_bit t.signal (sigcont - 1) }
      else t in
    if (t.sigaction (word_sub sig 1)).sa_handler == 1
    then t
    else record t₁ { signal = set_bit t₁.signal (word_sub sig 1 % 32) }

abbrev pub send_task : ℕ → Task → Task
send_task sig t = post sig (resume sig t)

module _ (at_null : Task) where
  -- `*p` for the slot p of `task`
  abbrev pub at : Option Task → Task
  at none = at_null
  at (some t) = t

  abbrev pub current : Kernel → Task
  current k = at (k.task k.current)

  abbrev pub permits : ℕ → Task → Task → Bool
  permits priv me t = (priv != 0) || (me.euid == t.euid) || suser me

  abbrev pub send_to : ℕ → ℕ → ℕ → Option Task → Kernel → ℕ × Kernel
  send_to sig p priv none k = (neg einval, k)
  send_to sig p priv (some t) k =
      if permits priv (current k) t
      then (0, record k { task = put k.task p (send_task sig t) })
      else (neg eperm, k)

  -- to the task of slot p
  abbrev pub send_sig : ℕ → ℕ → ℕ → Kernel → ℕ × Kernel
  send_sig sig p priv k = send_to sig p priv (k.task p) k

  -- The loops go from the last slot down to slot 1.
  unfoldable pub session_from : ℕ → ℕ → Tasks → ℕ
  session_from zero pgrp task = neg 1
  session_from (suc i) pgrp task =
      let rest = session_from i pgrp task in
      if (at (task (suc i))).pgrp == pgrp then (at (task (suc i))).session else rest

  unfoldable pub session_of_pgrp : ℕ → Tasks → ℕ
  session_of_pgrp pgrp task = session_from (nr_tasks - 1) pgrp task

  -- What is kept over the loop of `kill_pg`: `retval` and `found`.
  abbrev pub count : ℕ → ℕ × ℕ → ℕ × ℕ
  count err (retval, found) = if err != 0 then (err, found) else (retval, found + 1)

  pub kill_from : ℕ → ℕ → ℕ → ℕ → ℕ × ℕ → Kernel → (ℕ × ℕ) × Kernel
  kill_from zero pgrp sig priv kept k = (kept, k)
  kill_from (suc i) pgrp sig priv kept k =
      let r = send_sig sig (suc i) priv k in
      let sent = kill_from i pgrp sig priv (count r.0 kept) r.1 in
      let skipped = kill_from i pgrp sig priv kept k in
      if (at (k.task (suc i))).pgrp == pgrp then sent else skipped

  pub kill_pg : ℕ → ℕ → ℕ → Kernel → ℕ × Kernel
  kill_pg pgrp sig priv k =
      let r = kill_from (nr_tasks - 1) pgrp sig priv (neg esrch, 0) k in
      if int_lt sig 1 || int_lt 32 sig || int_le pgrp 0
      then (neg einval, k)
      else (if r.0.1 != 0 then 0 else r.0.0, r.1)

  unfoldable pub kill_first : ℕ → ℕ → ℕ → ℕ → Kernel → ℕ × Kernel
  kill_first zero pid sig priv k = (neg esrch, k)
  kill_first (suc i) pid sig priv k =
      let rest = kill_first i pid sig priv k in
      if (at (k.task (suc i))).pid == pid then send_sig sig (suc i) priv k else rest

  unfoldable pub kill_proc : ℕ → ℕ → ℕ → Kernel → ℕ × Kernel
  kill_proc pid sig priv k =
      if int_lt sig 1 || int_lt 32 sig
      then (neg einval, k)
      else kill_first (nr_tasks - 1) pid sig priv k

  -- `retval` is the last error.
  unfoldable pub kill_all : ℕ → ℕ → ℕ → Kernel → ℕ × Kernel
  kill_all zero sig retval k = (retval, k)
  kill_all (suc i) sig retval k =
      let r = send_sig sig (suc i) 0 k in kill_all i sig (if r.0 != 0 then r.0 else retval) r.1

  unfoldable pub sys_kill : ℕ → ℕ → Kernel → ℕ × Kernel
  sys_kill pid sig k =
      if pid == 0
      then kill_pg (current k).pid sig 0 k
      else if pid == neg 1
      then kill_all (nr_tasks - 1) sig 0 k
      else if is_negative pid
      then kill_pg (word_sub 0 pid) sig 0 k
      else kill_proc pid sig 0 k

  abbrev pub parent : Tasks → Task → Task
  parent task t = elim t.p_pptr [ none ↦ at_null | some p ↦ at (task p) ]

  -- A task that links the group to another one of its session.
  abbrev pub links : Tasks → ℕ → Task → Bool
  links task pgrp t =
      (t.pgrp == pgrp)
      && (t.state != task_zombie)
      && ((parent task t).pid != 1)
      && ((parent task t).pgrp != pgrp)
      && ((parent task t).session == t.session)

  pub orphaned_from : ℕ → ℕ → Tasks → ℕ
  orphaned_from zero pgrp task = 1
  orphaned_from (suc i) pgrp task =
      let rest = orphaned_from i pgrp task in
      elim (task (suc i)) [ none ↦ rest | some t ↦ if links task pgrp t then 0 else rest ]

  pub is_orphaned_pgrp : ℕ → Tasks → ℕ
  is_orphaned_pgrp pgrp task = orphaned_from (nr_tasks - 1) pgrp task

  unfoldable pub stopped_from : ℕ → ℕ → Tasks → ℕ
  stopped_from zero pgrp task = 0
  stopped_from (suc i) pgrp task =
      let rest = stopped_from i pgrp task in
      let t = at (task (suc i)) in
      if t.pgrp != pgrp then rest else if t.state == task_stopped then 1 else rest

  unfoldable pub has_stopped_jobs : ℕ → Tasks → ℕ
  has_stopped_jobs pgrp task = stopped_from (nr_tasks - 1) pgrp task
