-- ===== src/Handlers.antt =====
-- Signal masks and handlers: ver05/kernel/signal.c, and the delivery of a signal at the end of
-- ver05/kernel/sys_call.s's `ret_from_sys_call`. The calls act on the running task; the words of a user's
-- `struct sigaction` are an argument. `do_signal` also writes to the stack of the user and to the task
-- of the parent.
pub mod Escape
pub mod Frame
mod Tests
use linux_0_12_study.Base.{
  Bool, List, Option, [], if◌then◌else◌, int_le, int_lt, neg, none, set, some, suc, word_sub, zero,
  ℕ, ◌!=◌, ◌&&◌, ◌*◌, ◌+◌, ◌-◌, ◌==◌, ◌||◌, ◌∷◌,
}
use linux_0_12_study.Base.Bits.{bit, set_bit, clear_bit, bit_and, bit_and_not, bit_or}
use linux_0_12_study.Task.{Task, Sigaction, task_interruptible, task_stopped}
use linux_0_12_study.Ids.{einval}
use linux_0_12_study.Signals.{sigkill, sigcont, sigstop, sigttou}
use linux_0_12_study.Pipe.{erestartsys}

abbrev pub eintr : ℕ
eintr = 4

abbrev pub erestartnointr : ℕ
erestartnointr = 513

abbrev pub sigchld : ℕ
sigchld = 17

-- The flags SA_NOCLDSTOP, SA_INTERRUPT, SA_NOMASK and SA_ONESHOT are the bits 0, 29, 30 and 31.
abbrev pub has_flag : ℕ → Sigaction → Bool
has_flag k sa = bit sa.sa_flags k == 1

unfoldable pub sys_sgetmask : Task → ℕ × Task
sys_sgetmask t = (t.blocked, t)

pub sys_ssetmask : ℕ → Task → ℕ × Task
sys_ssetmask newmask t =
    (t.blocked, record t { blocked = clear_bit (clear_bit newmask (sigkill - 1)) (sigstop - 1) })

-- What is stored in the user's set.
unfoldable pub sys_sigpending : Task → ℕ
sys_sigpending t = bit_and 32 t.blocked t.signal

-- The result, the words `restart` and `old_mask` of the caller, and the task. When it does not
-- restart the task has gone to sleep.
unfoldable pub sys_sigsuspend : ℕ → ℕ → ℕ → Task → ℕ × ℕ × ℕ × Task
sys_sigsuspend restart old_mask set t =
    if restart != 0
    then (neg eintr, restart, old_mask, record t { blocked = old_mask })
    else (neg erestartnointr, 1, t.blocked, record t { blocked = set; state = task_interruptible })

abbrev pub put_action : Task → ℕ → Sigaction → Task
put_action t i sa = record t { sigaction = λ j. if i == j then sa else t.sigaction j }

-- The action that is kept for the signal.
abbrev pub masked : ℕ → Sigaction → Sigaction
masked signum sa = record sa {
  sa_mask = if has_flag 30 sa then 0 else set_bit sa.sa_mask (signum - 1);
}

-- The result, the old action as far as it is asked for, and the task.
pub sys_sigaction : ℕ → Sigaction → Bool → Task → ℕ × Option Sigaction × Task
sys_sigaction signum action oldaction t =
    if int_lt signum 1 || int_lt 32 signum || (signum == sigkill) || (signum == sigstop)
    then (neg einval, none, t)
    else (
      0,
      if oldaction then some (t.sigaction (signum - 1)) else none,
      put_action t (signum - 1) (masked signum action),
    )

-- The registers of the interrupted program.
pub record Regs : Type 0 where
  pub eax : ℕ
  pub ecx : ℕ
  pub edx : ℕ
  pub orig_eax : ℕ
  pub eip : ℕ
  pub eflags : ℕ
  pub esp : ℕ

pub record Machine : Type 0 where
  pub task : Task
  pub parent : Task
  pub regs : Regs
  -- words of the user's memory, by address
  pub user : ℕ → ℕ

-- The result of `do_signal`, 1 or 0, with the state after it, or the code that `do_exit` is given.
pub data Outcome : Type 0 where
  next_signal : Machine → Outcome
  handle : Machine → Outcome
  exits : ℕ → Outcome

-- A system call that is to be restarted: it fails with EINTR, or its `int 0x80` is run again.
unfoldable pub restart_call : ℕ → Sigaction → Regs → Regs
restart_call signr sa r =
    let wanted = (r.eax == neg erestartsys) || (r.eax == neg erestartnointr) in
    let broken =
      (r.eax == neg erestartsys)
      && (has_flag 29 sa || int_lt signr sigcont || int_lt sigttou signr) in
    if (r.orig_eax != neg 1) && wanted
    then (if broken
        then record r { eax = neg eintr }
        else record r { eax = r.orig_eax; eip = word_sub r.eip 2 })
    else r

-- Without a handler. `core_dump` returns 0.
pub default_action : ℕ → Machine → Outcome
default_action signr m =
    let stopped = record (m.task) { state = task_stopped; exit_code = signr } in
    let tell = record (m.parent) { signal = set_bit m.parent.signal (sigchld - 1) } in
    if (signr == sigcont) || (signr == sigchld)
    then next_signal m
    else if int_le sigstop signr && int_le signr sigttou
    then next_signal (record m {
      task = stopped;
      parent = if has_flag 0 (m.parent.sigaction (sigchld - 1)) then m.parent else tell;
    })
    else exits signr

-- Words on the stack, from the address up.
abbrev pub push_words : (ℕ → ℕ) → ℕ → List ℕ → ℕ → ℕ
push_words user esp [] = user
push_words user esp (w ∷ ws) = λ a. if a == esp then w else push_words user (esp + 4) ws a

-- The words that the restorer takes off the stack again.
abbrev pub frame : ℕ → Sigaction → ℕ → Regs → List ℕ
frame signr sa blocked r =
    let rest = r.eax ∷ r.ecx ∷ r.edx ∷ r.eflags ∷ r.eip ∷ [] in
    sa.sa_restorer ∷ signr ∷ (if has_flag 30 sa then rest else blocked ∷ rest)

-- The call of the handler: `SA_ONESHOT` takes it off, and the mask is added to the blocked signals.
pub call_handler : ℕ → Sigaction → Machine → Machine
call_handler signr sa m =
    let longs = if has_flag 30 sa then 7 else 8 in
    let sa₁ = if has_flag 31 sa then record sa { sa_handler = 0 } else sa in
    let t = put_action m.task (signr - 1) sa₁ in
    let esp = word_sub m.regs.esp (longs * 4) in
    record m {
      task = record t { blocked = bit_or 32 t.blocked sa.sa_mask };
      regs = record (m.regs) { eip = sa.sa_handler; esp = esp };
      user = push_words m.user esp (frame signr sa m.task.blocked m.regs);
    }

pub do_signal : ℕ → Machine → Outcome
do_signal signr m =
    let sa = m.task.sigaction (signr - 1) in
    let m₁ = record m { regs = restart_call signr sa m.regs } in
    if sa.sa_handler == 1
    then next_signal m₁
    else if sa.sa_handler == 0
    then default_action signr m₁
    else handle (call_handler signr sa m₁)

-- bsfl: the lowest of `n` bits from bit k on that is set
unfoldable pub lowest_from : ℕ → ℕ → ℕ → Option ℕ
lowest_from zero k x = none
lowest_from (suc n) k x = if bit x k == 1 then some k else lowest_from n (suc k) x

-- btrl, and the call of `do_signal`; `none` is the return without a signal.
abbrev pub deliver : Machine → Option ℕ → Option Outcome
deliver m none = none
deliver m (some k) =
    some (
      do_signal (suc k)
        (record m { task = record (m.task) { signal = clear_bit m.task.signal k } }))

-- A return to a program, which task 0 is not: of the signals that are not blocked the lowest is taken
-- off and delivered.
pub ret_from_sys_call : Machine → Option Outcome
ret_from_sys_call m = deliver m (lowest_from 32 0 (bit_and_not 32 m.task.signal m.task.blocked))
