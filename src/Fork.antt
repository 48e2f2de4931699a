-- ===== src/Fork.antt =====
-- The family of a task: `find_empty_process` and `copy_process` of ver05/kernel/fork.c, and `release`,
-- `sys_exit` and `sys_waitpid` of ver05/kernel/exit.c. The children of a task are a list: `p_cptr` is
-- the youngest, `p_osptr` leads to the next older and `p_ysptr` to the next younger one.
pub mod Codes
pub mod Pids
pub mod Siblings
mod Tests
use linux_0_12_study.Base.{
  Bool, Option, false, if◌then◌else◌, int_lt, is_negative, map, neg, none, not, some, suc, true,
  word, word_sub, zero, ℕ, ◌!=◌, ◌%◌, ◌&&◌, ◌*◌, ◌+◌, ◌-◌, ◌/◌, ◌==◌, ◌^◌, ◌||◌,
}
use mathlib.Core.Option
use linux_0_12_study.Base.Bits.{set_bit, clear_bit, bit_and_not}
use linux_0_12_study.Task.{Task, Tasks, Kernel, put, nr_tasks}

abbrev pub eagain : ℕ
eagain = 11

-- for(i=0 ; i<NR_TASKS ; i++): is the number a pid or a group, in one of the last n slots?
abbrev pub uses : ℕ → Option Task → Bool
uses pid none = false
uses pid (some t) = (t.pid == pid) || (t.pgrp == pid)

unfoldable pub taken_from : ℕ → ℕ → Tasks → Bool
taken_from zero pid task = false
taken_from (suc n) pid task = uses pid (task (nr_tasks - suc n)) || taken_from n pid task

-- if ((++last_pid)<0) last_pid=1
abbrev pub next_pid : ℕ → ℕ
next_pid last_pid = if is_negative (word (last_pid + 1)) then 1 else word (last_pid + 1)

-- `repeat`, on fuel: the new `last_pid`
unfoldable pub find_pid : ℕ → ℕ → Tasks → Option ℕ
find_pid zero last_pid task = none
find_pid (suc fuel) last_pid task =
    let pid = next_pid last_pid in
    let again = find_pid fuel pid task in if taken_from nr_tasks pid task then again else some pid

-- if (!task[i]) return i
abbrev pub slot_or : Option Task → ℕ → ℕ → ℕ
slot_or none i rest = i
slot_or (some t) i rest = rest

-- for(i=1 ; i<NR_TASKS ; i++): the first free slot, in the last n
unfoldable pub free_slot : ℕ → Tasks → ℕ
free_slot zero task = neg eagain
free_slot (suc n) task =
    let rest = free_slot n task in slot_or (task (nr_tasks - suc n)) (nr_tasks - suc n) rest

-- `last_pid` and the result
unfoldable pub find_empty_process : ℕ → ℕ → Tasks → Option (ℕ × ℕ)
find_empty_process fuel last_pid task =
    Option.map (λ pid. (pid, free_slot (nr_tasks - 1) task)) (find_pid fuel last_pid task)

-- A field of the task that a pointer leads to.
abbrev pub at_pointer : Option ℕ → (Task → Task) → Tasks → Tasks
at_pointer none f task = task
at_pointer (some i) f task = λ j. if i == j then Option.map f (task j) else task j

-- The end of `copy_process`: p becomes the youngest child of the current task; `older` is
-- current->p_cptr.
unfoldable pub link_child : ℕ → ℕ → Option ℕ → Task → Tasks → Tasks
link_child nr current older p task =
    let born = put task nr (record p {
      p_pptr = some current;
      p_cptr = none;
      p_ysptr = none;
      p_osptr = older;
      state = 0;
    }) in
    let linked = at_pointer older (λ o. record o { p_ysptr = some nr }) born in
    at_pointer (some current) (λ t. record t { p_cptr = some nr }) linked

-- The copy of the structure, with the fields that `copy_process` sets before the memory is copied.
abbrev pub child_of : Kernel → ℕ → Task → Task
child_of k last_pid me = record me {
  state = 2;
  pid = last_pid;
  counter = me.priority;
  signal = 0;
  alarm = 0;
  leader = 0;
  utime = 0;
  stime = 0;
  cutime = 0;
  cstime = 0;
  start_time = k.jiffies;
}

-- `has_page` is whether `get_free_page` gives a page for the structure, and `copies` whether `copy_mem`
-- copies the memory. The saved registers and the counts of files and inodes are not part of it.
unfoldable pub copy_process : Bool → Bool → ℕ → ℕ → Task → Kernel → ℕ × Kernel
copy_process has_page copies nr last_pid me k =
    if not has_page
    then (neg eagain, k)
    else if not copies
    then (neg eagain, record k { task = λ i. if i == nr then none else k.task i })
    else (
      last_pid,
      record k { task = link_child nr k.current me.p_cptr (child_of k last_pid me) k.task },
    )

-- The links that `release` takes p out of, and its slot.
unfoldable pub unlink : ℕ → Task → Tasks → Tasks
unlink p t task =
    let gone : Tasks = λ i. if i == p then none else task i in
    let older = at_pointer t.p_osptr (λ o. record o { p_ysptr = t.p_ysptr }) gone in
    elim t.p_ysptr [
      | none ↦ at_pointer t.p_pptr (λ r. record r { p_cptr = t.p_osptr }) older
      | some y ↦ at_pointer (some y) (λ s. record s { p_osptr = t.p_osptr }) older
    ]

-- Does the first argument of `sys_waitpid` mean this child?
abbrev pub is_waited : ℕ → Task → Task → Bool
is_waited pid me t =
    if int_lt 0 pid
    then t.pid == pid
    else if pid == 0
    then t.pgrp == me.pgrp
    else if pid != neg 1
    then t.pgrp == word_sub 0 pid
    else true

-- What the loop over the children finds: nothing, with `flag`, or a child to report.
pub data Event : Type 0 where
  nothing : ℕ → Event
  stopped : ℕ → Event
  zombie : ℕ → Event

-- WUNTRACED is 2.
abbrev pub is_reported : ℕ → Task → Bool
is_reported options t = (options / 2 % 2 != 0) && (t.exit_code != 0)

-- What the body of the loop does with a child: it ends the loop, or goes on with this `flag`.
pub data Verdict : Type 0 where
  reports : Event → Verdict
  goes_on : ℕ → Verdict

unfoldable pub verdict : ℕ → ℕ → Task → ℕ → ℕ → Task → Verdict
verdict pid options me i flag t =
    if not (is_waited pid me t)
    then goes_on flag
    else if t.state == 4
    then if is_reported options t then reports (stopped i) else goes_on flag
    else if t.state == 3
    then reports (zombie i)
    else goes_on 1

abbrev pub follow : Verdict → (ℕ → Option Event) → Option Event
follow (reports e) next = some e
follow (goes_on flag) next = next flag

-- for (p = current->p_cptr ; p ; p = p->p_osptr), on fuel; `none` is also a pointer to no task
unfoldable pub scan : ℕ → ℕ → ℕ → Task → Tasks → Option ℕ → ℕ → Option Event
scan zero pid options me task p flag = none
scan (suc fuel) pid options me task none flag = some (nothing flag)
scan (suc fuel) pid options me task (some i) flag = elim (task i) [
  | none ↦ none
  | some t ↦
      follow (verdict pid options me i flag t) (λ f. scan fuel pid options me task t.p_osptr f)
]

-- The result of `sys_waitpid`, and what it stores at the address.
pub record Waited : Type 0 where
  pub result : ℕ
  pub status : Option ℕ
  pub kernel : Kernel

abbrev pub echild : ℕ
echild = 10

-- `release` of another task, up to its call of `schedule`
abbrev pub release : ℕ → Task → Kernel → Kernel
release p t k = if p == k.current then k else record k { task = unlink p t k.task }

-- The child's time is added to the parent's, and the child is gone.
unfoldable pub reap : ℕ → Task → Task → Kernel → Kernel
reap i t me k = release i t (record k {
  task =
      put k.task k.current
        (record me { cutime = word (me.cutime + t.utime); cstime = word (me.cstime + t.stime) });
})

-- SIGCHLD is 17. Asleep, with that signal let through; `others` runs until the task goes on.
abbrev pub wait_child : (Kernel → Kernel) → Task → Kernel → Kernel
wait_child others me k =
    let asleep = record k {
      task = put k.task k.current (record me { state = 1; blocked = clear_bit me.blocked 16 });
    } in
    let awake = others asleep in
    record awake {
      task = λ j.
          if k.current == j
          then Option.map {A = Task} (λ t. record t { blocked = me.blocked }) (awake.task j)
          else awake.task j;
    }

abbrev pub other_signal : Task → Bool
other_signal t = bit_and_not 32 t.signal (set_bit t.blocked 16) != 0

abbrev pub is_interrupted : Option Task → Bool
is_interrupted none = false
is_interrupted (some t) = other_signal t

-- `repeat`, on fuel; `schedule` in `release` lets others run too
unfoldable pub sys_waitpid : (Kernel → Kernel) → ℕ → ℕ → ℕ → Kernel → Option Waited
sys_waitpid others zero pid options k = none
sys_waitpid others (suc fuel) pid options k = elim (k.task k.current) [
  | none ↦ none
  | some me ↦ elim (scan (suc nr_tasks) pid options me k.task me.p_cptr 0) [
    | none ↦ none
    | some e ↦ elim e [
      | stopped i ↦ elim (k.task i) [
        | none ↦ none
        | some t ↦ some (record {
          result = t.pid;
          status = some (word (t.exit_code * 2 ^ 8) + 127);
          kernel = record k { task = put k.task i (record t { exit_code = 0 }) };
        })
      ]
      | zombie i ↦ elim (k.task i) [
        | none ↦ none
        | some t ↦
            some (record {
              result = t.pid;
              status = some t.exit_code;
              kernel = others (reap i t me k);
            })
      ]
      | nothing flag ↦
          let awake = wait_child others me k in
          let again = sys_waitpid others fuel pid options awake in
          if flag == 0
          then some (record { result = neg echild; status = none; kernel = k })
          else if options % 2 != 0
          then some (record { result = 0; status = none; kernel = k })
          else if is_interrupted (awake.task k.current)
          then some (record { result = neg 512; status = none; kernel = awake })
          else again
    ]
  ]
]
