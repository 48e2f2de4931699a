-- ===== src/Files.antt =====
-- The open files of a task: `dupfd`, `sys_dup2`, `sys_dup` and `sys_fcntl` of ver05/fs/fcntl.c and
-- `sys_close` of ver05/fs/open.c. A pointer into `file_table` is the
-- slot's number. `iputs` logs the calls `iput(filp->f_inode)`, newest first: what they do to the
-- inodes is not modelled.
pub mod Dup
mod Tests
use linux_0_12_study.Base.{
  List, Option, if◌then◌else◌, is_some, leb, map, neg, none, some, suc, zero, ℕ, ◌!=◌, ◌%◌, ◌+◌,
  ◌-◌, ◌==◌, ◌^◌, ◌∷◌,
}
use mathlib.Core.Option
use linux_0_12_study.Base.Bits.{bit, set_bit, clear_bit, bit_and, bit_or, bit_and_not}
use linux_0_12_study.Ids.{einval}

abbrev pub nr_open : ℕ
nr_open = 20

abbrev pub ebadf : ℕ
ebadf = 9

abbrev pub emfile : ℕ
emfile = 24

-- O_APPEND | O_NONBLOCK
abbrev pub settable : ℕ
settable = 0x400 + 0x800

-- `struct file`
pub record File : Type 0 where
  pub f_mode : ℕ
  pub f_flags : ℕ
  pub f_count : ℕ
  pub f_inode : ℕ
  pub f_pos : ℕ

pub record Files : Type 0 where
  pub filp : ℕ → Option ℕ
  pub close_on_exec : ℕ
  pub file_table : ℕ → File
  pub iputs : List ℕ

abbrev pub put_filp : Files → ℕ → Option ℕ → Files
put_filp s fd p = record s { filp = λ i. if fd == i then p else s.filp i }

abbrev pub put_file : Files → ℕ → File → Files
put_file s j f = record s { file_table = λ i. if j == i then f else s.file_table i }

-- `f_count` is an `unsigned short`.
abbrev pub add_count : Files → ℕ → ℕ → Files
add_count s j n =
    put_file s j (record (s.file_table j) { f_count = ((s.file_table j).f_count + n) % 2 ^ 16 })

-- `while (arg < NR_OPEN) if (current->filp[arg]) arg++; else break;`, with the rounds that are left
pub next_free : ℕ → (ℕ → Option ℕ) → ℕ → ℕ
next_free zero filp arg = arg
next_free (suc rounds) filp arg =
    let rest = next_free rounds filp (arg + 1) in if is_some (filp arg) then rest else arg

-- To the descriptor `to`, which is free.
abbrev pub dup_to : Files → ℕ → ℕ → Files
dup_to s to j =
    put_filp (add_count (record s { close_on_exec = clear_bit s.close_on_exec to }) j 1) to (some j)

abbrev pub dup_file : ℕ → Files → Option ℕ → ℕ × Files
dup_file arg s none = (neg ebadf, s)
dup_file arg s (some j) =
    let to = next_free (nr_open - arg) s.filp arg in
    if leb nr_open arg
    then (neg einval, s)
    else if leb nr_open to
    then (neg emfile, s)
    else (to, dup_to s to j)

pub dupfd : ℕ → ℕ → Files → ℕ × Files
dupfd fd arg s = if leb nr_open fd then (neg ebadf, s) else dup_file arg s (s.filp fd)

-- `none` is the panic "Close: file count is 0".
abbrev pub close_file : ℕ → Files → Option ℕ → Option (ℕ × Files)
close_file fd s none = some (neg einval, s)
close_file fd s (some j) =
    let f = s.file_table j in
    let closed = add_count (put_filp s fd none) j (2 ^ 16 - 1) in
    if f.f_count == 0
    then none
    else if f.f_count != 1
    then some (0, closed)
    else some (0, record closed { iputs = f.f_inode ∷ s.iputs })

pub sys_close : ℕ → Files → Option (ℕ × Files)
sys_close fd s =
    if leb nr_open fd
    then some (neg einval, s)
    else close_file fd (record s { close_on_exec = clear_bit s.close_on_exec fd }) (s.filp fd)

pub sys_dup2 : ℕ → ℕ → Files → Option (ℕ × Files)
sys_dup2 oldfd newfd s = Option.map (λ r. dupfd oldfd newfd r.1) (sys_close newfd s)

unfoldable pub sys_dup : ℕ → Files → ℕ × Files
sys_dup fildes s = dupfd fildes 0 s

abbrev pub fcntl_file : ℕ → ℕ → ℕ → Files → Option ℕ → ℕ × Files
fcntl_file fd cmd arg s none = (neg ebadf, s)
fcntl_file fd cmd arg s (some j) =
    let f = s.file_table j in
    if cmd == 0
    then dupfd fd arg s
    else if cmd == 1
    then (bit s.close_on_exec fd, s)
    else if cmd == 2
    then (
      0,
      record s {
        close_on_exec =
            if arg % 2 == 1 then set_bit s.close_on_exec fd else clear_bit s.close_on_exec fd;
      },
    )
    else if cmd == 3
    then (f.f_flags, s)
    else if cmd == 4
    then (
      0,
      put_file s j (record f {
        f_flags = bit_or 16 (bit_and_not 16 f.f_flags settable) (bit_and 16 arg settable);
      }),
    )
    else (neg 1, s)

unfoldable pub sys_fcntl : ℕ → ℕ → ℕ → Files → ℕ × Files
sys_fcntl fd cmd arg s =
    if leb nr_open fd then (neg ebadf, s) else fcntl_file fd cmd arg s (s.filp fd)
