-- ===== src/Tty.antt =====
-- Terminals: the queues and the line editing of ver05/kernel/chr_drv/tty_io.c and
-- ver05/include/linux/tty.h. A `char` is a byte, a number below 256; where the code compares it as a
-- signed number, so does the model. The three pointers to queues are set together by `tty_init`:
-- `has_queues` says that they are not NULL. `write` is the driver's function in the structure. Calls
-- of `kill_pg` are recorded, and waking a reader changes nothing here.
pub mod Ring
pub mod Edit
pub mod Cooked
pub mod Step
pub mod Loop
pub mod Transfer
pub mod Send
mod Tests
use linux_0_12_study.Base.{Bool, List, if◌then◌else◌, ltb, word_sub, ℕ, ◌!=◌, ◌%◌, ◌&&◌, ◌+◌, ◌==◌}
use linux_0_12_study.Base.Bits.{bit}

abbrev pub tty_buf_size : ℕ
tty_buf_size = 1024

-- `struct tty_queue`, without the task that sleeps on it
pub record Queue : Type 0 where
  -- `data`, the number of lines in a secondary queue
  pub lines : ℕ
  pub head : ℕ
  pub tail : ℕ
  pub buf : ℕ → ℕ

-- the macros on queues
abbrev pub inc : ℕ → ℕ
inc a = (a + 1) % tty_buf_size

abbrev pub dec : ℕ → ℕ
dec a = word_sub a 1 % tty_buf_size

abbrev pub empty : Queue → Bool
empty q = q.head == q.tail

abbrev pub left : Queue → ℕ
left q = word_sub (word_sub q.tail q.head) 1 % tty_buf_size

abbrev pub last : Queue → ℕ
last q = q.buf (dec q.head)

abbrev pub full : Queue → Bool
full q = left q == 0

abbrev pub chars : Queue → ℕ
chars q = word_sub q.head q.tail % tty_buf_size

abbrev pub getch : Queue → ℕ × Queue
getch q = (q.buf q.tail, record q { tail = inc q.tail })

abbrev pub putch : ℕ → Queue → Queue
putch c q = record q { buf = λ i. if i == q.head then c else q.buf i; head = inc q.head }

-- `struct termios`
pub record Termios : Type 0 where
  pub c_iflag : ℕ
  pub c_oflag : ℕ
  pub c_cflag : ℕ
  pub c_lflag : ℕ
  pub c_line : ℕ
  pub c_cc : ℕ → ℕ

-- `struct tty_struct`, and the calls of `kill_pg` (group and signal), the last one first
pub record Tty : Type 0 where
  pub termios : Termios
  pub pgrp : ℕ
  pub session : ℕ
  pub stopped : ℕ
  pub has_queues : Bool
  pub read_q : Queue
  pub write_q : Queue
  pub secondary : Queue
  pub killed : List (ℕ × ℕ)

-- The flags `L_CANON`, `I_CRNL` and the others: bit k of a word of flags.
abbrev pub flag : ℕ → ℕ → Bool
flag w k = bit w k != 0

abbrev pub l_isig : Termios → Bool
l_isig t = flag t.c_lflag 0

abbrev pub l_canon : Termios → Bool
l_canon t = flag t.c_lflag 1

abbrev pub l_echo : Termios → Bool
l_echo t = flag t.c_lflag 3

abbrev pub l_echoctl : Termios → Bool
l_echoctl t = flag t.c_lflag 9

abbrev pub i_nlcr : Termios → Bool
i_nlcr t = flag t.c_iflag 6

abbrev pub i_nocr : Termios → Bool
i_nocr t = flag t.c_iflag 7

abbrev pub i_crnl : Termios → Bool
i_crnl t = flag t.c_iflag 8

abbrev pub i_uclc : Termios → Bool
i_uclc t = flag t.c_iflag 9

abbrev pub i_ixon : Termios → Bool
i_ixon t = flag t.c_iflag 10

-- Is c the control character number k, and is that one enabled? A `char` from 128 on is negative and
-- no `unsigned char` equals it.
abbrev pub is_cc : Termios → ℕ → ℕ → Bool
is_cc t k c = t.c_cc k != 0 && (ltb c 128 && (c == t.c_cc k))

abbrev pub vintr : ℕ
vintr = 0

abbrev pub vquit : ℕ
vquit = 1

abbrev pub verase : ℕ
verase = 2

abbrev pub vkill : ℕ
vkill = 3

abbrev pub veof : ℕ
veof = 4

abbrev pub vstart : ℕ
vstart = 8

abbrev pub vstop : ℕ
vstop = 9

abbrev pub vsusp : ℕ
vsusp = 10
