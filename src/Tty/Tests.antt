-- ===== src/Tty/Tests.antt =====
-- A terminal in canonical mode with characters that wait.
use linux_0_12_study.Base.{[], arith, false, get_or, if◌then◌else◌, refl, true, ◌==◌, ◌∷◌, ◌≡◌}
use linux_0_12_study.Base.Bits.{bit}
use linux_0_12_study.Tty.{Queue, Termios, Tty, bit}
use linux_0_12_study.Tty.Cooked.{
  copy_to_cooked, copy_loop, cook, perform, action_of, accept, erase_char, input_char, tolower,
}
use linux_0_12_study.Tty.Ring.{line}
use linux_0_12_study.Tty.Transfer.{fill_loop}
use linux_0_12_study.Tty.Send.{fill_loop-Filled, Filled, at}

-- The flags ICRNL, OPOST, ONLCR, ISIG, ICANON and ECHO, and the control characters of `tty_init`.
abbrev cooked_mode : Termios
cooked_mode = record {
  c_iflag = 256;
  c_oflag = 5;
  c_cflag = 0;
  c_lflag = 11;
  c_line = 0;
  c_cc = λ k. get_or (3 ∷ 28 ∷ 127 ∷ 21 ∷ 4 ∷ []) k 0;
}

abbrev no_chars : Queue
no_chars = record { lines = 0; head = 0; tail = 0; buf = λ i. 0 }

-- a, b, DEL and a carriage return
abbrev typed : Tty
typed = record {
  termios = cooked_mode;
  pgrp = 7;
  session = 7;
  stopped = 0;
  has_queues = true;
  read_q = record {
    lines = 0;
    head = 4;
    tail = 0;
    buf = λ i. get_or (97 ∷ 98 ∷ 127 ∷ 13 ∷ []) i 0;
  };
  write_q = no_chars;
  secondary = no_chars;
  killed = [];
}

-- The line is a and a newline, the latest first.
typed_run : line (copy_to_cooked (λ t. t) (λ g. false) typed).secondary ≡ 10 ∷ 97 ∷ []
unfolding copy_to_cooked copy_loop cook perform action_of accept erase_char input_char tolower bit
typed_run = refl

fill_loop-Filled_example :
    Filled cooked_mode
      (λ i. if i == 0 then 10 else 65)
      0
      2
      0
      no_chars
      (fill_loop cooked_mode (λ i. if i == 0 then 10 else 65) 1024 (at 0 2 0 no_chars))
fill_loop-Filled_example =
    fill_loop-Filled cooked_mode (λ i. if i == 0 then 10 else 65) 1024 0 2 0 no_chars
      (record { head_range = omega arith; tail_range = omega arith }) (omega arith) (omega arith)
      (omega arith)
