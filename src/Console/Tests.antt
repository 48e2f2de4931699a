-- ===== src/Console/Tests.antt =====
-- The first console as `con_init` sets it up, and a terminal on it.
use linux_0_12_study.Base.{[], arith, false, get_or, if◌then◌else◌, refl, true, ℕ, ◌==◌, ◌∷◌, ◌≤◌}
use linux_0_12_study.Tty.{Queue, Tty}
use linux_0_12_study.Tty.Cooked.{copy_to_cooked}
use linux_0_12_study.Tty.Edit.{Cooked}
use linux_0_12_study.Tty.Loop.{copy_to_cooked-Cooked}
use linux_0_12_study.Console.{Screen, con_init, con_write, scrup}
use linux_0_12_study.Console.Place.{IsConsole}
use linux_0_12_study.Console.Chars.{con_write-Written, Written}
use linux_0_12_study.Console.Scroll.{scrup-Scrolled, Scrolled}
use linux_0_12_study.Console.Start.{con_init-IsConsole}

-- The cursor is in the line below the first.
abbrev start : ℕ → Screen
start i = con_init 85 (λ a. 0) (λ r. 0) i

con_init-IsConsole_example :
    IsConsole (start 0).con
    × IsConsole (start 1).con
    × ((start 0).con.mem_end ≤ (start 1).con.mem_start)
con_init-IsConsole_example =
    con_init-IsConsole 85 0 1 (λ a. 0) (λ r. 0) (omega arith) (omega arith) (omega arith)

start-IsConsole : IsConsole (start 0).con
start-IsConsole =
    (con_init-IsConsole 85 0 1 (λ a. 0) (λ r. 0) (omega arith) (omega arith) (omega arith)).0

abbrev no_chars : Queue
no_chars = record { lines = 0; head = 0; tail = 0; buf = λ i. 0 }

-- Canonical mode with echo; a and a newline wait to be read, and A, a newline and B to be written.
abbrev typed : Tty
typed = record {
  termios = record {
    c_iflag = 256;
    c_oflag = 5;
    c_cflag = 0;
    c_lflag = 11;
    c_line = 0;
    c_cc = λ k. get_or (3 ∷ 28 ∷ 127 ∷ 21 ∷ 4 ∷ []) k 0;
  };
  pgrp = 7;
  session = 7;
  stopped = 0;
  has_queues = true;
  read_q = record { lines = 0; head = 2; tail = 0; buf = λ i. if i == 0 then 97 else 10 };
  write_q = record { lines = 0; head = 3; tail = 0; buf = λ i. get_or (65 ∷ 10 ∷ 66 ∷ []) i 0 };
  secondary = no_chars;
  killed = [];
}

con_write-Written_example : Written 0 0 (start 0) typed (con_write 0 0 (start 0) typed)
con_write-Written_example = con_write-Written 0 0 (start 0) typed start-IsConsole

scrup-Scrolled_example : Scrolled (start 0) (scrup 0 0 (start 0))
scrup-Scrolled_example = scrup-Scrolled 0 0 (start 0) start-IsConsole

-- The driver of the terminal is `con_write`.
copy_to_cooked-Cooked_example :
    Cooked typed (copy_to_cooked (λ t. (con_write 0 0 (start 0) t).1) (λ g. false) typed)
copy_to_cooked-Cooked_example =
    copy_to_cooked-Cooked (λ t. (con_write 0 0 (start 0) t).1) (λ g. false)
      (λ t. (con_write-Written 0 0 (start 0) t start-IsConsole).1) typed refl
      (record { head_range = omega arith; tail_range = omega arith })
      (record { head_range = omega arith; tail_range = omega arith }) (omega arith)
