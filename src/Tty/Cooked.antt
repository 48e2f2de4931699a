-- ===== src/Tty/Cooked.antt =====
-- `copy_to_cooked` of ver05/kernel/chr_drv/tty_io.c: from the read queue to the secondary queue.
-- `tty` is the terminal, `write` its driver, and `is_orphaned_pgrp` the test of ver05/kernel/exit.c.
use linux_0_12_study.Base.{
  Bool, Option, if◌then◌else◌, leb, ltb, none, some, suc, word, zero, ℕ, ◌%◌, ◌&&◌, ◌+◌, ◌==◌, ◌||◌,
  ◌∷◌,
}
use linux_0_12_study.Tty.{
  Queue, Termios, i_uclc, is_cc, Tty, l_isig, i_crnl, veof, empty, vintr, l_echo, dec, last, putch,
  l_canon, getch, tty_buf_size, i_nocr, vquit, l_echoctl, vkill, full, i_nlcr, vsusp, verase,
  i_ixon, vstop, vstart,
}

-- `tolower` on a `char`
unfoldable pub tolower : ℕ → ℕ
tolower c = if leb 65 c && leb c 90 then c + 32 else c

-- The changes of carriage return, newline and case; `none` is a character that is ignored.
unfoldable pub input_char : Termios → ℕ → Option ℕ
unfolding tolower
input_char t c =
    let lower = λ (d : ℕ). if i_uclc t then tolower d else d in
    if c == 13
    then if i_crnl t then some (lower 10) else if i_nocr t then none else some (lower 13)
    else if (c == 10) && i_nlcr t
    then some (lower 13)
    else some (lower c)

-- Does the character end a line?
abbrev pub ends_line : Termios → ℕ → Bool
ends_line t c = (c == 10) || is_cc t veof c

-- `c<32` on a `char`
abbrev pub is_control : ℕ → Bool
is_control c = ltb c 32 || leb 128 c

-- No character to erase: the queue is empty, or its last character ends a line.
abbrev pub at_start : Tty → Bool
at_start tty = empty tty.secondary || ends_line tty.termios (last tty.secondary)

-- What a character asks for.
pub data Action : Type 0 where
  kills : Action
  erases : Action
  stops : Action
  starts : Action
  signals : ℕ → Action
  accepts : Action

-- `KILL_CHAR` and `ERASE_CHAR` in canonical mode, `STOP_CHAR` and `START_CHAR` with IXON, `INTR_CHAR`,
-- `QUIT_CHAR` and `SUSPEND_CHAR` with ISIG, tested in this order
unfoldable pub action_of : Termios → ℕ → Action
action_of t c =
    if l_canon t && is_cc t vkill c
    then kills
    else if l_canon t && is_cc t verase c
    then erases
    else if i_ixon t && is_cc t vstop c
    then stops
    else if i_ixon t && is_cc t vstart c
    then starts
    else if l_isig t && is_cc t vintr c
    then signals 2
    else if l_isig t && is_cc t vquit c
    then signals 3
    else if l_isig t && is_cc t vsusp c
    then signals 20
    else accepts

-- What is put into the write queue when c is erased, and when c is accepted.
abbrev pub rubbed_out : ℕ → Queue → Queue
rubbed_out c q = putch 127 (if is_control c then putch 127 q else q)

abbrev pub echoed : Termios → ℕ → Queue → Queue
echoed t c q =
    if c == 10
    then putch 13 (putch 10 q)
    else if is_control c
    then if l_echoctl t then putch ((c + 64) % 256) (putch 94 q) else q
    else putch c q

module _ (write : Tty → Tty) (is_orphaned_pgrp : ℕ → Bool) where
  -- The character c has been rubbed out on the screen, if it is echoed.
  abbrev pub echo_erase : ℕ → Tty → Tty
  echo_erase c tty =
      if l_echo tty.termios then write (record tty { write_q = rubbed_out c tty.write_q }) else tty

  -- DEC(tty->secondary->head)
  abbrev pub drop_last : Tty → Tty
  drop_last tty = record tty { secondary = record tty.secondary { head = dec tty.secondary.head } }

  -- while(!(EMPTY(tty->secondary) || ...)): the input line is killed
  unfoldable pub kill_line : ℕ → Tty → Tty
  kill_line zero tty = tty
  kill_line (suc fuel) tty =
      let next = kill_line fuel (drop_last (echo_erase (last tty.secondary) tty)) in
      if at_start tty then tty else next

  unfoldable pub erase_char : Tty → Tty
  erase_char tty = if at_start tty then tty else drop_last (echo_erase (last tty.secondary) tty)

  abbrev pub echo : ℕ → Tty → Tty
  echo c tty =
      if l_echo tty.termios
      then write (record tty { write_q = echoed tty.termios c tty.write_q })
      else tty

  -- the line counter, the echo and the character itself
  unfoldable pub accept : ℕ → Tty → Tty
  accept c tty =
      let counted =
        if ends_line tty.termios c
        then record tty {
          secondary = record tty.secondary { lines = word (tty.secondary.lines + 1) };
        }
        else tty in
      let shown = echo c counted in record shown { secondary = putch c shown.secondary }

  abbrev pub send : ℕ → Tty → Tty
  send sig tty =
      if (sig == 20) && is_orphaned_pgrp tty.pgrp
      then tty
      else record tty { killed = (tty.pgrp, sig) ∷ tty.killed }

  unfoldable pub perform : Action → ℕ → Tty → Tty
  unfolding kill_line erase_char accept
  perform kills c tty = kill_line tty_buf_size tty
  perform erases c tty = erase_char tty
  perform stops c tty = write (record tty { stopped = 1 })
  perform starts c tty = write (record tty { stopped = 0 })
  perform (signals sig) c tty = send sig tty
  perform accepts c tty = accept c tty

  -- What is done with a character after its changes.
  unfoldable pub cook : ℕ → Tty → Tty
  unfolding action_of perform
  cook c tty = perform (action_of tty.termios c) c tty

  abbrev pub cook_or_skip : Option ℕ → Tty → Tty
  cook_or_skip none tty = tty
  cook_or_skip (some c) tty = cook c tty

  -- A round: GETCH and the rest of the body.
  abbrev pub take_char : Tty → Tty
  take_char tty =
      let (c, q) = getch tty.read_q in
      cook_or_skip (input_char tty.termios c) (record tty { read_q = q })

  -- while (1)
  unfoldable pub copy_loop : ℕ → Tty → Tty
  copy_loop zero tty = tty
  copy_loop (suc fuel) tty =
      let next = copy_loop fuel (take_char tty) in
      if empty tty.read_q || full tty.secondary then tty else next

  unfoldable pub copy_to_cooked : Tty → Tty
  copy_to_cooked tty = if tty.has_queues then copy_loop tty_buf_size tty else tty
