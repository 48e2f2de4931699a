-- ===== src/Tty/Transfer.antt =====
-- `tty_read`, `tty_write` and the sleeps of ver05/kernel/chr_drv/tty_io.c, for a channel up to 255
-- with queues. `others` is what other tasks and interrupts do while the task sleeps or has given up the
-- processor, and `write` the driver. The loops run on fuel.
use linux_0_12_study.Base.{
  Bool, List, Option, [], if◌then◌else◌, int_le, int_lt, leb, length, ltb, neg, none, not, some,
  suc, word, word_sub, zero, ℕ, ◌!=◌, ◌&&◌, ◌*◌, ◌+◌, ◌-◌, ◌==◌, ◌||◌, ◌∷◌,
}
use linux_0_12_study.Base.Bits.{bit_and_not}
use linux_0_12_study.Tty.{
  Tty, Termios, Queue, flag, putch, full, empty, tty_buf_size, getch, is_cc, left, veof, l_canon,
}
use linux_0_12_study.Tty.Cooked.{ends_line}

-- The terminal and what the code reads of the running task. `cr_flag` is static in `tty_write`.
pub record Caller : Type 0 where
  pub tty : Tty
  pub signal : ℕ
  pub blocked : ℕ
  pub timeout : ℕ
  pub jiffies : ℕ
  pub cr_flag : ℕ

abbrev pub l_tostop : Termios → Bool
l_tostop t = flag t.c_lflag 8

abbrev pub o_post : Termios → Bool
o_post t = flag t.c_oflag 0

abbrev pub o_lcuc : Termios → Bool
o_lcuc t = flag t.c_oflag 1

abbrev pub o_nlcr : Termios → Bool
o_nlcr t = flag t.c_oflag 2

abbrev pub o_crnl : Termios → Bool
o_crnl t = flag t.c_oflag 3

abbrev pub o_nlret : Termios → Bool
o_nlret t = flag t.c_oflag 5

unfoldable pub toupper : ℕ → ℕ
toupper c = if leb 97 c && leb c 122 then c - 32 else c

-- current->signal & ~current->blocked
abbrev pub is_signalled : Caller → Bool
is_signalled s = bit_and_not 32 s.signal s.blocked != 0

-- The position in the user's buffer (b - buf), what is left of it, `cr_flag` and the write queue.
pub record Output : Type 0 where
  pub done : ℕ
  pub nr : ℕ
  pub cr : ℕ
  pub queue : Queue

-- The changes of carriage return and newline on the way out.
abbrev pub output_char : Termios → ℕ → ℕ
output_char t c = if (c == 13) && o_crnl t then 10 else if (c == 10) && o_nlret t then 13 else c

-- A newline that a carriage return goes in front of first.
abbrev pub needs_cr : Termios → ℕ → ℕ → Bool
needs_cr t cr c = o_post t && ((output_char t c == 10) && ((cr == 0) && o_nlcr t))

-- What is put into the queue for c.
unfoldable pub posted_char : Termios → ℕ → ℕ
posted_char t c =
    if o_post t then if o_lcuc t then toupper (output_char t c) else output_char t c else c

-- A round of the inner loop, with the character c at b.
abbrev pub put_char : Termios → ℕ → Output → Output
put_char t c o =
    if needs_cr t o.cr c then record o { cr = 1; queue = putch 13 o.queue } else record {
      done = o.done + 1;
      nr = word_sub o.nr 1;
      cr = 0;
      queue = putch (posted_char t c) o.queue;
    }

-- while (nr>0 && !FULL(tty->write_q))
unfoldable pub fill_loop : Termios → (ℕ → ℕ) → ℕ → Output → Output
fill_loop t buf zero o = o
fill_loop t buf (suc fuel) o =
    let next = fill_loop t buf fuel (put_char t (buf o.done) o) in
    if int_le o.nr 0 || full o.queue then o else next

module _ (write : Tty → Tty) (others : Caller → Caller) where
  -- while (!(current->signal & ~current->blocked) && ...) interruptible_sleep_on(...)
  unfoldable pub sleep_while : (Caller → Bool) → ℕ → Caller → Option Caller
  sleep_while test zero s = none
  sleep_while test (suc fuel) s =
      let next = sleep_while test fuel (others s) in
      if not (is_signalled s) && test s then next else some s

  unfoldable pub sleep_if_empty : ℕ → Caller → Option Caller
  sleep_if_empty fuel s = sleep_while (λ r. empty r.tty.secondary) fuel s

  unfoldable pub sleep_if_full : ℕ → Caller → Option Caller
  sleep_if_full fuel s =
      if not (full s.tty.write_q)
      then some s
      else sleep_while (λ r. ltb (left r.tty.write_q) 128) fuel s

  abbrev pub with_output : Output → Caller → Caller
  with_output o s = record s { tty = write (record s.tty { write_q = o.queue }); cr_flag = o.cr }

  -- while (nr>0): sleep until there is room, fill the queue, start the driver, and let others run if
  -- something is left.
  unfoldable pub write_loop : ℕ → (ℕ → ℕ) → ℕ → ℕ → Caller → Option (ℕ × Caller)
  write_loop zero buf done nr s = none
  write_loop (suc fuel) buf done nr s =
      let again = λ (r : Caller).
        let o =
          fill_loop r.tty.termios buf tty_buf_size
            (record { done = done; nr = nr; cr = r.cr_flag; queue = r.tty.write_q }) in
        let r' = with_output o r in
        write_loop fuel buf o.done o.nr (if int_lt 0 o.nr then others r' else r') in
      if int_le nr 0 then some (done, s) else elim (sleep_if_full fuel s) [
        | none ↦ none
        | some r ↦ if is_signalled r then some (done, r) else again r
      ]

  unfoldable pub tty_write : ℕ → (ℕ → ℕ) → ℕ → Caller → Option (ℕ × Caller)
  tty_write fuel buf nr s = write_loop fuel buf 0 nr s

-- A reader: what has been put into the user's buffer (the last one first), what is left of nr, and
-- the secondary queue.
pub record Reader : Type 0 where
  pub out : List ℕ
  pub nr : ℕ
  pub queue : Queue

abbrev pub take_one : Termios → Reader → Reader
take_one t r =
    let (c, q) = getch r.queue in
    let q' = if ends_line t c then record q { lines = word_sub q.lines 1 } else q in
    if is_cc t veof c && l_canon t
    then record r { queue = q' }
    else record { out = c ∷ r.out; nr = word_sub r.nr 1; queue = q' }

-- The three `break`s of the inner loop, after the character c.
abbrev pub stops_reading : Termios → ℕ → Reader → Bool
stops_reading t c r =
    (is_cc t veof c && l_canon t) || ((r.nr == 0) || (((c == 10) && l_canon t) || empty r.queue))

-- do ... while (nr>0 && !EMPTY(tty->secondary))
unfoldable pub read_chars : Termios → ℕ → Reader → Reader
read_chars t zero r = r
read_chars t (suc fuel) r =
    let r' = take_one t r in
    let next = read_chars t fuel r' in
    if stops_reading t (r.queue.buf r.queue.tail) r' then r' else next

-- The time and the least number of characters of `tty_read`, and the timeout of the task.
unfoldable pub read_limits : ℕ → Caller → ℕ × ℕ × Caller
read_limits nr s =
    let t = s.tty.termios in
    let time = 10 * t.c_cc 5 in
    let minimum = t.c_cc 6 in
    if l_canon t
    then (0, nr, record s { timeout = 0xffffffff })
    else if minimum != 0
    then (time, if int_lt nr minimum then nr else minimum, record s { timeout = 0xffffffff })
    else (0, nr, if time != 0 then record s { timeout = word (time + s.jiffies) } else s)

module _ (others : Caller → Caller) where
  -- No characters to read yet.
  abbrev pub not_ready : Tty → Bool
  not_ready tty =
      empty tty.secondary
      || (l_canon tty.termios && (not (full tty.read_q) && (tty.secondary.lines == 0)))

  -- while (nr>0), for the least number of characters and the time
  unfoldable pub read_loop : ℕ → ℕ → ℕ → List ℕ → ℕ → Caller → Option (List ℕ × Caller)
  read_loop time minimum zero out nr s = none
  read_loop time minimum (suc fuel) out nr s =
      let r =
        read_chars s.tty.termios tty_buf_size
          (record { out = out; nr = nr; queue = s.tty.secondary }) in
      let s' = record s {
        tty = record s.tty { secondary = r.queue };
        timeout = if time != 0 then word (time + s.jiffies) else s.timeout;
      } in
      let asleep = read_loop time minimum fuel out nr (others s) in
      let next = read_loop time minimum fuel r.out r.nr s' in
      if int_le nr 0
      then some (out, s)
      else if not_ready s.tty
      then if (s.timeout == 0) || is_signalled s then some (out, s) else asleep
      else if l_canon s.tty.termios || leb minimum (length r.out)
      then some (r.out, s')
      else next

  -- The characters read, the last one first, and the result.
  unfoldable pub tty_read : ℕ → ℕ → Caller → Option (ℕ × List ℕ × Caller)
  tty_read fuel nr s =
      let (time, minimum, s') = read_limits nr s in
      elim (read_loop time minimum fuel [] nr s') [
        | none ↦ none
        | some (out, r) ↦
            let r' = record r { timeout = 0 } in
            some (if is_signalled r && (length out == 0) then neg 512 else length out, out, r')
      ]
