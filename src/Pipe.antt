-- ===== src/Pipe.antt =====
-- Pipes: `read_pipe` and `write_pipe` of ver05/fs/pipe.c. The buffer is the page at `i_size` of the
-- inode; `PIPE_HEAD` and `PIPE_TAIL` are offsets in it. A sleep lets other tasks run: `others` is what
-- they do to the pipe until the task is woken. A wake-up itself changes nothing here. The loops run
-- on fuel, a round for each sleep and each chunk.
pub mod Contents
pub mod Read
pub mod Write
mod Tests
use linux_0_12_study.Base.{
  List, Option, [], if◌then◌else◌, int_le, leb, ltb, min, neg, none, some, suc, word_sub, zero, ℕ,
  ◌!=◌, ◌%◌, ◌&&◌, ◌++◌, ◌+◌, ◌-◌, ◌∷◌,
}
use linux_0_12_study.Base.Bits.{set_bit, bit_and_not}

abbrev pub page_size : ℕ
page_size = 4096

abbrev pub erestartsys : ℕ
erestartsys = 512

abbrev pub sigpipe : ℕ
sigpipe = 13

pub record Pipe : Type 0 where
  pub page : ℕ → ℕ
  pub head : ℕ
  pub tail : ℕ
  pub i_count : ℕ
  -- current->signal and current->blocked
  pub signal : ℕ
  pub blocked : ℕ

-- `PIPE_SIZE`: the difference modulo the size of a page
abbrev pub pipe_size : Pipe → ℕ
pipe_size p = word_sub p.head p.tail % page_size

-- The bytes from offset t on.
abbrev pub fetch : (ℕ → ℕ) → ℕ → ℕ → List ℕ
fetch page zero t = []
fetch page (suc n) t = page t ∷ fetch page n (t + 1)

-- chars: as much as there is up to the end of the page
abbrev pub chunk : ℕ → ℕ → ℕ → ℕ
chunk offset count size = min (min (page_size - offset) count) size

abbrev pub take_chunk : ℕ → Pipe → Pipe
take_chunk chars p = record p { tail = (p.tail + chars) % page_size }

-- `count` and `read` as in the code, and what has been put into the user's buffer.
unfoldable pub read_loop : (Pipe → Pipe) → ℕ → ℕ → ℕ → List ℕ → Pipe → Option (ℕ × List ℕ × Pipe)
read_loop others zero count read out p = none
read_loop others (suc fuel) count read out p =
    let chars = chunk p.tail count (pipe_size p) in
    let asleep = read_loop others fuel count read out (others p) in
    let next =
      read_loop others fuel (count - chars) (read + chars) (out ++ fetch p.page chars p.tail)
        (take_chunk chars p) in
    if int_le count 0
    then some (read, out, p)
    else if pipe_size p != 0
    then next
    else if p.i_count != 2
    then some (read, out, p)
    else if bit_and_not 32 p.signal p.blocked != 0
    then some (if read != 0 then read else neg erestartsys, out, p)
    else asleep

pub read_pipe : (Pipe → Pipe) → ℕ → ℕ → Pipe → Option (ℕ × List ℕ × Pipe)
read_pipe others fuel count p = read_loop others fuel count 0 [] p

-- The next n bytes of the user's buffer are put at the offset of the head.
abbrev pub put_chunk : (ℕ → ℕ) → ℕ → Pipe → Pipe
put_chunk buf chars p = record p {
  page = λ x. if leb p.head x && ltb x (p.head + chars) then buf (x - p.head) else p.page x;
  head = (p.head + chars) % page_size;
}

abbrev pub room : Pipe → ℕ
room p = page_size - 1 - pipe_size p

-- Without a reader SIGPIPE is sent to the task itself.
pub write_loop : (Pipe → Pipe) → ℕ → (ℕ → ℕ) → ℕ → ℕ → Pipe → Option (ℕ × Pipe)
write_loop others zero buf count written p = none
write_loop others (suc fuel) buf count written p =
    let chars = chunk p.head count (room p) in
    let asleep = write_loop others fuel buf count written (others p) in
    let next =
      write_loop others fuel (λ i. buf (chars + i)) (count - chars) (written + chars)
        (put_chunk buf chars p) in
    if int_le count 0
    then some (written, p)
    else if room p != 0
    then next
    else if p.i_count != 2
    then some (
      if written != 0 then written else neg 1,
      record p { signal = set_bit p.signal (sigpipe - 1) },
    )
    else asleep

pub write_pipe : (Pipe → Pipe) → ℕ → (ℕ → ℕ) → ℕ → Pipe → Option (ℕ × Pipe)
write_pipe others fuel buf count p = write_loop others fuel buf count 0 p
