-- ===== src/Console.antt =====
-- The console: ver05/kernel/chr_drv/console.c. `con_init` sets the size of the screen once and for
-- all, so that the variables `video_...` are constants here. A `Screen` is the console of number
-- `currcons`, the video memory, which all consoles share, and the registers of the display
-- controller. The memory is a map from the even addresses to the cells of 16 bits at them.
pub mod Memory
pub mod Scroll
pub mod Place
pub mod Chars
pub mod Start
mod Tests
use linux_0_12_study.Base.{
  List, [], if◌then◌else◌, leb, ltb, min, suc, word, word_sub, zero, ℕ, ◌!=◌, ◌%◌, ◌&&◌, ◌*◌, ◌+◌,
  ◌-◌, ◌/◌, ◌==◌, ◌^◌, ◌||◌, ◌∷◌,
}
use linux_0_12_study.Tty.{Tty, is_cc, getch, chars, verase}

abbrev pub max_consoles : ℕ
max_consoles = 8

abbrev pub video_num_columns : ℕ
video_num_columns = 80

abbrev pub video_mem_base : ℕ
video_mem_base = 0xB8000

abbrev pub video_mem_term : ℕ
video_mem_term = 0xC0000

abbrev pub video_size_row : ℕ
video_size_row = 160

abbrev pub video_num_lines : ℕ
video_num_lines = 25

-- `NR_CONSOLES`: as many screens as the video memory holds, at most `max_consoles`
abbrev pub nr_consoles : ℕ
nr_consoles =
    min max_consoles ((video_mem_term - video_mem_base) / (video_num_lines * video_size_row))

-- `struct console_struct`; `vc_translate` is always `translations`
pub record Console : Type 0 where
  pub erase_char : ℕ
  pub attr : ℕ
  pub origin : ℕ
  pub scr_end : ℕ
  pub pos : ℕ
  pub x : ℕ
  pub y : ℕ
  pub top : ℕ
  pub bottom : ℕ
  pub mem_start : ℕ
  pub mem_end : ℕ

pub record Screen : Type 0 where
  pub con : Console
  pub ram : ℕ → ℕ
  pub crt : ℕ → ℕ

-- The characters 32 to 126 in their order, and a blank.
abbrev pub translations : ℕ → ℕ
translations i = if i == 95 then 32 else i + 32

abbrev pub put_cell : (ℕ → ℕ) → ℕ → ℕ → ℕ → ℕ
put_cell ram a v i = if i == a then v else ram i

-- rep stosw and rep movsl with n in the counter
unfoldable pub stosw : ℕ → ℕ → ℕ → (ℕ → ℕ) → ℕ → ℕ
stosw zero a v ram = ram
stosw (suc n) a v ram = stosw n (a + 2) v (put_cell ram a v)

unfoldable pub movsl : ℕ → ℕ → ℕ → (ℕ → ℕ) → ℕ → ℕ
movsl zero to from ram = ram
movsl (suc n) to from ram =
    movsl n (to + 4) (from + 4) (put_cell (put_cell ram to (ram from)) (to + 2) (ram (from + 2)))

-- A pair of registers of the display controller takes the high and the low byte of a cell's number.
abbrev pub put_crt : ℕ → ℕ → (ℕ → ℕ) → ℕ → ℕ
put_crt r a crt i =
    let n = word_sub a video_mem_base / 2 % 2 ^ 16 in
    if i == r then n / 256 else if i == r + 1 then n % 256 else crt i

module _ (fg_console currcons : ℕ) where
  abbrev pub set_origin : Screen → Screen
  set_origin s =
      if currcons != fg_console then s else record s { crt = put_crt 12 s.con.origin s.crt }

  abbrev pub set_cursor : Screen → Screen
  set_cursor s = if currcons != fg_console then s else record s { crt = put_crt 14 s.con.pos s.crt }

  unfoldable pub gotoxy : ℕ → ℕ → Screen → Screen
  gotoxy new_x new_y s =
      if ltb video_num_columns new_x || leb video_num_lines new_y then s else record s {
        con = record s.con {
          x = new_x;
          y = new_y;
          pos = word (s.con.origin + new_y * video_size_row + new_x * 2);
        };
      }

  -- The two branches of `scrup`, for the origin, the position and the end after the additions.
  unfoldable pub scroll_back : ℕ → ℕ → ℕ → Screen → Screen
  scroll_back origin pos scr_end s =
      let c = s.con in
      let n = (video_num_lines - 1) * video_num_columns / 2 in
      record s {
        con = record c {
          scr_end = word_sub scr_end (word_sub origin c.mem_start);
          pos = word_sub pos (word_sub origin c.mem_start);
          origin = c.mem_start;
        };
        ram =
            stosw video_num_columns (c.mem_start + 4 * n) c.erase_char
              (movsl n c.mem_start origin s.ram);
      }

  unfoldable pub scroll_on : ℕ → ℕ → ℕ → Screen → Screen
  scroll_on origin pos scr_end s = record s {
    con = record s.con { origin = origin; pos = pos; scr_end = scr_end };
    ram = stosw video_num_columns (word_sub scr_end video_size_row) s.con.erase_char s.ram;
  }

  unfoldable pub scrup : Screen → Screen
  scrup s =
      let c = s.con in
      let origin = word (c.origin + video_size_row) in
      let pos = word (c.pos + video_size_row) in
      let scr_end = word (c.scr_end + video_size_row) in
      set_origin (
        if ltb c.mem_end scr_end
        then scroll_back origin pos scr_end s
        else scroll_on origin pos scr_end s)

  unfoldable pub lf : Screen → Screen
  lf s =
      let c = s.con in
      if ltb (word (c.y + 1)) c.bottom
      then record s { con = record c { y = word (c.y + 1); pos = word (c.pos + video_size_row) } }
      else scrup s

  unfoldable pub cr : Screen → Screen
  cr s = record s { con = record s.con { pos = word_sub s.con.pos (s.con.x * 2); x = 0 } }

  -- Past the last column: on to the next line.
  abbrev pub wrap : Screen → Screen
  wrap s =
      let c = s.con in
      if leb video_num_columns c.x
      then lf (record s {
        con = record c { x = word_sub c.x video_num_columns; pos = word_sub c.pos video_size_row };
      })
      else s

  abbrev pub move : ℕ → Screen → Screen
  move n s = record s {
    con = record s.con { x = word (s.con.x + n); pos = word (s.con.pos + n * 2) };
  }

  unfoldable pub ht : Screen → Screen
  ht s = wrap (move (4 - s.con.x % 4) s)

  abbrev pub back : Screen → Screen
  back s = record s { con = record s.con { x = word_sub s.con.x 1; pos = word_sub s.con.pos 2 } }

  unfoldable pub del : Screen → Screen
  del s =
      let b = back s in
      if s.con.x != 0 then record b { ram = put_cell s.ram b.con.pos s.con.erase_char } else s

  -- The cell at the position is set, in the console's attribute.
  abbrev pub show : ℕ → Screen → Screen
  show ch s = move 1 (record s { ram = put_cell s.ram s.con.pos (s.con.attr * 256 + ch) })

  -- Erasing in the display and in the line.
  unfoldable pub csi_j : ℕ → Screen → Screen
  csi_j vpar s =
      let c = s.con in
      let erase = λ (start count : ℕ). record s { ram = stosw count start c.erase_char s.ram } in
      if vpar == 0
      then erase c.pos (word_sub c.scr_end c.pos / 2)
      else if vpar == 1
      then erase c.origin (word_sub c.pos c.origin / 2)
      else if vpar == 2
      then erase c.origin (video_num_columns * video_num_lines)
      else s

  unfoldable pub csi_k : ℕ → Screen → Screen
  csi_k vpar s =
      let c = s.con in
      let erase = λ (start count : ℕ). record s { ram = stosw count start c.erase_char s.ram } in
      if vpar == 0
      then if leb video_num_columns c.x then s else erase c.pos (video_num_columns - c.x)
      else if vpar == 1
      then erase (word_sub c.pos (c.x * 2))
          (if ltb c.x video_num_columns then c.x else video_num_columns)
      else if vpar == 2
      then erase (word_sub c.pos (c.x * 2)) video_num_columns
      else s

  -- The body of the loop of `con_write`.
  unfoldable pub con_char : Tty → ℕ → Screen → Screen
  con_char tty c s =
      if ltb 31 c && ltb c 127
      then show (translations (c - 32)) (wrap s)
      else if c == 27
      then s
      else if (c == 10) || (c == 11) || (c == 12)
      then lf s
      else if c == 13
      then cr s
      else if ltb c 128 && (c == tty.termios.c_cc verase)
      then del s
      else if c == 8
      then if s.con.x != 0 then back s else s
      else if c == 9
      then ht s
      else s

  -- while (nr--)
  unfoldable pub con_loop : ℕ → Screen → Tty → Screen × Tty
  con_loop zero s tty = (s, tty)
  con_loop (suc nr) s tty =
      let (c, q) = getch tty.write_q in
      let next = con_loop nr (con_char tty c s) (record tty { write_q = q }) in
      if tty.stopped != 0 then (s, tty) else next

  unfoldable pub con_write : Screen → Tty → Screen × Tty
  con_write s tty = let (s', tty') = con_loop (chars tty.write_q) s tty in (set_cursor s', tty')

  -- The body and the loop of `console_print`, up to the byte 0.
  unfoldable pub print_char : ℕ → Screen → Screen
  print_char c s =
      if c == 10
      then lf (cr s)
      else if c == 13
      then cr s
      else if c == 9
      then ht s
      else show c (wrap s)

  abbrev pub print_loop : List ℕ → Screen → Screen
  print_loop [] s = s
  print_loop (c ∷ b) s = if c == 0 then s else print_loop b (print_char c s)

  unfoldable pub console_print : List ℕ → Screen → Screen
  console_print b s = set_cursor (print_loop b s)

-- `con_init`: the first console, with the cursor where `get_init_pos` says, and the others.
abbrev pub video_memory : ℕ
video_memory = (video_mem_term - video_mem_base) / nr_consoles

abbrev pub first_console : ℕ → Console
first_console tmp = record {
  erase_char = 0x0720;
  attr = 7;
  origin = video_mem_base;
  scr_end = video_mem_base + video_num_lines * video_size_row;
  pos = video_mem_base + tmp / 80 * video_size_row + tmp % 80 * 2;
  x = tmp % 80;
  y = tmp / 80;
  top = 0;
  bottom = video_num_lines;
  mem_start = video_mem_base;
  mem_end = video_mem_base + video_memory;
}

unfoldable pub con_init : ℕ → (ℕ → ℕ) → (ℕ → ℕ) → ℕ → Screen
unfolding gotoxy
con_init tmp ram crt zero = record { con = first_console tmp; ram = ram; crt = crt }
con_init tmp ram crt (suc i) =
    let base = video_mem_base + suc i * video_memory in
    gotoxy 0 (suc i) 0 0 (record {
      con = record (first_console tmp) {
        origin = base;
        mem_start = base;
        scr_end = base + video_num_lines * video_size_row;
        mem_end = base + video_memory;
      };
      ram = ram;
      crt = crt;
    })
