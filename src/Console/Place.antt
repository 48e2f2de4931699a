-- ===== src/Console/Place.antt =====
-- Where the cursor and the screen of a console are in the video memory: what every operation of
-- ver05/kernel/chr_drv/console.c keeps.
use linux_0_12_study.Base.{
  Bool, Bool-cases, ap, arith, false, if◌then◌else◌, inl, inr, leb, ltb, ltb→lt, refl, true, word,
  word_sub, ℕ, ◌!=◌, ◌*◌, ◌+◌, ◌-◌, ◌/◌, ◌<◌, ◌||◌, ◌∙◌, ◌≡◌, ◌≤◌, ◌⊎◌,
}
use linux_0_12_study.Console.{
  Console, Screen, video_num_columns, set_origin, set_cursor, gotoxy, video_num_lines,
  video_size_row, video_mem_term, scroll_back, scroll_on, scrup, movsl, lf, cr, wrap, move,
}
use linux_0_12_study.Console.Memory.{stosw-outside, movsl-outside}

-- The cursor is at most in column `limit`.
pub record Within (limit : ℕ) (c : Console) : Type 0 where
  pub column : c.x ≤ limit
  pub row : c.y < video_num_lines
  pub lines : c.bottom ≡ video_num_lines
  pub place : c.pos ≡ c.origin + c.y * video_size_row + c.x * 2
  pub start : c.mem_start ≤ c.origin
  pub screen : c.scr_end ≡ c.origin + video_num_lines * video_size_row
  pub range : c.scr_end ≤ c.mem_end
  pub extent : c.mem_start + video_num_lines * video_size_row ≤ c.mem_end
  pub memory : c.mem_end ≤ video_mem_term

-- The cursor may be just behind the last column.
abbrev pub IsConsole : Console → Type 0
IsConsole c = Within video_num_columns c

pub weaken : (c : Console) → IsConsole c → Within 84 c
weaken c w = record {
  column = omega (arith, w.column);
  row = w.row;
  lines = w.lines;
  place = w.place;
  start = w.start;
  screen = w.screen;
  range = w.range;
  extent = w.extent;
  memory = w.memory;
}

-- s has become r: the console is in order, in the same part of the memory, and only that part of
-- the memory has been written.
pub record Kept (s r : Screen) : Type 0 where
  pub ok : IsConsole r.con
  pub same_start : r.con.mem_start ≡ s.con.mem_start
  pub same_end : r.con.mem_end ≡ s.con.mem_end
  pub elsewhere : (i : ℕ) → (i < s.con.mem_start) ⊎ (s.con.mem_end ≤ i) → r.ram i ≡ s.ram i

pub Kept-trans : (s r q : Screen) → Kept s r → Kept r q → Kept s q
Kept-trans s r q a b = record {
  ok = b.ok;
  same_start = b.same_start ∙ a.same_start;
  same_end = b.same_end ∙ a.same_end;
  elsewhere = λ i h. b.elsewhere i (ground (arith, a.same_start, a.same_end)) ∙ a.elsewhere i h;
}

-- A step that writes no memory.
pub Kept-still :
    (s r : Screen)
    → r.ram ≡ s.ram
    → r.con.mem_start ≡ s.con.mem_start
    → r.con.mem_end ≡ s.con.mem_end
    → IsConsole r.con
    → Kept s r
Kept-still s r m a b w = record {
  ok = w;
  same_start = a;
  same_end = b;
  elsewhere = λ i h. ap (λ f. f i) m;
}

-- Across a step that changes neither the memory nor where it is.
pub Kept-from :
    (s r q : Screen)
    → r.ram ≡ s.ram
    → r.con.mem_start ≡ s.con.mem_start
    → r.con.mem_end ≡ s.con.mem_end
    → Kept r q
    → Kept s q
Kept-from s r q m a b k = record {
  ok = k.ok;
  same_start = k.same_start ∙ a;
  same_end = k.same_end ∙ b;
  elsewhere = λ i h. k.elsewhere i (ground (arith, a, b)) ∙ ap (λ f. f i) m;
}

module _ (fg currcons : ℕ) where
  set_origin-Kept : (s r : Screen) → Kept s r → Kept s (set_origin fg currcons r)
  set_origin-Kept s r k = elim (Bool-cases (currcons != fg)) [
    | inl e ↦ rw e k
    | inr e ↦ rw e (record {
      ok = k.ok;
      same_start = k.same_start;
      same_end = k.same_end;
      elsewhere = k.elsewhere;
    })
  ]

  pub set_cursor-Kept : (s r : Screen) → Kept s r → Kept s (set_cursor fg currcons r)
  set_cursor-Kept s r k = elim (Bool-cases (currcons != fg)) [
    | inl e ↦ rw e k
    | inr e ↦ rw e (record {
      ok = k.ok;
      same_start = k.same_start;
      same_end = k.same_end;
      elsewhere = k.elsewhere;
    })
  ]

  -- The cursor is elsewhere in the screen, and nothing else has changed.
  pub moved :
      (s : Screen) (x' y' p : ℕ)
      → IsConsole s.con
      → x' ≤ video_num_columns
      → y' < video_num_lines
      → p ≡ s.con.origin + y' * video_size_row + x' * 2
      → Kept s (record s { con = record s.con { x = x'; y = y'; pos = p } })
  moved s x' y' p w a b e =
      Kept-still s (record s { con = record s.con { x = x'; y = y'; pos = p } }) refl refl refl
        (record {
          column = a;
          row = b;
          lines = w.lines;
          place = e;
          start = w.start;
          screen = w.screen;
          range = w.range;
          extent = w.extent;
          memory = w.memory;
        })

  pub gotoxy-Kept : (a b : ℕ) (s : Screen) → IsConsole s.con → Kept s (gotoxy fg currcons a b s)
  unfolding gotoxy
  gotoxy-Kept a b s w = elim (Bool-cases (ltb video_num_columns a || leb video_num_lines b)) [
    | inl e ↦ rw e (Kept-still s s refl refl refl w)
    | inr e ↦ rw e (
        let xa : a ≤ video_num_columns = ground (arith, e) in
        let yb : b < video_num_lines = ground (arith, e) in
        moved s a b (word (s.con.origin + b * video_size_row + a * 2)) w xa yb
          (omega (arith, w.start, w.screen, w.range, w.memory)))
  ]

  -- The two branches of `scrup`.
  scroll_back-Kept :
      (s : Screen)
      → IsConsole s.con
      → s.con.mem_end < s.con.scr_end + video_size_row
      → Kept s (
          scroll_back fg currcons
            (s.con.origin + video_size_row)
            (s.con.pos + video_size_row)
            (s.con.scr_end + video_size_row)
            s)
  unfolding scroll_back
  scroll_back-Kept s w h = record {
    ok = record {
      column = w.column;
      row = w.row;
      lines = w.lines;
      place = omega (arith, w.place, w.column, w.row, w.start, w.screen, w.range, w.memory);
      start = omega arith;
      screen = omega (arith, w.start, w.screen, w.range, w.memory);
      range = omega (arith, w.start, w.screen, w.range, w.memory, w.extent);
      extent = w.extent;
      memory = w.memory;
    };
    same_start = refl;
    same_end = refl;
    elsewhere = λ i o.
        stosw-outside video_num_columns
          (s.con.mem_start + 4 * ((video_num_lines - 1) * video_num_columns / 2)) s.con.erase_char
          (movsl ((video_num_lines - 1) * video_num_columns / 2) s.con.mem_start
            (s.con.origin + video_size_row) s.ram)
          i (ground (arith, w.extent))
        ∙ movsl-outside ((video_num_lines - 1) * video_num_columns / 2) s.con.mem_start
            (s.con.origin + video_size_row) s.ram i (ground (arith, w.extent));
  }

  scroll_on-Kept :
      (s : Screen)
      → IsConsole s.con
      → s.con.scr_end + video_size_row ≤ s.con.mem_end
      → Kept s (
          scroll_on fg currcons
            (s.con.origin + video_size_row)
            (s.con.pos + video_size_row)
            (s.con.scr_end + video_size_row)
            s)
  unfolding scroll_on
  scroll_on-Kept s w h = record {
    ok = record {
      column = w.column;
      row = w.row;
      lines = w.lines;
      place = omega (arith, w.place);
      start = omega (arith, w.start);
      screen = omega (arith, w.screen);
      range = h;
      extent = w.extent;
      memory = w.memory;
    };
    same_start = refl;
    same_end = refl;
    elsewhere = λ i o.
        stosw-outside video_num_columns (word_sub (s.con.scr_end + video_size_row) video_size_row)
          s.con.erase_char s.ram i (ground (arith, w.start, w.screen, w.range, w.memory));
  }

  pub scrup-Kept : (s : Screen) → IsConsole s.con → Kept s (scrup fg currcons s)
  unfolding scrup
  scrup-Kept s w =
      let o : word (s.con.origin + video_size_row) ≡ s.con.origin + video_size_row =
        omega (arith, w.screen, w.range, w.memory) in
      let p : word (s.con.pos + video_size_row) ≡ s.con.pos + video_size_row =
        omega (arith, w.place, w.column, w.row, w.screen, w.range, w.memory) in
      let e : word (s.con.scr_end + video_size_row) ≡ s.con.scr_end + video_size_row =
        omega (arith, w.screen, w.range, w.memory) in
      rw (o, p, e)
        (elim (Bool-cases (ltb s.con.mem_end (s.con.scr_end + video_size_row))) [
          | inl l ↦ rw l (
              set_origin-Kept s
                (scroll_back fg currcons (s.con.origin + video_size_row)
                  (s.con.pos + video_size_row) (s.con.scr_end + video_size_row) s)
                (scroll_back-Kept s w (ltb→lt s.con.mem_end (s.con.scr_end + video_size_row) l)))
          | inr l ↦ rw l (
              set_origin-Kept s
                (scroll_on fg currcons (s.con.origin + video_size_row) (s.con.pos + video_size_row)
                  (s.con.scr_end + video_size_row) s)
                (scroll_on-Kept s w (ground (arith, l))))
        ])

  pub lf-Kept : (s : Screen) → IsConsole s.con → Kept s (lf fg currcons s)
  unfolding lf
  lf-Kept s w = elim (Bool-cases (ltb (word (s.con.y + 1)) s.con.bottom)) [
    | inl e ↦
        let b : word (s.con.y + 1) < video_num_lines = ground (arith, w.lines, w.row, e) in
        rw e (
          moved s s.con.x (word (s.con.y + 1)) (word (s.con.pos + video_size_row)) w w.column b
            (omega (arith, w.place, w.row, w.column, w.screen, w.range, w.memory)))
    | inr e ↦ rw e (scrup-Kept s w)
  ]

  pub cr-Kept : (s : Screen) → IsConsole s.con → Kept s (cr fg currcons s)
  unfolding cr
  cr-Kept s w =
      moved s 0 s.con.y (word_sub s.con.pos (s.con.x * 2)) w (omega arith) w.row
        (omega (arith, w.place, w.column, w.row, w.screen, w.range, w.memory))

  pub wrap-Kept : (s : Screen) → Within 84 s.con → Kept s (wrap fg currcons s)
  wrap-Kept s w = elim (Bool-cases (leb video_num_columns s.con.x)) [
    | inl e ↦
        let big : video_num_columns ≤ s.con.x = ground (arith, e) in
        let r = record s {
          con = record s.con {
            x = word_sub s.con.x video_num_columns;
            pos = word_sub s.con.pos video_size_row;
          };
        } in
        let ok : IsConsole r.con = record {
          column = omega (arith, w.column, big);
          row = w.row;
          lines = w.lines;
          place = omega (arith, w.place, w.column, w.row, w.screen, w.range, w.memory, big);
          start = w.start;
          screen = w.screen;
          range = w.range;
          extent = w.extent;
          memory = w.memory;
        } in
        rw e (Kept-from s r (lf fg currcons r) refl refl refl (lf-Kept r ok))
    | inr e ↦ rw e (
        Kept-still s s refl refl refl (record {
          column = ground (arith, e);
          row = w.row;
          lines = w.lines;
          place = w.place;
          start = w.start;
          screen = w.screen;
          range = w.range;
          extent = w.extent;
          memory = w.memory;
        }))
  ]

  -- n columns to the right
  pub move-Within :
      (limit n : ℕ) (s : Screen)
      → Within 84 s.con
      → s.con.x + n ≤ limit
      → limit ≤ 84
      → Within limit (move fg currcons n s).con
  move-Within limit n s w h l = record {
    column = omega arith;
    row = w.row;
    lines = w.lines;
    place = omega (arith, w.place, w.column, w.row, w.screen, w.range, w.memory);
    start = w.start;
    screen = w.screen;
    range = w.range;
    extent = w.extent;
    memory = w.memory;
  }

  set_origin-x : (s : Screen) → (set_origin fg currcons s).con.x ≡ s.con.x
  set_origin-x s = elim (Bool-cases (currcons != fg)) [ inl e ↦ rw e refl | inr e ↦ rw e refl ]

  scroll-x :
      (b : Bool) (origin pos scr_end : ℕ) (s : Screen)
      → (if b
          then scroll_back fg currcons origin pos scr_end s
          else scroll_on fg currcons origin pos scr_end s).con.x
        ≡ s.con.x
  unfolding scroll_back scroll_on
  scroll-x true origin pos scr_end s = refl
  scroll-x false origin pos scr_end s = refl

  scrup-x : (s : Screen) → (scrup fg currcons s).con.x ≡ s.con.x
  unfolding scrup
  scrup-x s =
      let o = word (s.con.origin + video_size_row) in
      let p = word (s.con.pos + video_size_row) in
      let e = word (s.con.scr_end + video_size_row) in
      set_origin-x (
        if ltb s.con.mem_end e
        then scroll_back fg currcons o p e s
        else scroll_on fg currcons o p e s)
      ∙ scroll-x (ltb s.con.mem_end e) o p e s

  pub lf-x : (s : Screen) → (lf fg currcons s).con.x ≡ s.con.x
  unfolding lf
  lf-x s = elim (Bool-cases (ltb (word (s.con.y + 1)) s.con.bottom)) [
    | inl e ↦ rw e refl
    | inr e ↦ rw e (scrup-x s)
  ]
