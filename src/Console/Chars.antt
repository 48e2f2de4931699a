-- ===== src/Console/Chars.antt =====
-- The characters that `con_write` and `console_print` of ver05/kernel/chr_drv/console.c show, and
-- erasing: the console stays in order and in its own part of the memory.
use linux_0_12_study.Base.{
  Bool, Bool-cases, List, [], arith, false, if◌then◌else◌, inl, inr, leb, ltb, refl, suc, true,
  word_sub, zero, ℕ, ◌!=◌, ◌%◌, ◌&&◌, ◌*◌, ◌+◌, ◌-◌, ◌<◌, ◌==◌, ◌||◌, ◌∷◌, ◌≡◌, ◌≤◌,
}
use linux_0_12_study.Tty.{Tty}
use linux_0_12_study.Tty.Edit.{Same}
use linux_0_12_study.Console.{
  Screen, ht, back, put_cell, del, wrap, video_num_columns, show, con_char, move, video_size_row,
  translations, print_char, print_loop, console_print, con_loop, verase, cr, lf, getch, con_write,
  chars,
}
use linux_0_12_study.Console.Place.{
  IsConsole, Within, Kept, Kept-trans, Kept-still, Kept-from, weaken, moved, set_cursor-Kept,
  lf-Kept, cr-Kept, wrap-Kept, move-Within, lf-x,
}

module _ (fg currcons : ℕ) where
  ht-Kept : (s : Screen) → IsConsole s.con → Kept s (ht fg currcons s)
  unfolding ht
  ht-Kept s w =
      let n = 4 - s.con.x % 4 in
      let m = move fg currcons n s in
      let v : Within 84 m.con =
        move-Within fg currcons 84 n s (weaken s.con w) (omega (arith, w.column)) (omega arith) in
      Kept-from s m (wrap fg currcons m) refl refl refl (wrap-Kept fg currcons m v)

  back-Kept : (s : Screen) → IsConsole s.con → ¬ (s.con.x ≡ 0) → Kept s (back fg currcons s)
  back-Kept s w h =
      moved fg currcons s (word_sub s.con.x 1) s.con.y (word_sub s.con.pos 2) w
        (omega (arith, w.column)) w.row
        (omega (arith, w.place, w.column, w.row, w.screen, w.range, w.memory))

  -- A cell of the screen is written.
  put_cell-Kept :
      (s r : Screen) (a v : ℕ)
      → Kept s r
      → s.con.mem_start ≤ a
      → a < s.con.mem_end
      → Kept s (record r { ram = put_cell r.ram a v })
  put_cell-Kept s r a v k lo hi = record {
    ok = k.ok;
    same_start = k.same_start;
    same_end = k.same_end;
    elsewhere = λ i h. grind (arith, k.elsewhere i h);
  }

  del-Kept : (s : Screen) → IsConsole s.con → Kept s (del fg currcons s)
  unfolding del
  del-Kept s w = elim (Bool-cases (s.con.x != 0)) [
    | inl e ↦ rw e (
        let x0 : ¬ (s.con.x ≡ 0) = ground (arith, e) in
        let k = back-Kept s w x0 in
        put_cell-Kept s (back fg currcons s) (word_sub s.con.pos 2) s.con.erase_char k
          (omega (arith, x0, w.place, w.column, w.row, w.start, w.screen, w.range, w.memory))
          (omega (arith, x0, w.place, w.column, w.row, w.start, w.screen, w.range, w.memory)))
    | inr e ↦ rw e (Kept-still s s refl refl refl w)
  ]

  wrap-x : (s : Screen) → Within 84 s.con → (wrap fg currcons s).con.x < video_num_columns
  wrap-x s w = elim (Bool-cases (leb video_num_columns s.con.x)) [
    | inl e ↦
        let r = record s {
          con = record s.con {
            x = word_sub s.con.x video_num_columns;
            pos = word_sub s.con.pos video_size_row;
          };
        } in
        let big : video_num_columns ≤ s.con.x = ground (arith, e) in
        rw e (omega (arith, lf-x fg currcons r, w.column, big))
    | inr e ↦ rw e (ground (arith, e))
  ]

  show-Kept :
      (ch : ℕ) (s : Screen)
      → IsConsole s.con
      → s.con.x < video_num_columns
      → Kept s (show fg currcons ch s)
  show-Kept ch s w h =
      let v = s.con.attr * 256 + ch in
      let lo : s.con.mem_start ≤ s.con.pos = omega (arith, w.place, w.start) in
      let hi : s.con.pos < s.con.mem_end = omega (arith, w.place, w.row, w.screen, w.range) in
      let k = put_cell-Kept s s s.con.pos v (Kept-still s s refl refl refl w) lo hi in
      let r = record s { ram = put_cell s.ram s.con.pos v } in
      let ok : IsConsole (move fg currcons 1 r).con =
        move-Within fg currcons video_num_columns 1 r (weaken s.con w) (omega arith)
          (omega arith) in
      Kept-trans s r (move fg currcons 1 r) k
        (Kept-still r (move fg currcons 1 r) refl refl refl ok)

  shown-Kept :
      (ch : ℕ) (s : Screen) → IsConsole s.con → Kept s (show fg currcons ch (wrap fg currcons s))
  shown-Kept ch s w =
      let k = wrap-Kept fg currcons s (weaken s.con w) in
      let r = wrap fg currcons s in
      Kept-trans s r (show fg currcons ch r) k (show-Kept ch r k.ok (wrap-x s (weaken s.con w)))

  -- In either branch of a test.
  pub if-Kept :
      (s : Screen) (b : Bool) {r q : Screen}
      → (b ≡ true → Kept s r)
      → (b ≡ false → Kept s q)
      → Kept s (if b then r else q)
  if-Kept s true h k = h refl
  if-Kept s false h k = k refl

  pub same-Kept : (s : Screen) → IsConsole s.con → Kept s s
  same-Kept s w = Kept-still s s refl refl refl w

  con_char-Kept :
      (tty : Tty) (c : ℕ) (s : Screen) → IsConsole s.con → Kept s (con_char fg currcons tty c s)
  unfolding con_char
  con_char-Kept tty c s w =
      if-Kept s (ltb 31 c && ltb c 127) (λ _. shown-Kept (translations (c - 32)) s w)
        λ _.
          if-Kept s (c == 27) (λ _. same-Kept s w)
            λ _.
              if-Kept s ((c == 10) || (c == 11) || (c == 12)) (λ _. lf-Kept fg currcons s w)
                λ _.
                  if-Kept s (c == 13) (λ _. cr-Kept fg currcons s w)
                    λ _.
                      if-Kept s (ltb c 128 && (c == tty.termios.c_cc verase)) (λ _. del-Kept s w)
                        λ _.
                          if-Kept s (c == 8)
                            (λ _.
                              if-Kept s (s.con.x != 0) (λ e. back-Kept s w (ground (arith, e)))
                                (λ _. same-Kept s w))
                            λ _. if-Kept s (c == 9) (λ _. ht-Kept s w) (λ _. same-Kept s w)

  print_char-Kept : (c : ℕ) (s : Screen) → IsConsole s.con → Kept s (print_char fg currcons c s)
  unfolding print_char
  print_char-Kept c s w =
      if-Kept s (c == 10)
        (λ _.
          let k = cr-Kept fg currcons s w in
          Kept-trans s (cr fg currcons s) (lf fg currcons (cr fg currcons s)) k
            (lf-Kept fg currcons (cr fg currcons s) k.ok))
        λ _.
          if-Kept s (c == 13) (λ _. cr-Kept fg currcons s w)
            λ _. if-Kept s (c == 9) (λ _. ht-Kept s w) (λ _. shown-Kept c s w)

  print_loop-Kept :
      (b : List ℕ) (s : Screen) → IsConsole s.con → Kept s (print_loop fg currcons b s)
  print_loop-Kept [] s w = same-Kept s w
  print_loop-Kept (c ∷ b) s w =
      if-Kept s (c == 0) (λ _. same-Kept s w)
        λ _.
          let k = print_char-Kept c s w in
          let r = print_char fg currcons c s in
          Kept-trans s r (print_loop fg currcons b r) k (print_loop-Kept b r k.ok)

  -- `console_print` of any string keeps the console in order and writes only its part of the memory.
  pub console_print-Kept :
      (b : List ℕ) (s : Screen) → IsConsole s.con → Kept s (console_print fg currcons b s)
  unfolding console_print
  console_print-Kept b s w =
      set_cursor-Kept fg currcons s (print_loop fg currcons b s) (print_loop-Kept b s w)

  -- The console is kept, and of the terminal the driver takes only characters to write.
  abbrev pub Written : Screen → Tty → Screen × Tty → Type 0
  Written s tty r = Kept s r.0 × Same r.1 tty

  if-Written :
      (s : Screen) (tty : Tty) (b : Bool) (r q : Screen × Tty)
      → Written s tty r
      → Written s tty q
      → Written s tty (if b then r else q)
  if-Written s tty true r q h k = h
  if-Written s tty false r q h k = k

  con_loop-Written :
      (nr : ℕ) (s : Screen) (tty : Tty)
      → IsConsole s.con
      → Written s tty (con_loop fg currcons nr s tty)
  unfolding con_loop
  con_loop-Written zero s tty w =
      (same-Kept s w, record { secondary_same = refl; read_same = refl; termios_same = refl })
  con_loop-Written (suc nr) s tty w =
      let (c, q) = getch tty.write_q in
      let r = con_char fg currcons tty c s in
      let rest = record tty { write_q = q } in
      let k = con_char-Kept tty c s w in
      let (next, same) = con_loop-Written nr r rest k.ok in
      if-Written s tty (tty.stopped != 0) (s, tty) (con_loop fg currcons nr r rest)
        (same-Kept s w, record { secondary_same = refl; read_same = refl; termios_same = refl })
        (
          Kept-trans s r (con_loop fg currcons nr r rest).0 k next,
          record {
            secondary_same = same.secondary_same;
            read_same = same.read_same;
            termios_same = same.termios_same;
          },
        )

  -- `con_write` keeps the console in order: the position is the cell of line and column, both of them
  -- in the screen, and the screen is in the console's part of the memory. It writes only that
  -- part of the memory, and leaves the read queue, the secondary queue and the settings of the
  -- terminal alone.
  pub con_write-Written :
      (s : Screen) (tty : Tty) → IsConsole s.con → Written s tty (con_write fg currcons s tty)
  unfolding con_write
  con_write-Written s tty w =
      let (k, same) = con_loop-Written (chars tty.write_q) s tty w in
      (set_cursor-Kept fg currcons s (con_loop fg currcons (chars tty.write_q) s tty).0 k, same)
