-- ===== src/Console/Scroll.antt =====
-- What scrolling (`scrup` of ver05/kernel/chr_drv/console.c) does to the text on the screen.
use linux_0_12_study.Base.{
  Bool-cases, ap, arith, inl, inr, ltb, suc, word, word_sub, ℕ, ◌!=◌, ◌*◌, ◌+◌, ◌-◌, ◌/◌, ◌<◌, ◌∙◌,
  ◌≡◌,
}
use linux_0_12_study.Console.{
  Screen, video_size_row, video_num_lines, scroll_on, scroll_back, video_num_columns, stosw, movsl,
  set_origin, scrup,
}
use linux_0_12_study.Console.Memory.{stosw-outside, stosw-inside, movsl-inside}
use linux_0_12_study.Console.Place.{IsConsole}

-- the cell of a line and a column of the screen
abbrev pub cell : Screen → ℕ → ℕ → ℕ
cell s row column = s.ram (s.con.origin + row * video_size_row + column * 2)

-- Every line takes the text of the line below, and the last one is blank.
pub record Scrolled (s r : Screen) : Type 0 where
  pub up :
      (row column : ℕ)
      → suc row < video_num_lines
      → column < video_num_columns
      → cell r row column ≡ cell s (suc row) column
  pub blank :
      (column : ℕ)
      → column < video_num_columns
      → cell r (video_num_lines - 1) column ≡ s.con.erase_char

module _ (fg currcons : ℕ) where
  scroll_on-Scrolled :
      (s : Screen)
      → IsConsole s.con
      → Scrolled s (
          scroll_on fg currcons
            (s.con.origin + video_size_row)
            (s.con.pos + video_size_row)
            (s.con.scr_end + video_size_row)
            s)
  unfolding scroll_on
  scroll_on-Scrolled s w =
      let e : word_sub (s.con.scr_end + video_size_row) video_size_row ≡ s.con.scr_end =
        omega (arith, w.screen, w.range, w.memory) in
      rw e (record {
        up = λ row column a b.
            stosw-outside video_num_columns s.con.scr_end s.con.erase_char s.ram
              (s.con.origin + video_size_row + row * video_size_row + column * 2)
              (inl (omega (arith, w.screen)))
            ∙ ap s.ram (omega arith);
        blank = λ column b.
            ap (stosw video_num_columns s.con.scr_end s.con.erase_char s.ram)
              {x = s.con.origin
                + video_size_row
                + (video_num_lines - 1) * video_size_row
                + column * 2}
              {y = s.con.scr_end + 2 * column} (omega (arith, w.screen))
            ∙ stosw-inside video_num_columns s.con.scr_end s.con.erase_char s.ram column b;
      })

  scroll_back-Scrolled :
      (s : Screen)
      → IsConsole s.con
      → Scrolled s (
          scroll_back fg currcons
            (s.con.origin + video_size_row)
            (s.con.pos + video_size_row)
            (s.con.scr_end + video_size_row)
            s)
  unfolding scroll_back
  scroll_back-Scrolled s w =
      let n = (video_num_lines - 1) * video_num_columns / 2 in
      let from = s.con.origin + video_size_row in
      let copied = movsl n s.con.mem_start from s.ram in
      record {
        up = λ row column a b.
            stosw-outside video_num_columns (s.con.mem_start + 4 * n) s.con.erase_char copied
              (s.con.mem_start + row * video_size_row + column * 2) (inl (omega arith))
            ∙ ap copied {y = s.con.mem_start + 2 * (row * 80 + column)} (omega arith)
            ∙ movsl-inside n s.con.mem_start from s.ram (row * 80 + column) (omega (arith, w.start))
                (omega arith)
            ∙ ap s.ram (omega arith);
        blank = λ column b.
            ap (stosw video_num_columns (s.con.mem_start + 4 * n) s.con.erase_char copied)
              {x = s.con.mem_start + (video_num_lines - 1) * video_size_row + column * 2}
              {y = s.con.mem_start + 4 * n + 2 * column} (omega arith)
            ∙ stosw-inside video_num_columns (s.con.mem_start + 4 * n) s.con.erase_char copied
                column b;
      }

  set_origin-Scrolled : (s r : Screen) → Scrolled s r → Scrolled s (set_origin fg currcons r)
  set_origin-Scrolled s r k = elim (Bool-cases (currcons != fg)) [
    | inl e ↦ rw e k
    | inr e ↦ rw e (record { up = k.up; blank = k.blank })
  ]

  -- `scrup` moves the text of a console that is in order up by a line and blanks the last line, both
  -- when the screen moves on in the video memory and when it goes back to its start.
  pub scrup-Scrolled : (s : Screen) → IsConsole s.con → Scrolled s (scrup fg currcons s)
  unfolding scrup
  scrup-Scrolled s w =
      let o = s.con.origin + video_size_row in
      let p = s.con.pos + video_size_row in
      let e = s.con.scr_end + video_size_row in
      let o' : word o ≡ o = omega (arith, w.screen, w.range, w.memory) in
      let p' : word p ≡ p = omega (arith, w.place, w.column, w.row, w.screen, w.range, w.memory) in
      let e' : word e ≡ e = omega (arith, w.screen, w.range, w.memory) in
      rw (o', p', e')
        (elim (Bool-cases (ltb s.con.mem_end e)) [
          | inl l ↦
              rw l
                (set_origin-Scrolled s (scroll_back fg currcons o p e s) (scroll_back-Scrolled s w))
          | inr l ↦
              rw l (set_origin-Scrolled s (scroll_on fg currcons o p e s) (scroll_on-Scrolled s w))
        ])
