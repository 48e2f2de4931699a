-- ===== src/Console/Start.antt =====
-- The consoles that `con_init` of ver05/kernel/chr_drv/console.c sets up, and erasing.
use linux_0_12_study.Base.{
  arith, if◌then◌else◌, leb, ltb, refl, suc, word_sub, zero, ℕ, ◌*◌, ◌+◌, ◌-◌, ◌/◌, ◌<◌, ◌==◌, ◌≡◌,
  ◌≤◌,
}
use linux_0_12_study.Console.{
  Screen, con_init, video_num_columns, stosw, csi_j, gotoxy, video_num_lines, csi_k, nr_consoles,
  video_mem_base, video_memory,
}
use linux_0_12_study.Console.Memory.{stosw-outside}
use linux_0_12_study.Console.Place.{IsConsole, Kept}
use linux_0_12_study.Console.Chars.{if-Kept, same-Kept}

con_init_one :
    (tmp i : ℕ) (ram crt : ℕ → ℕ)
    → tmp < video_num_columns * video_num_lines
    → i < nr_consoles
    → IsConsole (con_init tmp ram crt i).con
unfolding con_init gotoxy
con_init_one tmp zero ram crt h l = record {
  column = omega arith;
  row = omega arith;
  lines = refl;
  place = refl;
  start = omega arith;
  screen = refl;
  range = omega arith;
  extent = omega arith;
  memory = omega arith;
}
con_init_one tmp (suc i) ram crt h l = record {
  column = omega arith;
  row = omega arith;
  lines = refl;
  place = omega arith;
  start = omega arith;
  screen = omega arith;
  range = omega arith;
  extent = omega arith;
  memory = omega arith;
}

con_init-places :
    (tmp i : ℕ) (ram crt : ℕ → ℕ)
    → ((con_init tmp ram crt i).con.mem_start ≡ video_mem_base + i * video_memory)
      × ((con_init tmp ram crt i).con.mem_end ≡ video_mem_base + i * video_memory + video_memory)
unfolding con_init gotoxy
con_init-places tmp zero ram crt = (refl, refl)
con_init-places tmp (suc i) ram crt = (refl, refl)

-- With the cursor on the screen, every console that `con_init` sets up is in order, and the parts of
-- the memory that two of them use do not overlap.
pub con_init-IsConsole :
    (tmp i j : ℕ) (ram crt : ℕ → ℕ)
    → tmp < video_num_columns * video_num_lines
    → i < j
    → j < nr_consoles
    → IsConsole (con_init tmp ram crt i).con
      × IsConsole (con_init tmp ram crt j).con
      × ((con_init tmp ram crt i).con.mem_end ≤ (con_init tmp ram crt j).con.mem_start)
con_init-IsConsole tmp i j ram crt h l n = (
  con_init_one tmp i ram crt h (omega arith),
  con_init_one tmp j ram crt h n,
  let (_, e) = con_init-places tmp i ram crt in
      let (b, _) = con_init-places tmp j ram crt in omega (arith, e, b),
)

module _ (fg currcons : ℕ) where
  -- n cells from a on, in the console's part of the memory
  erase-Kept :
      (n a : ℕ) (s : Screen)
      → IsConsole s.con
      → s.con.mem_start ≤ a
      → a + 2 * n ≤ s.con.mem_end
      → Kept s (record s { ram = stosw n a s.con.erase_char s.ram })
  erase-Kept n a s w lo hi = record {
    ok = w;
    same_start = refl;
    same_end = refl;
    elsewhere = λ i h. stosw-outside n a s.con.erase_char s.ram i (ground (arith, lo, hi));
  }

  -- Erasing in the display and in the line writes only the console's part of the memory.
  pub csi-Kept :
      (vpar : ℕ) (s : Screen)
      → IsConsole s.con
      → Kept s (csi_j fg currcons vpar s) × Kept s (csi_k fg currcons vpar s)
  unfolding csi_j csi_k
  csi-Kept vpar s w = (
    if-Kept fg currcons s (vpar == 0)
        (λ _.
          erase-Kept (word_sub s.con.scr_end s.con.pos / 2) s.con.pos s w
            (omega (arith, w.place, w.column, w.row, w.start, w.screen, w.range, w.memory))
            (omega (arith, w.place, w.column, w.row, w.start, w.screen, w.range, w.memory)))
        λ _.
          if-Kept fg currcons s (vpar == 1)
            (λ _.
              erase-Kept (word_sub s.con.pos s.con.origin / 2) s.con.origin s w w.start
                (omega (arith, w.place, w.column, w.row, w.start, w.screen, w.range, w.memory)))
            λ _.
              if-Kept fg currcons s (vpar == 2)
                (λ _.
                  erase-Kept (video_num_columns * video_num_lines) s.con.origin s w w.start
                    (omega (arith, w.place, w.column, w.row, w.start, w.screen, w.range, w.memory)))
                (λ _. same-Kept fg currcons s w),
    if-Kept fg currcons s (vpar == 0)
        (λ _.
          if-Kept fg currcons s (leb video_num_columns s.con.x) (λ _. same-Kept fg currcons s w)
            (λ e.
              erase-Kept (video_num_columns - s.con.x) s.con.pos s w
                (omega (arith, w.place, w.column, w.row, w.start, w.screen, w.range, w.memory))
                (omega (arith, w.place, w.column, w.row, w.start, w.screen, w.range, w.memory))))
        λ _.
          if-Kept fg currcons s (vpar == 1)
            (λ _.
              erase-Kept (if ltb s.con.x video_num_columns then s.con.x else video_num_columns)
                (word_sub s.con.pos (s.con.x * 2)) s w
                (ground (arith, w.place, w.column, w.row, w.start, w.screen, w.range, w.memory))
                (ground (arith, w.place, w.column, w.row, w.start, w.screen, w.range, w.memory)))
            λ _.
              if-Kept fg currcons s (vpar == 2)
                (λ _.
                  erase-Kept video_num_columns (word_sub s.con.pos (s.con.x * 2)) s w
                    (omega (arith, w.place, w.column, w.row, w.start, w.screen, w.range, w.memory))
                    (omega (arith, w.place, w.column, w.row, w.start, w.screen, w.range, w.memory)))
                (λ _. same-Kept fg currcons s w),
  )
