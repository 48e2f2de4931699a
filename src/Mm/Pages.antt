-- ===== src/Mm/Pages.antt =====
-- `free_page`, `copy_page`, `mem_init` of ver05/mm/memory.c.
use linux_0_12_study.Base.{if◌then◌else◌, leb, ltb, ℕ, ◌!=◌, ◌&&◌, ◌+◌, ◌-◌, ◌/◌}
use linux_0_12_study.Mm.State.{
  M, ◌>>=◌, ◌>>◌, low_mem, ok, panic, in_page, used, page_count, set_page_count, pure, fail,
}

-- The post-decrement of a count of 0 wraps to 255; it is set to 0 again before the panic.
unfoldable pub free_page : ℕ → M (Unit {0})
free_page addr s =
    if ltb addr low_mem
    then ok tt s
    else if leb s.high_memory addr
    then panic
    else (do
      n ← page_count ((addr - low_mem) / 4096)
      set_page_count ((addr - low_mem) / 4096) (n + 255)
      if n != 0 then pure tt else fail)
        s

unfoldable pub copy_page : ℕ → ℕ → M (Unit {0})
copy_page from to s =
    ok tt (record s { mem = λ a. if in_page to a then s.mem (from + (a - to)) else s.mem a })

unfoldable pub clear_page : ℕ → M (Unit {0})
clear_page page s = ok tt (record s { mem = λ a. if in_page page a then 0 else s.mem a })

-- `end_mem -= start_mem; end_mem >>= 12`: that many pages from `start_mem` on are free.
unfoldable pub mem_init : ℕ → ℕ → M (Unit {0})
mem_init start_mem end_mem s =
    let first = (start_mem - low_mem) / 4096 in
    let n = (end_mem - start_mem) / 4096 in
    ok tt (record s {
      high_memory = end_mem;
      mem_map = λ i. if leb first i && ltb i (first + n) then 0 else used;
    })
