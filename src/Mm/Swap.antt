-- ===== src/Mm/Swap.antt =====
-- ver05/mm/swap.c: the bit map of the swap device, swapping in and out, and `get_free_page`.
use linux_0_12_study.Base.{
  Option, if◌then◌else◌, int_le, leb, ltb, none, not, some, suc, word, word_sub, zero, ℕ, ◌!=◌, ◌%◌,
  ◌&&◌, ◌*◌, ◌+◌, ◌-◌, ◌/◌, ◌==◌, ◌||◌,
}
use linux_0_12_study.Base.Bits.{bit, set_bit, clear_bit, bit_or}
use linux_0_12_study.Mm.State.{
  M, ◌>>=◌, ◌>>◌, ◌>>=◌, ◌>>◌, load, pure, get, ok, task_size, no_fuel, page_of, store, in_page,
  is_present, paging_pages, set_page_count, low_mem, page_count, paging_memory, fail, map_nr,
}
use linux_0_12_study.Mm.Pages.{free_page, clear_page}

abbrev pub swap_bits : ℕ
swap_bits = 4096 * 8

abbrev pub word_address : ℕ → ℕ → ℕ
word_address addr nr = addr + nr / 32 * 4

-- `bit`, `setbit` and `clrbit`: each returns the old bit.
unfoldable pub test_bit : ℕ → ℕ → M ℕ
test_bit addr nr = do w ← load (word_address addr nr); pure (bit w (nr % 32))

unfoldable pub setbit : ℕ → ℕ → M ℕ
setbit addr nr = do
  w ← load (word_address addr nr)
  store (word_address addr nr) (set_bit w (nr % 32))
  pure (bit w (nr % 32))

unfoldable pub clrbit : ℕ → ℕ → M ℕ
clrbit addr nr = do
  w ← load (word_address addr nr)
  store (word_address addr nr) (clear_bit w (nr % 32))
  pure (bit w (nr % 32))

-- `for (nr = 1; nr < 32768; nr++)`, from nr on, with the number of rounds left
unfoldable pub find_swap_page : ℕ → ℕ → ℕ → M ℕ
find_swap_page zero addr nr = pure 0
find_swap_page (suc rounds) addr nr =
    let rest = find_swap_page rounds addr (nr + 1) in
    do was ← clrbit addr nr; if was == 1 then pure nr else rest

unfoldable pub get_swap_page : M ℕ
get_swap_page = do
  s ← get
  if s.swap_bitmap == 0 then pure 0 else find_swap_page 32767 s.swap_bitmap 1

-- A bit that is set already is only reported.
unfoldable pub swap_free : ℕ → M (Unit {0})
swap_free swap_nr = if swap_nr == 0 then pure tt else do
  s ← get
  if (s.swap_bitmap != 0) && ltb swap_nr swap_bits
      then setbit s.swap_bitmap swap_nr >> pure tt
      else pure tt

-- `ll_rw_page` on the swap device: the page is transferred before the call returns.
unfoldable pub read_swap_page : ℕ → ℕ → M (Unit {0})
read_swap_page nr page s =
    ok tt (record s { mem = λ a. if in_page page a then s.swap_device nr (a - page) else s.mem a })

unfoldable pub write_swap_page : ℕ → ℕ → M (Unit {0})
write_swap_page nr page s =
    ok tt
      (record s { swap_device = λ n o. if n == nr then s.mem (page + o) else s.swap_device n o })

abbrev pub page_dirty : ℕ
page_dirty = 0x40

-- The branch of a dirty page.
unfoldable pub swap_out_dirty : ℕ → ℕ → M ℕ
swap_out_dirty table_ptr page = do
  n ← page_count (map_nr page)
  if n != 1 then pure 0 else do
    swap_nr ← get_swap_page
    if swap_nr == 0
        then pure 0
        else do store table_ptr (swap_nr * 2); write_swap_page swap_nr page; free_page page; pure 1

-- `page - LOW_MEM > PAGING_MEMORY` is a comparison of unsigned numbers.
unfoldable pub try_to_swap_out : ℕ → M ℕ
try_to_swap_out table_ptr = do
  page ← load table_ptr
  if not (is_present page)
      then pure 0
      else if ltb paging_memory (word_sub page low_mem)
      then pure 0
      else if bit page 6 == 1
      then swap_out_dirty table_ptr (page_of page)
      else store table_ptr 0 >> free_page page >> pure 1

abbrev pub first_vm_page : ℕ
first_vm_page = task_size / 4096

abbrev pub vm_pages : ℕ
vm_pages = 1024 * 1024 - first_vm_page

-- dir_entry++, with the wrap to the first directory entry of a task
abbrev pub next_dir : ℕ → ℕ
next_dir d = if leb 1024 (d + 1) then first_vm_page / 1024 else d + 1

-- The first loop: to a directory entry that is present. The result is what is left of `counter` (a
-- number at or below 0 is 0) and the last entry read.
unfoldable pub seek_dir : ℕ → ℕ → M (ℕ × ℕ)
seek_dir zero counter = λ s. no_fuel
seek_dir (suc fuel) counter =
    let rest = seek_dir fuel (counter - 1024) in
    if counter == 0 then pure (0, 0) else do
      s ← get
      pg_table ← load (s.dir_entry * 4)
      if is_present pg_table
          then pure (counter, pg_table)
          else do λ s. ok tt (record s { dir_entry = next_dir s.dir_entry }); rest

-- The label `repeat`: `none` is the break.
unfoldable pub next_table : ℕ → ℕ → M (Option (ℕ × ℕ))
next_table zero counter = λ s. no_fuel
next_table (suc fuel) counter =
    let rest = next_table fuel (counter - 1024) in
    do
      λ s. ok tt (record s { dir_entry = next_dir s.dir_entry })
      s ← get
      pg_table ← load (s.dir_entry * 4)
      if is_present pg_table
          then pure (some (counter, page_of pg_table))
          else if ltb 1024 counter
          then rest
          else pure none

-- The entry that `page_entry` points at; `again` is the loop.
unfoldable pub swap_at : (ℕ → ℕ → M ℕ) → Option (ℕ × ℕ) → M ℕ
swap_at again none = pure 0
swap_at again (some (left, table)) = do
  s ← get
  done ← try_to_swap_out (table + s.page_entry * 4)
  if done == 1 then pure 1 else again left table

-- `page_entry++`, and on to the next table after the last entry of this one; `counter` has been
-- decremented.
unfoldable pub next_entry : ℕ → ℕ → M (Option (ℕ × ℕ))
next_entry counter pg_table s =
    let entry = word (s.page_entry + 1) in
    if int_le 1024 entry
    then next_table 1009 counter (record s { page_entry = 0 })
    else ok (some (counter, pg_table)) (record s { page_entry = entry })

unfoldable pub swap_loop : ℕ → ℕ → ℕ → M ℕ
swap_loop zero counter pg_table = λ s. no_fuel
swap_loop (suc fuel) counter pg_table =
    let again = swap_loop fuel in
    if counter == 0 then pure 0 else do here ← next_entry (counter - 1) pg_table; swap_at again here

-- Each round of either loop takes at least one off `counter`.
unfoldable pub swap_out : M ℕ
swap_out = do
  (counter, pg_table) ← seek_dir 1009 vm_pages
  swap_loop (vm_pages + 1) counter (page_of pg_table)

-- `repne scasb` from the last entry of `mem_map` down: the last free page below n
unfoldable pub last_free : (ℕ → ℕ) → ℕ → Option ℕ
last_free mem_map zero = none
last_free mem_map (suc n) =
    let rest = last_free mem_map n in if mem_map n == 0 then some n else rest

-- One round: `again` is the jump to the label `repeat`. A page above `HIGH_MEMORY` stays in use.
unfoldable pub try_page : M ℕ → Option ℕ → M ℕ
try_page again (some i) = do
  set_page_count i 1
  clear_page (i * 4096 + low_mem)
  s ← get
  if leb s.high_memory (i * 4096 + low_mem) then again else pure (i * 4096 + low_mem)
try_page again none = do done ← swap_out; if done == 1 then again else pure 0

-- The rounds are the fuel.
unfoldable pub get_free_page : ℕ → M ℕ
get_free_page zero s = no_fuel
get_free_page (suc fuel) s =
    let again = get_free_page fuel in try_page again (last_free s.mem_map paging_pages) s

unfoldable pub swap_in : ℕ → M (Unit {0})
swap_in table_ptr = do
  s ← get
  if s.swap_bitmap == 0 then pure tt else do
    entry ← load table_ptr
    if is_present entry || (entry / 2 == 0) then pure tt else do
      page ← get_free_page paging_pages
      if page == 0 then fail else do
        read_swap_page (entry / 2) page
        setbit s.swap_bitmap (entry / 2)
        store table_ptr (bit_or 32 page (page_dirty + 7))
