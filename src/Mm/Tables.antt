-- ===== src/Mm/Tables.antt =====
-- The page tables of ver05/mm/memory.c. The fuel of `get_free_page` is the number of pages, so that
-- it may pass over every one of them.
use linux_0_12_study.Base.{
  Option, if◌then◌else◌, leb, ltb, neg, none, not, some, suc, word, zero, ℕ, ◌!=◌, ◌%◌, ◌&&◌, ◌+◌,
  ◌-◌, ◌/◌, ◌==◌, ◌^◌, ◌||◌,
}
use linux_0_12_study.Base.Bits.{set_bit, clear_bit, bit_or}
use linux_0_12_study.Mm.State.{
  M, ◌>>=◌, ◌>>◌, load, pure, fail, paging_pages, is_present, dir_address, page_count, page_of,
  store, map_nr, low_mem, entry_offset, set_page_count,
}
use linux_0_12_study.Mm.Pages.{free_page, copy_page}
use linux_0_12_study.Mm.Swap.{get_free_page, swap_free, read_swap_page, page_dirty}

-- One entry of a page table that is freed.
unfoldable pub free_entry : ℕ → M (Unit {0})
free_entry a = do
  entry ← load a
  if entry == 0 then pure tt else do
    if is_present entry then free_page (page_of entry) else swap_free (entry / 2)
    store a 0

-- The loop over nr entries from the address a on.
unfoldable pub free_entries : ℕ → ℕ → M (Unit {0})
free_entries zero a = pure tt
free_entries (suc nr) a = free_entry a >> free_entries nr (a + 4)

-- The loop over the directory entries from the address d on.
unfoldable pub free_dirs : ℕ → ℕ → M (Unit {0})
free_dirs zero d = pure tt
free_dirs (suc size) d =
    let rest = free_dirs size (d + 4) in
    do
      dir ← load d
      if not (is_present dir) then rest else do
        free_entries 1024 (page_of dir)
        dir ← load d
        free_page (page_of dir)
        store d 0
        rest

unfoldable pub free_page_tables : ℕ → ℕ → M ℕ
free_page_tables from size =
    if from % 2 ^ 22 != 0
    then fail
    else if from == 0
    then fail
    else free_dirs (word (size + 0x3fffff) / 2 ^ 22) (dir_address from) >> pure 0

-- One entry of a page table that is copied: `none` goes on, `some` is a return out of the loops.
unfoldable pub copy_entry : ℕ → ℕ → M (Option ℕ)
copy_entry from to = do
  this_page ← load from
  if this_page == 0
      then pure none
      else if not (is_present this_page)
      then (do
        new_page ← get_free_page paging_pages
        if new_page == 0 then pure (some (neg 1)) else do
          read_swap_page (this_page / 2) new_page
          store to this_page
          store from (bit_or 32 new_page (page_dirty + 7))
          pure none)
      else do
        store to (clear_bit this_page 1)
        if ltb low_mem (clear_bit this_page 1)
            then (do
              store from (clear_bit this_page 1)
              n ← page_count ((clear_bit this_page 1 - low_mem) / 4096)
              set_page_count ((clear_bit this_page 1 - low_mem) / 4096) (n + 1)
              pure none)
            else pure none

unfoldable pub copy_entries : ℕ → ℕ → ℕ → M (Option ℕ)
copy_entries zero from to = pure none
copy_entries (suc nr) from to =
    let rest = copy_entries nr (from + 4) (to + 4) in
    do r ← copy_entry from to; elim r [ none ↦ rest | some e ↦ pure (some e) ]

-- The loop over the directory entries: `last` is the number of entries of the last table.
unfoldable pub copy_dirs : ℕ → ℕ → ℕ → ℕ → M ℕ
copy_dirs zero last from_dir to_dir = pure 0
copy_dirs (suc size) last from_dir to_dir =
    let rest = copy_dirs size last (from_dir + 4) (to_dir + 4) in
    do
      to ← load to_dir
      if is_present to then fail else do
        from ← load from_dir
        if not (is_present from) then rest else do
          table ← get_free_page paging_pages
          if table == 0 then pure (neg 1) else do
            store to_dir (bit_or 32 table 7)
            r ← copy_entries (if size == 0 then last else 1024) (page_of from) table
            elim r [ none ↦ rest | some e ↦ pure e ]

-- The number of pages of the last table: 1024 if `size` fills it.
abbrev pub last_pages : ℕ → ℕ
last_pages size =
    let tmp = word (size + 0x1000 - 1) / 4096 % 4096 in
    if (tmp == 0) && (size != 0) then 1024 else tmp

unfoldable pub copy_page_tables : ℕ → ℕ → ℕ → M ℕ
copy_page_tables from to size =
    if (from % 2 ^ 22 != 0) || (to % 2 ^ 22 != 0)
    then fail
    else copy_dirs (word (size + 0x3fffff) / 2 ^ 22) (last_pages size) (dir_address from)
        (dir_address to)

-- `put_page` and `put_dirty_page`, which differ in the flags of the entry.
unfoldable pub put_with : ℕ → ℕ → ℕ → M ℕ
put_with flags page address = do
  dir ← load (dir_address address)
  if is_present dir
      then (do store (page_of dir + entry_offset address) (bit_or 32 page flags); pure page)
      else do
        tmp ← get_free_page paging_pages
        if tmp == 0 then pure 0 else do
          store (dir_address address) (bit_or 32 tmp 7)
          store (tmp + entry_offset address) (bit_or 32 page flags)
          pure page

unfoldable pub put_page : ℕ → ℕ → M ℕ
put_page = put_with 7

unfoldable pub put_dirty_page : ℕ → ℕ → M ℕ
put_dirty_page = put_with (page_dirty + 7)

-- `mem_map` is read only for a page at or above `LOW_MEM`.
unfoldable pub un_wp_page : ℕ → M (Unit {0})
un_wp_page table_entry = do
  entry ← load table_entry
  n ← page_count (map_nr (page_of entry))
  if leb low_mem (page_of entry) && (n == 1) then store table_entry (set_bit entry 1) else do
    new_page ← get_free_page paging_pages
    if new_page == 0 then fail else do
      n ← page_count (map_nr (page_of entry))
      if leb low_mem (page_of entry)
          then set_page_count (map_nr (page_of entry)) (n + 255)
          else pure tt
      copy_page (page_of entry) new_page
      store table_entry (bit_or 32 new_page 7)

unfoldable pub write_verify : ℕ → M (Unit {0})
write_verify address = do
  dir ← load (dir_address address)
  if not (is_present dir) then pure tt else do
    entry ← load (page_of dir + entry_offset address)
    if entry % 4 == 1 then un_wp_page (page_of dir + entry_offset address) else pure tt

unfoldable pub get_empty_page : ℕ → M (Unit {0})
get_empty_page address = do
  tmp ← get_free_page paging_pages
  if tmp == 0
      then fail
      else do r ← put_page tmp address; if r == 0 then free_page tmp >> fail else pure tt
