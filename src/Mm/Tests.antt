-- ===== src/Mm/Tests.antt =====
-- The theorems on memory at small states.
use linux_0_12_study.Base.{
  arith, if◌then◌else◌, inl, inr, none, refl, some, ℕ, ◌*◌, ◌+◌, ◌<◌, ◌==◌, ◌≡◌, ◌≢◌,
}
use linux_0_12_study.Mm.State.{Mm, ok, no_fuel, paging_pages, map_nr}
use linux_0_12_study.Mm.Swap.{last_free, get_free_page, get_swap_page, swap_out}
use linux_0_12_study.Mm.Tables.{un_wp_page, copy_entries, free_entries}
use linux_0_12_study.Mm.Free.{taken, get_free_page-last_free}
use linux_0_12_study.Mm.Cow.{Separated, un_wp_page-Separated}
use linux_0_12_study.Mm.Counts.{users, IsCopied, copy_entries-IsCopied}
use linux_0_12_study.Mm.Restore.{copy_entries-free_entries}
use linux_0_12_study.Mm.Slots.{Taken, get_swap_page-swap_free}
use linux_0_12_study.Mm.Ends.{swap_out-ne-no_fuel}

-- The page table at 4096 has one entry, for page 5, which has two users; the table at 8192 is
-- empty. Page 15615, the last one, is free; the bit map of the swap device lies at 12288.
abbrev small : Mm
small = record {
  mem = λ a. if a == 4096 then 0x305007 else if a == 12288 then 6 else 0;
  mem_map = λ i. if i == 5 then 2 else if i == 15615 then 0 else 100;
  high_memory = 0x4000000;
  swap_bitmap = 12288;
  dir_entry = 16;
  page_entry = 0;
  swap_device = λ n o. 0;
}

abbrev one_user : Mm
one_user = record small { mem_map = λ i. if i == 5 then 1 else 100 }

last_page_free : last_free small.mem_map paging_pages ≡ some 15615
unfolding last_free
last_page_free = refl

get_free_page_example :
    (get_free_page 3 small ≡ ok 0x3fff000 (taken 15615 small))
    × (15615 < paging_pages)
    × (small.mem_map 15615 ≡ 0)
    × ((j : ℕ) → 15615 < j → j < paging_pages → small.mem_map j ≢ 0)
get_free_page_example = get_free_page-last_free 2 small last_page_free (omega arith)

un_wp_page-Separated_example :
    (s' : Mm) × (un_wp_page 4096 small ≡ ok tt s') × Separated small 4096 15615 s'
unfolding map_nr
un_wp_page-Separated_example =
    un_wp_page-Separated small 4096 last_page_free (omega arith) (omega arith) (omega arith)
      (omega arith) (omega arith) refl

copy_entries-free_entries_example :
    (s' s'' : Mm) × (copy_entries 1 4096 8192 small ≡ ok none s')
    × (free_entries 1 8192 s' ≡ ok tt s'')
    × ((i : ℕ) → s''.mem_map i ≡ small.mem_map i)
    × ((k : ℕ) → k < 1 → s''.mem (8192 + 4 * k) ≡ 0)
unfolding users
copy_entries-free_entries_example =
    copy_entries-free_entries 1 4096 8192 small (inl (omega arith)) (inr refl, tt) (omega arith, tt)
      (λ k h. ground arith) (λ i. ground arith)

get_swap_page-swap_free_example :
    (r : ℕ) × (s' : Mm) × (get_swap_page small ≡ ok r s') × Taken small r s'
get_swap_page-swap_free_example = get_swap_page-swap_free small (omega arith)

swap_out_example : swap_out small ≢ no_fuel
swap_out_example = swap_out-ne-no_fuel small

copy_entries-IsCopied_example :
    (s' : Mm) × (copy_entries 1 4096 8192 small ≡ ok none s') × IsCopied 1 4096 8192 small s'
unfolding users
copy_entries-IsCopied_example =
    copy_entries-IsCopied 1 4096 8192 small (inl (omega arith)) (inr refl, tt) (λ k h. ground arith)
      (λ i. ground arith)
