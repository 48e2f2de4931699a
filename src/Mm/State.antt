-- ===== src/Mm/State.antt =====
-- The state of ver05/mm and the constants of ver05/include/linux/mm.h. Physical memory is a map from
-- the byte address of each aligned 32-bit word to the word; the page directory stands at address 0.
-- `printk` and the flush of the translation buffer (`invalidate`) leave this state alone and are
-- left out.
use linux_0_12_study.Base.{
  Bool, if◌then◌else◌, leb, ltb, word_sub, ℕ, ◌%◌, ◌&&◌, ◌*◌, ◌+◌, ◌-◌, ◌/◌, ◌==◌, ◌^◌,
}

abbrev pub low_mem : ℕ
low_mem = 0x300000

abbrev pub paging_memory : ℕ
paging_memory = 0x4000000 - low_mem

abbrev pub paging_pages : ℕ
paging_pages = paging_memory / 4096

abbrev pub used : ℕ
used = 100

abbrev pub task_size : ℕ
task_size = 0x04000000

pub record Mm : Type 0 where
  pub mem : ℕ → ℕ
  pub mem_map : ℕ → ℕ
  pub high_memory : ℕ
  -- the address of the bit map of the swap device, 0 for none
  pub swap_bitmap : ℕ
  -- the two static variables of `swap_out`
  pub dir_entry : ℕ
  pub page_entry : ℕ
  -- the pages of the swap device: slot number and byte offset of a word
  pub swap_device : ℕ → ℕ → ℕ

-- `panic` and `oom` do not return. `no_fuel`: a loop of the model ran out of rounds.
pub data Run {ℓ} (A : Type ℓ) : Type ℓ where
  ok : A → Mm → Run A
  panic : Run A
  no_fuel : Run A

abbrev pub M : Type 0 → Type 0
M A = Mm → Run A

abbrev pub run_then : {A B : Type 0} → Run A → (A → M B) → Run B
run_then (ok a s) f = f a s
run_then panic f = panic
run_then no_fuel f = no_fuel

infixl 5 ◌>>=◌ ◌>>◌
abbrev pub ◌>>=◌ : {A B : Type 0} → M A → (A → M B) → M B
◌>>=◌ m f s = run_then (m s) f

abbrev pub ◌>>◌ : {A B : Type 0} → M A → M B → M B
m >> k = m >>= λ _. k

abbrev pub pure : {A : Type 0} → A → M A
pure a s = ok a s

abbrev pub fail : {A : Type 0} → M A
fail s = panic

abbrev pub get : M Mm
get s = ok s s

abbrev pub update : (ℕ → ℕ) → ℕ → ℕ → (ℕ → ℕ)
update f i v j = if i == j then v else f j

abbrev pub load : ℕ → M ℕ
load a s = ok (s.mem a) s

abbrev pub store : ℕ → ℕ → M (Unit {0})
store a v s = ok tt (record s { mem = update s.mem a v })

abbrev pub page_count : ℕ → M ℕ
page_count i s = ok (s.mem_map i) s

-- `mem_map` holds unsigned chars.
abbrev pub set_page_count : ℕ → ℕ → M (Unit {0})
set_page_count i n s = ok tt (record s { mem_map = update s.mem_map i (n % 256) })

-- x & 0xfffff000
abbrev pub page_of : ℕ → ℕ
page_of x = x / 4096 * 4096

abbrev pub is_present : ℕ → Bool
is_present x = x % 2 == 1

-- (address >> 20) & 0xffc: the byte address of the directory entry of a linear address
abbrev pub dir_address : ℕ → ℕ
dir_address a = a / 2 ^ 22 % 1024 * 4

-- (address >> 10) & 0xffc: the byte offset of its entry in the page table
abbrev pub entry_offset : ℕ → ℕ
entry_offset a = a / 2 ^ 12 % 1024 * 4

-- `MAP_NR`, on `unsigned int`
unfoldable pub map_nr : ℕ → ℕ
map_nr addr = word_sub addr low_mem / 4096

-- Is the word address in the page that begins at this address?
abbrev pub in_page : ℕ → ℕ → Bool
in_page page a = leb page a && ltb a (page + 4096)
