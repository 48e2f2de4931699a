-- ===== src/Mm/Cow.antt =====
-- Copy on write: `un_wp_page`.
use linux_0_12_study.Base.{
  Bool-cases, and-left, and-right, arith, eq→==, false, if◌then◌else◌, inl, inr, leb, leb→le,
  le→leb, ltb, ltb→lt, ne→==_false, refl, some, subst, ℕ, ◌%◌, ◌*◌, ◌+◌, ◌-◌, ◌<◌, ◌==◌, ◌^◌, ◌≡◌,
  ◌≢◌, ◌≤◌,
}
use linux_0_12_study.Base.Bits.{set_bit, bit_or}
use linux_0_12_study.Mm.State.{Mm, ok, map_nr, page_of, low_mem, paging_pages, update, in_page}
use linux_0_12_study.Mm.Pages.{copy_page}
use linux_0_12_study.Mm.Swap.{last_free}
use linux_0_12_study.Mm.Tables.{un_wp_page}
use linux_0_12_study.Mm.Free.{taken, get_free_page-last_free}

-- The page of the entry at the address a, and its number in `mem_map`.
abbrev pub old_page : Mm → ℕ → ℕ
old_page s a = page_of (s.mem a)

-- The only user of a page gets it writable: `un_wp_page` sets the bit of the entry and changes
-- nothing else.
pub un_wp_page-only_user :
    (s : Mm) (a : ℕ)
    → low_mem ≤ old_page s a
    → s.mem_map (map_nr (old_page s a)) ≡ 1
    → un_wp_page a s ≡ ok tt (record s { mem = update s.mem a (set_bit (s.mem a) 1) })
unfolding un_wp_page
un_wp_page-only_user s a low one = rw (le→leb _ _ low, eq→== _ _ one)

-- What becomes of a page with several users when the entry a has to be writable.
pub record Separated (s : Mm) (a i : ℕ) (s' : Mm) : Type 0 where
  pub entry : s'.mem a ≡ bit_or 32 (i * 4096 + low_mem) 7
  pub copied :
      (o : ℕ)
      → o < 4096
      → i * 4096 + low_mem + o ≢ a
      → s'.mem (i * 4096 + low_mem + o) ≡ s.mem (old_page s a + o)
  pub elsewhere : (x : ℕ) → x ≢ a → in_page (i * 4096 + low_mem) x ≡ false → s'.mem x ≡ s.mem x
  pub one_less : s'.mem_map (map_nr (old_page s a)) + 1 ≡ s.mem_map (map_nr (old_page s a))
  pub one_user : s'.mem_map i ≡ 1
  pub other_counts : (j : ℕ) → j ≢ i → j ≢ map_nr (old_page s a) → s'.mem_map j ≡ s.mem_map j
  pub same_limit : s'.high_memory ≡ s.high_memory
  pub same_bitmap : s'.swap_bitmap ≡ s.swap_bitmap
  pub same_device : (n o : ℕ) → s'.swap_device n o ≡ s.swap_device n o
  pub same_place : (s'.dir_entry ≡ s.dir_entry) × (s'.page_entry ≡ s.page_entry)

module _ (s : Mm) (a : ℕ) {i : ℕ} (free : last_free s.mem_map paging_pages ≡ some i)
    (high : i * 4096 + low_mem < s.high_memory) (word : s.mem a < 2 ^ 32)
    (low : low_mem ≤ old_page s a) (several : 1 < s.mem_map (map_nr (old_page s a)))
    (byte : s.mem_map (map_nr (old_page s a)) < 256)
    (apart : in_page (i * 4096 + low_mem) a ≡ false) where
  abbrev new : ℕ
  new = i * 4096 + low_mem

  abbrev nr : ℕ
  nr = map_nr (old_page s a)

  abbrev copy : Mm → Mm
  copy s' = record s' {
    mem = λ x. if in_page new x then s'.mem (old_page s a + (x - new)) else s'.mem x;
  }

  abbrev counted : Mm
  counted = record (taken i s) {
    mem_map = update (update s.mem_map i 1) nr ((s.mem_map nr + 255) % 256);
  }

  abbrev separated : Mm
  separated = record (copy counted) { mem = update (copy counted).mem a (bit_or 32 new 7) }

  distinct : i ≢ nr
  distinct e =
      let z = (get_free_page-last_free 15615 s free high).2 in
      omega (arith, subst (λ k. s.mem_map k ≡ 0) e z)

  un_wp_page-runs : un_wp_page a s ≡ ok tt separated
  unfolding un_wp_page copy_page
  un_wp_page-runs =
      let got = (get_free_page-last_free 15615 s free high).0 in
      let many : (s.mem_map nr == 1) ≡ false = ground arith in
      let there : (i * 4096 + low_mem == 0) ≡ false = ground arith in
      let other : (i == nr) ≡ false = ne→==_false i nr distinct in
      rw (le→leb _ _ low, many) (rw got (rw (there, other)))

  apart_pages : (o : ℕ) → o < 4096 → in_page new (old_page s a + o) ≡ false
  unfolding map_nr
  apart_pages o h = elim (Bool-cases (in_page new (old_page s a + o))) [
    | inr out ↦ out
    | inl inside ↦
        let from =
          leb→le new (old_page s a + o) (and-left _ (ltb (old_page s a + o) (new + 4096)) inside) in
        let to =
          ltb→lt (old_page s a + o) (new + 4096)
            (and-right (leb new (old_page s a + o)) _ inside) in
        absurd (distinct (omega arith))
  ]

  separated-Separated : Separated s a i separated
  separated-Separated = record {
    entry = ground arith;
    copied = λ o h ne. ground (arith, apart_pages o h);
    elsewhere = λ x ne out. ground arith;
    one_less = ground (arith, distinct);
    one_user = ground (arith, distinct);
    other_counts = λ j ni nn. ground arith;
    same_limit = refl;
    same_bitmap = refl;
    same_device = λ n o. refl;
    same_place = (refl, refl);
  }

  -- For an entry whose page lies at or above `LOW_MEM` and has from 2 to 255 users, if the last
  -- free page of `mem_map` lies below `HIGH_MEMORY` and does not hold the entry, `un_wp_page`
  -- returns normally: the entry gets that page, writable and with the contents of the old one, the
  -- old page has one user less, and all other memory and counts, the limit of memory, and the map
  -- and device of the swap are as before.
  pub un_wp_page-Separated : (s' : Mm) × (un_wp_page a s ≡ ok tt s') × Separated s a i s'
  un_wp_page-Separated = (separated, un_wp_page-runs, separated-Separated)
